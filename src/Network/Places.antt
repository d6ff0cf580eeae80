-- ===== src/Network/Places.antt =====
-- The places of an overlapped record: how often it stands in each, and what holds of it there.
use iocp_j_server.Base.{
  update, ℕ, suc, ◌+◌, ◌≤◌, ◌≡◌, refl, ap, ◌∙◌, arith, Option, none, some, List, [], ◌∷◌, ◌++◌,
  length, ◌==◌, leb, if◌then◌else◌, Bool-cases, ==_iff, ==_refl, ◌⊎◌, inl, inr,
}
use iocp_j_server.CircleQueue
use iocp_j_server.CircleQueue.{Queue, print, size}
use iocp_j_server.CircleQueue.Inv.{IsValid}
use iocp_j_server.CircleQueue.Fifo
use iocp_j_server.CircleQueue.Refine.{pop_refines}
use iocp_j_server.Wire.{OperationType, op_default, op_connect, op_accept, op_recv, op_send}
use iocp_j_server.Overlapped.{Overlapped}
use iocp_j_server.Overlapped.Clean.{IsClearable}
use iocp_j_server.Network.{NetworkManager, pointers, remove}

-- How often an address stands in a list.
unfoldable pub count : ℕ → List ℕ → ℕ
count a [] = 0
count a (p ∷ ps) = (if a == p then 1 else 0) + count a ps

pub count-append : (a : ℕ) (ps qs : List ℕ) → count a (ps ++ qs) ≡ count a ps + count a qs
unfolding count
count-append a [] qs = omega arith
count-append a (p ∷ ps) qs = omega (arith, count-append a ps qs)

pub count-remove :
    (a p : ℕ) (ps : List ℕ)
    → 1 ≤ count p ps
    → count a ps ≡ (if a == p then 1 else 0) + count a (remove p ps)
unfolding count remove
count-remove a p [] h = absurd (omega arith)
count-remove a p (q ∷ qs) h = elim (Bool-cases (p == q)) [
  | inl same ↦ ground arith
  | inr other ↦ ground (arith, count-remove a p qs)
]

pub length-remove : (p : ℕ) (ps : List ℕ) → 1 ≤ count p ps → length ps ≡ suc (length (remove p ps))
unfolding count remove
length-remove p [] h = absurd (omega arith)
length-remove p (q ∷ qs) h = ground (arith, length-remove p qs)

-- Whether the record of an address is that of an accept, and how many of a list's are.
abbrev pub accept_operation : OperationType → ℕ
accept_operation op_accept = 1
accept_operation op_connect = 0
accept_operation op_recv = 0
accept_operation op_send = 0
accept_operation op_default = 0

abbrev pub is_accept : Option Overlapped → ℕ
is_accept none = 0
is_accept (some o) = accept_operation o.operation

unfoldable pub accepts : (ℕ → Option Overlapped) → List ℕ → ℕ
accepts heap [] = 0
accepts heap (p ∷ ps) = is_accept (heap p) + accepts heap ps

pub accepts-update :
    (heap : ℕ → Option Overlapped) (p : ℕ) (o : Option Overlapped) (ps : List ℕ)
    → count p ps ≡ 0
    → accepts (update heap p o) ps ≡ accepts heap ps
unfolding accepts count
accepts-update heap p o [] h = refl
accepts-update heap p o (q ∷ qs) h = elim (Bool-cases (p == q)) [
  | inl same ↦ absurd (ground arith)
  | inr other ↦
      rw other (ap (λ m. is_accept (heap q) + m) (accepts-update heap p o qs (ground arith)))
]

pub accepts-remove :
    (heap : ℕ → Option Overlapped) (p : ℕ) (ps : List ℕ)
    → 1 ≤ count p ps
    → accepts heap ps ≡ is_accept (heap p) + accepts heap (remove p ps)
unfolding accepts count remove
accepts-remove heap p [] h = absurd (omega arith)
accepts-remove heap p (q ∷ qs) h = elim (Bool-cases (p == q)) [
  | inl same ↦ rw (same, (==_iff p q).0 same)
  | inr other ↦ rw other (omega (arith, accepts-remove heap p qs (ground arith)))
]

pub update_self {ℓ} : {A : Type ℓ} (f : ℕ → A) (p : ℕ) (a : A) → update f p a p ≡ a
update_self f p a = rw (==_refl p)

-- One for each of the addresses 1 to `n`.
abbrev pub one_each : ℕ → ℕ → ℕ
one_each n a = if a == 0 then 0 else if leb a n then 1 else 0

-- What lies at an address: a record that the next `Clear` blanks, just at 1 to `n`.
abbrev pub GoodCell : ℕ → ℕ → Option Overlapped → Type 0
GoodCell n a none = one_each n a ≡ 0
GoodCell n a (some o) = (one_each n a ≡ 1) × IsClearable o

abbrev pub pool : NetworkManager → List ℕ
pool w = print pointers w.overlapped_queue

-- Each of the `n` records is in exactly one place: in the pool, with the system, refused by it, or
-- in the hands of the running operation, `extra`; and at most `k` accepts are pending.
pub record Owns (n k : ℕ) (extra : List ℕ) (w : NetworkManager) : Type 0 where
  pub valid : IsValid w.overlapped_queue
  pub max : w.overlapped_queue.queue_max_size ≡ n + 1
  pub total : length (pool w) + length w.posted + length w.dropped + length extra ≡ n
  pub counts :
      (a : ℕ)
      → count a (pool w) + count a w.posted + count a w.dropped + count a extra ≡ one_each n a
  pub cells : (a : ℕ) → GoodCell n a (w.heap a)
  pub accepting : accepts w.heap w.posted ≤ k

pub List-cases {ℓ} : {A : Type ℓ} (l : List A) → (l ≡ []) ⊎ ((x : A) × (xs : List A) × (l ≡ x ∷ xs))
List-cases [] = inl refl
List-cases (x ∷ xs) = inr (x, xs, refl)

pub one_each-le : (n a : ℕ) → one_each n a ≤ 1
one_each-le n a = ground arith

-- What `pop` gives, and what it leaves.
pub popped :
    {q : Queue ℕ} (ps : List ℕ)
    → IsValid q
    → print pointers q ≡ ps
    → (CircleQueue.pop pointers q).0 ≡ (Fifo.take_first 0 ps).0
popped ps v e = ap (λ r. r.0) (pop_refines pointers v ∙ ap (Fifo.take_first 0) e)

pub left_over :
    {q : Queue ℕ} (ps : List ℕ)
    → IsValid q
    → print pointers q ≡ ps
    → print pointers (CircleQueue.pop pointers q).1 ≡ (Fifo.take_first 0 ps).1
left_over ps v e = ap (λ r. r.1) (pop_refines pointers v ∙ ap (Fifo.take_first 0) e)
