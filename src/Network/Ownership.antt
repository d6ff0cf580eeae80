-- ===== src/Network/Ownership.antt =====
-- Who holds each overlapped record: the pool, the system, or nobody any more.
use iocp_j_server.Base.{
  update, ℕ, ◌+◌, ◌≤◌, ◌≡◌, ap, subst, ◌∙◌, arith, Bool, true, false, none, some, List, [], ◌∷◌,
  length, ◌==◌, Bool-cases, Option-cases, ==_iff, ◌-◌, length-append, ◌⊎◌, inl, inr, null_pointer,
  ok, fault,
}
use iocp_j_server.CircleQueue
use iocp_j_server.CircleQueue.{Queue, print, size}
use iocp_j_server.CircleQueue.Inv.{push-IsValid, pop-IsValid, max-push, max-pop}
use iocp_j_server.CircleQueue.Steps.{print-push_room, length-print}
use iocp_j_server.CircleQueue.Fifo
use iocp_j_server.Overlapped.{Overlapped, SystemMembers}
use iocp_j_server.Overlapped.Clean.{IsClearable, blank, clear-IsClearable, blank-IsClearable}
use iocp_j_server.Network.{NetworkManager, pointers, take_overlapped, hand_over}
use iocp_j_server.Network.Completions.{dequeue, give_back}
unfoldable pub use iocp_j_server.Network.Places.{count, accepts}
pub use iocp_j_server.Network.Places.{
  count-append, count-remove, length-remove, accept_operation, is_accept, accepts-update,
  accepts-remove, update_self, one_each, GoodCell, pool, Owns, List-cases, one_each-le, popped,
  left_over,
}

module _ {n k : ℕ} where
  -- The record at an address that stands somewhere.
  pub cell :
      {extra : List ℕ} {w : NetworkManager} (p : ℕ)
      → Owns n k extra w
      → one_each n p ≡ 1
      → (o : Overlapped) × (w.heap p ≡ some o) × IsClearable o
  cell {w} p owns here = elim (Option-cases (w.heap p)) [
    | inl e ↦
        let c : GoodCell n p none = subst (GoodCell n p) e (owns.cells p) in absurd (omega arith)
    | inr (o, e) ↦
        let c : GoodCell n p (some o) = subst (GoodCell n p) e (owns.cells p) in (o, e, c.1)
  ]

  pub in_hand :
      {extra : List ℕ} {w : NetworkManager} (p : ℕ) → Owns n k (p ∷ extra) w → one_each n p ≡ 1
  unfolding count
  in_hand {extra} p owns = ground (arith, owns.counts p, one_each-le n p)

  pub update-GoodCell :
      {extra : List ℕ} {w : NetworkManager} (p : ℕ) (o : Overlapped)
      → IsClearable o
      → Owns n k (p ∷ extra) w
      → (a : ℕ) → GoodCell n a (update w.heap p (some o) a)
  update-GoodCell {w} p o clean owns a = elim (Bool-cases (p == a)) [
    | inl same ↦
        rw same (subst (λ b. one_each n b ≡ 1) ((==_iff p a).0 same) (in_hand p owns), clean)
    | inr other ↦ rw other (owns.cells a)
  ]

  heap-null : {extra : List ℕ} {w : NetworkManager} → Owns n k extra w → w.heap 0 ≡ none
  heap-null {w} owns = elim (Option-cases (w.heap 0)) [
    | inl e ↦ e
    | inr (o, e) ↦
        let c : GoodCell n 0 (some o) = subst (GoodCell n 0) e (owns.cells 0) in
        absurd (omega arith)
  ]

  pub take_overlapped-empty :
      {extra : List ℕ} {w : NetworkManager}
      → Owns n k extra w
      → pool w ≡ []
      → take_overlapped w ≡ fault null_pointer
  unfolding take_overlapped Fifo.take_first
  take_overlapped-empty owns e = rw (popped [] owns.valid e, heap-null owns)

  -- The pool gives a blank record, or its null pointer is followed.
  pub take_overlapped-Owns :
      {extra : List ℕ} {w : NetworkManager}
      → Owns n k extra w
      → ((pool w ≡ []) × (take_overlapped w ≡ fault null_pointer))
        ⊎ ((p : ℕ) × (m : SystemMembers) × (take_overlapped w
              ≡ ok (
                (p, blank m),
                record w { overlapped_queue = (CircleQueue.pop pointers w.overlapped_queue).1 },
              ))
            × Owns n k
                (p ∷ extra)
                (record w { overlapped_queue = (CircleQueue.pop pointers w.overlapped_queue).1 }))
  unfolding take_overlapped Fifo.take_first count
  take_overlapped-Owns {extra} {w} owns = elim (List-cases (pool w)) [
    | inl e ↦ inl (e, take_overlapped-empty owns e)
    | inr (p, ps, e) ↦
        let rest = left_over (p ∷ ps) owns.valid e in
        let here : one_each n p ≡ 1 =
          ground (arith, owns.counts p, ap (count p) e, one_each-le n p) in
        let (o, held, clean) = cell p owns here in
        inr (
          p,
          o.members,
          rw (popped (p ∷ ps) owns.valid e, held, clear-IsClearable clean),
          record {
            valid = pop-IsValid pointers owns.valid;
            max = max-pop pointers w.overlapped_queue ∙ owns.max;
            total = omega (arith, owns.total, ap length e, ap length rest);
            counts = λ a. omega (arith, owns.counts a, ap (count a) e, ap (count a) rest);
            cells = owns.cells;
            accepting = owns.accepting;
          },
        )
  ]

  pub not_posted :
      {extra : List ℕ} {w : NetworkManager} (p : ℕ) → Owns n k (p ∷ extra) w → count p w.posted ≡ 0
  unfolding count
  not_posted p owns = ground (arith, owns.counts p, one_each-le n p)

  -- Two records in hand are not the same.
  pub apart :
      {extra : List ℕ} {w : NetworkManager} (p q : ℕ)
      → Owns n k (q ∷ p ∷ extra) w
      → (p == q) ≡ false
  unfolding count
  apart p q owns = ground (arith, owns.counts q, one_each-le n q)

  -- Where the running operation writes the record in its hands.
  pub write-Owns :
      {extra : List ℕ} {w : NetworkManager} (p : ℕ) (o : Overlapped)
      → IsClearable o
      → Owns n k (p ∷ extra) w
      → Owns n k (p ∷ extra) (record w { heap = update w.heap p (some o) })
  write-Owns {w} p o clean owns = record {
    valid = owns.valid;
    max = owns.max;
    total = owns.total;
    counts = owns.counts;
    cells = update-GoodCell p o clean owns;
    accepting =
        omega
          (arith, owns.accepting, accepts-update w.heap p (some o) w.posted (not_posted p owns));
  }

  -- What is handed over is with the system, or refused.
  pub hand_over-Owns :
      {extra : List ℕ} {w : NetworkManager} (k' p : ℕ) (o : Overlapped) (taken : Bool)
      → k + accept_operation o.operation ≤ k'
      → IsClearable o
      → Owns n k (p ∷ extra) w
      → Owns n k' extra (hand_over p o taken w)
  unfolding hand_over count accepts
  hand_over-Owns {extra} {w} k' p o true more clean owns =
      let written = write-Owns p o clean owns in
      record {
        valid = owns.valid;
        max = owns.max;
        total = omega (arith, owns.total);
        counts = λ a. omega (arith, owns.counts a);
        cells = written.cells;
        accepting = omega (arith, written.accepting, ap is_accept (update_self w.heap p (some o)));
      }
  hand_over-Owns {extra} {w} k' p o false more clean owns =
      let written = write-Owns p o clean owns in
      record {
        valid = owns.valid;
        max = owns.max;
        total = omega (arith, owns.total);
        counts = λ a. omega (arith, owns.counts a);
        cells = written.cells;
        accepting = omega (arith, written.accepting);
      }

  -- The system gives back a record that it holds.
  pub dequeue-Owns :
      {w : NetworkManager} (p : ℕ)
      → 1 ≤ count p w.posted
      → Owns n k [] w
      → Owns n (k - is_accept (w.heap p)) (p ∷ []) (dequeue p w)
  unfolding dequeue count
  dequeue-Owns {w} p held owns = record {
    valid = owns.valid;
    max = owns.max;
    total = omega (arith, owns.total, length-remove p w.posted held);
    counts = λ a. omega (arith, owns.counts a, count-remove a p w.posted held);
    cells = owns.cells;
    accepting = omega (arith, owns.accepting, accepts-remove w.heap p w.posted held);
  }

  pub give_back-blank :
      {extra : List ℕ} {w : NetworkManager} (p : ℕ)
      → Owns n k (p ∷ extra) w
      → (m : SystemMembers) × (give_back p w
          ≡ ok (record w {
            heap = update w.heap p (some (blank m));
            overlapped_queue = (CircleQueue.push p w.overlapped_queue).1;
          }))
  unfolding give_back
  give_back-blank p owns =
      let (o, held, clean) = cell p owns (in_hand p owns) in
      (o.members, rw (held, clear-IsClearable clean))

  -- The pool has room for a record that is in hand, and takes it back blank.
  pub give_back-Owns :
      {w : NetworkManager} (p : ℕ)
      → Owns n k (p ∷ []) w
      → (w' : NetworkManager) × (give_back p w ≡ ok w') × Owns n k [] w'
  unfolding count
  give_back-Owns {w} p owns =
      let room : (size w.overlapped_queue + 1 == w.overlapped_queue.queue_max_size) ≡ false =
        ground (arith, owns.total, owns.max, length-print pointers w.overlapped_queue) in
      let more = print-push_room pointers p owns.valid room in
      let (m, gives) = give_back-blank p owns in
      let w' = record w {
        heap = update w.heap p (some (blank m));
        overlapped_queue = (CircleQueue.push p w.overlapped_queue).1;
      } in
      (
        w',
        gives,
        record {
          valid = push-IsValid p owns.valid;
          max = max-push p w.overlapped_queue ∙ owns.max;
          total = omega (arith, owns.total, ap length more, length-append (pool w) (p ∷ []));
          counts = λ a.
              omega (arith, owns.counts a, ap (count a) more, count-append a (pool w) (p ∷ []));
          cells = (write-Owns p (blank m) blank-IsClearable owns).cells;
          accepting = (write-Owns p (blank m) blank-IsClearable owns).accepting;
        },
      )
