-- ===== src/CircleQueue/Inv.antt =====
-- The representation invariant of a circle queue, and where its indices point.
use native.Mathlib.Nat.{mod-eq_of_lt, mod-eq-sub-mod}
use iocp_j_server.Base.{
  ℕ, ◌+◌, ◌-◌, ◌%◌, ◌≤◌, ◌<◌, ◌≡◌, refl, ltb, arith, length, length-set, get_or, length-replicate,
  if◌then◌else◌, dec_lt,
}
use iocp_j_server.CircleQueue.{Queue, Slot, construct, push, pop, clear, size}

pub record IsValid {ℓ} {T : Type ℓ} (q : Queue T) : Type 0 where
  pub slots : length q.buffer ≡ q.queue_max_size
  pub input_in : q.input_index < q.queue_max_size
  pub output_in : q.output_index < q.queue_max_size

-- An index that has gone round at most once.
pub mod_wrap :
    (o k m : ℕ) → o < m → k ≤ m → (o + k) % m ≡ (if ltb (o + k) m then o + k else o + k - m)
mod_wrap o k m ho hk = elim (dec_lt (o + k) m) [
  | yes p ↦ ground (arith, mod-eq_of_lt p)
  | no p ↦ ground (
    arith,
    mod-eq-sub-mod {n = o + k} {m = m} (omega arith),
    mod-eq_of_lt {n = o + k - m} {m = m} (omega arith),
  )
]

module _ {ℓ} {T : Type ℓ} where
  -- One slot stays free.
  pub size-lt : {q : Queue T} → IsValid q → size q < q.queue_max_size
  unfolding size
  size-lt v = ground arith

  -- The next element goes `size` places after the oldest.
  pub input-eq :
      {q : Queue T} → IsValid q → (q.output_index + size q) % q.queue_max_size ≡ q.input_index
  unfolding size
  input-eq {q} v = ground (arith, mod_wrap q.output_index (size q) q.queue_max_size, size-lt v)

  pub push-IsValid : (x : T) {q : Queue T} → IsValid q → IsValid (push x q).1
  unfolding push
  push-IsValid x {q} v = ground (arith, length-set q.buffer q.input_index x)

  pub clear-IsValid : {q : Queue T} → IsValid q → IsValid (clear q)
  unfolding clear
  clear-IsValid v = ground arith

  pub max-push : (x : T) (q : Queue T) → (push x q).1.queue_max_size ≡ q.queue_max_size
  unfolding push
  max-push x q = ground arith

  pub max-clear : (q : Queue T) → (clear q).queue_max_size ≡ q.queue_max_size
  unfolding clear
  max-clear q = refl

module _ {ℓ} {T : Type ℓ} (t : Slot T) where
  pub max-construct : (n : ℕ) → (construct t n).queue_max_size ≡ n + 1
  unfolding construct
  max-construct n = refl

  pub size-construct : (n : ℕ) → size (construct t n) ≡ 0
  unfolding construct size
  size-construct n = refl

  pub construct-IsValid : (n : ℕ) → IsValid (construct t n)
  unfolding construct
  construct-IsValid n = ground (arith, length-replicate (n + 1) t.blank)

  pub pop-IsValid : {q : Queue T} → IsValid q → IsValid (pop t q).1
  unfolding pop
  pop-IsValid {q} v =
      ground (
        arith,
        length-set q.buffer q.output_index (t.moved (get_or q.buffer q.output_index t.blank)),
      )

  pub max-pop : (q : Queue T) → (pop t q).1.queue_max_size ≡ q.queue_max_size
  unfolding pop
  max-pop q = ground arith
