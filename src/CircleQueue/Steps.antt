-- ===== src/CircleQueue/Steps.antt =====
-- What `push` and `pop` do to the places of a valid circle queue, on each branch.
use native.Mathlib.Nat.{add-zero, add_assoc, mod-add-mod, mod-eq_of_lt}
use native.Mathlib.Nat.{zero-add}
use native.Mathlib.Numerals.{add-one}
use iocp_j_server.Base.{
  ℕ, zero, suc, ◌+◌, ◌%◌, ◌<◌, ◌≡◌, ◌≢◌, refl, sym, ap, ap₂, ◌∙◌, arith, [], ◌∷◌, ◌++◌, length, set,
  get_or-set_self, get_or-set_ne, true, false, ◌==◌, ==_iff,
}
use iocp_j_server.CircleQueue.{
  Queue, Slot, push, pop, clear, size, print_from, print, slot_at, front,
}
use iocp_j_server.CircleQueue.Inv.{IsValid, mod_wrap, size-lt, input-eq}

module _ {ℓ} {T : Type ℓ} where
  -- The test of `push` finds out whether one slot is free.
  push_test :
      {q : Queue T}
      → IsValid q
      → ((q.input_index + 1) % q.queue_max_size == q.output_index)
        ≡ (size q + 1 == q.queue_max_size)
  unfolding size
  push_test {q} v = ground (arith, mod_wrap q.input_index 1 q.queue_max_size)

  pub push-full :
      (x : T) {q : Queue T}
      → IsValid q
      → (size q + 1 == q.queue_max_size) ≡ true
      → push x q ≡ (false, q)
  unfolding push
  push-full x v h = rw (push_test v, h)

  pub push-room :
      (x : T) {q : Queue T}
      → IsValid q
      → (size q + 1 == q.queue_max_size) ≡ false
      → push x q ≡ (
        true,
        record q {
          buffer = set q.buffer q.input_index x;
          input_index = (q.input_index + 1) % q.queue_max_size;
        },
      )
  unfolding push
  push-room x v h = rw (push_test v, h)

  pub size-push :
      (x : T) {q : Queue T}
      → IsValid q
      → (size q + 1 == q.queue_max_size) ≡ false
      → size (push x q).1 ≡ size q + 1
  unfolding push size
  size-push x {q} v h = ground (arith, mod_wrap q.input_index 1 q.queue_max_size)

  pub empty_test : {q : Queue T} → IsValid q → (q.output_index == q.input_index) ≡ (size q == 0)
  unfolding size
  empty_test v = ground arith

  pub size-clear : (q : Queue T) → size (clear q) ≡ 0
  unfolding clear size
  size-clear q = ground arith

one-add : (k : ℕ) → 1 + k ≡ suc k
one-add k = omega arith

module _ {ℓ} {T : Type ℓ} (t : Slot T) where
  pub length-print_from : (q : Queue T) (i n : ℕ) → length (print_from t q i n) ≡ n
  unfolding print_from
  length-print_from q i zero = refl
  length-print_from q i (suc n) = ap suc (length-print_from q (i + 1) n)

  pub length-print : (q : Queue T) → length (print t q) ≡ size q
  unfolding print
  length-print q = length-print_from q 0 (size q)

  -- Queues that read alike write alike.
  pub print_from-ext :
      (p q : Queue T) (i j n : ℕ)
      → ((k : ℕ) → k < n → slot_at t p (i + k) ≡ slot_at t q (j + k))
      → print_from t p i n ≡ print_from t q j n
  unfolding print_from
  print_from-ext p q i j zero h = refl
  print_from-ext p q i j (suc n) h = ap₂ ◌∷◌ (rw (add-zero, add-zero) at (h 0 (omega arith))) (
      print_from-ext p q (i + 1) (j + 1) n
        λ k b. rw (add_assoc, add_assoc, one-add) (h (suc k) (omega arith)))

  pub print_from-snoc :
      (q : Queue T) (i n : ℕ)
      → print_from t q i (suc n) ≡ print_from t q i n ++ slot_at t q (i + n) ∷ []
  unfolding print_from
  print_from-snoc q i zero = rw add-zero
  print_from-snoc q i (suc n) =
      ap (λ l. slot_at t q i ∷ l) (rw (print_from-snoc q (i + 1) n, add_assoc, one-add))

-- Places fewer than `m` steps from `o` are told apart.
pub place-ne : (o k n m : ℕ) → o < m → k < n → n < m → (o + k) % m ≢ (o + n) % m
place-ne o k n m ho hk hn = grind (arith, mod_wrap o k m, mod_wrap o n m)

pub one_on : (o k m : ℕ) → ((o + 1) % m + k) % m ≡ (o + (1 + k)) % m
one_on o k m = rw mod-add-mod (ap (λ i. i % m) (omega arith))

module _ {ℓ} {T : Type ℓ} (t : Slot T) where
  slot_at-push_old :
      (x : T) {q : Queue T} (k : ℕ)
      → IsValid q
      → (size q + 1 == q.queue_max_size) ≡ false
      → k < size q
      → slot_at t (push x q).1 k ≡ slot_at t q k
  slot_at-push_old x {q} k v room h = rw (push-room x v room) (
      get_or-set_ne q.buffer x t.blank λ e.
        place-ne q.output_index k (size q) q.queue_max_size v.output_in h (size-lt v)
          (sym e ∙ sym (input-eq v)))

  slot_at-push_new :
      (x : T) {q : Queue T}
      → IsValid q
      → (size q + 1 == q.queue_max_size) ≡ false
      → slot_at t (push x q).1 (size q) ≡ x
  slot_at-push_new x {q} v room =
      rw (push-room x v room, input-eq v)
        (get_or-set_self q.buffer q.input_index x t.blank (omega (arith, v.slots)))

  pub print-push_room :
      (x : T) {q : Queue T}
      → IsValid q
      → (size q + 1 == q.queue_max_size) ≡ false
      → print t (push x q).1 ≡ print t q ++ x ∷ []
  unfolding print
  print-push_room x {q} v room =
      rw (size-push x v room, add-one, print_from-snoc, zero-add)
        (ap₂ (λ l y. l ++ y ∷ [])
          (print_from-ext t (push x q).1 q 0 0 (size q)
            λ k h. rw (zero-add) (slot_at-push_old x k v room h))
          (slot_at-push_new x v room))

module _ {ℓ} {T : Type ℓ} (t : Slot T) where
  pub pop-empty : {q : Queue T} → IsValid q → (size q == 0) ≡ true → pop t q ≡ (t.blank, q)
  unfolding pop
  pop-empty v h = rw (empty_test v, h)

  pub pop-some :
      {q : Queue T}
      → IsValid q
      → (size q == 0) ≡ false
      → pop t q ≡ (
        front t q,
        record q {
          buffer = set q.buffer q.output_index (t.moved (front t q));
          output_index = (q.output_index + 1) % q.queue_max_size;
        },
      )
  unfolding pop front
  pop-some v h = rw (empty_test v, h)

  pub size-pop : {q : Queue T} → IsValid q → (size q == 0) ≡ false → suc (size (pop t q).1) ≡ size q
  unfolding size
  size-pop {q} v h = rw (pop-some v h) (ground (arith, mod_wrap q.output_index 1 q.queue_max_size))

  slot_at-pop :
      {q : Queue T} (k : ℕ)
      → IsValid q
      → (size q == 0) ≡ false
      → suc k < size q
      → slot_at t (pop t q).1 k ≡ slot_at t q (1 + k)
  slot_at-pop {q} k v some_left h =
      rw (pop-some v some_left, one_on q.output_index k q.queue_max_size)
        (get_or-set_ne q.buffer (t.moved (front t q)) t.blank λ e.
          place-ne q.output_index 0 (1 + k) q.queue_max_size v.output_in (omega arith)
            (omega (arith, size-lt v)) (rw add-zero (mod-eq_of_lt v.output_in ∙ e)))

  pub print-cons :
      {q : Queue T}
      → IsValid q
      → (size q == 0) ≡ false
      → print t q ≡ front t q ∷ print t (pop t q).1
  unfolding print print_from front
  print-cons {q} v some_left = rw (← size-pop v some_left) (
      ap₂ ◌∷◌ (rw (add-zero, mod-eq_of_lt v.output_in)) (
        print_from-ext t q (pop t q).1 (0 + 1) 0 (size (pop t q).1) λ k h.
          sym (rw zero-add (slot_at-pop k v some_left (omega (arith, size-pop v some_left))))))

  pub print-nil : (q : Queue T) → (size q == 0) ≡ true → print t q ≡ []
  unfolding print print_from
  print-nil q h = rw ((==_iff (size q) 0).0 h)
