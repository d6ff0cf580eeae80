-- ===== src/CircleQueue/Threads/Places.antt =====
-- What one store of `push` or `pop` does to the elements that a valid queue holds.
use native.Mathlib.Nat.{add-zero, zero-add, mod-eq_of_lt}
use mathlib.Core.List.{tail}
use iocp_j_server.Base.{
  append-nil, ℕ, suc, ◌+◌, ◌%◌, ◌<◌, ◌≡◌, ◌≢◌, refl, sym, ap, ap₂, ◌∙◌, arith, List, [], ◌∷◌, ◌++◌,
  length, length-set, get_or, get_or-set_ne,
}
use iocp_j_server.CircleQueue.{Queue, Slot, size, print_from, print}
use iocp_j_server.CircleQueue.Inv.{IsValid, mod_wrap, size-lt, input-eq}
use iocp_j_server.CircleQueue.Steps.{
  length-print_from, print_from-ext, print_from-snoc, place-ne, one_on,
}
use iocp_j_server.CircleQueue.Threads.{write_slot, publish, release}

module _ {ℓ} {T : Type ℓ} where
  pub write_slot-IsValid : (x : T) (at : ℕ) {q : Queue T} → IsValid q → IsValid (write_slot x at q)
  unfolding write_slot
  write_slot-IsValid x at {q} v = ground (arith, length-set q.buffer at x)

  pub publish-IsValid : {q : Queue T} → IsValid q → IsValid (publish q.input_index q)
  unfolding publish
  publish-IsValid v = ground arith

  pub release-IsValid : {q : Queue T} → IsValid q → IsValid (release q.output_index q)
  unfolding release
  release-IsValid v = ground arith

  pub size-publish :
      {q : Queue T}
      → IsValid q
      → size q + 1 < q.queue_max_size
      → size (publish q.input_index q) ≡ suc (size q)
  unfolding size publish
  size-publish {q} v h = ground (arith, mod_wrap q.input_index 1 q.queue_max_size)

  pub size-release :
      {q : Queue T} → IsValid q → 0 < size q → suc (size (release q.output_index q)) ≡ size q
  unfolding size release
  size-release {q} v h = ground (arith, mod_wrap q.output_index 1 q.queue_max_size)

  pub size-write_slot : (x : T) (at : ℕ) (q : Queue T) → size (write_slot x at q) ≡ size q
  unfolding size write_slot
  size-write_slot x at q = refl

  -- The tests of `push` and `pop`, as facts about the size.
  pub room_of_test :
      {q : Queue T}
      → IsValid q
      → (q.input_index + 1) % q.queue_max_size ≢ q.output_index
      → size q + 1 < q.queue_max_size
  unfolding size
  room_of_test {q} v h = ground (arith, mod_wrap q.input_index 1 q.queue_max_size)

  pub some_of_test : {q : Queue T} → IsValid q → q.output_index ≢ q.input_index → 0 < size q
  unfolding size
  some_of_test {q} v h = ground arith

  -- A queue that holds something starts at another place than where it ends.
  pub output-ne-input : {q : Queue T} → IsValid q → 0 < size q → q.output_index ≢ q.input_index
  unfolding size
  output-ne-input {q} v h = ground arith

module _ {ℓ} {T : Type ℓ} (t : Slot T) where
  -- A store past the end leaves the elements alone.
  pub print-write_end :
      (x : T) {q : Queue T} → IsValid q → print t (write_slot x q.input_index q) ≡ print t q
  unfolding print write_slot size
  print-write_end x {q} v = print_from-ext t (write_slot x q.input_index q) q 0 0 (size q) λ k h.
      rw zero-add (
        get_or-set_ne q.buffer x t.blank λ e.
          place-ne q.output_index k (size q) q.queue_max_size v.output_in h (size-lt v)
            (sym e ∙ sym (input-eq v)))

  -- The store of the input index adds the slot behind the others.
  pub print-publish :
      {q : Queue T}
      → IsValid q
      → size q + 1 < q.queue_max_size
      → print t (publish q.input_index q) ≡ print t q ++ get_or q.buffer q.input_index t.blank ∷ []
  unfolding print publish
  print-publish {q} v h =
      rw (size-publish v h, print_from-snoc)
        (ap₂ (λ l y. l ++ y ∷ [])
          (print_from-ext t (publish q.input_index q) q 0 0 (size q) λ k b. refl)
          (rw (zero-add, input-eq v)))

  -- The elements from the second on.
  unfoldable pub print_rest : Queue T → List T
  print_rest q = print_from t q 1 (size (release q.output_index q))

  pub print-cons_rest :
      {q : Queue T}
      → IsValid q
      → 0 < size q
      → print t q ≡ get_or q.buffer q.output_index t.blank ∷ print_rest q
  unfolding print print_from print_rest
  print-cons_rest {q} v h =
      rw (← size-release v h) (ap₂ ◌∷◌ (rw (add-zero, mod-eq_of_lt v.output_in)) refl)

  pub print_rest-write_first :
      (x : T) {q : Queue T}
      → IsValid q
      → 0 < size q
      → print_rest (write_slot x q.output_index q) ≡ print_rest q
  unfolding print_rest write_slot size release
  print_rest-write_first x {q} v h =
      print_from-ext t (write_slot x q.output_index q) q 1 1 (size (release q.output_index q))
        λ k b. get_or-set_ne q.buffer x t.blank λ e.
          place-ne q.output_index 0 (1 + k) q.queue_max_size v.output_in (omega arith)
            (omega (arith, size-lt v, size-release v h))
            (rw add-zero (mod-eq_of_lt v.output_in ∙ e))

  -- The store of the output index takes the first element off.
  pub print-release :
      {q : Queue T} → IsValid q → 0 < size q → print t (release q.output_index q) ≡ print_rest q
  unfolding print print_rest release
  print-release {q} v h =
      print_from-ext t (release q.output_index q) q 0 1 (size (release q.output_index q))
        λ k b. rw (zero-add, one_on q.output_index k q.queue_max_size)

  pub length-print_rest :
      {q : Queue T} → IsValid q → 0 < size q → suc (length (print_rest q)) ≡ size q
  unfolding print_rest
  length-print_rest {q} v h =
      ap suc (length-print_from t q 1 (size (release q.output_index q))) ∙ size-release v h

  print_rest-eq :
      {p q : Queue T} (ys : List T)
      → IsValid p
      → IsValid q
      → 0 < size p
      → 0 < size q
      → print t p ≡ print t q ++ ys
      → print_rest p ≡ print_rest q ++ ys
  print_rest-eq ys vp vq hp hq e =
      ap tail (sym (print-cons_rest vp hp) ∙ e ∙ ap (λ l. l ++ ys) (print-cons_rest vq hq))

  pub print_rest-write_end :
      (x : T) {q : Queue T}
      → IsValid q
      → 0 < size q
      → print_rest (write_slot x q.input_index q) ≡ print_rest q
  print_rest-write_end x {q} v h =
      print_rest-eq [] (write_slot-IsValid x q.input_index v) v (rw size-write_slot h) h
        (print-write_end x v ∙ sym (append-nil (print t q)))
      ∙ append-nil (print_rest q)

  pub print_rest-publish :
      {q : Queue T}
      → IsValid q
      → 0 < size q
      → size q + 1 < q.queue_max_size
      → print_rest (publish q.input_index q)
        ≡ print_rest q ++ get_or q.buffer q.input_index t.blank ∷ []
  print_rest-publish v h room =
      print_rest-eq _ (publish-IsValid v) v (omega (arith, size-publish v room)) h
        (print-publish v room)
