-- ===== src/CircleQueue/Threads/Fits.antt =====
-- What the locals of one producing and one consuming thread say of the queue, and that the other
-- thread's accesses keep it so.
use iocp_j_server.Base.{
  ℕ, ◌+◌, ◌<◌, ◌≡◌, refl, ap, ◌∙◌, arith, List, [], ◌∷◌, ◌++◌, length, get_or, get_or-set_ne,
}
use iocp_j_server.CircleQueue.{Queue, Slot, size, print}
use iocp_j_server.CircleQueue.Inv.{IsValid}
use iocp_j_server.CircleQueue.Steps.{length-print}
use iocp_j_server.CircleQueue.Threads.{Producer, Consumer, write_slot, publish, release, begin_push}
use iocp_j_server.CircleQueue.Threads.Places.{
  size-publish, size-release, size-write_slot, output-ne-input, print-write_end, print-publish,
  print_rest, length-print_rest, print_rest-write_end, print_rest-publish,
}

module _ {T : Type 0} (t : Slot T) where
  -- What a producer's locals say of the queue.
  abbrev pub ProducerFits : Producer T → Queue T → Type 0
  ProducerFits Producer.idle q = Unit {0}
  ProducerFits (Producer.loaded x at) q = at ≡ q.input_index
  ProducerFits (Producer.has_room x at) q = (at ≡ q.input_index) × (size q + 1 < q.queue_max_size)
  ProducerFits (Producer.stored x at) q =
      (at ≡ q.input_index)
      × (size q + 1 < q.queue_max_size)
      × (get_or q.buffer q.input_index t.blank ≡ x)

  -- What a consumer's locals say of the queue.
  abbrev pub ConsumerFits : Consumer T → Queue T → Type 0
  ConsumerFits Consumer.idle q = Unit {0}
  ConsumerFits (Consumer.loaded at) q = at ≡ q.output_index
  ConsumerFits (Consumer.non_empty at) q = (at ≡ q.output_index) × (0 < size q)
  ConsumerFits (Consumer.took at x) q = (at ≡ q.output_index) × (0 < size q)

  -- The elements between the two threads, oldest first.
  abbrev pub held : Consumer T → Queue T → List T
  held Consumer.idle q = print t q
  held (Consumer.loaded at) q = print t q
  held (Consumer.non_empty at) q = print t q
  held (Consumer.took at x) q = x ∷ print_rest t q

  pub record Fits (p : Producer T) (c : Consumer T) (q : Queue T) (sent got : List T) : Type 0 where
    pub valid : IsValid q
    pub producing : ProducerFits p q
    pub consuming : ConsumerFits c q
    pub order : sent ≡ got ++ held c q

  pub held-write_end :
      (x : T) (c : Consumer T) {q : Queue T}
      → IsValid q
      → ConsumerFits c q
      → held c (write_slot x q.input_index q) ≡ held c q
  held-write_end x Consumer.idle v f = print-write_end t x v
  held-write_end x (Consumer.loaded at) v f = print-write_end t x v
  held-write_end x (Consumer.non_empty at) v f = print-write_end t x v
  held-write_end x (Consumer.took at y) v f = ap (λ l. y ∷ l) (print_rest-write_end t x v f.1)

  pub held-publish :
      (c : Consumer T) {q : Queue T}
      → IsValid q
      → ConsumerFits c q
      → size q + 1 < q.queue_max_size
      → held c (publish q.input_index q) ≡ held c q ++ get_or q.buffer q.input_index t.blank ∷ []
  held-publish Consumer.idle v f room = print-publish t v room
  held-publish (Consumer.loaded at) v f room = print-publish t v room
  held-publish (Consumer.non_empty at) v f room = print-publish t v room
  held-publish (Consumer.took at y) v f room = ap (λ l. y ∷ l) (print_rest-publish t v f.1 room)

  pub write-ConsumerFits :
      (x : T) (at : ℕ) (c : Consumer T) (q : Queue T)
      → ConsumerFits c q
      → ConsumerFits c (write_slot x at q)
  unfolding write_slot
  write-ConsumerFits x at Consumer.idle q f = f
  write-ConsumerFits x at (Consumer.loaded i) q f = f
  write-ConsumerFits x at (Consumer.non_empty i) q f = (f.0, rw (size-write_slot x at q) f.1)
  write-ConsumerFits x at (Consumer.took i y) q f = (f.0, rw (size-write_slot x at q) f.1)

  pub publish-ConsumerFits :
      (c : Consumer T) {q : Queue T}
      → IsValid q
      → size q + 1 < q.queue_max_size
      → ConsumerFits c q
      → ConsumerFits c (publish q.input_index q)
  unfolding publish
  publish-ConsumerFits Consumer.idle v room f = f
  publish-ConsumerFits (Consumer.loaded i) v room f = f
  publish-ConsumerFits (Consumer.non_empty i) v room f =
      (f.0, omega (arith, size-publish v room, f.1))
  publish-ConsumerFits (Consumer.took i y) v room f = (f.0, omega (arith, size-publish v room, f.1))

  pub write-ProducerFits :
      (x : T) (p : Producer T) (q : Queue T)
      → IsValid q
      → 0 < size q
      → ProducerFits p q
      → ProducerFits p (write_slot x q.output_index q)
  unfolding write_slot
  write-ProducerFits x Producer.idle q v h f = tt
  write-ProducerFits x (Producer.loaded y at) q v h f = f
  write-ProducerFits x (Producer.has_room y at) q v h f =
      (f.0, omega (arith, size-write_slot x q.output_index q))
  write-ProducerFits x (Producer.stored y at) q v h f = (
    f.0,
    omega (arith, size-write_slot x q.output_index q),
    get_or-set_ne q.buffer x t.blank (output-ne-input v h) ∙ f.2,
  )

  pub release-ProducerFits :
      (p : Producer T) (q : Queue T)
      → IsValid q
      → 0 < size q
      → ProducerFits p q
      → ProducerFits p (release q.output_index q)
  unfolding release
  release-ProducerFits Producer.idle q v h f = tt
  release-ProducerFits (Producer.loaded y at) q v h f = f
  release-ProducerFits (Producer.has_room y at) q v h f = (f.0, omega (arith, size-release v h))
  release-ProducerFits (Producer.stored y at) q v h f = (f.0, omega (arith, size-release v h), f.2)

  pub begin_push-ProducerFits :
      (x : T) (p : Producer T) (q : Queue T) → ProducerFits p q → ProducerFits (begin_push x p q) q
  unfolding begin_push
  begin_push-ProducerFits x Producer.idle q f = refl
  begin_push-ProducerFits x (Producer.loaded y at) q f = f
  begin_push-ProducerFits x (Producer.has_room y at) q f = f
  begin_push-ProducerFits x (Producer.stored y at) q f = f

  pub length-held :
      (c : Consumer T) (q : Queue T) → IsValid q → ConsumerFits c q → length (held c q) ≡ size q
  length-held Consumer.idle q v f = length-print t q
  length-held (Consumer.loaded at) q v f = length-print t q
  length-held (Consumer.non_empty at) q v f = length-print t q
  length-held (Consumer.took at x) q v f = length-print_rest t v f.1
