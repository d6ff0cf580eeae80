-- ===== src/CircleQueue/Threads/Moves.antt =====
-- Each access of one producing or one consuming thread, from each of its places.
use iocp_j_server.Base.{
  ◌+◌, ◌%◌, refl, sym, ap, ◌∙◌, arith, List, [], ◌∷◌, ◌++◌, get_or, append-nil, append_assoc,
  get_or-set_self, inl, inr, Bool-cases, ◌==◌,
}
use iocp_j_server.CircleQueue.{Queue, Slot}
use iocp_j_server.CircleQueue.Threads.{Producer, Consumer, produce, consume, sent_by, got_by}
use iocp_j_server.CircleQueue.Threads.Places.{
  write_slot-IsValid, publish-IsValid, release-IsValid, size-write_slot, room_of_test, some_of_test,
  print_rest, print-cons_rest, print_rest-write_first, print-release,
}
use iocp_j_server.CircleQueue.Threads.Fits.{
  ProducerFits, held, Fits, held-write_end, held-publish, write-ConsumerFits, publish-ConsumerFits,
  write-ProducerFits, release-ProducerFits,
}

module _ {T : Type 0} (t : Slot T) where
  -- A step of the producer that leaves the queue alone.
  produce_only :
      {p p' : Producer T} {c : Consumer T} {q : Queue T} {sent got : List T}
      → Fits t p c q sent got
      → ProducerFits t p' q
      → Fits t p' c q (sent ++ []) got
  produce_only {sent} f pf = record {
    valid = f.valid;
    producing = pf;
    consuming = f.consuming;
    order = append-nil sent ∙ f.order;
  }

  -- The producer's next access, from each of its places.
  pub produce-Fits :
      (p : Producer T) (c : Consumer T) (q : Queue T) {sent got : List T}
      → Fits t p c q sent got
      → let (p', q', r) = produce p q in Fits t p' c q' (sent ++ sent_by p) got
  unfolding produce
  produce-Fits Producer.idle c q f = produce_only f tt
  produce-Fits (Producer.loaded x at) c q f =
      elim (Bool-cases ((at + 1) % q.queue_max_size == q.output_index)) [
        | inl full ↦ rw full (produce_only f tt)
        | inr room ↦ rw room (produce_only f (f.producing, room_of_test f.valid (ground arith)))
      ]
  produce-Fits (Producer.has_room x at) c q {sent} {got} f = record {
    valid = write_slot-IsValid x at f.valid;
    producing = (
      f.producing.0,
      omega (arith, size-write_slot x at q),
      rw f.producing.0
          (get_or-set_self q.buffer q.input_index x t.blank (omega (arith, f.valid.slots))),
    );
    consuming = write-ConsumerFits t x at c q f.consuming;
    order =
        append-nil sent
        ∙ f.order
        ∙ ap (λ l. got ++ l) (rw f.producing.0 (sym (held-write_end t x c f.valid f.consuming)));
  }
  produce-Fits (Producer.stored x at) c q {sent} {got} f = record {
    valid = rw f.producing.0 (publish-IsValid f.valid);
    producing = tt;
    consuming = rw f.producing.0 (publish-ConsumerFits t c f.valid f.producing.1 f.consuming);
    order =
        rw
          (
            f.producing.0,
            held-publish t c f.valid f.consuming f.producing.1,
            f.producing.2,
            f.order,
          )
          (append_assoc got (held t c q) (x ∷ []));
  }

  -- The consumer's next access, from each of its places.
  pub consume-Fits :
      (p : Producer T) (c : Consumer T) (q : Queue T) {sent got : List T}
      → Fits t p c q sent got
      → let (c', q', r) = consume t c q in Fits t p c' q' sent (got ++ got_by c)
  unfolding consume
  consume-Fits p Consumer.idle q {sent} {got} f = record {
    valid = f.valid;
    producing = f.producing;
    consuming = refl;
    order = rw (append-nil got) f.order;
  }
  consume-Fits p (Consumer.loaded at) q {sent} {got} f = elim (Bool-cases (at == q.input_index)) [
    | inl nothing ↦ rw nothing (record {
      valid = f.valid;
      producing = f.producing;
      consuming = tt;
      order = rw (append-nil got) f.order;
    })
    | inr something ↦ rw something (record {
      valid = f.valid;
      producing = f.producing;
      consuming = (f.consuming, some_of_test f.valid (ground arith));
      order = rw (append-nil got) f.order;
    })
  ]
  consume-Fits p (Consumer.non_empty at) q {sent} {got} f = record {
    valid = write_slot-IsValid (t.moved (get_or q.buffer at t.blank)) at f.valid;
    producing = rw f.consuming.0 (write-ProducerFits t _ p q f.valid f.consuming.1 f.producing);
    consuming = (f.consuming.0, rw size-write_slot f.consuming.1);
    order =
        rw (append-nil got, f.order, f.consuming.0)
          (ap (λ l. got ++ l)
            (print-cons_rest t f.valid f.consuming.1
              ∙ ap (λ l. get_or q.buffer q.output_index t.blank ∷ l)
                  (sym (print_rest-write_first t _ f.valid f.consuming.1))));
  }
  consume-Fits p (Consumer.took at x) q {sent} {got} f = record {
    valid = rw f.consuming.0 (release-IsValid f.valid);
    producing = rw f.consuming.0 (release-ProducerFits t p q f.valid f.consuming.1 f.producing);
    consuming = tt;
    order =
        rw (f.order, f.consuming.0, print-release t f.valid f.consuming.1)
          (sym (append_assoc got (x ∷ []) (print_rest t q)));
  }
