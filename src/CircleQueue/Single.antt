-- ===== src/CircleQueue/Single.antt =====
-- One element through an empty queue.
use iocp_j_server.Base.{◌+◌, ◌<◌, ◌≡◌, ap, ◌∙◌, arith, false, [], ◌∷◌, ◌++◌, length, ◌==◌, ==_comm}
use iocp_j_server.CircleQueue.{Queue, Slot, push, pop, empty, size, print}
use iocp_j_server.CircleQueue.Inv.{IsValid, push-IsValid}
use iocp_j_server.CircleQueue.Steps.{length-print, size-push, empty_test, print-push_room}
use iocp_j_server.CircleQueue.Fifo
use iocp_j_server.CircleQueue.Refine.{pop_refines}

-- A valid queue with no element and with room for one.
abbrev pub IsIdle {ℓ} : {A : Type ℓ} → Slot A → Queue A → Type ℓ
IsIdle t q = IsValid q × (print t q ≡ []) × (1 < q.queue_max_size)

module _ {ℓ} {T : Type ℓ} (t : Slot T) (x : T) {q : Queue T} (v : IsValid q)
    (none_in : print t q ≡ []) (room : 1 < q.queue_max_size) where
  size-none : size q ≡ 0
  size-none =
      let counted : length (print t q) ≡ 0 = ap length none_in in
      omega (arith, length-print t q, counted)

  not_full : (size q + 1 == q.queue_max_size) ≡ false
  not_full = ground (arith, size-none)

  pub empty-single : empty (push x q).1 ≡ false
  unfolding empty
  empty-single =
      ==_comm _ _
      ∙ empty_test (push-IsValid x v)
      ∙ ground (arith, size-none, size-push x v not_full)

  pub pop-single : (pop t (push x q).1).0 ≡ x
  unfolding Fifo.take_first
  pop-single =
      ap (λ r. r.0)
        (pop_refines t (push-IsValid x v)
          ∙ ap (Fifo.take_first t.blank)
              (print-push_room t x v not_full ∙ ap (λ l. l ++ x ∷ []) none_in))
