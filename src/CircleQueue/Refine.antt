-- ===== src/CircleQueue/Refine.antt =====
-- A valid circle queue behaves as the bounded first-in first-out list that its `print` writes.
use iocp_j_server.Base.{
  ℕ, ◌+◌, ◌≡◌, refl, sym, ap, ◌∙◌, arith, List, [], ◌∷◌, Bool-cases, inl, inr, ◌==◌, ==_comm,
}
use iocp_j_server.CircleQueue.{
  Queue, Slot, construct, push, pop, clear, size, empty, capacity, print,
}
use iocp_j_server.CircleQueue.Inv.{
  IsValid, push-IsValid, clear-IsValid, max-push, construct-IsValid, pop-IsValid, max-pop,
  max-clear, max-construct, size-construct,
}
use iocp_j_server.CircleQueue.Fifo
use iocp_j_server.CircleQueue.Fifo.{Call, Reply}
use iocp_j_server.CircleQueue.Steps.{
  push-full, push-room, print-push_room, pop-empty, pop-some, print-cons, print-nil, length-print,
  empty_test, size-clear,
}

module _ {ℓ} {T : Type ℓ} (t : Slot T) where
  -- `push` puts its element behind the others, if there is a free slot, and does nothing otherwise.
  pub push_refines :
      (x : T) {q : Queue T} (bound : ℕ)
      → IsValid q
      → q.queue_max_size ≡ bound + 1
      → let (done, q') = push x q in (done, print t q') ≡ Fifo.put bound x (print t q)
  unfolding Fifo.put
  push_refines x {q} bound v e = elim (Bool-cases (size q + 1 == q.queue_max_size)) [
    | inl full ↦ rw (push-full x v full, length-print t q, same_test, full)
    | inr room ↦
        rw (length-print t q, same_test, room)
          (λ i. (ap (λ r. r.0) (push-room x v room) i, print-push_room t x v room i))
  ]
    where
      same_test : (size q == bound) ≡ (size q + 1 == q.queue_max_size)
      same_test = ground arith

  -- `pop` takes off the oldest element, and gives `T()` and does nothing on an empty queue.
  pub pop_refines :
      {q : Queue T}
      → IsValid q
      → let (x, q') = pop t q in (x, print t q') ≡ Fifo.take_first t.blank (print t q)
  unfolding Fifo.take_first
  pop_refines {q} v = elim (Bool-cases (size q == 0)) [
    | inl none_left ↦ rw (pop-empty t v none_left, print-nil t q none_left)
    | inr some_left ↦
        rw (print-cons t v some_left) (λ i. ((pop-some t v some_left i).0, print t (pop t q).1))
  ]

  pub print-clear : (q : Queue T) → print t (clear q) ≡ []
  print-clear q = print-nil t (clear q) (rw (size-clear q))

  -- A client's call, as the code runs it.
  unfoldable pub step : Call T → Queue T → Reply T × Queue T
  step (Fifo.push x) q = let (done, q') = push x q in (Fifo.pushed done, q')
  step Fifo.pop q = let (x, q') = pop t q in (Fifo.popped x, q')
  step Fifo.empty q = (Fifo.is_empty (empty q), q)
  step Fifo.size q = (Fifo.counted (size q), q)
  step Fifo.capacity q = (Fifo.counted (capacity q), q)
  step Fifo.clear q = (Fifo.cleared, clear q)

  unfoldable pub run : List (Call T) → Queue T → List (Reply T)
  run [] q = []
  run (c ∷ cs) q = let (r, q') = step c q in r ∷ run cs q'

  empty-is_nil : {q : Queue T} → IsValid q → empty q ≡ Fifo.is_nil (print t q)
  unfolding empty Fifo.is_nil
  empty-is_nil {q} v = elim (Bool-cases (size q == 0)) [
    | inl none_left ↦ rw (print-nil t q none_left, ==_comm, empty_test v, none_left)
    | inr some_left ↦ rw (print-cons t v some_left, ==_comm, empty_test v, some_left)
  ]

  step-IsValid :
      (c : Call T) {q : Queue T} (bound : ℕ)
      → IsValid q
      → q.queue_max_size ≡ bound + 1
      → IsValid (step c q).1 × ((step c q).1.queue_max_size ≡ bound + 1)
  unfolding step
  step-IsValid (Fifo.push x) {q} bound v e = (push-IsValid x v, max-push x q ∙ e)
  step-IsValid Fifo.pop {q} bound v e = (pop-IsValid t v, max-pop t q ∙ e)
  step-IsValid Fifo.empty bound v e = (v, e)
  step-IsValid Fifo.size bound v e = (v, e)
  step-IsValid Fifo.capacity bound v e = (v, e)
  step-IsValid Fifo.clear {q} bound v e = (clear-IsValid v, max-clear q ∙ e)

  step_refines :
      (c : Call T) {q : Queue T} (bound : ℕ)
      → IsValid q
      → q.queue_max_size ≡ bound + 1
      → let (r, q') = step c q in (r, print t q') ≡ Fifo.step t.blank bound c (print t q)
  unfolding step Fifo.step capacity
  step_refines (Fifo.push x) {q} bound v e =
      ap (λ r. (Fifo.pushed r.0, r.1)) (push_refines x bound v e)
  step_refines Fifo.pop {q} bound v e = ap (λ r. (Fifo.popped r.0, r.1)) (pop_refines v)
  step_refines Fifo.empty {q} bound v e = ap (λ b. (Fifo.is_empty b, print t q)) (empty-is_nil v)
  step_refines Fifo.size {q} bound v e =
      ap (λ n. (Fifo.counted n, print t q)) (sym (length-print t q))
  step_refines Fifo.capacity {q} bound v e = ap (λ n. (Fifo.counted n, print t q)) e
  step_refines Fifo.clear {q} bound v e = ap (λ l. (Fifo.cleared, l)) (print-clear q)

  run_refines :
      (cs : List (Call T)) {q : Queue T} (bound : ℕ)
      → IsValid q
      → q.queue_max_size ≡ bound + 1
      → run cs q ≡ Fifo.run t.blank bound cs (print t q)
  unfolding run Fifo.run
  run_refines [] bound v e = refl
  run_refines (c ∷ cs) {q} bound v e = rw (← step_refines c bound v e) (
      ap (λ l. (step c q).0 ∷ l)
        (run_refines cs bound (step-IsValid c bound v e).0 (step-IsValid c bound v e).1))

  pub print-construct : (n : ℕ) → print t (construct t n) ≡ []
  print-construct n = print-nil t (construct t n) (rw (size-construct t n))

  -- From Construct(n) on, the results of any sequence of push, pop, empty, size, capacity and clear
  -- are those of a first-in first-out list of at most n elements.
  pub run-construct :
      (n : ℕ) (cs : List (Call T)) → run cs (construct t n) ≡ Fifo.run t.blank n cs []
  run-construct n cs =
      run_refines cs n (construct-IsValid t n) (max-construct t n)
      ∙ ap (Fifo.run t.blank n cs) (print-construct n)
