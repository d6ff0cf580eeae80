-- ===== src/JobThreads/Alone.antt =====
-- A single job thread can miss a notification.
use iocp_j_server.Base.{
  update, ℕ, ◌+◌, ◌<◌, ◌≡◌, ◌≢◌, refl, sym, ap, ◌∙◌, arith, true, false, none, [], ◌∷◌, ◌++◌,
  if◌then◌else◌, ◌==◌,
}
use iocp_j_server.CircleQueue
use iocp_j_server.CircleQueue.{Slot, push, empty, print}
use iocp_j_server.CircleQueue.Inv.{construct-IsValid, size-construct, max-construct}
use iocp_j_server.CircleQueue.Steps.{print-push_room}
use iocp_j_server.CircleQueue.Refine.{print-construct}
use iocp_j_server.JobThreads.{
  Pc, outside, testing, refused, asleep, Workers, init, Move, locks, finds, finds_none, sleeps,
  relocks, runs, leaves, moves, pushes, notifies_none, Reach, start, later, Run, stop, go,
}

module _ {T : Type 0} (t : Slot T) where
  other : {p q r : Pc} → p ≡ q → p ≡ r → q ≢ r → ⊥
  other h h' apart = apart (sym h ∙ h')

  Move-asleep : {s : Workers T} {i : ℕ} {s' : Workers T} → Move t s i s' → s.pc i ≡ asleep → ⊥
  Move-asleep (locks at free) sleeping = other at sleeping (λ e. ground (arith, e))
  Move-asleep (finds at left) sleeping = other at sleeping (λ e. ground (arith, e))
  Move-asleep (finds_none at none_left) sleeping = other at sleeping (λ e. ground (arith, e))
  Move-asleep (sleeps at) sleeping = other at sleeping (λ e. ground (arith, e))
  Move-asleep (relocks at free) sleeping = other at sleeping (λ e. ground (arith, e))
  Move-asleep (runs at left) sleeping = other at sleeping (λ e. ground (arith, e))
  Move-asleep (leaves at none_left) sleeping = other at sleeping (λ e. ground (arith, e))

  Run-asleep : {s s' : Workers T} → Run t 1 s s' → s.pc 0 ≡ asleep → s ≡ s'
  Run-asleep stop sleeping = refl
  Run-asleep {s} (go i lt m r) sleeping =
      absurd (Move-asleep m (ap s.pc (omega (arith, lt)) ∙ sleeping))

  -- The state that a notification between the test and the sleep leads to.
  abbrev missed : ℕ → T → Workers T
  missed capacity x = record {
    queue = (push x (CircleQueue.construct t capacity)).1;
    lock = none;
    pc = update (update (update (λ i. outside) 0 testing) 0 refused) 0 asleep;
    owed = 0;
    accepted = if (push x (CircleQueue.construct t capacity)).0 then x ∷ [] else [];
    done = [];
  }

  refused_only : {i : ℕ} → i < 1 → update (update (λ i. outside) 0 testing) 0 refused i ≢ asleep
  refused_only lt e = ground (arith, lt, e)

  none_yet : (capacity : ℕ) → empty (CircleQueue.construct t capacity) ≡ true
  unfolding CircleQueue.construct empty
  none_yet capacity = refl

  room :
      (capacity : ℕ)
      → 0 < capacity
      → let q = CircleQueue.construct t capacity in
        (CircleQueue.size q + 1 == q.queue_max_size) ≡ false
  room capacity some_room =
      ground (arith, some_room, size-construct t capacity, max-construct t capacity)

  missed-Reach : (capacity : ℕ) (x : T) → Reach t 1 capacity (missed capacity x)
  unfolding init
  missed-Reach capacity x =
      later
        (later
          (later
            (later (later start (moves 0 (omega arith) (locks refl refl)))
              (moves 0 (omega arith) (finds_none refl (none_yet capacity))))
            (pushes x))
          (notifies_none refl (λ i lt. refused_only lt)))
        (moves 0 (omega arith) (sleeps refl))

  -- A single job thread can be left asleep over a queued job: where the job is queued and notified
  -- after the thread has tested the queue and before it sleeps, the thread can take no step of its own.
  pub sleeps_on_job :
      (capacity : ℕ) (x : T)
      → 0 < capacity
      → (s : Workers T) × Reach t 1 capacity s
        × (s.owed ≡ 0)
        × (print t s.queue ≡ x ∷ [])
        × ((s' : Workers T) → Run t 1 s s' → s ≡ s')
  sleeps_on_job capacity x some_room = (
    missed capacity x,
    missed-Reach capacity x,
    refl,
    print-push_room t x (construct-IsValid t capacity) (room capacity some_room)
        ∙ ap (λ l. l ++ x ∷ []) (print-construct t capacity),
    λ s' r. Run-asleep r refl,
  )
