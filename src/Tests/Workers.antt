-- ===== src/Tests/Workers.antt =====
-- Five job threads, as the servers start them, and one.
use iocp_j_server.Base.{ℕ, ◌<◌, ◌≡◌, ◌≢◌, refl, arith, true, some, [], ◌∷◌, ◌++◌}
use iocp_j_server.CircleQueue
use iocp_j_server.CircleQueue.{push, pop, print}
use iocp_j_server.Base.{update}
use iocp_j_server.JobThreads.{
  outside, asleep, draining, testing, holds, Workers, init, locks, finds, runs, moves, pushes,
  notifies_none, Reach, start, later, Run,
}
use iocp_j_server.JobThreads.Exclusion.{Reach-order}
use iocp_j_server.JobThreads.Draining.{Reach-drains}
use iocp_j_server.JobThreads.Alone.{sleeps_on_job}
use iocp_j_server.Tests.Samples.{number_slot}

-- Two jobs are queued and notified; thread 3 takes the first.
abbrev queued : Workers ℕ
unfolding init
queued = record (init number_slot 4) {
  queue = (push 8 (push 7 (CircleQueue.construct number_slot 4)).1).1;
  accepted = 7 ∷ 8 ∷ [];
}

nobody_sleeps : (i : ℕ) → i < 5 → outside ≢ asleep
nobody_sleeps i lt e = ground (arith, e)

queued-Reach : Reach number_slot 5 4 queued
unfolding init CircleQueue.construct push
queued-Reach =
    later (later (later (later start (pushes 7)) (notifies_none refl nobody_sleeps)) (pushes 8))
      (notifies_none refl nobody_sleeps)

Reach-drains_example :
    (s : Workers ℕ) × Run number_slot 5 queued s
    × (print number_slot s.queue ≡ [])
    × (s.done ≡ 7 ∷ 8 ∷ [])
unfolding init queued
Reach-drains_example = Reach-drains number_slot (omega arith) queued-Reach refl

abbrev working : Workers ℕ
unfolding queued
working = record queued {
  queue = (pop number_slot queued.queue).1;
  lock = some 3;
  pc = update (update (λ i. outside) 3 testing) 3 draining;
  done = 7 ∷ [];
}

working-Reach : Reach number_slot 5 4 working
unfolding init queued working CircleQueue.construct push pop CircleQueue.empty
working-Reach =
    later
      (later (later queued-Reach (moves 3 (omega arith) (locks refl refl)))
        (moves 3 (omega arith) (finds refl refl)))
      (moves 3 (omega arith) (runs refl refl))

Reach-order_example :
    (working.done ++ print number_slot working.queue ≡ working.accepted)
    × ((i j : ℕ) → holds (working.pc i) ≡ true → holds (working.pc j) ≡ true → i ≡ j)
Reach-order_example = Reach-order number_slot working-Reach

sleeps_on_job_example :
    (s : Workers ℕ) × Reach number_slot 1 4 s
    × (s.owed ≡ 0)
    × (print number_slot s.queue ≡ 7 ∷ [])
    × ((s' : Workers ℕ) → Run number_slot 1 s s' → s ≡ s')
sleeps_on_job_example = sleeps_on_job number_slot 4 7 (omega arith)
