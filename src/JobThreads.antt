-- ===== src/JobThreads.antt =====
-- JobThread of Server_Controll/Src/Hub.cpp and Server_Lobby/Src/LobbyHub.cpp: job threads over one
-- mutex and one condition variable, with the threads that queue jobs and notify. The hub is on, as
-- nothing but its destructor turns it off. A call of the queue is one step: see CircleQueue/Threads.
pub mod Exclusion
pub mod Draining
pub mod Alone
use iocp_j_server.Base.{
  update, ℕ, zero, suc, ◌+◌, ◌<◌, ◌≡◌, ◌≢◌, Bool, true, false, Option, none, some, List, [], ◌∷◌,
  ◌++◌, if◌then◌else◌,
}
use iocp_j_server.CircleQueue
use iocp_j_server.CircleQueue.{Queue, Slot, push, pop, empty}

-- Where a job thread stands.
pub data Pc : Type 0 where
  outside : Pc  -- at the head of the outer loop
  testing : Pc  -- with the mutex, before the predicate of `wait`
  refused : Pc  -- with the mutex, after a false predicate
  asleep : Pc  -- in `wait`, without the mutex
  awake : Pc  -- in `wait`, woken, and wanting the mutex
  draining : Pc  -- with the mutex, at the head of the inner loop

-- The threads that have the mutex.
abbrev pub holds : Pc → Bool
holds testing = true
holds refused = true
holds draining = true
holds outside = false
holds asleep = false
holds awake = false

-- The threads that look at the queue before they sleep.
abbrev pub active : Pc → Bool
active outside = true
active testing = true
active awake = true
active draining = true
active refused = false
active asleep = false

-- The hub's job queue, mutex and threads. `owed` counts the calls of notify_one that are still to
-- come; `accepted` lists the jobs that the queue has taken, and `done` those that have been run.
pub record Workers (T : Type 0) : Type 0 where
  pub queue : Queue T
  pub lock : Option ℕ
  pub pc : ℕ → Pc
  pub owed : ℕ
  pub accepted : List T
  pub done : List T

module _ {T : Type 0} (t : Slot T) where
  unfoldable pub init : ℕ → Workers T
  init capacity = record {
    queue = CircleQueue.construct t capacity;
    lock = none;
    pc = λ i. outside;
    owed = 0;
    accepted = [];
    done = [];
  }

  -- One step of job thread `i`.
  pub data Move (s : Workers T) (i : ℕ) : Workers T → Type 0 where
    locks :
        s.pc i ≡ outside
        → s.lock ≡ none
        → Move s i (record s { lock = some i; pc = update s.pc i testing })
    finds :
        s.pc i ≡ testing
        → empty s.queue ≡ false
        → Move s i (record s { pc = update s.pc i draining })
    finds_none :
        s.pc i ≡ testing → empty s.queue ≡ true → Move s i (record s { pc = update s.pc i refused })
    sleeps : s.pc i ≡ refused → Move s i (record s { lock = none; pc = update s.pc i asleep })
    relocks :
        s.pc i ≡ awake
        → s.lock ≡ none
        → Move s i (record s { lock = some i; pc = update s.pc i testing })
    runs :
        s.pc i ≡ draining
        → empty s.queue ≡ false
        → Move s i (record s { queue = (pop t s.queue).1; done = s.done ++ (pop t s.queue).0 ∷ [] })
    leaves :
        s.pc i ≡ draining
        → empty s.queue ≡ true
        → Move s i (record s { lock = none; pc = update s.pc i outside })

  -- One step of `n` job threads and of those that queue jobs. These notify after each round, whether
  -- it queued a job or not. A thread may wake of itself.
  pub data Step (n : ℕ) (s : Workers T) : Workers T → Type 0 where
    moves : (i : ℕ) {s' : Workers T} → i < n → Move s i s' → Step n s s'
    pushes :
        (x : T)
        → Step n s (record s {
          queue = (push x s.queue).1;
          owed = suc s.owed;
          accepted = if (push x s.queue).0 then s.accepted ++ x ∷ [] else s.accepted;
        })
    passes : Step n s (record s { owed = suc s.owed })
    notifies :
        (i : ℕ) {k : ℕ}
        → i < n
        → s.owed ≡ suc k
        → s.pc i ≡ asleep
        → Step n s (record s { owed = k; pc = update s.pc i awake })
    notifies_none :
        {k : ℕ}
        → s.owed ≡ suc k
        → ((i : ℕ) → i < n → s.pc i ≢ asleep)
        → Step n s (record s { owed = k })
    wakes : (i : ℕ) → i < n → s.pc i ≡ asleep → Step n s (record s { pc = update s.pc i awake })

  pub data Reach (n capacity : ℕ) : Workers T → Type 0 where
    start : Reach n capacity (init capacity)
    later : {s s' : Workers T} → Reach n capacity s → Step n s s' → Reach n capacity s'

  -- Steps of the job threads alone.
  pub data Run (n : ℕ) : Workers T → Workers T → Type 0 where
    stop : {s : Workers T} → Run n s s
    go : {s s' s'' : Workers T} (i : ℕ) → i < n → Move s i s' → Run n s' s'' → Run n s s''
