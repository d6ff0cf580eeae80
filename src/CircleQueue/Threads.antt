-- ===== src/CircleQueue/Threads.antt =====
-- `push` and `pop` of LockFreeCircleQueue.h as threads run them: one load or store at a time.
-- Atomic accesses are taken in one total order, and a slot is read or written in one step.
pub mod Places
pub mod Fits
pub mod Moves
pub mod Spsc
pub mod Race
use iocp_j_server.Base.{
  ℕ, ◌+◌, ◌%◌, Bool, true, false, Option, none, some, List, [], ◌∷◌, ◌++◌, get_or, set, ◌==◌,
  if◌then◌else◌,
}
use iocp_j_server.CircleQueue.{Queue, Slot}

-- Where a thread stands in `push`, with its locals.
pub data Producer {ℓ} (T : Type ℓ) : Type ℓ where
  idle : Producer T
  loaded : T → ℕ → Producer T
  has_room : T → ℕ → Producer T
  stored : T → ℕ → Producer T

-- Where a thread stands in `pop`, with its locals.
pub data Consumer {ℓ} (T : Type ℓ) : Type ℓ where
  idle : Consumer T
  loaded : ℕ → Consumer T
  non_empty : ℕ → Consumer T
  took : ℕ → T → Consumer T

module _ {ℓ} {T : Type ℓ} where
  -- `_buffer[currentInputIndex] = std::move(data)`
  unfoldable pub write_slot : T → ℕ → Queue T → Queue T
  write_slot x at q = record q { buffer = set q.buffer at x }

  -- `_inputIndex.store((currentInputIndex + 1) % _queueMaxSize)`
  unfoldable pub publish : ℕ → Queue T → Queue T
  publish at q = record q { input_index = (at + 1) % q.queue_max_size }

  -- `_outputIndex.store((currentOutputIndex + 1) % _queueMaxSize)`
  unfoldable pub release : ℕ → Queue T → Queue T
  release at q = record q { output_index = (at + 1) % q.queue_max_size }

  -- The next access of a thread in `push`. What it returns comes with the step that returns.
  unfoldable pub produce : Producer T → Queue T → Producer T × Queue T × Option Bool
  unfolding write_slot publish
  produce Producer.idle q = (Producer.idle, q, none)
  produce (Producer.loaded x at) q =
      if (at + 1) % q.queue_max_size == q.output_index
      then (Producer.idle, q, some false)
      else (Producer.has_room x at, q, none)
  produce (Producer.has_room x at) q = (Producer.stored x at, write_slot x at q, none)
  produce (Producer.stored x at) q = (Producer.idle, publish at q, some true)

module _ {ℓ} {T : Type ℓ} (t : Slot T) where
  -- The next access of a thread in `pop`.
  unfoldable pub consume : Consumer T → Queue T → Consumer T × Queue T × Option T
  unfolding write_slot release
  consume Consumer.idle q = (Consumer.loaded q.output_index, q, none)
  consume (Consumer.loaded at) q =
      if at == q.input_index
      then (Consumer.idle, q, some t.blank)
      else (Consumer.non_empty at, q, none)
  consume (Consumer.non_empty at) q =
      let value = get_or q.buffer at t.blank in
      (Consumer.took at value, write_slot (t.moved value) at q, none)
  consume (Consumer.took at value) q = (Consumer.idle, release at q, some value)

-- One producing and one consuming thread on one queue, with what they have put in and taken out.
pub record World {ℓ} (T : Type ℓ) : Type ℓ where
  pub queue : Queue T
  pub producer : Producer T
  pub consumer : Consumer T
  pub sent : List T
  pub got : List T

-- What the scheduler runs next: a call of `push`, or the next access of one of the threads.
pub data Turn {ℓ} (T : Type ℓ) : Type ℓ where
  calls_push : T → Turn T
  producer_runs consumer_runs : Turn T

module _ {ℓ} {T : Type ℓ} where
  -- A call of `push` starts, and loads `_inputIndex`, if the thread is not in one.
  unfoldable pub begin_push : T → Producer T → Queue T → Producer T
  begin_push x Producer.idle q = Producer.loaded x q.input_index
  begin_push x (Producer.loaded y at) q = Producer.loaded y at
  begin_push x (Producer.has_room y at) q = Producer.has_room y at
  begin_push x (Producer.stored y at) q = Producer.stored y at

  -- What the step of a producer has put in.
  abbrev pub sent_by : Producer T → List T
  sent_by (Producer.stored x at) = x ∷ []
  sent_by p = []

  -- What the step of a consumer has taken out.
  abbrev pub got_by : Consumer T → List T
  got_by (Consumer.took at x) = x ∷ []
  got_by c = []

module _ {ℓ} {T : Type ℓ} (t : Slot T) where
  unfoldable pub turn : Turn T → World T → World T
  turn (calls_push x) w = record w { producer = begin_push x w.producer w.queue }
  turn producer_runs w =
      let (p, q, r) = produce w.producer w.queue in
      record w { queue = q; producer = p; sent = w.sent ++ sent_by w.producer }
  turn consumer_runs w =
      let (c, q, r) = consume t w.consumer w.queue in
      record w { queue = q; consumer = c; got = w.got ++ got_by w.consumer }

  unfoldable pub schedule : List (Turn T) → World T → World T
  schedule [] w = w
  schedule (s ∷ ss) w = schedule ss (turn s w)
