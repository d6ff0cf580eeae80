-- ===== src/CircleQueue.antt =====
-- The ring buffer of Common/Include/Utility/LockFreeCircleQueue.h, one thread at a time.
-- An operation that changes the queue returns the new queue beside its result.
-- `int` indices are numbers: they stay below `_queueMaxSize`, which is an `int`.
pub mod Fifo
pub mod Inv
pub mod Steps
pub mod Refine
pub mod Single
pub mod Threads
use iocp_j_server.Base.{
  ℕ, ◌+◌, ◌-◌, ◌%◌, Bool, true, false, List, [], ◌∷◌, replicate, get_or, set, leb, ◌==◌,
  if◌then◌else◌, zero, suc,
}

-- What the code uses of an element type: `T()`, and what `std::move` leaves in a slot it reads.
pub record Slot {ℓ} (T : Type ℓ) : Type ℓ where
  pub blank : T
  pub moved : T → T

-- `LockFreeCircleQueue<T>`.
pub record Queue {ℓ} (T : Type ℓ) : Type ℓ where
  pub queue_max_size : ℕ
  pub input_index : ℕ
  pub output_index : ℕ
  pub buffer : List T

module _ {ℓ} {T : Type ℓ} where
  unfoldable pub push : T → Queue T → Bool × Queue T
  push value q =
      let next_index = (q.input_index + 1) % q.queue_max_size in
      if next_index == q.output_index
      then (false, q)
      else (true, record q { buffer = set q.buffer q.input_index value; input_index = next_index })

  unfoldable pub empty : Queue T → Bool
  empty q = q.input_index == q.output_index

  -- A sum below 0, which takes an output index past the buffer, stops at 0.
  unfoldable pub size : Queue T → ℕ
  size q =
      if leb q.output_index q.input_index
      then q.input_index - q.output_index
      else q.queue_max_size + q.input_index - q.output_index

  unfoldable pub capacity : Queue T → ℕ
  capacity q = q.queue_max_size

  -- The slots keep what they hold.
  unfoldable pub clear : Queue T → Queue T
  clear q = record q { input_index = 0; output_index = 0 }

module _ {ℓ} {T : Type ℓ} (t : Slot T) where
  -- The constructor, and `Construct` right after it: one slot more than asked for, each holding `T()`.
  unfoldable pub construct : ℕ → Queue T
  construct queue_max = record {
    queue_max_size = queue_max + 1;
    input_index = 0;
    output_index = 0;
    buffer = replicate (queue_max + 1) t.blank;
  }

  -- `Construct` of a queue that is there already: the indices stay where they are. They may then lie
  -- past a smaller buffer; the writes out of bounds that follow are left out.
  unfoldable pub reconstruct : ℕ → Queue T → Queue T
  reconstruct queue_max q = record q {
    queue_max_size = queue_max + 1;
    buffer = replicate (queue_max + 1) t.blank;
  }

  -- On an empty queue the result is `T()`, and nothing tells it from a stored `T()`.
  unfoldable pub pop : Queue T → T × Queue T
  pop q =
      let value = get_or q.buffer q.output_index t.blank in
      let rest = record q {
        buffer = set q.buffer q.output_index (t.moved value);
        output_index = (q.output_index + 1) % q.queue_max_size;
      } in
      if q.output_index == q.input_index then (t.blank, q) else (value, rest)

  -- The slot that is `i` places after the oldest.
  abbrev pub slot_at : Queue T → ℕ → T
  slot_at q i = get_or q.buffer ((q.output_index + i) % q.queue_max_size) t.blank

  -- `Front` does not test for emptiness.
  unfoldable pub front : Queue T → T
  front q = get_or q.buffer q.output_index t.blank

  -- `print`: the elements written while `rounds` are left of its loop over `i`.
  unfoldable pub print_from : Queue T → ℕ → ℕ → List T
  print_from q i zero = []
  print_from q i (suc rounds) = slot_at q i ∷ print_from q (i + 1) rounds

  unfoldable pub print : Queue T → List T
  unfolding print_from size
  print q = print_from q 0 (size q)
