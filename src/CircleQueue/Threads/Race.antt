-- ===== src/CircleQueue/Threads/Race.antt =====
-- Two threads in `pop` of one queue.
use iocp_j_server.Base.{
  suc, ◌<◌, ◌≡◌, refl, ap, ◌∙◌, arith, Bool, true, false, List, [], ◌∷◌, Option, none, some,
  get_or-set_self, ◌==◌,
}
use iocp_j_server.CircleQueue.{Queue, Slot, front, size}
use iocp_j_server.CircleQueue.Inv.{IsValid}
use iocp_j_server.CircleQueue.Threads.{Consumer, consume, release}
use iocp_j_server.CircleQueue.Threads.Places.{size-release}

-- A queue under two consuming threads, and what their calls have returned.
pub record Two {ℓ} (T : Type ℓ) : Type ℓ where
  pub queue : Queue T
  pub one : Consumer T
  pub other : Consumer T
  pub one_got : Option T
  pub other_got : Option T

module _ {T : Type 0} (t : Slot T) where
  -- `true` runs the one thread, `false` the other.
  unfoldable pub two_turn : Bool → Two T → Two T
  two_turn true w =
      let (c, q, r) = consume t w.one w.queue in record w { queue = q; one = c; one_got = r }
  two_turn false w =
      let (c, q, r) = consume t w.other w.queue in record w { queue = q; other = c; other_got = r }

  unfoldable pub two_turns : List Bool → Two T → Two T
  two_turns [] w = w
  two_turns (b ∷ bs) w = two_turns bs (two_turn b w)

  abbrev pub both_idle : Queue T → Two T
  both_idle q = record {
    queue = q;
    one = Consumer.idle;
    other = Consumer.idle;
    one_got = none;
    other_got = none;
  }

  -- Each access of the one thread is followed by the same access of the other.
  abbrev pub lockstep : List Bool
  lockstep = true ∷ false ∷ true ∷ false ∷ true ∷ false ∷ true ∷ false ∷ []

  output-ne : {q : Queue T} → IsValid q → 0 < size q → (q.output_index == q.input_index) ≡ false
  unfolding size
  output-ne v h = ground arith

  -- Where a move leaves the front slot as it was, two threads in pop can both be given the oldest
  -- element of a valid queue that is not empty, and the queue is then shorter by one.
  pub two_turns-lockstep :
      {q : Queue T}
      → IsValid q
      → 0 < size q
      → t.moved (front t q) ≡ front t q
      → let w = two_turns lockstep (both_idle q) in
        (w.one_got ≡ some (front t q))
        × (w.other_got ≡ some (front t q))
        × (suc (size w.queue) ≡ size q)
  unfolding two_turns two_turn consume front size release
  two_turns-lockstep {q} v h e =
      rw (output-ne v h, output-ne v h)
        (
          refl,
          ap some (
              get_or-set_self q.buffer q.output_index (t.moved (front t q)) t.blank (omega arith)
              ∙ e),
          size-release v h,
        )
