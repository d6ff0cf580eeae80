-- ===== src/CircleQueue/Fifo.antt =====
-- A first-in first-out list of at most `bound` elements: what a circle queue promises its clients.
use iocp_j_server.Base.{ℕ, ◌+◌, Bool, true, false, List, [], ◌∷◌, ◌++◌, length, ◌==◌, if◌then◌else◌}

-- One call of a client, and what the client sees of it.
pub data Call {ℓ} (T : Type ℓ) : Type ℓ where
  push : T → Call T
  pop empty size capacity clear : Call T

pub data Reply {ℓ} (T : Type ℓ) : Type ℓ where
  pushed : Bool → Reply T
  popped : T → Reply T
  is_empty : Bool → Reply T
  counted : ℕ → Reply T
  cleared : Reply T

module _ {ℓ} {T : Type ℓ} (bound : ℕ) where
  unfoldable pub put : T → List T → Bool × List T
  put x xs = if length xs == bound then (false, xs) else (true, xs ++ x ∷ [])

module _ {ℓ} {T : Type ℓ} (blank : T) where
  unfoldable pub take_first : List T → T × List T
  take_first [] = (blank, [])
  take_first (x ∷ xs) = (x, xs)

module _ {ℓ} {T : Type ℓ} where
  unfoldable pub is_nil : List T → Bool
  is_nil [] = true
  is_nil (x ∷ xs) = false

module _ {ℓ} {T : Type ℓ} (blank : T) (bound : ℕ) where
  unfoldable pub step : Call T → List T → Reply T × List T
  step (push x) xs = let (done, ys) = put bound x xs in (pushed done, ys)
  step pop xs = let (x, ys) = take_first blank xs in (popped x, ys)
  step empty xs = (is_empty (is_nil xs), xs)
  step size xs = (counted (length xs), xs)
  step capacity xs = (counted (bound + 1), xs)
  step clear xs = (cleared, [])

  unfoldable pub run : List (Call T) → List T → List (Reply T)
  run [] xs = []
  run (c ∷ cs) xs = let (r, ys) = step c xs in r ∷ run cs ys
