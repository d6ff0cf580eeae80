-- ===== src/Network/Calls.antt =====
-- The calls of a network manager and the rounds of its loop, in any order, on a hub's two callbacks.
use iocp_j_server.Overlapped.{Fresh}
use iocp_j_server.Base.{
  ℕ, ◌+◌, ◌≤◌, ◌≡◌, Bool, Bytes, length, Option, none, some, Outcome, ok, ◌>>=◌,
}
use iocp_j_server.Wire.{SenderType, HostOrder}
use iocp_j_server.Overlapped.{Overlapped}
use iocp_j_server.Network.{
  NetworkManager, Answer, construct, setup_listen_socket, prepare_accept_socket,
  setup_connect_socket, send_request,
}
use iocp_j_server.Network.Completions.{Completion, completed, failed, process_completion}
use iocp_j_server.Network.Ownership.{count}

-- A call with what the system answers it, or a round of the loop.
pub data Call : Type 0 where
  sets_up : ℕ → Bool → (ℕ → ℕ) → Call
  prepares : SenderType → Answer → (ℕ → ℕ) → Call
  connects : SenderType → ℕ → Bool → Bool → Bool → Call
  sends : ℕ → ℕ → Bytes → ℕ → Bool → Call
  completes : Completion → Call

-- The record of a completion.
abbrev pub record_of : Completion → ℕ
record_of (completed key p bytes head body answer) = p
record_of (failed key p error) = p

-- A receive fills no more than the second buffer's length.
abbrev pub Fills : Completion → Option Overlapped → Type 0
Fills (completed key p bytes head body answer) (some o) = length body ≤ o.body_len
Fills (completed key p bytes head body answer) none = Unit {0}
Fills (failed key p error) o = Unit {0}

-- The system completes a record only while it holds it.
abbrev pub Possible : Call → NetworkManager → Type 0
Possible (completes c) w = (1 ≤ count (record_of c) w.posted) × Fills c (w.heap (record_of c))
Possible (sets_up n found handles) w = Unit {0}
Possible (prepares sender answer handles) w = Unit {0}
Possible (connects sender handle bound found taken) w = Unit {0}
Possible (sends target content_type buffer body_size taken) w = Unit {0}

-- Whether a call is one of PrepareAcceptSocket.
abbrev pub prepares_of : Call → ℕ
prepares_of (prepares sender answer handles) = 1
prepares_of (sets_up n found handles) = 0
prepares_of (connects sender handle bound found taken) = 0
prepares_of (sends target content_type buffer body_size taken) = 0
prepares_of (completes c) = 0

module _ (order : HostOrder) {H : Type 0} (iocp_callback : ℕ → Overlapped → H → Outcome H)
    (disconnect_callback : ℕ → H → H) where
  unfoldable pub step : Call → H → NetworkManager → Outcome (H × NetworkManager)
  step (sets_up n found handles) h w = ok (h, setup_listen_socket n found handles w)
  step (prepares sender answer handles) h w =
      prepare_accept_socket sender answer handles w >>= λ r. ok (h, r.1)
  step (connects sender handle bound found taken) h w =
      setup_connect_socket sender handle bound found taken w >>= λ r. ok (h, r.1)
  step (sends target content_type buffer body_size taken) h w =
      send_request order target content_type buffer body_size taken w >>= λ r. ok (h, r.1)
  step (completes c) h w = process_completion iocp_callback disconnect_callback c h w

  -- What a hub and its manager come to, from a freshly constructed manager on.
  pub data Reach (sender : SenderType) (n : ℕ) (memory : ℕ → Fresh) (h : H)
      : H → NetworkManager → Type 0 where
    start : Reach sender n memory h h (construct sender n memory)
    next :
        {h' h'' : H} {w w' : NetworkManager} (c : Call)
        → Reach sender n memory h h' w
        → Possible c w
        → step c h' w ≡ ok (h'', w')
        → Reach sender n memory h h'' w'

  -- How often PrepareAcceptSocket has been called on the way.
  abbrev pub prepared :
      {sender : SenderType} {n : ℕ} {memory : ℕ → Fresh} {h h' : H} {w : NetworkManager}
      → Reach sender n memory h h' w
      → ℕ
  prepared start = 0
  prepared (next c r possible e) = prepares_of c + prepared r
