-- ===== src/Hubs.antt =====
-- What the three hubs do alike with their network manager: its part of `Construct` in
-- Server_Controll/Src/Hub.cpp, Server_Lobby/Src/LobbyHub.cpp and Server_Auth/Src/AuthHub.cpp, and
-- `RequestSendMessage`.
pub mod Listening
use iocp_j_server.Overlapped.{Fresh}
use iocp_j_server.Base.{
  ◌==◌, ltb, if◌then◌else◌, true, false, fault, uncaught, ◌<◌, ◌≡◌, refl, arith, Bool-cases, inl,
  inr, ℕ, zero, suc, Bool, Bytes, Outcome, ok, ◌>>=◌,
}
use iocp_j_server.Wire.{
  SenderType, control_server, lobby_server, client, unset, MessageHeader, HostOrder,
}
use iocp_j_server.LobbyJobs.{JobOutput}
use iocp_j_server.Network
use iocp_j_server.Network.{
  NetworkManager, Answer, setup_listen_socket, setup_connect_socket, prepare_accept_socket,
  send_request,
}

-- Whose manager it is, and whom it expects to accept.
pub record Roles : Type 0 where
  pub own : SenderType
  pub expected : SenderType

abbrev pub control_roles : Roles
control_roles = record { own = control_server; expected = unset }

abbrev pub lobby_roles : Roles
lobby_roles = record { own = lobby_server; expected = client }

abbrev pub auth_roles : Roles
auth_roles = record { own = lobby_server; expected = client }

-- What the system gives and answers to the network manager while it is constructed.
pub record Machine : Type 0 where
  pub memory : ℕ → Fresh
  pub found : Bool
  pub handles : ℕ → ℕ
  pub answers : ℕ → Answer

-- The loop of `Construct`: one answer of the system for each socket.
unfoldable pub prepare_accept_sockets :
    SenderType → ℕ → (ℕ → Answer) → (ℕ → ℕ) → NetworkManager → Outcome NetworkManager
prepare_accept_sockets expected zero answers handles w = ok w
prepare_accept_sockets expected (suc rounds) answers handles w = do
  prepared ← prepare_accept_socket expected (answers rounds) handles w
  prepare_accept_sockets expected rounds answers handles prepared.1

-- What `Construct` makes of its network manager, for counts that are not negative.
unfoldable pub construct_network :
    Roles
    → (overlapped_queue_max prepared_socket_max : ℕ) → (ℕ → Fresh)
    → Bool
    → (ℕ → ℕ)
    → (ℕ → Answer)
    → Outcome NetworkManager
unfolding prepare_accept_sockets
construct_network roles overlapped_queue_max prepared_socket_max memory found handles answers =
    prepare_accept_sockets roles.expected prepared_socket_max answers handles (
      setup_listen_socket prepared_socket_max found handles
        (Network.construct roles.own overlapped_queue_max memory))

-- How many elements a queue, or rounds a loop, has for an `int` that is read from outside, here its
-- 32-bit pattern. -1 gives a queue of no slot and a loop of no round; for what is less, `new[]` throws
-- for its negative length, and the greatest `int` plus one overflows to such a length.
unfoldable pub count_of : ℕ → Outcome ℕ
count_of n = if ltb n 2147483647 then ok n else if n == 4294967295 then ok 0 else fault uncaught

-- `Construct` for two `int`s read from outside. No record is made for a count that is not positive, so
-- that nothing is pushed to a queue of no slot; `construct_network` gives it one slot. Where AcceptEx
-- is not found, the queue of prepared sockets is not constructed again.
unfoldable pub bring_up : Roles → ℕ → ℕ → Machine → Outcome NetworkManager
unfolding count_of construct_network
bring_up roles overlapped_queue_max prepared_socket_max machine = do
  overlapped ← count_of overlapped_queue_max
  prepared ←
      if machine.found
      then count_of prepared_socket_max
      else ok (if ltb prepared_socket_max 2147483648 then prepared_socket_max else 0)
  construct_network roles overlapped prepared machine.memory machine.found machine.handles
      machine.answers

-- Counts that an `int` can be.
pub bring_up_lem :
    (roles : Roles) (overlapped_queue_max prepared_socket_max : ℕ) (machine : Machine)
    → overlapped_queue_max < 2147483647
    → prepared_socket_max < 2147483647
    → bring_up roles overlapped_queue_max prepared_socket_max machine
      ≡ construct_network roles overlapped_queue_max prepared_socket_max machine.memory
          machine.found machine.handles machine.answers
unfolding bring_up count_of
bring_up_lem roles overlapped_queue_max prepared_socket_max machine small small' =
    let fits : ltb overlapped_queue_max 2147483647 ≡ true = ground arith in
    let fits' : ltb prepared_socket_max 2147483647 ≡ true = ground arith in
    let fits'' : ltb prepared_socket_max 2147483648 ≡ true = ground arith in
    elim (Bool-cases machine.found) [
      | inl e ↦ rw (fits, e, fits') refl
      | inr e ↦ rw (fits, e, fits'') refl
    ]

-- `RequestSendMessage`
unfoldable pub request_send_message :
    HostOrder → JobOutput → Bool → NetworkManager → Outcome (Bool × NetworkManager)
request_send_message order output taken w =
    send_request order output.socket_ptr output.contents_type output.buffer output.body_size taken w

-- `ConnectControlServer`: the handle that `WSASocket` gives, and what the system answers. The address
-- goes to ConnectEx only.
unfoldable pub connect_control_server :
    ℕ → (bound found taken : Bool) → NetworkManager → Outcome (Bool × NetworkManager)
connect_control_server handle bound found taken w =
    setup_connect_socket control_server handle bound found taken w
