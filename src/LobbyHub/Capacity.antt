-- ===== src/LobbyHub/Capacity.antt =====
-- The lobby hub on its network manager: how many clients it can ever count.
use iocp_j_server.Overlapped.{Fresh}
use iocp_j_server.Base.{ℕ, ◌+◌, ◌≤◌, ◌≡◌, refl, ap, arith, length, Bytes, ok}
use iocp_j_server.Wire.{
  SenderType, unset, control_server, auth_server, lobby_server, client, OperationType, op_default,
  op_connect, op_accept, op_recv, op_send, HostOrder, receive_packet,
}
use iocp_j_server.Overlapped.{Overlapped, buffer_size_max}
use iocp_j_server.LobbyMonitor
use iocp_j_server.LobbyMonitor.{register_lobby_user}
use iocp_j_server.LobbyHub.{
  LobbyHub, construct, client_accepted, control_connected, on_accept, on_connect, on_completion,
  packet_received, process_iocp, process_disconnect,
}
use iocp_j_server.Network.{NetworkManager}
use iocp_j_server.Network.Ownership.{accept_operation}
use iocp_j_server.Network.Calls.{Reach, prepared}
use iocp_j_server.Network.Accepts.{AcceptCounter, first_of_bind, Reach-accepts}

abbrev users : LobbyHub → ℕ
users h = h.monitor.current_user

on_accept-users :
    (s : SenderType) (key : ℕ) (h : LobbyHub) → users (on_accept s key h) ≤ users h + 1
unfolding client_accepted register_lobby_user
on_accept-users client key h = omega arith
on_accept-users unset key h = omega arith
on_accept-users control_server key h = omega arith
on_accept-users auth_server key h = omega arith
on_accept-users lobby_server key h = omega arith

on_connect-users : (s : SenderType) (key : ℕ) (h : LobbyHub) → users (on_connect s key h) ≡ users h
unfolding control_connected
on_connect-users control_server key h = refl
on_connect-users unset key h = refl
on_connect-users auth_server key h = refl
on_connect-users lobby_server key h = refl
on_connect-users client key h = refl

same_users : {a b : LobbyHub} → ok a ≡ ok b → users a ≡ users b
same_users {a} {b} e = let eq : a ≡ b = cc in ap users eq

module _ (order : HostOrder) where
  on_completion-users :
      (op : OperationType) (key : ℕ) (o : Overlapped) (h h' : LobbyHub)
      → on_completion order op key o h ≡ ok h'
      → users h' ≤ users h + accept_operation op
  unfolding packet_received
  on_completion-users op_accept key o h h' e =
      omega (arith, same_users e, on_accept-users o.sender key h)
  on_completion-users op_connect key o h h' e =
      omega (arith, same_users e, on_connect-users o.sender key h)
  on_completion-users op_recv key o h h' e =
      first_of_bind (λ g. users g ≤ users h + 0) (receive_packet order key o.head o.body) _
        (λ packet e' e''. omega (arith, same_users e'')) e
  on_completion-users op_send key o h h' e = omega (arith, same_users e)
  on_completion-users op_default key o h h' e = omega (arith, same_users e)

  -- The users of a lobby grow by an accept only.
  pub user_counter : AcceptCounter (process_iocp order) process_disconnect
  unfolding process_iocp process_disconnect
  user_counter = record {
    count_of = users;
    callback_counts = λ key o h h' e. on_completion-users o.operation key o h h' e;
    disconnect_counts = λ key h. omega arith;
  }

  -- However long a lobby runs on its network manager, and whoever connects and leaves: the users
  -- that it counts are at most the calls of PrepareAcceptSocket, whatever the capacity.
  pub users-le-prepared :
      {n : ℕ} (sender : SenderType) (memory : ℕ → Fresh) (key : Bytes)
      (port jobs packets capacity : ℕ) {h : LobbyHub} {w : NetworkManager}
      → ((a : ℕ) → length (memory a).1 ≡ buffer_size_max)
      → (r : Reach order
          (process_iocp order)
          process_disconnect
          sender
          n
          memory
          (construct key port jobs packets capacity)
          h
          w)
      → LobbyMonitor.get_current_user h.monitor
        ≤ prepared order (process_iocp order) process_disconnect r
  unfolding user_counter LobbyMonitor.get_current_user construct LobbyMonitor.construct
  users-le-prepared sender memory key port jobs packets capacity long r =
      omega (arith, Reach-accepts user_counter order sender memory _ long r)
