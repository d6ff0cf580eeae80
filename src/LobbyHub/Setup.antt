-- ===== src/LobbyHub/Setup.antt =====
-- Server_Lobby/Src/LobbyHub.cpp on its network manager: Construct, and what can follow it.
use iocp_j_server.Overlapped.{Fresh}
use iocp_j_server.Base.{
  ℕ, zero, suc, ◌+◌, ◌≤◌, ◌≡◌, refl, subst, arith, Bool, length, Bytes, ok, first_result,
}
use iocp_j_server.Wire.{lobby_server, client, HostOrder}
use iocp_j_server.Overlapped.{buffer_size_max}
use iocp_j_server.Hubs.{lobby_roles, prepare_accept_sockets, construct_network}
use iocp_j_server.LobbyMonitor
use iocp_j_server.LobbyHub.{LobbyHub, construct, process_iocp, process_disconnect}
use iocp_j_server.LobbyHub.Capacity.{users-le-prepared}
use iocp_j_server.Network.{NetworkManager, Answer, prepare_accept_socket}
use iocp_j_server.Network.Calls.{
  Call, sets_up, prepares, Possible, prepares_of, step, Reach, start, next, prepared,
}

module _ (order : HostOrder) where
  -- What a lobby comes to: after `Construct`, nothing prepares another socket.
  pub data Serves (h : LobbyHub) (w : NetworkManager) : LobbyHub → NetworkManager → Type 0 where
    begin : Serves h w h w
    go_on :
        {h' h'' : LobbyHub} {w' w'' : NetworkManager} (c : Call)
        → Serves h w h' w'
        → prepares_of c ≡ 0
        → Possible c w'
        → step order (process_iocp order) process_disconnect c h' w' ≡ ok (h'', w'')
        → Serves h w h'' w''

  module _ (n : ℕ) (memory : ℕ → Fresh) (h : LobbyHub) where
    -- A run of the network manager with so many calls of PrepareAcceptSocket.
    abbrev Prepared : LobbyHub → NetworkManager → ℕ → Type 0
    Prepared h' w k =
        (r : Reach order (process_iocp order) process_disconnect lobby_server n memory h h' w)
        × (prepared order (process_iocp order) process_disconnect r ≡ k)

    prepare_accept_sockets-Prepared :
        {h' : LobbyHub} (rounds k : ℕ) (answers : ℕ → Answer) (handles : ℕ → ℕ)
        {w w' : NetworkManager}
        → Prepared h' w k
        → prepare_accept_sockets client rounds answers handles w ≡ ok w'
        → Prepared h' w' (rounds + k)
    unfolding prepare_accept_sockets step
    prepare_accept_sockets-Prepared {h'} zero k answers handles {w} {w'} (r, e) returns =
        let same : w ≡ w' = cc in subst (λ v. Prepared h' v (0 + k)) same (r, omega (arith, e))
    prepare_accept_sockets-Prepared {h'} (suc rounds) k answers handles {w} (r, e) returns =
        let (made, makes, rest) =
          first_result {A = Bool × NetworkManager} _
            {first = prepare_accept_socket client (answers rounds) handles w} returns in
        let r' : Reach order (process_iocp order) process_disconnect lobby_server n memory h h'
            made.1 =
          next (prepares client (answers rounds) handles) r tt (rw makes) in
        let (r'', e'') =
          prepare_accept_sockets-Prepared rounds (suc k) answers handles (r', omega (arith, e))
            rest in
        (r'', omega (arith, e''))

    Serves-Prepared :
        {h' : LobbyHub} {w : NetworkManager} {k : ℕ} {h'' : LobbyHub} {w' : NetworkManager}
        → Prepared h' w k
        → Serves h' w h'' w'
        → Prepared h'' w' k
    Serves-Prepared p begin = p
    Serves-Prepared p (go_on c s none possible steps) =
        let (r, e) = Serves-Prepared p s in (next c r possible steps, omega (arith, none, e))

  -- A lobby whose construction returns, with fresh memory as large as the buffers, and which then goes
  -- on without preparing other sockets: whoever connects and leaves, it never counts more users than
  -- the sockets prepared at its construction, whatever its capacity.
  pub users-le-prepared_socket_max :
      (overlapped_queue_max prepared_socket_max : ℕ) (memory : ℕ → Fresh) (found : Bool)
      (handles : ℕ → ℕ) (answers : ℕ → Answer) (key : Bytes) (port jobs packets capacity : ℕ)
      {h : LobbyHub} {w w' : NetworkManager}
      → ((a : ℕ) → length (memory a).1 ≡ buffer_size_max)
      → construct_network lobby_roles overlapped_queue_max prepared_socket_max memory found handles
          answers
        ≡ ok w
      → Serves (construct key port jobs packets capacity) w h w'
      → LobbyMonitor.get_current_user h.monitor ≤ prepared_socket_max
  unfolding construct_network step
  users-le-prepared_socket_max overlapped_queue_max prepared_socket_max memory found handles answers
        key port jobs packets capacity long constructed serves =
      let listening = next (sets_up prepared_socket_max found handles) start tt refl in
      let fresh = construct key port jobs packets capacity in
      let ready =
        prepare_accept_sockets-Prepared overlapped_queue_max memory fresh prepared_socket_max 0
          answers handles (listening, refl) constructed in
      let (r, e) = Serves-Prepared overlapped_queue_max memory fresh ready serves in
      omega (
        arith,
        e,
        users-le-prepared order lobby_server memory key port jobs packets capacity long r,
      )
