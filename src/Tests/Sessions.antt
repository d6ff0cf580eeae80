-- ===== src/Tests/Sessions.antt =====
-- What the theorems on the network manager say of that lobby.
use iocp_j_server.Base.{
  suc, ℕ, ◌<◌, Bool, sym, ◌∙◌, ◌≢◌, drop, null_pointer, ◌+◌, ◌≤◌, ◌≡◌, refl, arith, true, false,
  List, [], ◌∷◌, length, some, ok, fault, codes, Bytes,
}
use iocp_j_server.Wire.{HostOrder, receive_packet, string_of, lobby_server, op_recv}
use iocp_j_server.CircleQueue
use iocp_j_server.CircleQueue.Inv.{IsValid}
use iocp_j_server.Overlapped
use iocp_j_server.Overlapped.{Overlapped, SystemMembers, zero_header, buffer_size_max}
use iocp_j_server.LobbyMonitor
use iocp_j_server.LobbyHub
use iocp_j_server.LobbyHub.{LobbyHub, process_iocp, process_disconnect}
use iocp_j_server.LobbyHub.Capacity.{user_counter}
use iocp_j_server.Hubs.Listening.{construct_network-returns}
use iocp_j_server.Hubs.{lobby_roles, construct_network, prepare_accept_sockets}
use iocp_j_server.LobbyHub.Setup.{begin, go_on, users-le-prepared_socket_max}
use iocp_j_server.Network
use iocp_j_server.Network.{NetworkManager, Answer, remove, find, send_request, call_receive_ready}
use iocp_j_server.Network.Completions
use iocp_j_server.Network.Completions.{
  Completion, completed, process_completion, handle_disconnect_complete,
}
use iocp_j_server.Network.Ownership.{count, accepts, pool, one_each}
use iocp_j_server.Network.Calls.{completes, step, prepared}
use iocp_j_server.Network.Reached.{reached, Reach-places}
use iocp_j_server.Network.Accepts.{Reach-accepts}
use iocp_j_server.Network.Posting.{process_completion-posts, process_completion-exhausted}
use iocp_j_server.Network.Disconnect.{reports, reports-lost, without}
use iocp_j_server.Overlapped.Clean.{blank}
use iocp_j_server.Tests.Samples.{swapping}
use iocp_j_server.Tests.Connections.{
  system_members, memory, memory-long, lobby, fine, third_state, fourth_state, accept-Possible,
  fourth_reach, sixth_state, sixth_pool, fourth_pool, sixth_reach,
}

Reach-places_example :
    IsValid sixth_state.1.overlapped_queue
    × ((a : ℕ)
        → count a (pool sixth_state.1)
            + count a sixth_state.1.posted
            + count a sixth_state.1.dropped
          ≡ one_each 3 a)
Reach-places_example =
    Reach-places (process_iocp swapping) process_disconnect swapping lobby_server memory lobby
      memory-long sixth_reach

construct_network-returns_example :
    (1 ≤ 3
      → (w : NetworkManager) × (construct_network lobby_roles 3 1 memory true
            (λ a. 100 + a)
            (λ i. fine)
          ≡ ok w)
        × (length w.posted ≡ 1)
        × (accepts w.heap w.posted ≡ 1)
        × (w.dropped ≡ [])
        × (length (pool w) ≡ 2))
    × (3 < 1
        → construct_network lobby_roles 3 1 memory true (λ a. 100 + a) (λ i. fine)
          ≡ fault null_pointer)
construct_network-returns_example =
    construct_network-returns lobby_roles 3 1 memory (λ a. 100 + a) (λ i. fine) memory-long
      (λ i. (refl, refl))

constructed :
    construct_network lobby_roles 3 1 memory true (λ a. 100 + a) (λ i. fine) ≡ ok third_state.1
unfolding step Network.construct Network.new_overlapped Network.fill_overlapped_queue
    Network.setup_listen_socket Network.fill_socket_queue Network.new_socket
    Network.prepare_accept_socket Network.post_accept Network.take_overlapped Network.hand_over
    CircleQueue.push CircleQueue.pop CircleQueue.construct CircleQueue.reconstruct CircleQueue.size
    Overlapped.construct Overlapped.clear Overlapped.accept_setting Overlapped.memset
    Overlapped.header_size buffer_size_max process_completion Network.deref Completions.dequeue
    Completions.on_completed Completions.system_writes Completions.handle_accept_complete
    Network.insert Network.find Network.call_receive_ready Completions.give_back Network.remove
    LobbyHub.process_iocp LobbyHub.client_accepted LobbyHub.construct Overlapped.receive_setting
    LobbyMonitor.register_lobby_user LobbyMonitor.construct construct_network prepare_accept_sockets
constructed = refl

greets_from_lobby :
    step swapping
      (process_iocp swapping)
      process_disconnect
      (completes (completed 0 1 0 zero_header [] fine))
      lobby
      third_state.1
    ≡ ok fourth_state
unfolding step Network.construct Network.new_overlapped Network.fill_overlapped_queue
    Network.setup_listen_socket Network.fill_socket_queue Network.new_socket
    Network.prepare_accept_socket Network.post_accept Network.take_overlapped Network.hand_over
    CircleQueue.push CircleQueue.pop CircleQueue.construct CircleQueue.reconstruct CircleQueue.size
    Overlapped.construct Overlapped.clear Overlapped.accept_setting Overlapped.memset
    Overlapped.header_size buffer_size_max process_completion Network.deref Completions.dequeue
    Completions.on_completed Completions.system_writes Completions.handle_accept_complete
    Network.insert Network.find Network.call_receive_ready Completions.give_back Network.remove
    LobbyHub.process_iocp LobbyHub.client_accepted LobbyHub.construct Overlapped.receive_setting
    LobbyMonitor.register_lobby_user LobbyMonitor.construct
greets_from_lobby = refl

users-le-prepared_socket_max_example : LobbyMonitor.get_current_user fourth_state.0.monitor ≤ 1
users-le-prepared_socket_max_example =
    users-le-prepared_socket_max swapping 3 1 memory true (λ a. 100 + a) (λ i. fine) (codes "k")
      9000 4 4 1 memory-long constructed (go_on _ begin refl accept-Possible greets_from_lobby)

Reach-accepts_example :
    let counter = user_counter swapping in
    counter.count_of sixth_state.0 + accepts sixth_state.1.heap sixth_state.1.posted
    ≤ counter.count_of lobby
      + prepared swapping (process_iocp swapping) process_disconnect sixth_reach
Reach-accepts_example =
    Reach-accepts (user_counter swapping) swapping lobby_server memory lobby memory-long sixth_reach

-- The receive on the accepted socket, and a completion of it with an empty message.
abbrev receive : Overlapped
receive = Overlapped.receive_setting 5 (blank system_members)

held : (1 ≤ count 2 fourth_state.1.posted) × (1 ≤ count 2 sixth_state.1.posted)
unfolding step Network.construct Network.new_overlapped Network.fill_overlapped_queue
    Network.setup_listen_socket Network.fill_socket_queue Network.new_socket
    Network.prepare_accept_socket Network.post_accept Network.take_overlapped Network.hand_over
    CircleQueue.push CircleQueue.pop CircleQueue.construct CircleQueue.reconstruct CircleQueue.size
    Overlapped.construct Overlapped.clear Overlapped.accept_setting Overlapped.memset
    Overlapped.header_size buffer_size_max process_completion Network.deref Completions.dequeue
    Completions.on_completed Completions.system_writes Completions.handle_accept_complete
    Network.insert Network.find Network.call_receive_ready Completions.give_back Network.remove
    LobbyHub.process_iocp LobbyHub.client_accepted LobbyHub.construct Overlapped.receive_setting
    LobbyMonitor.register_lobby_user LobbyMonitor.construct count
held = (omega arith, omega arith)

abbrev Ready : NetworkManager → Type 0
Ready w =
    (w.heap 2 ≡ some receive) × (w.sockets 5 ≡ some 105) × (find 5 w.connected_socket_map ≡ some 5)

pub ready : Ready fourth_state.1 × Ready sixth_state.1
unfolding step Network.construct Network.new_overlapped Network.fill_overlapped_queue
    Network.setup_listen_socket Network.fill_socket_queue Network.new_socket
    Network.prepare_accept_socket Network.post_accept Network.take_overlapped Network.hand_over
    CircleQueue.push CircleQueue.pop CircleQueue.construct CircleQueue.reconstruct CircleQueue.size
    Overlapped.construct Overlapped.clear Overlapped.accept_setting Overlapped.memset
    Overlapped.header_size buffer_size_max process_completion Network.deref Completions.dequeue
    Completions.on_completed Completions.system_writes Completions.handle_accept_complete
    Network.insert Network.find Network.call_receive_ready Completions.give_back Network.remove
    LobbyHub.process_iocp LobbyHub.client_accepted LobbyHub.construct Overlapped.receive_setting
    LobbyMonitor.register_lobby_user LobbyMonitor.construct
ready = ((refl, refl, refl), (refl, refl, refl))

receive-operation : receive.operation ≡ op_recv
unfolding Overlapped.receive_setting
receive-operation = refl

-- The record with the received header and byte in it.
abbrev filled : Overlapped
filled = record receive { head = zero_header; body = 7 ∷ drop 1 receive.body }

abbrev hub_after : LobbyHub → LobbyHub
hub_after h = elim (process_iocp swapping 5 filled h) [ ok h' ↦ h' | fault e ↦ h ]

callback_returns :
    (process_iocp swapping 5 filled fourth_state.0 ≡ ok (hub_after fourth_state.0))
    × (process_iocp swapping 5 filled sixth_state.0 ≡ ok (hub_after sixth_state.0))
unfolding step Network.construct Network.new_overlapped Network.fill_overlapped_queue
    Network.setup_listen_socket Network.fill_socket_queue Network.new_socket
    Network.prepare_accept_socket Network.post_accept Network.take_overlapped Network.hand_over
    CircleQueue.push CircleQueue.pop CircleQueue.construct CircleQueue.reconstruct CircleQueue.size
    Overlapped.construct Overlapped.clear Overlapped.accept_setting Overlapped.memset
    Overlapped.header_size buffer_size_max process_completion Network.deref Completions.dequeue
    Completions.on_completed Completions.system_writes Completions.handle_accept_complete
    Network.insert Network.find Network.call_receive_ready Completions.give_back Network.remove
    LobbyHub.process_iocp LobbyHub.client_accepted LobbyHub.construct Overlapped.receive_setting
    LobbyMonitor.register_lobby_user LobbyMonitor.construct LobbyHub.packet_received receive_packet
    string_of
callback_returns = (refl, refl)

abbrev message : Bytes
message = 7 ∷ []

body_fits : length message ≤ receive.body_len
unfolding Overlapped.receive_setting buffer_size_max
body_fits = omega arith

cons≢nil : {x : ℕ} {xs : List ℕ} → x ∷ xs ≢ []
cons≢nil e = ground (arith, e)

pub pool_left : pool fourth_state.1 ≢ []
pool_left e = cons≢nil (sym fourth_pool ∙ e)

process_completion-posts_example :
    (q : ℕ) × (m m' : SystemMembers) × (w : NetworkManager) × (process_completion
        (process_iocp swapping)
        process_disconnect
        (completed 5 2 13 zero_header message fine)
        fourth_state.0
        fourth_state.1
      ≡ ok (hub_after fourth_state.0, w))
    × (w.posted ≡ q ∷ remove 2 fourth_state.1.posted)
    × (w.heap q ≡ some (Overlapped.receive_setting 5 (blank m)))
    × (w.heap 2 ≡ some (blank m'))
unfolding Overlapped.receive_setting
process_completion-posts_example =
    process_completion-posts (process_iocp swapping) process_disconnect
      (reached (process_iocp swapping) process_disconnect swapping lobby_server memory lobby
        memory-long fourth_reach).1
      5 2 13 105 zero_header message fine receive fourth_state.0 (hub_after fourth_state.0) held.0
      ready.0.0 receive-operation body_fits refl ready.0.1 refl callback_returns.0 pool_left refl

process_completion-exhausted_example :
    process_completion
      (process_iocp swapping)
      process_disconnect
      (completed 5 2 13 zero_header message fine)
      sixth_state.0
      sixth_state.1
    ≡ fault null_pointer
unfolding Overlapped.receive_setting
process_completion-exhausted_example =
    process_completion-exhausted (process_iocp swapping) process_disconnect
      (reached (process_iocp swapping) process_disconnect swapping lobby_server memory lobby
        memory-long sixth_reach).1
      5 2 13 105 zero_header message fine receive sixth_state.0 (hub_after sixth_state.0) held.1
      ready.1.0 receive-operation body_fits refl ready.1.1 refl callback_returns.1 sixth_pool

abbrev disconnected : NetworkManager
disconnected = without 5 5 fourth_state.1

reports-lost_example :
    ((n : ℕ)
      → reports (process_iocp swapping) process_disconnect 5 (suc n) fourth_state.0 fourth_state.1
        ≡ ok (process_disconnect 5 fourth_state.0, disconnected))
    × ((order : HostOrder) (content_type : ℕ) (buffer : Bytes) (size : ℕ) (taken : Bool)
        → send_request order 5 content_type buffer size taken disconnected
          ≡ ok (false, disconnected))
    × (process_completion
          (process_iocp swapping)
          process_disconnect
          (completed 5 2 13 zero_header message fine)
          fourth_state.0
          disconnected
        ≡ fault null_pointer)
unfolding Overlapped.receive_setting
reports-lost_example =
    reports-lost (process_iocp swapping) process_disconnect 5 5 fourth_state.1 105 2 13
      system_members zero_header message fine fourth_state.0 fourth_state.0
      (hub_after fourth_state.0) ready.0.2 ready.0.1 refl refl ready.0.0 body_fits refl
      callback_returns.0
