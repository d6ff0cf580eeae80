-- ===== src/Tests/Connections.antt =====
-- A lobby on its network manager that accepts a client, as a concrete run.
use iocp_j_server.Overlapped.{Fresh, SystemMembers}
use iocp_j_server.Base.{
  ℕ, ◌+◌, ◌≡◌, refl, arith, true, [], ◌∷◌, replicate, length, length-replicate, Outcome, ok, fault,
  codes,
}
use iocp_j_server.Wire.{client, lobby_server}
use iocp_j_server.CircleQueue
use iocp_j_server.Overlapped
use iocp_j_server.Overlapped.{Overlapped, zero_header, buffer_size_max}
use iocp_j_server.LobbyMonitor
use iocp_j_server.LobbyHub
use iocp_j_server.LobbyHub.{LobbyHub, process_iocp, process_disconnect}
use iocp_j_server.Network
use iocp_j_server.Network.{NetworkManager, Answer, remove, find, send_request, call_receive_ready}
use iocp_j_server.Network.Completions
use iocp_j_server.Network.Completions.{
  Completion, completed, process_completion, handle_disconnect_complete,
}
use iocp_j_server.Network.Ownership.{count, pool}
use iocp_j_server.Network.Calls.{
  Call, sets_up, prepares, completes, Possible, Reach, start, next, step,
}
use iocp_j_server.Tests.Samples.{swapping}

abbrev pub system_members : SystemMembers
system_members = record { internal = 259; internal_high = 0; offset = 7; offset_high = 0 }

abbrev pub memory : ℕ → Fresh
memory a = (zero_header, replicate buffer_size_max 0, system_members)

pub memory-long : (a : ℕ) → length (memory a).1 ≡ buffer_size_max
memory-long a = length-replicate buffer_size_max 0

abbrev pub lobby : LobbyHub
lobby = LobbyHub.construct (codes "k") 9000 4 4 1

abbrev pub fine : Answer
fine = record { error_code = 0; taken = true }

abbrev State : Type 0
State = LobbyHub × NetworkManager

abbrev does : Call → State → Outcome State
does c s = step swapping (process_iocp swapping) process_disconnect c s.0 s.1

-- The state after a call that returns.
abbrev after : Call → State → State
after c s = elim (does c s) [ ok t ↦ t | fault e ↦ s ]

abbrev first_state : State
first_state = (lobby, Network.construct lobby_server 3 memory)

abbrev second_state : State
second_state = after (sets_up 1 true (λ a. 100 + a)) first_state

abbrev pub third_state : State
third_state = after (prepares client fine (λ a. 100 + a)) second_state

abbrev pub fourth_state : State
fourth_state = after (completes (completed 0 1 0 zero_header [] fine)) third_state

abbrev LobbyReach : State → Type 0
LobbyReach s =
    Reach swapping (process_iocp swapping) process_disconnect lobby_server 3 memory lobby s.0 s.1

sets : does (sets_up 1 true (λ a. 100 + a)) first_state ≡ ok second_state
unfolding step
sets = refl

accepts_client : does (prepares client fine (λ a. 100 + a)) second_state ≡ ok third_state
unfolding step Network.construct Network.new_overlapped Network.fill_overlapped_queue
    Network.setup_listen_socket Network.fill_socket_queue Network.new_socket
    Network.prepare_accept_socket Network.post_accept Network.take_overlapped Network.hand_over
    CircleQueue.push CircleQueue.pop CircleQueue.construct CircleQueue.reconstruct CircleQueue.size
    Overlapped.construct Overlapped.clear Overlapped.accept_setting Overlapped.memset
    Overlapped.header_size buffer_size_max
accepts_client = refl

greets_client : does (completes (completed 0 1 0 zero_header [] fine)) third_state ≡ ok fourth_state
unfolding step Network.construct Network.new_overlapped Network.fill_overlapped_queue
    Network.setup_listen_socket Network.fill_socket_queue Network.new_socket
    Network.prepare_accept_socket Network.post_accept Network.take_overlapped Network.hand_over
    CircleQueue.push CircleQueue.pop CircleQueue.construct CircleQueue.reconstruct CircleQueue.size
    Overlapped.construct Overlapped.clear Overlapped.accept_setting Overlapped.memset
    Overlapped.header_size buffer_size_max process_completion Network.deref Completions.dequeue
    Completions.on_completed Completions.system_writes Completions.handle_accept_complete
    Network.insert Network.find Network.call_receive_ready Completions.give_back Network.remove
    LobbyHub.process_iocp LobbyHub.client_accepted LobbyHub.construct Overlapped.receive_setting
    LobbyMonitor.register_lobby_user LobbyMonitor.construct
greets_client = refl

pub accept-Possible : Possible (completes (completed 0 1 0 zero_header [] fine)) third_state.1
unfolding step Network.construct Network.new_overlapped Network.fill_overlapped_queue
    Network.setup_listen_socket Network.fill_socket_queue Network.new_socket
    Network.prepare_accept_socket Network.post_accept Network.take_overlapped Network.hand_over
    CircleQueue.push CircleQueue.pop CircleQueue.construct CircleQueue.reconstruct CircleQueue.size
    Overlapped.construct Overlapped.clear Overlapped.accept_setting Overlapped.memset
    Overlapped.header_size buffer_size_max process_completion Network.deref Completions.dequeue
    Completions.on_completed Completions.system_writes Completions.handle_accept_complete
    Network.insert Network.find Network.call_receive_ready Completions.give_back Network.remove
    LobbyHub.process_iocp LobbyHub.client_accepted LobbyHub.construct Overlapped.receive_setting
    LobbyMonitor.register_lobby_user LobbyMonitor.construct count
accept-Possible = (omega arith, omega arith)

pub fourth_reach : LobbyReach fourth_state
fourth_reach =
    next _ (next _ (next _ start tt sets) tt accepts_client) accept-Possible greets_client

abbrev more : Call
more = prepares client fine (λ a. 100 + a)

abbrev fifth_state : State
fifth_state = after more fourth_state

abbrev pub sixth_state : State
sixth_state = after more fifth_state

fifth_does : does more fourth_state ≡ ok fifth_state
unfolding step Network.construct Network.new_overlapped Network.fill_overlapped_queue
    Network.setup_listen_socket Network.fill_socket_queue Network.new_socket
    Network.prepare_accept_socket Network.post_accept Network.take_overlapped Network.hand_over
    CircleQueue.push CircleQueue.pop CircleQueue.construct CircleQueue.reconstruct CircleQueue.size
    Overlapped.construct Overlapped.clear Overlapped.accept_setting Overlapped.memset
    Overlapped.header_size buffer_size_max process_completion Network.deref Completions.dequeue
    Completions.on_completed Completions.system_writes Completions.handle_accept_complete
    Network.insert Network.find Network.call_receive_ready Completions.give_back Network.remove
    LobbyHub.process_iocp LobbyHub.client_accepted LobbyHub.construct Overlapped.receive_setting
    LobbyMonitor.register_lobby_user LobbyMonitor.construct
fifth_does = refl

sixth_does : does more fifth_state ≡ ok sixth_state
unfolding step Network.construct Network.new_overlapped Network.fill_overlapped_queue
    Network.setup_listen_socket Network.fill_socket_queue Network.new_socket
    Network.prepare_accept_socket Network.post_accept Network.take_overlapped Network.hand_over
    CircleQueue.push CircleQueue.pop CircleQueue.construct CircleQueue.reconstruct CircleQueue.size
    Overlapped.construct Overlapped.clear Overlapped.accept_setting Overlapped.memset
    Overlapped.header_size buffer_size_max process_completion Network.deref Completions.dequeue
    Completions.on_completed Completions.system_writes Completions.handle_accept_complete
    Network.insert Network.find Network.call_receive_ready Completions.give_back Network.remove
    LobbyHub.process_iocp LobbyHub.client_accepted LobbyHub.construct Overlapped.receive_setting
    LobbyMonitor.register_lobby_user LobbyMonitor.construct
sixth_does = refl

pub sixth_pool : pool sixth_state.1 ≡ []
unfolding step Network.construct Network.new_overlapped Network.fill_overlapped_queue
    Network.setup_listen_socket Network.fill_socket_queue Network.new_socket
    Network.prepare_accept_socket Network.post_accept Network.take_overlapped Network.hand_over
    CircleQueue.push CircleQueue.pop CircleQueue.construct CircleQueue.reconstruct CircleQueue.size
    Overlapped.construct Overlapped.clear Overlapped.accept_setting Overlapped.memset
    Overlapped.header_size buffer_size_max process_completion Network.deref Completions.dequeue
    Completions.on_completed Completions.system_writes Completions.handle_accept_complete
    Network.insert Network.find Network.call_receive_ready Completions.give_back Network.remove
    LobbyHub.process_iocp LobbyHub.client_accepted LobbyHub.construct Overlapped.receive_setting
    LobbyMonitor.register_lobby_user LobbyMonitor.construct CircleQueue.print CircleQueue.print_from
sixth_pool = refl

pub fourth_pool : pool fourth_state.1 ≡ 3 ∷ 1 ∷ []
unfolding step Network.construct Network.new_overlapped Network.fill_overlapped_queue
    Network.setup_listen_socket Network.fill_socket_queue Network.new_socket
    Network.prepare_accept_socket Network.post_accept Network.take_overlapped Network.hand_over
    CircleQueue.push CircleQueue.pop CircleQueue.construct CircleQueue.reconstruct CircleQueue.size
    Overlapped.construct Overlapped.clear Overlapped.accept_setting Overlapped.memset
    Overlapped.header_size buffer_size_max process_completion Network.deref Completions.dequeue
    Completions.on_completed Completions.system_writes Completions.handle_accept_complete
    Network.insert Network.find Network.call_receive_ready Completions.give_back Network.remove
    LobbyHub.process_iocp LobbyHub.client_accepted LobbyHub.construct Overlapped.receive_setting
    LobbyMonitor.register_lobby_user LobbyMonitor.construct CircleQueue.print CircleQueue.print_from
fourth_pool = refl

pub sixth_reach : LobbyReach sixth_state
sixth_reach = next _ (next _ fourth_reach tt fifth_does) tt sixth_does
