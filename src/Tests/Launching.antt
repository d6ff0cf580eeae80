-- ===== src/Tests/Launching.antt =====
-- A lobby server that is started without arguments, and announces itself to an idle control server.
use iocp_j_server.Base.{
  ◌+◌, ◌==◌, false, ℕ, ◌≤◌, ◌≡◌, refl, arith, true, some, [], ◌∷◌, ◌++◌, length, take, Bytes, ok,
}
use iocp_j_server.CircleQueue
use iocp_j_server.CircleQueue.{print, size}
use iocp_j_server.Wire.{op_recv, MessageHeader}
use iocp_j_server.Overlapped.{Overlapped, buffer_size_max}
use iocp_j_server.Protocol.{create_notice_lobby_ready}
use iocp_j_server.LobbyJobs.{JobOutput}
use iocp_j_server.LobbyHub
use iocp_j_server.LobbyHub.{shared, LobbyHub, process_iocp, process_disconnect}
use iocp_j_server.LobbyHub.Main.{main}
use iocp_j_server.ControlJobs
use iocp_j_server.ControlHub
use iocp_j_server.ControlHub.{Hub}
use iocp_j_server.Startup.{lobby_defaults, read_arguments}
use iocp_j_server.Hubs.{request_send_message}
use iocp_j_server.Network.{NetworkManager, Answer}
use iocp_j_server.Network.Completions.{completed, process_completion}
use iocp_j_server.Network.Ownership.{count}
use iocp_j_server.LobbyStart.{main-announces}
use iocp_j_server.Tests.Samples.{
  swapping, swapping-IsLittleEndian, triples, triples-IsFlatBuffers, whole_floats, one_page,
}
use iocp_j_server.Tests.Connections.{memory-long}
use iocp_j_server.Tests.Lobbies.{idle_hub}
use iocp_j_server.Tests.Announcing.{hub-IsIdle}
use iocp_j_server.Tests.Settings.{machine}

notice-fits :
    length (
      triples.finish (
        create_notice_lobby_ready triples lobby_defaults.server_key lobby_defaults.server_port 100
          true))
    ≤ buffer_size_max
unfolding buffer_size_max create_notice_lobby_ready
notice-fits = omega arith

reads-defaults : read_arguments lobby_defaults [] ≡ some lobby_defaults
unfolding read_arguments
reads-defaults = refl

idle-room : (size idle_hub.job_queue + 1 == idle_hub.job_queue.queue_max_size) ≡ false
unfolding ControlHub.construct CircleQueue.construct size
idle-room = refl

main-announces_example :
    (h : LobbyHub) × (w : NetworkManager) × (p : ℕ) × (main [] machine 7 true true true
      ≡ ok (some (h, w)))
    × (1 ≤ count p w.posted)
    × ((key bytes : ℕ) (head : MessageHeader) (body : Bytes) (answer : Answer)
        → answer.error_code ≡ 0
        → answer.taken ≡ true
        → (h1 h2 : LobbyHub) × (w1 w2 : NetworkManager) × (out : JobOutput) × (q : ℕ)
          × (o : Overlapped) × (process_completion
                (process_iocp swapping)
                process_disconnect
                (completed key p bytes head body answer)
                h
                w
              ≡ ok (h1, w1))
          × (LobbyHub.job_round triples h1 ≡ ok (some out, h2))
          × (request_send_message swapping out true w1 ≡ ok (true, w2))
          × (w2.posted ≡ q ∷ w1.posted)
          × (w2.heap q ≡ some o)
          × ((came_over : ℕ) (rest : Bytes) (received : Overlapped)
              → received.operation ≡ op_recv
              → received.head ≡ o.head
              → received.body ≡ take o.body_len o.body ++ rest
              → (g' g'' : Hub whole_floats one_page) × (ControlHub.process_iocp whole_floats
                    one_page swapping came_over received idle_hub
                  ≡ ok g')
                × (ControlHub.receive_round whole_floats one_page triples g' ≡ ok g'')
                × (print shared g''.job_queue
                    ≡ print shared idle_hub.job_queue
                      ++ some (
                          ControlJobs.job_notice_lobby_ready came_over lobby_defaults.server_key
                            9091 100 true)
                        ∷ [])))
main-announces_example =
    main-announces triples triples-IsFlatBuffers swapping swapping-IsLittleEndian idle_hub
      hub-IsIdle.0 hub-IsIdle.1.0 idle-room lobby_defaults machine memory-long refl
      (λ i. (refl, refl)) (omega arith) (omega arith) notice-fits [] 7 reads-defaults
