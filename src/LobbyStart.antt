-- ===== src/LobbyStart.antt =====
-- A lobby server from its command line to its announcement in the control server's queue.
use iocp_j_server.Base.{
  ◌<◌, false, ◌==◌, ℕ, ◌+◌, ◌≤◌, ◌≡◌, ◌≢◌, refl, ap, ◌∙◌, arith, true, none, some, List, [], ◌∷◌,
  ◌++◌, length, take, Bytes, ok,
}
use iocp_j_server.CircleQueue
use iocp_j_server.CircleQueue.{Queue, print, size}
use iocp_j_server.CircleQueue.Inv.{IsValid, construct-IsValid}
use iocp_j_server.CircleQueue.Steps.{print-push_room}
use iocp_j_server.CircleQueue.Refine.{print-construct}
use iocp_j_server.CircleQueue.Single.{IsIdle}
use iocp_j_server.Wire.{control_server, op_recv, HostOrder, IsLittleEndian, MessageHeader}
use iocp_j_server.Overlapped.{SystemMembers, connect_setting, Overlapped, buffer_size_max}
use iocp_j_server.Json.{Floats}
use iocp_j_server.Redis.{Server}
use iocp_j_server.Protocol.{FlatBuffers, IsFlatBuffers, create_notice_lobby_ready}
use iocp_j_server.LobbyMonitor
use iocp_j_server.LobbyJobs
use iocp_j_server.LobbyJobs.{JobOutput}
use iocp_j_server.LobbyHub
use iocp_j_server.LobbyHub.{
  LobbyHub, shared, control_connected, control_sever_info_setting, process_iocp, process_disconnect,
}
use iocp_j_server.LobbyHub.Main.{launch, main}
use iocp_j_server.ControlJobs
use iocp_j_server.ControlHub
use iocp_j_server.ControlHub.{Hub}
use iocp_j_server.Startup.{Arguments, lobby_defaults, read_arguments}
use iocp_j_server.Hubs.{
  bring_up_lem, Machine, lobby_roles, connect_control_server, request_send_message,
}
use iocp_j_server.Hubs.Listening.{AllFine, construct_network-comes_up}
use iocp_j_server.Network.{NetworkManager, Answer, find}
use iocp_j_server.Network.Completions.{completed, process_completion}
use iocp_j_server.Network.Connecting.{
  connection, setup_connect_socket-posts, process_completion-connects,
}
use iocp_j_server.Network.Ownership.{Owns, pool, count, length-remove}
use iocp_j_server.Announcement.{control_connected-announced}

-- The hub that `main` makes.
abbrev pub hub_of : Arguments → LobbyHub
hub_of a =
    control_sever_info_setting a.control_server_ip a.control_server_port
      (LobbyHub.construct a.server_key a.server_port a.overlapped_queue_max 100 100)

hub_of-IsIdle : (a : Arguments) → 1 ≤ a.overlapped_queue_max → IsIdle shared (hub_of a).job_queue
unfolding LobbyHub.construct CircleQueue.construct control_sever_info_setting
hub_of-IsIdle a some_jobs = (
  construct-IsValid shared a.overlapped_queue_max,
  print-construct shared a.overlapped_queue_max,
  omega arith,
)

cons≢nil : {xs : List ℕ} → 1 ≤ length xs → xs ≢ []
cons≢nil h e = let none_left = ap length e in omega (arith, h, none_left)

first-held : (p : ℕ) {ps qs : List ℕ} → ps ≡ p ∷ qs → 1 ≤ count p ps
unfolding count
first-held p e = ground (arith, ap (count p) e)

module _ (a : Arguments) (machine : Machine)
    (long : (i : ℕ) → length (machine.memory i).1 ≡ buffer_size_max) (found : machine.found ≡ true)
    (fine : AllFine machine.answers)
    (enough : a.pre_create_socket_count + 2 ≤ a.overlapped_queue_max)
    (is_int : a.overlapped_queue_max < 2147483647) (handle : ℕ) where
  -- The lobby comes up, and its connection is asked for in the record `p` for the socket `target`.
  launch-connects :
      (k : ℕ) × (target p : ℕ) × (m : SystemMembers) × (w : NetworkManager) × (launch a machine
          handle true true true
        ≡ ok (hub_of a, w))
      × Owns a.overlapped_queue_max k [] w
      × (1 ≤ count p w.posted)
      × (w.heap p ≡ some (connection m target control_server))
      × (w.sockets target ≡ some handle)
      × (find target w.connected_socket_map ≡ none)
      × (1 ≤ length (pool w))
  unfolding launch connect_control_server find
  launch-connects =
      let (k, listening, returns, owns, posted, accepting, dropped, nobody) =
        construct_network-comes_up lobby_roles a.overlapped_queue_max a.pre_create_socket_count
          machine.memory machine.handles machine.answers long fine (omega (arith, enough)) in
      let left : 2 ≤ length (pool listening) =
        omega (arith, enough, owns.total, posted, ap length dropped) in
      let (p, m, w, connects, owns', posted', dropped', there, live, known) =
        setup_connect_socket-posts owns control_server handle (cons≢nil (omega (arith, left))) in
      (
        k,
        listening.next_address,
        p,
        m,
        w,
        rw
            (
              bring_up_lem lobby_roles a.overlapped_queue_max a.pre_create_socket_count machine
                  is_int (omega (arith, enough, is_int)),
              found,
              returns,
              not_minus,
              connects,
            )
            refl,
        owns',
        first-held p posted',
        there,
        live,
        ap (find listening.next_address) (known ∙ nobody),
        omega (arith, left, owns.total, owns'.total, ap length posted', ap length dropped'),
      )
    where
      not_minus : (a.overlapped_queue_max == 4294967295) ≡ false
      not_minus = ground (arith, is_int)

-- The lobby's ProcessIocp takes the completed connection for that to the control server.
connection-process_iocp :
    (order : HostOrder) (m : SystemMembers) (target : ℕ) (h : LobbyHub)
    → process_iocp order target (connection m target control_server) h
      ≡ ok (control_connected target h)
unfolding process_iocp connect_setting
connection-process_iocp order m target h = refl

module _ {f : Floats} {r : Server} (fb : FlatBuffers) (laws : IsFlatBuffers fb) (order : HostOrder)
    (little : IsLittleEndian order) (g : Hub f r) (packets_idle : IsIdle shared g.packet_queue)
    (jobs_valid : IsValid g.job_queue)
    (job_room : (size g.job_queue + 1 == g.job_queue.queue_max_size) ≡ false) (a : Arguments)
    (machine : Machine) (long : (i : ℕ) → length (machine.memory i).1 ≡ buffer_size_max)
    (found : machine.found ≡ true) (fine : AllFine machine.answers)
    (enough : a.pre_create_socket_count + 2 ≤ a.overlapped_queue_max)
    (is_int : a.overlapped_queue_max < 2147483647)
    (fits : length (fb.finish (create_notice_lobby_ready fb a.server_key a.server_port 100 true))
      ≤ buffer_size_max) where
  -- A lobby server whose command line reads as `a`, with at least two more overlapped records than
  -- prepared sockets and fewer than 2147483647, and with good answers of the system: `main` comes to `Start` with its
  -- connection to the control server asked for. However that completes, if the socket has no error
  -- and the next receive is taken: the round of the completion loop, one round of the job thread
  -- and RequestSendMessage post one message. Where the control server receives its bytes, in a
  -- packet queue that is empty with room for one element, its ProcessIocp and one round of its
  -- receive thread put one job at the end of its job queue, if that has room, with the key and the
  -- port of the command line and a capacity of 100. The message is to fit the buffer, and the host to be little-endian.
  pub main-announces :
      (argv : List Bytes) (handle : ℕ)
      → read_arguments lobby_defaults argv ≡ some a
      → (h : LobbyHub) × (w : NetworkManager) × (p : ℕ) × (main argv machine handle true true true
          ≡ ok (some (h, w)))
        × (1 ≤ count p w.posted)
        × ((key bytes : ℕ) (head : MessageHeader) (body : Bytes) (answer : Answer)
            → answer.error_code ≡ 0
            → answer.taken ≡ true
            → (h1 h2 : LobbyHub) × (w1 w2 : NetworkManager) × (out : JobOutput) × (q : ℕ)
              × (o : Overlapped) × (process_completion
                    (process_iocp order)
                    process_disconnect
                    (completed key p bytes head body answer)
                    h
                    w
                  ≡ ok (h1, w1))
              × (LobbyHub.job_round fb h1 ≡ ok (some out, h2))
              × (request_send_message order out true w1 ≡ ok (true, w2))
              × (w2.posted ≡ q ∷ w1.posted)
              × (w2.heap q ≡ some o)
              × ((came_over : ℕ) (rest : Bytes) (received : Overlapped)
                  → received.operation ≡ op_recv
                  → received.head ≡ o.head
                  → received.body ≡ take o.body_len o.body ++ rest
                  → (g' g'' : Hub f r) × (ControlHub.process_iocp f r order came_over received g
                      ≡ ok g')
                    × (ControlHub.receive_round f r fb g' ≡ ok g'')
                    × (print shared g''.job_queue
                        ≡ print shared g.job_queue
                          ++ some (
                              ControlJobs.job_notice_lobby_ready came_over a.server_key
                                a.server_port 100 true)
                            ∷ [])))
  unfolding main LobbyHub.construct control_sever_info_setting LobbyMonitor.construct
      LobbyMonitor.get_capacity LobbyJobs.execute
  main-announces argv handle reads =
      let (k, target, p, m, w, launches, owns, held, there, live, unknown, left) =
        launch-connects a machine long found fine enough is_int handle in
      let (own_jobs_valid, no_job, own_job_room) = hub_of-IsIdle a (omega (arith, enough)) in
      let (packets_valid, no_packet, packet_room) = packets_idle in
      (
        hub_of a,
        w,
        p,
        rw (reads, main) (rw launches refl),
        held,
        λ key bytes head body answer no_error taken.
            let (q1, w1, completes, owns1, posted1, dropped1, live1, known1) =
              process_completion-connects (process_iocp order) process_disconnect owns key p bytes
                target handle control_server m head body answer (hub_of a)
                (control_connected target (hub_of a)) held there live (ground arith) taken
                (cons≢nil left) unknown (connection-process_iocp order m target (hub_of a)) in
            let (h2, out, q, o, w2, works, sends, posted, carried, arrives) =
              control_connected-announced fb laws order little target target handle (hub_of a)
                own_jobs_valid no_job own_job_room owns1
                (cons≢nil (
                  omega (
                    arith,
                    left,
                    owns.total,
                    owns1.total,
                    ap length posted1,
                    ap length dropped1,
                    length-remove p w.posted held,
                  )))
                known1 live1 fits g packets_valid no_packet packet_room in
            (
              control_connected target (hub_of a),
              h2,
              w1,
              w2,
              out,
              q,
              o,
              completes,
              works,
              sends,
              posted,
              carried,
              λ came_over rest received receives same_head same_body.
                  let (g', g'', kept, taken_up, queued) =
                    arrives came_over rest received receives same_head same_body in
                  (
                    g',
                    g'',
                    kept,
                    taken_up,
                    ap (print shared) queued ∙ print-push_room shared _ jobs_valid job_room,
                  ),
            ),
      )
