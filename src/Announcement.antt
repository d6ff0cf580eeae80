-- ===== src/Announcement.antt =====
-- The lobby server's announcement to the control server, from the one's hub over its network manager
-- to the other's hub.
use iocp_j_server.Base.{
  ℕ, ◌*◌, ◌≤◌, ◌<◌, ◌≡◌, ◌≢◌, refl, arith, Bool, true, some, [], ◌∷◌, ◌++◌, length, take, Bytes, ok,
}
use iocp_j_server.CircleQueue
use iocp_j_server.CircleQueue.{print}
use iocp_j_server.CircleQueue.Inv.{IsValid}
use iocp_j_server.CircleQueue.Single.{empty-single, pop-single}
use iocp_j_server.Wire.{sender_number, op_recv, HostOrder, IsLittleEndian, Packet, receive_packet}
use iocp_j_server.Overlapped.{Overlapped, buffer_size_max}
use iocp_j_server.Json.{Floats}
use iocp_j_server.Redis.{Server}
use iocp_j_server.Protocol.{FlatBuffers, IsFlatBuffers}
use iocp_j_server.LobbyMonitor
use iocp_j_server.LobbyJobs
use iocp_j_server.LobbyJobs.{JobOutput}
use iocp_j_server.LobbyHub
use iocp_j_server.LobbyHub.{LobbyHub, shared, control_connected}
use iocp_j_server.Hubs.{request_send_message}
use iocp_j_server.ControlJobs
use iocp_j_server.ControlHub
use iocp_j_server.ControlHub.{Hub, push_job}
use iocp_j_server.ControlHub.Requests.{dispatch-ready_pushes}
use iocp_j_server.Network.{NetworkManager, find}
use iocp_j_server.Network.Ownership.{Owns, pool}
use iocp_j_server.Network.Delivery.{send_request-delivers}

-- The job of the announcement.
abbrev pub notice : ℕ → LobbyHub → LobbyJobs.LobbyJob
notice key lobby =
    LobbyJobs.job_notice_lobby_ready key lobby.lobby_key lobby.lobby_port
      (LobbyMonitor.get_capacity lobby.monitor) lobby.is_on

module _ (fb : FlatBuffers) (key : ℕ) (lobby : LobbyHub) (jobs_valid : IsValid lobby.job_queue)
    (no_job : print shared lobby.job_queue ≡ [])
    (job_room : 1 < lobby.job_queue.queue_max_size) where
  announced-job :
      (h : LobbyHub) × (LobbyHub.job_round fb (control_connected key lobby)
        ≡ ok (some (LobbyJobs.execute fb (notice key lobby)), h))
  unfolding control_connected LobbyHub.job_round LobbyJobs.execute
  announced-job = (
    record (control_connected key lobby) {
      job_queue =
          (CircleQueue.pop shared (CircleQueue.push (some (notice key lobby)) lobby.job_queue).1).1;
    },
    rw (
      empty-single shared (some (notice key lobby)) jobs_valid no_job job_room,
      pop-single shared (some (notice key lobby)) jobs_valid no_job job_room,
    ),
  )

module _ {f : Floats} {r : Server} (fb : FlatBuffers) (laws : IsFlatBuffers fb) (order : HostOrder)
    (g : Hub f r) (packets_valid : IsValid g.packet_queue)
    (no_packet : print shared g.packet_queue ≡ [])
    (packet_room : 1 < g.packet_queue.queue_max_size) where
  -- What the control server makes of a record that carries an announcement.
  taken-up :
      (socket sender came_over : ℕ) (lobby_key : Bytes) (port capacity : ℕ) (active : Bool)
      (o : Overlapped)
      → let out =
          LobbyJobs.execute fb
            (LobbyJobs.job_notice_lobby_ready socket lobby_key port capacity active) in
        o.operation ≡ op_recv
        → receive_packet order came_over o.head o.body
          ≡ ok (record {
            sender_type = sender;
            completion_key = came_over;
            contents_type = out.contents_type;
            buffer = out.buffer;
          })
        → (g' g'' : Hub f r) × (ControlHub.process_iocp f r order came_over o g ≡ ok g')
          × (ControlHub.receive_round f r fb g' ≡ ok g'')
          × (g''.job_queue
              ≡ (CircleQueue.push
                  (some
                    (ControlJobs.job_notice_lobby_ready came_over lobby_key port capacity active))
                  g.job_queue).1)
  unfolding ControlHub.process_iocp ControlHub.packet_received ControlHub.receive_round push_job
  taken-up socket sender came_over lobby_key port capacity active o receives reads =
      let out =
        LobbyJobs.execute fb
          (LobbyJobs.job_notice_lobby_ready socket lobby_key port capacity active) in
      let packet : Packet = record {
        sender_type = sender;
        completion_key = came_over;
        contents_type = out.contents_type;
        buffer = out.buffer;
      } in
      let g' : Hub f r = record g {
        packet_queue = (CircleQueue.push (some packet) g.packet_queue).1;
      } in
      let rest : Hub f r = record g' {
        packet_queue = (CircleQueue.pop shared g'.packet_queue).1;
      } in
      (
        g',
        push_job f r (ControlJobs.job_notice_lobby_ready came_over lobby_key port capacity active)
            rest,
        rw (receives, reads),
        rw
            (
              empty-single shared (some packet) packets_valid no_packet packet_room,
              pop-single shared (some packet) packets_valid no_packet packet_room,
            )
            (dispatch-ready_pushes f r fb laws socket sender came_over lobby_key port capacity
              active rest),
        refl,
      )

module _ {f : Floats} {r : Server} (fb : FlatBuffers) (laws : IsFlatBuffers fb) (order : HostOrder)
    (little : IsLittleEndian order) (key socket handle : ℕ) (lobby : LobbyHub)
    (jobs_valid : IsValid lobby.job_queue) (no_job : print shared lobby.job_queue ≡ [])
    (job_room : 1 < lobby.job_queue.queue_max_size) {n k : ℕ} {w : NetworkManager}
    (owns : Owns n k [] w) (some_left : pool w ≢ [])
    (known : find key w.connected_socket_map ≡ some socket) (live : w.sockets socket ≡ some handle)
    (fits : length (LobbyJobs.execute fb (notice key lobby)).buffer ≤ buffer_size_max) (g : Hub f r)
    (packets_valid : IsValid g.packet_queue) (no_packet : print shared g.packet_queue ≡ [])
    (packet_room : 1 < g.packet_queue.queue_max_size) where
  -- Once the connection to the control server completes, the lobby's next round of its job thread
  -- hands out one message, and RequestSendMessage posts it, in a record `o`. Whatever the record is in
  -- which the control server receives those bytes, its ProcessIocp and the next round of its receive
  -- thread queue one job, with the lobby's key, port, capacity and state. This is for queues that are
  -- empty with room for one element, a message that fits the buffer, a pool that is not empty, a known
  -- live connection that takes the message, and a little-endian host.
  pub control_connected-announced :
      (h : LobbyHub) × (out : JobOutput) × (q : ℕ) × (o : Overlapped) × (w' : NetworkManager)
      × (LobbyHub.job_round fb (control_connected key lobby) ≡ ok (some out, h))
      × (request_send_message order out true w ≡ ok (true, w'))
      × (w'.posted ≡ q ∷ w.posted)
      × (w'.heap q ≡ some o)
      × ((came_over : ℕ) (rest : Bytes) (p : Overlapped)
          → p.operation ≡ op_recv
          → p.head ≡ o.head
          → p.body ≡ take o.body_len o.body ++ rest
          → (g' g'' : Hub f r) × (ControlHub.process_iocp f r order came_over p g ≡ ok g')
            × (ControlHub.receive_round f r fb g' ≡ ok g'')
            × (g''.job_queue
                ≡ (CircleQueue.push
                    (some (
                      ControlJobs.job_notice_lobby_ready came_over lobby.lobby_key lobby.lobby_port
                        (LobbyMonitor.get_capacity lobby.monitor)
                        lobby.is_on))
                    g.job_queue).1))
  unfolding request_send_message LobbyJobs.execute
  control_connected-announced =
      let job = notice key lobby in
      let out : JobOutput = LobbyJobs.execute fb job in
      let (h, works) = announced-job fb key lobby jobs_valid no_job job_room in
      let (q, o, w', sends, posted, carried, op, arrives) =
        send_request-delivers order little owns key socket handle out.contents_type out.buffer known
          live fits some_left (omega arith) in
      (
        h,
        out,
        q,
        o,
        w',
        works,
        sends,
        posted,
        carried,
        λ came_over rest p receives same_head same_body.
            taken-up fb laws order g packets_valid no_packet packet_room key
              (16777216 * sender_number w.sender_type) came_over lobby.lobby_key lobby.lobby_port
              (LobbyMonitor.get_capacity lobby.monitor) lobby.is_on p receives
              (rw (same_head, same_body) (arrives came_over rest)),
      )
