-- ===== src/Answering.antt =====
-- The control server's answer to a request for a lobby, from the completion of its receive on the hub
-- to the message that the network manager posts.
use iocp_j_server.Base.{
  List, Bool-cases, inl, inr, bytes_eq, bytes_eq→eq, ap, sym, ◌∙◌, ◌⊎◌, if◌then◌else◌, ℕ, ◌≤◌, ◌≡◌,
  ◌≢◌, refl, arith, true, false, some, [], ◌∷◌, ◌++◌, length, take, Bytes, ok,
}
use iocp_j_server.CircleQueue
use iocp_j_server.CircleQueue.{Queue, print}
use iocp_j_server.CircleQueue.Single.{IsIdle, empty-single, pop-single}
use iocp_j_server.Wire.{op_recv, HostOrder, IsLittleEndian, Packet, receive_packet}
use iocp_j_server.Overlapped.{Overlapped, buffer_size_max}
use iocp_j_server.Json.{Floats, JsonLibrary, LobbyInfo}
use iocp_j_server.Redis.{Server, scan_multiple_result}
use iocp_j_server.Protocol.{
  message_number, FlatBuffers, IsFlatBuffers, response_feedback, response_lobby_key, response_port,
}
use iocp_j_server.Protocol.Tables.{response_lobby_info_lem}
use iocp_j_server.LobbyManager.{
  table, Best, start, search_rows, search_best_lobby, response_lobby_info,
}
use iocp_j_server.LobbyManager.Optimal.{
  IsFloat, Reads, SomeChosen, NoneBetter, NoneEligible, search_rows_lem,
}
use iocp_j_server.LobbyJobs.{JobOutput}
use iocp_j_server.ControlJobs
use iocp_j_server.ControlJobs.{response_output}
use iocp_j_server.LobbyHub.{shared}
use iocp_j_server.ControlHub
use iocp_j_server.ControlHub.{Hub, push_job}
use iocp_j_server.Hubs.{request_send_message}
use iocp_j_server.Network.{NetworkManager, find}
use iocp_j_server.Network.Ownership.{Owns, pool}
use iocp_j_server.Network.Delivery.{send_request-delivers}

-- The request as the hub reads it.
abbrev pub request : ℕ → ℕ → Bytes → Packet
request came_over sender text = record {
  sender_type = sender;
  completion_key = came_over;
  contents_type = 1;
  buffer = text;
}

module _ {f : Floats} (j : JsonLibrary f) {r : Server} (fb : FlatBuffers) (order : HostOrder)
    (came_over : ℕ) (g : Hub f r) where
  abbrev asked : ControlJobs.ControlJob
  asked = ControlJobs.job_request_lobby_info came_over

  -- The hub with the request's packet, and with its job.
  abbrev packet_kept : ℕ → Bytes → Hub f r
  packet_kept sender text = record g {
    packet_queue = (CircleQueue.push (some (request came_over sender text)) g.packet_queue).1;
  }

  abbrev job_kept : ℕ → Bytes → Hub f r
  job_kept sender text = push_job f r asked (record g {
    packet_queue = (CircleQueue.pop shared (packet_kept sender text).packet_queue).1;
  })

  request-taken :
      (sender : ℕ) (text : Bytes) (o : Overlapped)
      → o.operation ≡ op_recv
      → receive_packet order came_over o.head o.body ≡ ok (request came_over sender text)
      → IsIdle shared g.packet_queue
      → (ControlHub.process_iocp f r order came_over o g ≡ ok (packet_kept sender text))
        × (ControlHub.receive_round f r fb (packet_kept sender text) ≡ ok (job_kept sender text))
  unfolding ControlHub.process_iocp ControlHub.packet_received ControlHub.receive_round
      ControlHub.dispatch push_job
  request-taken sender text o receives reads (valid, none_in, room) = (
    rw (receives, reads) refl,
    rw
        (
          empty-single shared (some (request came_over sender text)) valid none_in room,
          pop-single shared (some (request came_over sender text)) valid none_in room,
        )
        refl,
  )

  -- What ResponseLobbyInfo makes of the search.
  abbrev pub named : Best f → Bytes × ℕ
  named b = if bytes_eq b.key [] then ([], 0) else (b.key, b.port)

  named-key : (b : Best f) → (named b).0 ≡ b.key
  named-key b = elim (Bool-cases (bytes_eq b.key [])) [
    | inl e ↦ rw e (sym (bytes_eq→eq b.key [] e))
    | inr e ↦ rw e refl
  ]

  named-port : (b : Best f) → (named b).1 ≡ (if bytes_eq b.key [] then 0 else b.port)
  named-port b = elim (Bool-cases (bytes_eq b.key [])) [ inl e ↦ rw e refl | inr e ↦ rw e refl ]

  found-named :
      (fuel : ℕ) {rows : List (Bytes × Bytes)} {b : Best f}
      → scan_multiple_result r fuel table g.manager.redis ≡ some (ok rows)
      → search_rows f j rows (start f) ≡ ok b
      → response_lobby_info f j r fuel [] 0 false g.manager ≡ some (ok (named b))
  unfolding response_lobby_info search_best_lobby
  found-named fuel {b = b} scans searches = elim (Bool-cases (bytes_eq b.key [])) [
    | inl e ↦ rw (scans, response_lobby_info) (rw (searches, e) refl)
    | inr e ↦ rw (scans, response_lobby_info) (rw (searches, e) refl)
  ]

  request-worked :
      (fuel : ℕ) (output : JobOutput) (sender port : ℕ) (text key : Bytes)
      → IsIdle shared g.job_queue
      → response_lobby_info f j r fuel [] 0 false g.manager ≡ some (ok (key, port))
      → (g' : Hub f r) × (ControlHub.job_round f j r fb fuel output (job_kept sender text)
          ≡ some (
              ok (
                some (response_output f j r fb came_over (key, port)),
                response_output f j r fb came_over (key, port),
                g',
              )))
  unfolding push_job ControlHub.job_round ControlHub.run_job ControlJobs.execute response_output
  request-worked fuel output sender port text key (valid, none_in, room) found = (
    record (job_kept sender text) {
      job_queue = (CircleQueue.pop shared (CircleQueue.push (some asked) g.job_queue).1).1;
    },
    rw
        (
          empty-single shared (some asked) valid none_in room,
          pop-single shared (some asked) valid none_in room,
          found,
        )
        refl,
  )

module _ {f : Floats} (j : JsonLibrary f) {r : Server} (fb : FlatBuffers) (laws : IsFlatBuffers fb)
    (order : HostOrder) (little : IsLittleEndian order) (came_over socket handle : ℕ) (g : Hub f r)
    (packets_idle : IsIdle shared g.packet_queue) (jobs_idle : IsIdle shared g.job_queue) {n k : ℕ}
    {w : NetworkManager} (owns : Owns n k [] w) (some_left : pool w ≢ [])
    (known : find came_over w.connected_socket_map ≡ some socket)
    (live : w.sockets socket ≡ some handle) where
  -- A request for a lobby, received over a known live connection by a hub whose queues are empty with
  -- room for one element. Where the scan of the table comes to its end and every entry can be read,
  -- and floats compare by their rank, the hub's ProcessIocp and one round each of its receive and its
  -- job thread hand out one message, which RequestSendMessage posts in a record of the pool, if it is
  -- not empty, the message fits the buffer and the system takes the record. Whoever receives its bytes
  -- on a little-endian host reads a RESPONSE_LOBBYINFO that says false for success, with the port of
  -- an active entry of nonzero total that no other such entry beats, and with the key that Redis has
  -- for that entry; where there is no such entry, or its Redis key is empty, with no key and port 0.
  pub request-answered :
      IsFloat f
      → (fuel : ℕ) (before : JobOutput) (sender : ℕ) (text : Bytes) (o : Overlapped)
        {rows : List (Bytes × Bytes)} (infos : List (Bytes × LobbyInfo f))
      → o.operation ≡ op_recv
      → receive_packet order came_over o.head o.body ≡ ok (request came_over sender text)
      → scan_multiple_result r fuel table g.manager.redis ≡ some (ok rows)
      → Reads f j rows infos
      → ((b : Best f)
          → search_rows f j rows (start f) ≡ ok b
          → length (response_output f j r fb came_over (named j fb order came_over g b)).buffer
            ≤ buffer_size_max)
      → (b : Best f) × ((NoneEligible f infos × (b ≡ start f))
          ⊎ (SomeChosen f infos b × NoneBetter f infos b))
        × (g1 g2 g3 : Hub f r) × (out : JobOutput) × (q : ℕ) × (sent : Overlapped)
        × (w' : NetworkManager) × (ControlHub.process_iocp f r order came_over o g ≡ ok g1)
        × (ControlHub.receive_round f r fb g1 ≡ ok g2)
        × (ControlHub.job_round f j r fb fuel before g2 ≡ some (ok (some out, out, g3)))
        × (request_send_message order out true w ≡ ok (true, w'))
        × (w'.posted ≡ q ∷ w.posted)
        × (w'.heap q ≡ some sent)
        × ((client_key : ℕ) (rest : Bytes)
            → (p : Packet) × (receive_packet order client_key sent.head
                  (take sent.body_len sent.body ++ rest)
                ≡ ok p)
              × (p.contents_type ≡ 2)
              × (response_feedback fb (fb.get_root p.buffer) ≡ false)
              × (response_lobby_key fb (fb.get_root p.buffer) ≡ some b.key)
              × (response_port fb (fb.get_root p.buffer)
                  ≡ (if bytes_eq b.key [] then 0 else b.port)))
  unfolding request_send_message response_output message_number
  request-answered floats fuel before sender text o infos receives reads scans read_all fits =
      let (b, searches, best) = search_rows_lem f j floats infos read_all in
      let key = (named j fb order came_over g b).0 in
      let port = (named j fb order came_over g b).1 in
      let found = found-named j fb order came_over g fuel scans searches in
      let out = response_output f j r fb came_over (key, port) in
      let (kept, taken) =
        request-taken j fb order came_over g sender text o receives reads packets_idle in
      let (g3, works) =
        request-worked j fb order came_over g fuel before sender port text key jobs_idle found in
      let (q, sent, w', sends, posted, carried, op, arrives) =
        send_request-delivers order little owns came_over socket handle out.contents_type out.buffer
          known live (fits b searches) some_left (omega arith) in
      (
        b,
        best,
        packet_kept j fb order came_over g sender text,
        job_kept j fb order came_over g sender text,
        g3,
        out,
        q,
        sent,
        w',
        kept,
        taken,
        works,
        sends,
        posted,
        carried,
        λ client_key rest.
            let (feedback, lobby_key, lobby_port) =
              response_lobby_info_lem fb laws false key port in
            (
              _,
              arrives client_key rest,
              refl,
              feedback,
              lobby_key ∙ ap some (named-key j fb order came_over g b),
              lobby_port ∙ named-port j fb order came_over g b,
            ),
      )
