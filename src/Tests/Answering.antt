-- ===== src/Tests/Answering.antt =====
-- A request that the control server answers, sent over the manager of Tests/Connections.
use iocp_j_server.Base.{
  List, codes, lookup, insert_or_assign, subst, sym, ◌∙◌, ◌⊎◌, bytes_eq, if◌then◌else◌, ℕ, ◌*◌, ◌≤◌,
  ◌≡◌, refl, arith, false, true, some, [], ◌∷◌, ◌++◌, length, take, Bytes, ok,
}
use iocp_j_server.Wire.{
  client, lobby_server, send_header, sender_number, op_recv, Packet, receive_packet,
}
use iocp_j_server.Wire.Order.{receive_packet-send_header}
use iocp_j_server.Overlapped.{Overlapped, zero_header, buffer_size_max}
use iocp_j_server.Overlapped
use iocp_j_server.Overlapped.Clean.{blank}
use iocp_j_server.Protocol.{
  response_feedback, response_lobby_key, response_port, create_response_lobby_info,
}
use iocp_j_server.LobbyJobs.{JobOutput}
use iocp_j_server.ControlJobs.{response_output}
use iocp_j_server.LobbyHub.{process_iocp, process_disconnect}
use iocp_j_server.ControlHub
use iocp_j_server.ControlHub.{Hub}
use iocp_j_server.Hubs.{request_send_message}
use iocp_j_server.Network.{NetworkManager}
use iocp_j_server.Network.Reached.{reached}
use iocp_j_server.Answering.{named, request-answered}
use iocp_j_server.Tests.Samples.{
  swapping, swapping-IsLittleEndian, triples, triples-IsFlatBuffers, whole_floats, matching,
}
use iocp_j_server.Tests.Connections.{
  system_members, memory, memory-long, lobby, fourth_state, fourth_reach,
}
use iocp_j_server.Tests.Sessions.{pool_left, ready}
use iocp_j_server.CircleQueue
use iocp_j_server.CircleQueue.Inv.{construct-IsValid}
use iocp_j_server.CircleQueue.Refine.{print-construct}
use iocp_j_server.CircleQueue.Single.{IsIdle}
use iocp_j_server.LobbyHub.{shared}
use iocp_j_server.Json.{LobbyInfo, lobby_info}
use iocp_j_server.Redis.{scan_multiple_result, scan_loop, collect_keys}
use iocp_j_server.LobbyManager.{table, Best, start, search_rows, compare_lobby}
use iocp_j_server.LobbyManager.Optimal.{cons, nil, SomeChosen, NoneBetter, NoneEligible}
use iocp_j_server.Tests.Lobbies.{whole_floats-IsFloat, info_5, reads_5, counting_json, no_output}

abbrev best_lobby_key : Bytes
best_lobby_key = codes "table:LobbyInfo:a"

-- One active lobby beside a key of no lobby.
abbrev hub : Hub whole_floats matching
hub = record (ControlHub.construct whole_floats counting_json matching [] 4 4) {
  manager = record {
    redis = (codes "other", 0 ∷ []) ∷ (best_lobby_key, 1 ∷ []) ∷ [];
    lobby_map = [];
    expire_time = 60;
  };
}

answering-IsIdle : IsIdle shared hub.packet_queue × IsIdle shared hub.job_queue
unfolding ControlHub.construct CircleQueue.construct
answering-IsIdle = (
  (construct-IsValid shared 4, print-construct shared 4, omega arith),
  (construct-IsValid shared 4, print-construct shared 4, omega arith),
)

abbrev rows : List (Bytes × Bytes)
rows = (best_lobby_key, 1 ∷ []) ∷ []

abbrev infos : List (Bytes × LobbyInfo whole_floats)
infos = (best_lobby_key, info_5) ∷ []

rows-scanned : scan_multiple_result matching 1 table hub.manager.redis ≡ some (ok rows)
unfolding scan_multiple_result scan_loop lookup insert_or_assign collect_keys
rows-scanned = refl

abbrev best : Best whole_floats
best = record { ratio = 0; response_speed = 5; key = best_lobby_key; port = 5 }

rows-searched : search_rows whole_floats counting_json rows (start whole_floats) ≡ ok best
unfolding search_rows start lobby_info compare_lobby
rows-searched = refl

ok_injective {ℓ} : {A : Type ℓ} {a b : A} → ok a ≡ ok b → a ≡ b
ok_injective h = cc

abbrev asking : Overlapped
asking = record (Overlapped.receive_setting 5 (blank system_members)) {
  head = send_header swapping client 1 1;
  body = 9 ∷ [];
}

asking-operation : asking.operation ≡ op_recv
unfolding Overlapped.receive_setting
asking-operation = refl

best-fits :
    length
      (response_output whole_floats counting_json matching triples 5 (best_lobby_key, 5)).buffer
    ≤ buffer_size_max
unfolding buffer_size_max response_output create_response_lobby_info
best-fits = omega arith

answer-fits :
    (b : Best whole_floats)
    → search_rows whole_floats counting_json rows (start whole_floats) ≡ ok b
    → length
        (response_output whole_floats counting_json matching triples 5
          (named counting_json triples swapping 5 hub b)).buffer
      ≤ buffer_size_max
answer-fits b searches =
    subst
      (λ c.
        length
          (response_output whole_floats counting_json matching triples 5
            (named counting_json triples swapping 5 hub c)).buffer
        ≤ buffer_size_max)
      (ok_injective (sym rows-searched ∙ searches)) best-fits

request-answered_example :
    (b : Best whole_floats) × ((NoneEligible whole_floats infos × (b ≡ start whole_floats))
      ⊎ (SomeChosen whole_floats infos b × NoneBetter whole_floats infos b))
    × (g1 g2 g3 : Hub whole_floats matching) × (out : JobOutput) × (q : ℕ) × (sent : Overlapped)
    × (w : NetworkManager) × (ControlHub.process_iocp whole_floats matching swapping 5 asking hub
        ≡ ok g1)
    × (ControlHub.receive_round whole_floats matching triples g1 ≡ ok g2)
    × (ControlHub.job_round whole_floats counting_json matching triples 1 no_output g2
        ≡ some (ok (some out, out, g3)))
    × (request_send_message swapping out true fourth_state.1 ≡ ok (true, w))
    × (w.posted ≡ q ∷ fourth_state.1.posted)
    × (w.heap q ≡ some sent)
    × ((client_key : ℕ) (rest : Bytes)
        → (p : Packet) × (receive_packet swapping client_key sent.head
              (take sent.body_len sent.body ++ rest)
            ≡ ok p)
          × (p.contents_type ≡ 2)
          × (response_feedback triples (triples.get_root p.buffer) ≡ false)
          × (response_lobby_key triples (triples.get_root p.buffer) ≡ some b.key)
          × (response_port triples (triples.get_root p.buffer)
              ≡ (if bytes_eq b.key [] then 0 else b.port)))
request-answered_example =
    request-answered counting_json triples triples-IsFlatBuffers swapping swapping-IsLittleEndian 5
      5 105 hub answering-IsIdle.0 answering-IsIdle.1
      (reached (process_iocp swapping) process_disconnect swapping lobby_server memory lobby
        memory-long fourth_reach).1
      pool_left ready.0.2 ready.0.1 whole_floats-IsFloat 1 no_output
      (16777216 * sender_number client) (9 ∷ []) asking infos asking-operation
      (receive_packet-send_header swapping swapping-IsLittleEndian client 1 5 (9 ∷ []) []
        (omega arith) (omega arith))
      rows-scanned (cons (reads_5 (1 ∷ [])) nil) answer-fits
