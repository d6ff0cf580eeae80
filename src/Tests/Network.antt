-- ===== src/Tests/Network.antt =====
-- A message across the network, a scan of a table, and what a lobby hub makes of accepts.
use iocp_j_server.Base.{
  update, replicate, null_pointer, ◌+◌, ◌-◌, ◌*◌, ◌%◌, ◌^◌, ◌<◌, ◌≡◌, refl, arith, false, List, [],
  ◌∷◌, ◌++◌, some, none, ok, fault, Bytes, codes, lookup, ◌==◌, if◌then◌else◌,
}
use iocp_j_server.CircleQueue
use iocp_j_server.CircleQueue.{size, print}
use iocp_j_server.CircleQueue.Inv.{IsValid, construct-IsValid}
use iocp_j_server.Wire.{lobby_server, client, sender_number, send_header, receive_packet, op_recv}
use iocp_j_server.Wire.Order.{receive_packet-send_header}
use iocp_j_server.Redis.{Page, scan_multiple_result, delete_keys, delete_table}
use iocp_j_server.Redis.Scan.{Iterates, on_pages, scan_multiple_result_lem}
use iocp_j_server.Redis.Deleting.{Clears, last, delete_table_lem}
use iocp_j_server.Overlapped.Copies.{Raw, Arrays, HasBuffers, copy, destroy, freed, destroy-copy}
use iocp_j_server.Tests.Connections.{system_members}
use iocp_j_server.Overlapped
use iocp_j_server.Overlapped.{Overlapped, zero_header, accept_setting}
use iocp_j_server.LobbyMonitor
use iocp_j_server.LobbyJobs.{job_notice_lobby_ready}
use iocp_j_server.LobbyHub
use iocp_j_server.LobbyHub.{LobbyHub, shared, client_accepted, control_connected}
use iocp_j_server.LobbyHub.Users.{
  Event, completes, disconnects, reacts, client_accepts, reacts-users, print-control_connected,
  react,
}
use iocp_j_server.Tests.Samples.{
  swapping, swapping-IsLittleEndian, one_page, erasing, erasing-IsDeleting, keys_of,
}

receive_packet-send_header_example :
    receive_packet swapping 6 (send_header swapping lobby_server 3 2) ((8 ∷ 9 ∷ []) ++ 0 ∷ [])
    ≡ ok (record {
      sender_type = 16777216 * sender_number lobby_server;
      completion_key = 6;
      contents_type = 3;
      buffer = 8 ∷ 9 ∷ [];
    })
receive_packet-send_header_example =
    receive_packet-send_header swapping swapping-IsLittleEndian lobby_server 3 6 (8 ∷ 9 ∷ [])
      (0 ∷ []) (omega arith) (omega arith)

abbrev raw : Raw
raw = record {
  event = 0;
  operation = op_recv;
  socket = some 5;
  sender = some lobby_server;
  head_buf = 1;
  head_len = 12;
  body_buf = 2;
  body_len = 3;
  members = some system_members;
}

abbrev arrays : Arrays
arrays = update (update (λ p. none) 1 (some (replicate 12 0))) 2 (some (7 ∷ 8 ∷ 9 ∷ []))

raw-HasBuffers : HasBuffers raw arrays
raw-HasBuffers = record {
  head_there = (replicate 12 0, refl);
  body_there = (7 ∷ 8 ∷ 9 ∷ [], refl);
  head_not_null = refl;
  body_not_null = refl;
  two = refl;
  head_some = omega arith;
  body_some = omega arith;
}

destroy-copy_example :
    ((o : Raw) × (destroy raw arrays ≡ ok (o, freed raw arrays)))
    × ((o : Raw) × (destroy (copy raw) arrays ≡ ok (o, freed raw arrays)))
    × (destroy (copy raw) (freed raw arrays) ≡ fault null_pointer)
    × (destroy raw (freed raw arrays) ≡ fault null_pointer)
destroy-copy_example = destroy-copy raw-HasBuffers

abbrev rows : List (Bytes × Bytes)
rows = (codes "a", codes "x") ∷ (codes "b", codes "y") ∷ []

abbrev pages : List Page
pages = record { cursor = 0; keys = keys_of rows } ∷ []

pages-Iterates : Iterates one_page (codes "t") rows 0 pages
pages-Iterates = Iterates.last _ refl refl

scan_multiple_result_lem_example :
    (m : List (Bytes × Bytes)) × (scan_multiple_result one_page 1 (codes "t") rows ≡ some (ok m))
    × ((k : Bytes) → lookup k m ≡ (if on_pages k pages then one_page.get k rows else none))
scan_multiple_result_lem_example =
    scan_multiple_result_lem one_page (codes "t") rows 1 pages pages-Iterates (omega arith)

rows-Clears : Clears erasing (codes "t") rows 0 pages []
unfolding delete_keys
rows-Clears = last (record { cursor = 0; keys = keys_of rows }) refl refl

delete_table_lem_example :
    (deleted : List Bytes) × (delete_table erasing 1 0 (codes "t") rows [] ≡ some (deleted, []))
    × ((k : Bytes) → erasing.get k [] ≡ (if on_pages k pages then none else erasing.get k rows))
delete_table_lem_example =
    delete_table_lem erasing (codes "t") erasing-IsDeleting 1 pages rows-Clears (omega arith)

abbrev fresh_hub : LobbyHub
fresh_hub = LobbyHub.construct (codes "k") 9000 4 4 1

abbrev accepted : Overlapped
accepted = accept_setting 3 client (Overlapped.construct (zero_header, [], system_members))

abbrev events : List Event
events = completes 3 accepted ∷ completes 4 accepted ∷ disconnects 3 ∷ []

abbrev two_clients : LobbyHub
two_clients = client_accepted 4 (client_accepted 3 fresh_hub)

reacts-events : reacts swapping events fresh_hub ≡ ok two_clients
unfolding reacts react accept_setting LobbyHub.process_iocp LobbyHub.process_disconnect
reacts-events = refl

events-few : client_accepts events < 2 ^ 32
unfolding accept_setting
events-few = omega arith

reacts-users_example :
    (LobbyMonitor.get_current_user two_clients.monitor ≡ client_accepts events)
    × (LobbyMonitor.get_remain_capacity two_clients.monitor
        ≡ (1 + 2 ^ 32 - client_accepts events) % 2 ^ 32)
reacts-users_example =
    reacts-users swapping events (codes "k") 9000 4 4 1 reacts-events (omega arith) events-few

fresh_hub-IsValid : IsValid fresh_hub.job_queue
unfolding LobbyHub.construct
fresh_hub-IsValid = construct-IsValid shared 4

fresh_hub-room : (size fresh_hub.job_queue + 1 == fresh_hub.job_queue.queue_max_size) ≡ false
unfolding LobbyHub.construct size CircleQueue.construct
fresh_hub-room = refl

print-control_connected_example :
    let h' = control_connected 5 fresh_hub in
    (print shared h'.job_queue
      ≡ print shared fresh_hub.job_queue
        ++ some (
            job_notice_lobby_ready h'.control_server_completion_key fresh_hub.lobby_key
              fresh_hub.lobby_port
              (LobbyMonitor.get_capacity fresh_hub.monitor)
              fresh_hub.is_on)
          ∷ [])
    × (h'.control_server_completion_key ≡ 5)
print-control_connected_example =
    print-control_connected 5 fresh_hub fresh_hub-IsValid fresh_hub-room
