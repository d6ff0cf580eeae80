-- ===== src/Tests/Announcing.antt =====
-- A message sent over the manager of Tests/Connections, and the control server's idle queues.
use iocp_j_server.Base.{ℕ, ◌*◌, ◌≤◌, ◌≡◌, arith, true, [], ◌∷◌, ◌++◌, length, take, some, Bytes, ok}
use iocp_j_server.CircleQueue
use iocp_j_server.CircleQueue.{Queue, print}
use iocp_j_server.CircleQueue.Inv.{construct-IsValid}
use iocp_j_server.CircleQueue.Single.{IsIdle}
use iocp_j_server.CircleQueue.Refine.{print-construct}
use iocp_j_server.Wire.{lobby_server, sender_number, op_send, receive_packet}
use iocp_j_server.Overlapped.{Overlapped, buffer_size_max}
use iocp_j_server.LobbyHub.{shared, process_iocp, process_disconnect}
use iocp_j_server.ControlHub
use iocp_j_server.ControlHub.{Hub}
use iocp_j_server.Network.{NetworkManager, send_request}
use iocp_j_server.Network.Reached.{reached}
use iocp_j_server.Network.Delivery.{send_request-delivers}
use iocp_j_server.Tests.Samples.{swapping, swapping-IsLittleEndian}
use iocp_j_server.Tests.Connections.{memory, memory-long, lobby, fourth_state, fourth_reach}
use iocp_j_server.Tests.Sessions.{pool_left, ready}
use iocp_j_server.Tests.Lobbies.{idle_hub}

abbrev message : Bytes
message = 7 ∷ 8 ∷ 9 ∷ []

three_bytes : length message ≤ buffer_size_max
unfolding buffer_size_max
three_bytes = omega arith

send_request-delivers_example :
    (q : ℕ) × (o : Overlapped) × (w : NetworkManager) × (send_request swapping 5 3 message 3 true
        fourth_state.1
      ≡ ok (true, w))
    × (w.posted ≡ q ∷ fourth_state.1.posted)
    × (w.heap q ≡ some o)
    × (o.operation ≡ op_send)
    × ((key : ℕ) (rest : Bytes)
        → receive_packet swapping key o.head (take o.body_len o.body ++ rest)
          ≡ ok (record {
            sender_type = 16777216 * sender_number fourth_state.1.sender_type;
            completion_key = key;
            contents_type = 3;
            buffer = message;
          }))
send_request-delivers_example =
    send_request-delivers swapping swapping-IsLittleEndian
      (reached (process_iocp swapping) process_disconnect swapping lobby_server memory lobby
        memory-long fourth_reach).1
      5 5 105 3 message ready.0.2 ready.0.1 three_bytes pool_left (omega arith)

pub hub-IsIdle : IsIdle shared idle_hub.packet_queue × IsIdle shared idle_hub.job_queue
unfolding ControlHub.construct CircleQueue.construct
hub-IsIdle = (
  (construct-IsValid shared 4, print-construct shared 4, omega arith),
  (construct-IsValid shared 4, print-construct shared 4, omega arith),
)
