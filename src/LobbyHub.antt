-- ===== src/LobbyHub.antt =====
-- Server_Lobby/Src/LobbyHub.cpp: the lobby server's state, and its reactions to the network, one at
-- a time. A `shared_ptr` is an option; a move leaves it null.
pub mod Users
pub mod Capacity
pub mod Setup
pub mod Main
use iocp_j_server.Base.{
  ℕ, ◌≡◌, Bool, true, false, Option, none, some, Bytes, Fault, null_pointer, Outcome, ok, fault,
  ◌>>=◌, if◌then◌else◌, zero, suc,
}
use iocp_j_server.CircleQueue
use iocp_j_server.CircleQueue.{Queue, Slot}
use iocp_j_server.Wire.{
  SenderType, unset, control_server, auth_server, lobby_server, client, OperationType, op_default,
  op_connect, op_accept, op_recv, op_send, HostOrder, Packet, receive_packet,
}
use iocp_j_server.Overlapped.{Overlapped}
use iocp_j_server.LobbyMonitor
use iocp_j_server.LobbyMonitor.{LobbyMonitor}
use iocp_j_server.Protocol.{FlatBuffers}
use iocp_j_server.LobbyJobs.{
  JobOutput, LobbyJob, job_notice_lobby_ready, job_notice_lobby_info, execute,
}

-- `std::shared_ptr<T>` as an element of a queue.
abbrev pub shared {ℓ} : {T : Type ℓ} → Slot (Option T)
shared = record { blank = none; moved = λ x. none }

-- `_controlServerIp` and `_controlServerPort` are `none` until they are set.
pub record LobbyHub : Type 0 where
  pub monitor : LobbyMonitor
  pub is_on : Bool
  pub lobby_key : Bytes
  pub lobby_port : ℕ
  pub control_server : Option (Bytes × ℕ)
  pub control_server_completion_key : ℕ
  pub packet_queue : Queue (Option Packet)
  pub job_queue : Queue (Option LobbyJob)

-- `Construct`, without the network manager's part.
unfoldable pub construct : Bytes → ℕ → ℕ → ℕ → ℕ → LobbyHub
construct key port overlapped_queue_max packet_queue_capacity lobby_capacity = record {
  monitor = LobbyMonitor.construct lobby_capacity;
  is_on = true;
  lobby_key = key;
  lobby_port = port;
  control_server = none;
  control_server_completion_key = 0;
  packet_queue = CircleQueue.construct shared packet_queue_capacity;
  job_queue = CircleQueue.construct shared overlapped_queue_max;
}

-- `ControlSeverInfoSetting`
unfoldable pub control_sever_info_setting : Bytes → ℕ → LobbyHub → LobbyHub
control_sever_info_setting ip port h = record h { control_server = some (ip, port) }

-- The accept of a client: it is counted, and a notice of the counts is queued, addressed to it.
unfoldable pub client_accepted : ℕ → LobbyHub → LobbyHub
client_accepted key h =
    let monitor' = LobbyMonitor.register_lobby_user h.monitor in
    let job =
      job_notice_lobby_info key h.lobby_key (LobbyMonitor.get_current_user monitor')
        (LobbyMonitor.get_remain_capacity monitor') h.is_on in
    record h { monitor = monitor'; job_queue = (CircleQueue.push (some job) h.job_queue).1 }

-- The connection to the control server: its key is kept, and a notice is queued, addressed to it.
unfoldable pub control_connected : ℕ → LobbyHub → LobbyHub
control_connected key h =
    let job =
      job_notice_lobby_ready key h.lobby_key h.lobby_port (LobbyMonitor.get_capacity h.monitor)
        h.is_on in
    record h {
      control_server_completion_key = key;
      job_queue = (CircleQueue.push (some job) h.job_queue).1;
    }

abbrev pub on_accept : SenderType → ℕ → LobbyHub → LobbyHub
on_accept client key h = client_accepted key h
on_accept unset key h = h
on_accept control_server key h = h
on_accept auth_server key h = h
on_accept lobby_server key h = h

abbrev pub on_connect : SenderType → ℕ → LobbyHub → LobbyHub
on_connect control_server key h = control_connected key h
on_connect unset key h = h
on_connect auth_server key h = h
on_connect lobby_server key h = h
on_connect client key h = h

module _ (o : HostOrder) where
  -- A packet that finds the queue full is dropped.
  unfoldable pub packet_received : ℕ → Overlapped → LobbyHub → Outcome LobbyHub
  packet_received key overlapped h = do
    packet ← receive_packet o key overlapped.head overlapped.body
    ok (record h { packet_queue = (CircleQueue.push (some packet) h.packet_queue).1 })

  abbrev pub on_completion : OperationType → ℕ → Overlapped → LobbyHub → Outcome LobbyHub
  on_completion op_accept key overlapped h = ok (on_accept overlapped.sender key h)
  on_completion op_connect key overlapped h = ok (on_connect overlapped.sender key h)
  on_completion op_recv key overlapped h = packet_received key overlapped h
  on_completion op_send key overlapped h = ok h
  on_completion op_default key overlapped h = ok h

  unfoldable pub process_iocp : ℕ → Overlapped → LobbyHub → Outcome LobbyHub
  process_iocp key overlapped h = on_completion overlapped.operation key overlapped h

-- `ProcessDisconnect` does nothing.
unfoldable pub process_disconnect : ℕ → LobbyHub → LobbyHub
process_disconnect key h = h

-- One round of `ReceiveThread` on a hub that is on: the packet's types are read, and no more.
unfoldable pub receive_round : LobbyHub → Outcome LobbyHub
receive_round h =
    let (packet, rest) = CircleQueue.pop shared h.packet_queue in
    let popped : Outcome LobbyHub = elim packet [
      | none ↦ fault null_pointer
      | some p ↦ ok (record h { packet_queue = rest })
    ] in
    if CircleQueue.empty h.packet_queue then ok h else popped

module _ (fb : FlatBuffers) where
  -- One round of `JobThread`'s inner loop, and what it hands to `RequestSendMessage`.
  unfoldable pub job_round : LobbyHub → Outcome (Option JobOutput × LobbyHub)
  job_round h =
      let (job, rest) = CircleQueue.pop shared h.job_queue in
      let done : Outcome (Option JobOutput × LobbyHub) = elim job [
        | none ↦ fault null_pointer
        | some w ↦
            let output = execute fb w in
            ok (if output.is_send then some output else none, record h { job_queue = rest })
      ] in
      if CircleQueue.empty h.job_queue then ok (none, h) else done
