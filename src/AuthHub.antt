-- ===== src/AuthHub.antt =====
-- Server_Auth/Src/AuthHub.cpp: the auth server's queues, and its reactions to the network, one at a
-- time. Its network manager is constructed as the lobby server's is.
pub mod Alike
use iocp_j_server.Base.{
  ℕ, Bool, true, false, Option, none, some, Bytes, Fault, null_pointer, Outcome, ok, fault, ◌>>=◌,
  if◌then◌else◌,
}
use iocp_j_server.CircleQueue
use iocp_j_server.CircleQueue.{Queue}
use iocp_j_server.Wire.{
  OperationType, op_default, op_connect, op_accept, op_recv, op_send, HostOrder, Packet,
  receive_packet,
}
use iocp_j_server.Overlapped.{Overlapped}
use iocp_j_server.Protocol.{FlatBuffers}
use iocp_j_server.LobbyJobs.{JobOutput, LobbyJob, execute}
use iocp_j_server.LobbyHub.{shared}

-- `_controlServerIp` and `_controlServerPort` are `none` until they are set.
pub record AuthHub : Type 0 where
  pub is_on : Bool
  pub lobby_key : Bytes
  pub lobby_port : ℕ
  pub control_server : Option (Bytes × ℕ)
  pub control_server_completion_key : ℕ
  pub packet_queue : Queue (Option Packet)
  pub job_queue : Queue (Option LobbyJob)

-- `Construct`, without the network manager's part. The capacity of a lobby is only written to the log.
unfoldable pub construct : Bytes → ℕ → ℕ → ℕ → AuthHub
construct key port overlapped_queue_max packet_queue_capacity = record {
  is_on = true;
  lobby_key = key;
  lobby_port = port;
  control_server = none;
  control_server_completion_key = 0;
  packet_queue = CircleQueue.construct shared packet_queue_capacity;
  job_queue = CircleQueue.construct shared overlapped_queue_max;
}

-- `ControlSeverInfoSetting`
unfoldable pub control_sever_info_setting : Bytes → ℕ → AuthHub → AuthHub
control_sever_info_setting ip port h = record h { control_server = some (ip, port) }

module _ (o : HostOrder) where
  -- A packet that finds the queue full is dropped.
  unfoldable pub packet_received : ℕ → Overlapped → AuthHub → Outcome AuthHub
  packet_received key overlapped h = do
    packet ← receive_packet o key overlapped.head overlapped.body
    ok (record h { packet_queue = (CircleQueue.push (some packet) h.packet_queue).1 })

  -- An accept and a connection are looked at, and no more.
  abbrev pub on_completion : OperationType → ℕ → Overlapped → AuthHub → Outcome AuthHub
  on_completion op_recv key overlapped h = packet_received key overlapped h
  on_completion op_accept key overlapped h = ok h
  on_completion op_connect key overlapped h = ok h
  on_completion op_send key overlapped h = ok h
  on_completion op_default key overlapped h = ok h

  unfoldable pub process_iocp : ℕ → Overlapped → AuthHub → Outcome AuthHub
  process_iocp key overlapped h = on_completion overlapped.operation key overlapped h

-- `ProcessDisconnect` does nothing.
unfoldable pub process_disconnect : ℕ → AuthHub → AuthHub
process_disconnect key h = h

-- One round of `ReceiveThread` on a hub that is on: the packet's types are read, and no more.
unfoldable pub receive_round : AuthHub → Outcome AuthHub
receive_round h =
    let (packet, rest) = CircleQueue.pop shared h.packet_queue in
    let popped : Outcome AuthHub = elim packet [
      | none ↦ fault null_pointer
      | some p ↦ ok (record h { packet_queue = rest })
    ] in
    if CircleQueue.empty h.packet_queue then ok h else popped

module _ (fb : FlatBuffers) where
  -- One round of `JobThread`'s inner loop, and what it hands to `RequestSendMessage`.
  unfoldable pub job_round : AuthHub → Outcome (Option JobOutput × AuthHub)
  job_round h =
      let (job, rest) = CircleQueue.pop shared h.job_queue in
      let done : Outcome (Option JobOutput × AuthHub) = elim job [
        | none ↦ fault null_pointer
        | some w ↦
            let output = execute fb w in
            ok (if output.is_send then some output else none, record h { job_queue = rest })
      ] in
      if CircleQueue.empty h.job_queue then ok (none, h) else done
