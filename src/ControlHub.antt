-- ===== src/ControlHub.antt =====
-- Server_Controll/Src/Hub.cpp: the control server's queues and manager, and its reactions, one at a
-- time. The threads' waiting is left out: a round is what a thread does once it runs.
pub mod Requests
pub mod Failing
use iocp_j_server.Base.{
  ℕ, Bool, true, false, Option, none, some, Bytes, Fault, null_pointer, Outcome, ok, fault, ◌>>=◌,
  if◌then◌else◌, ◌==◌,
}
use iocp_j_server.CircleQueue
use iocp_j_server.CircleQueue.{Queue}
use iocp_j_server.Wire.{
  OperationType, op_default, op_connect, op_accept, op_recv, op_send, HostOrder, Packet,
  receive_packet,
}
use iocp_j_server.Overlapped.{Overlapped}
use iocp_j_server.Json.{Floats, JsonLibrary}
use iocp_j_server.Redis.{Server}
use iocp_j_server.Protocol.{
  FlatBuffers, str, ready_lobby_key, ready_port, ready_capacity, ready_active, info_lobby_key,
}
use iocp_j_server.LobbyManager
use iocp_j_server.LobbyManager.{LobbyManager}
use iocp_j_server.LobbyJobs.{JobOutput}
use iocp_j_server.ControlJobs.{ControlJob, job_request_lobby_info, job_notice_lobby_ready, execute}
use iocp_j_server.LobbyHub.{shared}

pub record Hub (f : Floats) (r : Server) : Type 0 where
  pub is_on : Bool
  pub manager : LobbyManager f r
  pub packet_queue : Queue (Option Packet)
  pub job_queue : Queue (Option ControlJob)

-- `Construct`, without the network manager's part: a connected server, and 60 seconds to live.
module _ (f : Floats) (j : JsonLibrary f) (r : Server) where
  unfoldable pub construct : r.State → ℕ → ℕ → Hub f r
  construct redis overlapped_queue_max packet_queue_capacity = record {
    is_on = true;
    manager = LobbyManager.construct f j r redis 60;
    packet_queue = CircleQueue.construct shared packet_queue_capacity;
    job_queue = CircleQueue.construct shared overlapped_queue_max;
  }

module _ (f : Floats) (r : Server) where
  -- A job that finds the queue full is dropped.
  unfoldable pub push_job : ControlJob → Hub f r → Hub f r
  push_job w h = record h { job_queue = (CircleQueue.push (some w) h.job_queue).1 }

  module _ (o : HostOrder) where
    unfoldable pub packet_received : ℕ → Overlapped → Hub f r → Outcome (Hub f r)
    packet_received key overlapped h = do
      packet ← receive_packet o key overlapped.head overlapped.body
      ok (record h { packet_queue = (CircleQueue.push (some packet) h.packet_queue).1 })

    abbrev pub on_completion : OperationType → ℕ → Overlapped → Hub f r → Outcome (Hub f r)
    on_completion op_recv key overlapped h = packet_received key overlapped h
    on_completion op_accept key overlapped h = ok h
    on_completion op_connect key overlapped h = ok h
    on_completion op_send key overlapped h = ok h
    on_completion op_default key overlapped h = ok h

    unfoldable pub process_iocp : ℕ → Overlapped → Hub f r → Outcome (Hub f r)
    process_iocp key overlapped h = on_completion overlapped.operation key overlapped h

  -- `ProcessDisconnect` does nothing.
  unfoldable pub process_disconnect : ℕ → Hub f r → Hub f r
  process_disconnect key h = h

  module _ (fb : FlatBuffers) where
    -- MESSAGETYPE_NOTICE_LOBBYREADY
    unfoldable pub lobby_ready : Packet → Hub f r → Outcome (Hub f r)
    lobby_ready p h = do
      let notice = fb.get_root p.buffer
      key ← str (ready_lobby_key fb notice)
      ok (
          push_job
            (job_notice_lobby_ready p.completion_key key (ready_port fb notice)
              (ready_capacity fb notice) (ready_active fb notice))
            h)

    -- MESSAGETYPE_NOTICE_LOBBYINFO: the job is made from the notice, and not queued.
    unfoldable pub lobby_info_noticed : Packet → Hub f r → Outcome (Hub f r)
    lobby_info_noticed p h = do
      let notice = fb.get_root p.buffer
      key ← str (info_lobby_key fb notice)
      ok h

    -- The switch of `ReceiveThread` over the message type.
    unfoldable pub dispatch : Packet → Hub f r → Outcome (Hub f r)
    dispatch p h =
        if p.contents_type == 1
        then ok (push_job (job_request_lobby_info p.completion_key) h)
        else if p.contents_type == 3
        then lobby_ready p h
        else if p.contents_type == 4
        then lobby_info_noticed p h
        else ok h

    -- One round of `ReceiveThread` on a hub that is on.
    unfoldable pub receive_round : Hub f r → Outcome (Hub f r)
    receive_round h =
        let (packet, rest) = CircleQueue.pop shared h.packet_queue in
        let handled : Outcome (Hub f r) = elim packet [
          | none ↦ fault null_pointer
          | some p ↦ dispatch p (record h { packet_queue = rest })
        ] in
        if CircleQueue.empty h.packet_queue then ok h else handled

module _ (f : Floats) (j : JsonLibrary f) (r : Server) (fb : FlatBuffers) where
  -- A job that was popped: the thread's output, and the hub. `none` means that the fuel ran out.
  unfoldable pub run_job :
      ℕ → Option ControlJob → JobOutput → Hub f r → Option (Outcome (JobOutput × Hub f r))
  run_job fuel none output h = some (fault null_pointer)
  run_job fuel (some w) output h = elim (execute f j r fb fuel w output h.manager) [
    | none ↦ none
    | some done ↦ some (done >>= λ out. ok (out.0, record h { manager = out.1 }))
  ]

  -- One round of the inner loop of `JobThread`, and what goes to `RequestSendMessage`.
  unfoldable pub job_round :
      ℕ → JobOutput → Hub f r → Option (Outcome (Option JobOutput × JobOutput × Hub f r))
  unfolding run_job
  job_round fuel output h =
      let (job, rest) = CircleQueue.pop shared h.job_queue in
      let done = run_job fuel job output (record h { job_queue = rest }) in
      let sent : Option (Outcome (Option JobOutput × JobOutput × Hub f r)) = elim done [
        | none ↦ none
        | some d ↦ some (d >>= λ out. ok (if out.0.is_send then some out.0 else none, out.0, out.1))
      ] in
      if CircleQueue.empty h.job_queue then some (ok (none, output, h)) else sent
