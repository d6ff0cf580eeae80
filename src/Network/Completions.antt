-- ===== src/Network/Completions.antt =====
-- Common/Src/Network/NetworkManager.cpp: the completion loop, a round at a time, and its handlers.
use iocp_j_server.Base.{update, ℕ, none, some, ◌==◌, if◌then◌else◌, Bytes, Outcome, ok, ◌>>=◌}
use iocp_j_server.CircleQueue
use iocp_j_server.Wire.{
  OperationType, op_default, op_connect, op_accept, op_recv, op_send, MessageHeader,
}
use iocp_j_server.Overlapped
use iocp_j_server.Overlapped.{Overlapped, received}
use iocp_j_server.Network.{
  NetworkManager, Answer, deref, find, insert, unsafe_erase, remove, process_disconnect,
  call_receive_ready,
}

-- The errors by which a completion reports a lost connection, and the others.
pub data SocketError : Type 0 where
  wsaeconnreset wsaeconnaborted wsaenetreset wsaetimedout wsaenotconn wsaeshutdown : SocketError
  error_netname_deleted : SocketError
  other_error : ℕ → SocketError

-- What `GetQueuedCompletionStatus` gives: a completion with its key, record, number of bytes, what
-- the system has written into the record's buffers, and what it will answer to the next receive; or
-- a failure, whose record may be null.
pub data Completion : Type 0 where
  completed : (key p bytes : ℕ) → MessageHeader → Bytes → Answer → Completion
  failed : (key p : ℕ) → SocketError → Completion

-- The system gives a record back.
unfoldable pub dequeue : ℕ → NetworkManager → NetworkManager
dequeue p w = record w { posted = remove p w.posted }

-- The end of a round: `Clear` and `push`.
unfoldable pub give_back : ℕ → NetworkManager → Outcome NetworkManager
give_back p w = deref (w.heap p) >>= λ o. Overlapped.clear o >>= λ cleared. ok (record w {
  heap = update w.heap p (some cleared);
  overlapped_queue = (CircleQueue.push p w.overlapped_queue).1;
})

-- A receive fills the buffers.
unfoldable pub system_writes :
    OperationType → MessageHeader → Bytes → Overlapped → Outcome Overlapped
system_writes op_recv head body o = received head body o
system_writes op_connect head body o = ok o
system_writes op_accept head body o = ok o
system_writes op_send head body o = ok o
system_writes op_default head body o = ok o

-- The callbacks are the hub's: they read the record, and change the hub.
module _ {H : Type 0} (iocp_callback : ℕ → Overlapped → H → Outcome H)
    (disconnect_callback : ℕ → H → H) where
  unfoldable pub handle_disconnect_complete : ℕ → H → NetworkManager → Outcome (H × NetworkManager)
  handle_disconnect_complete key h w = elim (find key w.connected_socket_map) [
    | none ↦ ok (h, w)
    | some target ↦ do
      (closed, w') ← process_disconnect target w
      let rest = unsafe_erase key w'.connected_socket_map
      let erased = record w' { connected_socket_map = rest }
      ok (disconnect_callback key h, if closed then erased else w')
  ]

  unfoldable pub handle_accept_complete :
      Overlapped → Answer → H → NetworkManager → Outcome (H × NetworkManager)
  handle_accept_complete o answer h w = do
    let target = o.socket
    let known = record w { connected_socket_map = insert target target w.connected_socket_map }
    h' ← iocp_callback target o h
    (result, w') ← call_receive_ready target answer known
    ok (h', w')

  unfoldable pub handle_connect_complete :
      Overlapped → Answer → H → NetworkManager → Outcome (H × NetworkManager)
  handle_connect_complete o answer h w = do
    let target = o.socket
    let known = record w { connected_socket_map = insert target target w.connected_socket_map }
    h' ← iocp_callback target o h
    (result, w') ← call_receive_ready target answer known
    ok (h', w')

  unfoldable pub handle_receive_complete :
      (key bytes : ℕ) → Overlapped → Answer → H → NetworkManager → Outcome (H × NetworkManager)
  handle_receive_complete key bytes o answer h w =
      let read : Outcome (H × NetworkManager) = (do
        h' ← iocp_callback key o h
        (result, w') ← call_receive_ready o.socket answer w
        ok (h', w')) in
      if bytes == 0 then handle_disconnect_complete key h w else read

  unfoldable pub handle_send_complete :
      ℕ → Overlapped → H → NetworkManager → Outcome (H × NetworkManager)
  handle_send_complete key o h w = iocp_callback key o h >>= λ h'. ok (h', w)

  -- The switch over the operation of a completion.
  unfoldable pub on_completed :
      OperationType
      → (key bytes : ℕ) → Overlapped
      → Answer
      → H
      → NetworkManager
      → Outcome (H × NetworkManager)
  on_completed op_connect key bytes o answer h w = handle_connect_complete o answer h w
  on_completed op_accept key bytes o answer h w = handle_accept_complete o answer h w
  on_completed op_recv key bytes o answer h w = handle_receive_complete key bytes o answer h w
  on_completed op_send key bytes o answer h w = handle_send_complete key o h w
  on_completed op_default key bytes o answer h w = ok (h, w)

  -- The switch over the error of a failure.
  unfoldable pub on_failed : SocketError → ℕ → H → NetworkManager → Outcome (H × NetworkManager)
  on_failed wsaeconnreset key h w = handle_disconnect_complete key h w
  on_failed wsaeconnaborted key h w = handle_disconnect_complete key h w
  on_failed wsaenetreset key h w = handle_disconnect_complete key h w
  on_failed wsaetimedout key h w = handle_disconnect_complete key h w
  on_failed wsaenotconn key h w = handle_disconnect_complete key h w
  on_failed wsaeshutdown key h w = handle_disconnect_complete key h w
  on_failed error_netname_deleted key h w = handle_disconnect_complete key h w
  on_failed (other_error e) key h w = ok (h, w)

  -- One round of `ProcessCompletionHandler`.
  unfoldable pub process_completion : Completion → H → NetworkManager → Outcome (H × NetworkManager)
  process_completion (completed key p bytes head body answer) h w = do
    o ← deref (w.heap p)
    written ← system_writes o.operation head body o
    let given = record (dequeue p w) { heap = update w.heap p (some written) }
    (h', w') ← on_completed o.operation key bytes written answer h given
    w'' ← give_back p w'
    ok (h', w'')
  process_completion (failed key p error) h w = do
    (h', w') ← on_failed error key h (dequeue p w)
    w'' ← give_back p w'
    ok (h', w'')
