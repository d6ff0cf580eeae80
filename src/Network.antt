-- ===== src/Network.antt =====
-- Common/Src/Network/NetworkManager.cpp: sockets, pooled overlapped records, and what is made of each
-- completion. One call, or one round of the completion loop, runs at a time. The operating system is
-- a parameter: an operation takes what the system answers it as arguments. Log lines are left out.
pub mod Completions
pub mod Places
pub mod Ownership
pub mod Calls
pub mod Filling
pub mod Sockets
pub mod Conserved
pub mod Reached
pub mod Accepts
pub mod Disconnect
pub mod Posting
pub mod Connecting
pub mod Delivery
use iocp_j_server.Overlapped.{Fresh}
use iocp_j_server.Base.{
  update, ℕ, zero, suc, ◌+◌, ◌≡◌, Bool, true, false, Option, none, some, List, [], ◌∷◌, ◌==◌, ltb,
  if◌then◌else◌, Bytes, length, Fault, null_pointer, Outcome, ok, fault, ◌>>=◌,
}
use iocp_j_server.CircleQueue
use iocp_j_server.CircleQueue.{Queue, Slot, size}
use iocp_j_server.Wire.{
  OperationType, op_default, op_connect, op_accept, op_recv, op_send, SenderType, MessageHeader,
  HostOrder, send_header, string_of,
}
use iocp_j_server.Overlapped
use iocp_j_server.Overlapped.{
  Overlapped, accept_setting, connect_setting, send_setting, receive_setting, received,
}

-- A raw pointer as an element of a queue: 0 is null, and a move leaves it as it is.
abbrev pub pointers : Slot ℕ
pointers = record { blank = 0; moved = λ p. p }

-- `*p`, of what lies at `p`: a null or dangling pointer is a fault.
abbrev pub deref {ℓ} : {A : Type ℓ} → Option A → Outcome A
deref none = fault null_pointer
deref (some a) = ok a

-- `tbb::concurrent_map<ULONG_PTR, SOCKET*>`: `insert` leaves an entry that is there.
unfoldable pub find : ℕ → List (ℕ × ℕ) → Option ℕ
find k [] = none
find k ((j, s) ∷ m) = if k == j then some s else find k m

unfoldable pub insert : ℕ → ℕ → List (ℕ × ℕ) → List (ℕ × ℕ)
unfolding find
insert k s m = elim (find k m) [ none ↦ (k, s) ∷ m | some _ ↦ m ]

unfoldable pub unsafe_erase : ℕ → List (ℕ × ℕ) → List (ℕ × ℕ)
unsafe_erase k [] = []
unsafe_erase k ((j, s) ∷ m) = if k == j then unsafe_erase k m else (j, s) ∷ unsafe_erase k m

-- The first `p` of a list is taken out.
unfoldable pub remove : ℕ → List ℕ → List ℕ
remove p [] = []
remove p (q ∷ qs) = if p == q then qs else q ∷ remove p qs

-- `INVALID_SOCKET`
abbrev pub invalid_socket : ℕ
invalid_socket = 18446744073709551615

-- The manager, with the objects that it points to: the overlapped records and the `SOCKET`s by
-- address. `new` takes the next address, and none is used twice. `posted` are the records that the
-- system holds for a pending operation, and `dropped` those whose operation it refused.
pub record NetworkManager : Type 0 where
  pub listen_socket : ℕ
  pub heap : ℕ → Option Overlapped
  pub sockets : ℕ → Option ℕ
  pub next_address : ℕ
  pub overlapped_queue : Queue ℕ
  pub prepared_socket_queue : Queue ℕ
  pub connected_socket_map : List (ℕ × ℕ)
  pub posted : List ℕ
  pub dropped : List ℕ
  pub sender_type : SenderType
  pub prepare_socket_max : ℕ

-- `new CustomOverlapped()`, pushed, with what its fresh memory holds.
unfoldable pub new_overlapped : (ℕ → Fresh) → NetworkManager → NetworkManager
new_overlapped memory w =
    let a = w.next_address in
    record w {
      heap = update w.heap a (some (Overlapped.construct (memory a)));
      next_address = a + 1;
      overlapped_queue = (CircleQueue.push a w.overlapped_queue).1;
    }

-- The loop of `Construct`.
unfoldable pub fill_overlapped_queue : ℕ → (ℕ → Fresh) → NetworkManager → NetworkManager
fill_overlapped_queue zero memory w = w
fill_overlapped_queue (suc rounds) memory w =
    fill_overlapped_queue rounds memory (new_overlapped memory w)

-- `Construct`. The socket queue is constructed with the listen socket; until then it has no slot.
unfoldable pub construct : SenderType → ℕ → (ℕ → Fresh) → NetworkManager
unfolding fill_overlapped_queue new_overlapped
construct sender_type overlapped_queue_max memory =
    fill_overlapped_queue overlapped_queue_max memory (record {
      listen_socket = 0;
      heap = λ a. none;
      sockets = λ a. none;
      next_address = 1;
      overlapped_queue = CircleQueue.construct pointers overlapped_queue_max;
      prepared_socket_queue = CircleQueue.construct pointers 0;
      connected_socket_map = [];
      posted = [];
      dropped = [];
      sender_type = sender_type;
      prepare_socket_max = 0;
    })

-- `new SOCKET(handle)`
unfoldable pub new_socket : ℕ → NetworkManager → ℕ × NetworkManager
new_socket handle w = (
  w.next_address,
  record w {
    sockets = update w.sockets w.next_address (some handle);
    next_address = w.next_address + 1;
  },
)

-- `FillSocketQueue`, over the handles that `WSASocket` gives. A pointer that finds the queue full is
-- lost.
unfoldable pub fill_socket_queue : ℕ → (ℕ → ℕ) → NetworkManager → NetworkManager
unfolding new_socket
fill_socket_queue zero handles w = w
fill_socket_queue (suc rounds) handles w =
    let (s, w') = new_socket (handles w.next_address) w in
    fill_socket_queue rounds handles
      (record w' { prepared_socket_queue = (CircleQueue.push s w'.prepared_socket_queue).1 })

-- `SetupListenSocket`, over the handles that `WSASocket` gives; whether AcceptEx is found.
unfoldable pub setup_listen_socket : ℕ → Bool → (ℕ → ℕ) → NetworkManager → NetworkManager
unfolding fill_socket_queue new_socket
setup_listen_socket prepare_socket_max found handles w =
    let listen = new_socket (handles w.next_address) w in
    let w' = record listen.1 {
      listen_socket = listen.0;
      prepare_socket_max = prepare_socket_max;
    } in
    if found
    then fill_socket_queue prepare_socket_max handles (record w' {
      prepared_socket_queue =
          CircleQueue.reconstruct pointers prepare_socket_max w'.prepared_socket_queue;
    })
    else w'

unfoldable pub get_current_accepted_socket : NetworkManager → ℕ
get_current_accepted_socket w = length w.connected_socket_map

-- `_overlappedQueue.pop()`, and `Clear` of what it points to.
unfoldable pub take_overlapped : NetworkManager → Outcome ((ℕ × Overlapped) × NetworkManager)
take_overlapped w =
    let (p, rest) = CircleQueue.pop pointers w.overlapped_queue in
    deref (w.heap p) >>= λ o.
    Overlapped.clear o >>= λ cleared. ok ((p, cleared), record w { overlapped_queue = rest })

-- A record is set, and goes to the system, which takes it (done, or WSA_IO_PENDING) or does not.
unfoldable pub hand_over : ℕ → Overlapped → Bool → NetworkManager → NetworkManager
hand_over p o taken w =
    if taken
    then record w { heap = update w.heap p (some o); posted = p ∷ w.posted }
    else record w { heap = update w.heap p (some o); dropped = p ∷ w.dropped }

-- What the system answers to an operation on a socket: what `getsockopt` reports, 0 for no error, and
-- whether it takes the overlapped record.
pub record Answer : Type 0 where
  pub error_code : ℕ
  pub taken : Bool

-- `PrepareAcceptSocket`, once the queue of prepared sockets has been looked at.
unfoldable pub post_accept : SenderType → Answer → NetworkManager → Outcome (Bool × NetworkManager)
post_accept sender answer w = do
  let target = CircleQueue.pop pointers w.prepared_socket_queue
  handle ← deref (w.sockets target.0)
  let popped = record w { prepared_socket_queue = target.1 }
  let prepared : Outcome (Bool × NetworkManager) = do
    listen ← deref (popped.sockets popped.listen_socket)
    ((p, o), w') ← take_overlapped popped
    ok (answer.taken, hand_over p (accept_setting target.0 sender o) answer.taken w')
  if answer.error_code == 0 then prepared else ok (false, popped)

-- `PrepareAcceptSocket`: the queue is filled again once it is empty.
unfoldable pub prepare_accept_socket :
    SenderType → Answer → (ℕ → ℕ) → NetworkManager → Outcome (Bool × NetworkManager)
unfolding post_accept fill_socket_queue
prepare_accept_socket sender answer handles w =
    if ltb (size w.prepared_socket_queue) 1
    then post_accept sender answer (fill_socket_queue w.prepare_socket_max handles w)
    else post_accept sender answer w

-- `SetupConnectSocket`: whether the bind succeeds, whether ConnectEx is found, and whether the
-- system takes the record.
unfoldable pub setup_connect_socket :
    SenderType → ℕ → (bound found taken : Bool) → NetworkManager → Outcome (Bool × NetworkManager)
setup_connect_socket sender handle bound found taken w =
    let made = new_socket handle w in
    let connected : Outcome (Bool × NetworkManager) = (do
      ((p, o), w') ← take_overlapped made.1
      ok (taken, hand_over p (connect_setting made.0 sender o) taken w')) in
    if bound then (if found then connected else ok (false, made.1)) else ok (false, w)

-- `CallReceiveReady`
unfoldable pub call_receive_ready : ℕ → Answer → NetworkManager → Outcome (Bool × NetworkManager)
call_receive_ready target answer w = do
  handle ← deref (w.sockets target)
  let ready : Outcome (Bool × NetworkManager) = do
    ((p, o), w') ← take_overlapped w
    ok (answer.taken, hand_over p (receive_setting target o) answer.taken w')
  if answer.error_code == 0 then ready else ok (false, w)

-- `ProcessDisconnect`: whether the socket was closed and deleted.
unfoldable pub process_disconnect : ℕ → NetworkManager → Outcome (Bool × NetworkManager)
process_disconnect target w =
    let closed : Outcome (Bool × NetworkManager) = (do
      handle ← deref (w.sockets target)
      ok (
          if handle == invalid_socket
          then (false, w)
          else (true, record w { sockets = update w.sockets target none }))) in
    if target == 0 then ok (false, w) else closed

module _ (order : HostOrder) where
  -- `SendRequest`; the result says whether the record was posted.
  unfoldable pub send_request :
      ℕ → ℕ → Bytes → ℕ → Bool → NetworkManager → Outcome (Bool × NetworkManager)
  send_request target content_type buffer body_size taken w =
      elim (find target w.connected_socket_map) [
        | none ↦ ok (false, w)
        | some socket ↦ do
          ((p, o), w') ← take_overlapped w
          body ← string_of buffer body_size
          set ← send_setting socket (send_header order w.sender_type content_type body_size) body o
          handle ← deref (w.sockets socket)
          ok (taken, hand_over p set taken w')
      ]
