-- ===== src/Overlapped.antt =====
-- Common/Src/Network/BasicData.cpp: `CustomOverlapped`, the record of one asynchronous operation with
-- its two buffers. Fresh memory has an arbitrary content, which the constructor takes as arguments.
pub mod Buffers
pub mod Clean
pub mod Copies
use iocp_j_server.Base.{
  ℕ, zero, suc, ◌+◌, ◌≤◌, ◌≡◌, Bool, true, false, List, [], ◌∷◌, ◌++◌, Bytes, length, take, drop,
  replicate, ltb, leb, if◌then◌else◌, Outcome, ok, fault, out_of_bounds, ◌>>=◌,
}
use iocp_j_server.Wire.{
  OperationType, op_default, op_connect, op_accept, op_recv, op_send, SenderType, unset,
  MessageHeader,
}

-- `#define BUFFER_SIZE_MAX 1024` and `sizeof(MessageHeader)`
unfoldable pub buffer_size_max : ℕ
buffer_size_max = 1024

unfoldable pub header_size : ℕ
header_size = 12

-- The members of OVERLAPPED that belong to the system.
pub record SystemMembers : Type 0 where
  pub internal : ℕ
  pub internal_high : ℕ
  pub offset : ℕ
  pub offset_high : ℕ

-- What the memory of a new record holds: its two buffers, and what no constructor sets.
abbrev pub Fresh : Type 0
Fresh = MessageHeader × Bytes × SystemMembers

-- Pointers are numbers, and 0 is null. `head` is what `Wsabuf[0].buf` points to, read as a header,
-- and `body` the bytes that `Wsabuf[1].buf` points to.
pub record Overlapped : Type 0 where
  pub members : SystemMembers
  pub event : ℕ
  pub operation : OperationType
  pub socket : ℕ
  pub sender : SenderType
  pub head : MessageHeader
  pub head_len : ℕ
  pub body : Bytes
  pub body_len : ℕ

abbrev pub zero_header : MessageHeader
zero_header = record { sender_type = 0; body_size = 0; contents_type = 0 }

-- `memset(buf, 0, n)`
unfoldable pub memset : Bytes → ℕ → Outcome Bytes
memset buf n = if ltb (length buf) n then fault out_of_bounds else ok (replicate n 0 ++ drop n buf)

-- `memcpy(buf, src, n)` of the whole of `src`
unfoldable pub memcpy : Bytes → Bytes → Outcome Bytes
memcpy buf src =
    if ltb (length buf) (length src) then fault out_of_bounds else ok (src ++ drop (length src) buf)

unfoldable pub construct : Fresh → Overlapped
construct (head, body, members) = record {
  members = members;
  event = 0;
  operation = op_default;
  socket = 0;
  sender = unset;
  head = head;
  head_len = header_size;
  body = body;
  body_len = buffer_size_max;
}

unfoldable pub connect_setting : ℕ → SenderType → Overlapped → Overlapped
connect_setting socket sender o = record o {
  operation = op_connect;
  socket = socket;
  sender = sender;
}

unfoldable pub accept_setting : ℕ → SenderType → Overlapped → Overlapped
accept_setting socket sender o = record o {
  operation = op_accept;
  socket = socket;
  sender = sender;
}

-- The old header is overwritten with zeros, and then left for a new one.
unfoldable pub send_setting : ℕ → MessageHeader → Bytes → Overlapped → Outcome Overlapped
send_setting socket header body o = do
  zeroed ← memset o.body (length body)
  filled ← memcpy zeroed body
  ok (record o {
    socket = socket;
    operation = op_send;
    head = header;
    head_len = header_size;
    body = filled;
    body_len = length body;
  })

unfoldable pub receive_setting : ℕ → Overlapped → Overlapped
receive_setting socket o = record o { operation = op_recv; socket = socket }

unfoldable pub get_operation : Overlapped → OperationType
get_operation o = o.operation

unfoldable pub get_sender_type : Overlapped → SenderType
get_sender_type o = o.sender

unfoldable pub get_socket_ptr : Overlapped → ℕ
get_socket_ptr o = o.socket

-- Only the first `Wsabuf[1].len` bytes of the body are overwritten, and the system's members not at all.
unfoldable pub clear : Overlapped → Outcome Overlapped
clear o = do
  zeroed ← memset o.body o.body_len
  ok (record {
    members = o.members;
    event = 0;
    operation = op_default;
    socket = 0;
    sender = unset;
    head = zero_header;
    head_len = header_size;
    body = zeroed;
    body_len = buffer_size_max;
  })

-- What the kernel writes into the buffers of a pending WSARecv: a header, and the front of the body.
unfoldable pub received : MessageHeader → Bytes → Overlapped → Outcome Overlapped
received header bytes o = do
  filled ← memcpy o.body bytes
  ok (record o { head = header; body = filled })

-- One use of a pooled record, from the `Clear` that precedes each: the setting, and for a receive
-- what the kernel has filled in when the operation completes.
pub data Use : Type 0 where
  connects accepts : ℕ → SenderType → Use
  sends : ℕ → MessageHeader → Bytes → Use
  receives : ℕ → MessageHeader → Bytes → Use

unfoldable pub set_up : Use → Overlapped → Outcome Overlapped
set_up (connects socket sender) o = ok (connect_setting socket sender o)
set_up (accepts socket sender) o = ok (accept_setting socket sender o)
set_up (sends socket header body) o = send_setting socket header body o
set_up (receives socket header bytes) o = received header bytes (receive_setting socket o)

unfoldable pub uses : List Use → Overlapped → Outcome Overlapped
uses [] o = ok o
uses (u ∷ us) o = clear o >>= λ o'. set_up u o' >>= λ o''. uses us o''
