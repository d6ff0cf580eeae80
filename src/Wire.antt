-- ===== src/Wire.antt =====
-- Common/Include/Network/BasicData.h: the enumerations, the message header and the packet, and the
-- byte order in which headers cross the network. Four-byte fields are numbers below 2 ^ 32.
pub mod Order
use iocp_j_server.Base.{
  ℕ, ◌+◌, ◌*◌, ◌/◌, ◌%◌, ◌^◌, ◌<◌, ◌≡◌, Bool, true, false, List, [], ◌∷◌, Bytes, length, take, ltb,
  if◌then◌else◌, Outcome, ok, fault, out_of_bounds, ◌>>=◌,
}

pub data OperationType : Type 0 where
  op_default op_connect op_accept op_recv op_send : OperationType

pub data SenderType : Type 0 where
  unset control_server auth_server lobby_server client : SenderType

-- The enumerator's value; `DEFAULT` is `unset`.
unfoldable pub sender_number : SenderType → ℕ
sender_number unset = 0
sender_number control_server = 1
sender_number auth_server = 2
sender_number lobby_server = 3
sender_number client = 4

pub record MessageHeader : Type 0 where
  pub sender_type : ℕ
  pub body_size : ℕ
  pub contents_type : ℕ

pub record Packet : Type 0 where
  pub sender_type : ℕ
  pub completion_key : ℕ
  pub contents_type : ℕ
  pub buffer : Bytes

-- Winsock's `htonl` and `ntohl`.
pub record HostOrder : Type 0 where
  pub htonl : ℕ → ℕ
  pub ntohl : ℕ → ℕ

-- What is documented of them on a little-endian host: each reverses the four bytes.
pub record IsLittleEndian (h : HostOrder) : Type 0 where
  pub ntohl-htonl : (x : ℕ) → x < 2 ^ 32 → h.ntohl (h.htonl x) ≡ x
  pub ntohl-bytes :
      (a b c d : ℕ)
      → a < 256
      → b < 256
      → c < 256
      → d < 256
      → h.ntohl (a + 256 * b + 65536 * c + 16777216 * d) ≡ d + 256 * c + 65536 * b + 16777216 * a

-- `std::string(buf, bodySize)` of a buffer with that content: `bodySize` is an `int`, and one that is
-- negative or past the buffer's end reads out of bounds or throws.
unfoldable pub string_of : Bytes → ℕ → Outcome Bytes
string_of buf n = if ltb (length buf) n then fault out_of_bounds else ok (take n buf)

module _ (h : HostOrder) where
  -- The header that `NetworkManager::SendRequest` makes: its sender type is not converted.
  unfoldable pub send_header : SenderType → ℕ → ℕ → MessageHeader
  unfolding sender_number
  send_header sender content_type body_size = record {
    sender_type = sender_number sender;
    body_size = h.htonl body_size;
    contents_type = h.htonl content_type;
  }

  -- The packet that the hubs' `ProcessIocp` makes of a header and a body buffer.
  unfoldable pub receive_packet : ℕ → MessageHeader → Bytes → Outcome Packet
  receive_packet key header buf = do
    text ← string_of buf (h.ntohl header.body_size)
    ok (record {
      sender_type = h.ntohl header.sender_type;
      completion_key = key;
      contents_type = h.ntohl header.contents_type;
      buffer = text;
    })
