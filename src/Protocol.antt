-- ===== src/Protocol.antt =====
-- Common/Include/Protocol/SERVER_PROTOCOL_generated.h: the message types, and the tables that the
-- servers exchange. The flatbuffers library is a parameter.
pub mod Tables
use iocp_j_server.Base.{
  ◌%◌, if◌then◌else◌, ℕ, ◌+◌, ◌≡◌, Bool, true, false, not, Option, none, some, ◌==◌, if◌then◌else◌,
  Bytes, Fault, null_pointer, Outcome, ok, fault, ◌>>=◌, List, [],
}

pub data MessageType : Type 0 where
  begin request_lobby_info response_lobby_info notice_lobby_ready : MessageType
  notice_lobby_info notice_secret_key notice_response_speed end : MessageType

-- The enumerator's value.
unfoldable pub message_number : MessageType → ℕ
message_number begin = 0
message_number request_lobby_info = 1
message_number response_lobby_info = 2
message_number notice_lobby_ready = 3
message_number notice_lobby_info = 4
message_number notice_secret_key = 5
message_number notice_response_speed = 6
message_number end = 7

-- The kinds of content of a `SERVER_PROTOCOL` table.
pub data Content : Type 0 where
  no_content request_content response_content ready_content info_content : Content
  secret_key_content response_speed_content : Content

-- The enumerator's value.
unfoldable pub content_number : Content → ℕ
content_number no_content = 0
content_number request_content = 1
content_number response_content = 2
content_number ready_content = 3
content_number info_content = 4
content_number secret_key_content = 5
content_number response_speed_content = 6

-- The calls of flatbuffers. A table's fields are named by their vtable offsets; `add_element` and
-- `get_field` also take the field's default, and `get_pointer` is null for a field that is absent.
pub record FlatBuffers : Type 1 where
  pub Table : Type 0
  pub start_table : Table
  pub add_element : ℕ → ℕ → ℕ → Table → Table
  pub add_string : ℕ → Bytes → Table → Table
  pub get_field : ℕ → ℕ → Table → ℕ
  pub get_pointer : ℕ → Table → Option Bytes
  pub finish : Table → Bytes
  pub get_root : Bytes → Table

-- What is documented of them: a field that was added reads back, with the same default, whatever
-- other fields are added after it; and a finished buffer gives its table.
pub record IsFlatBuffers (fb : FlatBuffers) : Type 0 where
  pub get_field-add : (v x d : ℕ) (t : fb.Table) → fb.get_field v d (fb.add_element v x d t) ≡ x
  pub get_field-add_ne :
      (v w x d e : ℕ) (t : fb.Table)
      → (v == w) ≡ false
      → fb.get_field v d (fb.add_element w x e t) ≡ fb.get_field v d t
  pub get_field-string :
      (v w d : ℕ) (s : Bytes) (t : fb.Table)
      → (v == w) ≡ false
      → fb.get_field v d (fb.add_string w s t) ≡ fb.get_field v d t
  pub get_pointer-add :
      (v : ℕ) (s : Bytes) (t : fb.Table) → fb.get_pointer v (fb.add_string v s t) ≡ some s
  pub get_pointer-element :
      (v w x d : ℕ) (t : fb.Table)
      → (v == w) ≡ false
      → fb.get_pointer v (fb.add_element w x d t) ≡ fb.get_pointer v t
  pub get_root-finish : (t : fb.Table) → fb.get_root (fb.finish t) ≡ t

-- `static_cast<uint8_t>` of a `bool`, and `!= 0`.
abbrev pub bool_number : Bool → ℕ
bool_number true = 1
bool_number false = 0

-- `flatbuffers::String::str()` through a pointer.
abbrev pub str : Option Bytes → Outcome Bytes
str none = fault null_pointer
str (some s) = ok s

module _ (fb : FlatBuffers) where
  unfoldable pub create_response_lobby_info : Bool → Bytes → ℕ → fb.Table
  create_response_lobby_info feedback lobby_key port =
      fb.add_element 4 (bool_number feedback) 0
        (fb.add_string 6 lobby_key (fb.add_element 8 port 0 fb.start_table))

  unfoldable pub create_notice_lobby_ready : Bytes → ℕ → ℕ → Bool → fb.Table
  create_notice_lobby_ready lobby_key port capacity active =
      fb.add_element 10 (bool_number active) 0 (
        fb.add_string 4 lobby_key
          (fb.add_element 6 port 0 (fb.add_element 8 capacity 0 fb.start_table)))

  unfoldable pub create_notice_lobby_info : Bytes → ℕ → ℕ → Bool → fb.Table
  create_notice_lobby_info lobby_key current remain active =
      fb.add_element 10 (bool_number active) 0 (
        fb.add_string 4 lobby_key
          (fb.add_element 6 current 0 (fb.add_element 8 remain 0 fb.start_table)))

  unfoldable pub create_request_lobby_info : fb.Table
  create_request_lobby_info = fb.start_table

  unfoldable pub create_notice_secret_key : Bytes → fb.Table
  create_notice_secret_key secret_key = fb.add_string 4 secret_key fb.start_table

  -- A `float` is the number of its bit pattern; one that equals 0.0 is not written, so that -0.0,
  -- the pattern 2147483648, is lost.
  unfoldable pub create_notice_response_speed : Bytes → ℕ → fb.Table
  create_notice_response_speed lobby_key response_time =
      let timed =
        if response_time % 2147483648 == 0
        then fb.start_table
        else fb.add_element 6 response_time 0 fb.start_table in
      fb.add_string 4 lobby_key timed

  -- The accessors of the tables, which agree where the offsets do.
  unfoldable pub response_feedback : fb.Table → Bool
  response_feedback t = not (fb.get_field 4 0 t == 0)

  unfoldable pub response_lobby_key : fb.Table → Option Bytes
  response_lobby_key t = fb.get_pointer 6 t

  unfoldable pub response_port : fb.Table → ℕ
  response_port t = fb.get_field 8 0 t

  unfoldable pub ready_lobby_key : fb.Table → Option Bytes
  ready_lobby_key t = fb.get_pointer 4 t

  unfoldable pub ready_port : fb.Table → ℕ
  ready_port t = fb.get_field 6 0 t

  unfoldable pub ready_capacity : fb.Table → ℕ
  ready_capacity t = fb.get_field 8 0 t

  unfoldable pub ready_active : fb.Table → Bool
  ready_active t = not (fb.get_field 10 0 t == 0)

  unfoldable pub info_lobby_key : fb.Table → Option Bytes
  info_lobby_key t = fb.get_pointer 4 t

  unfoldable pub info_current : fb.Table → ℕ
  info_current t = fb.get_field 6 0 t

  unfoldable pub info_remain : fb.Table → ℕ
  info_remain t = fb.get_field 8 0 t

  unfoldable pub info_active : fb.Table → Bool
  info_active t = not (fb.get_field 10 0 t == 0)

  unfoldable pub secret_key : fb.Table → Option Bytes
  secret_key t = fb.get_pointer 4 t

  unfoldable pub speed_lobby_key : fb.Table → Option Bytes
  speed_lobby_key t = fb.get_pointer 4 t

  unfoldable pub response_time : fb.Table → ℕ
  response_time t = fb.get_field 6 0 t
