-- ===== src/Protocol/Tables.antt =====
-- What was put into a message's table reads back from its bytes.
use iocp_j_server.Base.{ℕ, ◌≡◌, refl, ◌∙◌, Bool, true, false, not, some, ◌==◌, Bytes}
use iocp_j_server.Protocol.{
  FlatBuffers, IsFlatBuffers, bool_number, create_response_lobby_info, create_notice_lobby_ready,
  create_notice_lobby_info, response_feedback, response_lobby_key, response_port, ready_lobby_key,
  ready_port, ready_capacity, ready_active, info_lobby_key, info_current, info_remain, info_active,
}

bool_number-ne : (b : Bool) → not (bool_number b == 0) ≡ b
bool_number-ne true = refl
bool_number-ne false = refl

module _ (fb : FlatBuffers) (laws : IsFlatBuffers fb) where
  -- The accessors of RESPONSE_LOBBYINFO give, from the finished buffer, what it was created with.
  pub response_lobby_info_lem :
      (feedback : Bool) (key : Bytes) (port : ℕ)
      → let t = fb.get_root (fb.finish (create_response_lobby_info fb feedback key port)) in
        (response_feedback fb t ≡ feedback)
        × (response_lobby_key fb t ≡ some key)
        × (response_port fb t ≡ port)
  unfolding create_response_lobby_info response_feedback response_lobby_key response_port
  response_lobby_info_lem feedback key port = (
    rw (laws.get_root-finish, laws.get_field-add) (bool_number-ne feedback),
    rw laws.get_root-finish
        (laws.get_pointer-element 6 4 _ 0 _ refl ∙ laws.get_pointer-add 6 key _),
    rw laws.get_root-finish (
        laws.get_field-add_ne 8 4 _ 0 0 _ refl
        ∙ laws.get_field-string 8 6 0 key _ refl
        ∙ laws.get_field-add 8 port 0 _),
  )

  -- The accessors of NOTICE_LOBBYREADY give, from the finished buffer, what it was created with.
  pub notice_lobby_ready_lem :
      (key : Bytes) (port capacity : ℕ) (active : Bool)
      → let t = fb.get_root (fb.finish (create_notice_lobby_ready fb key port capacity active)) in
        (ready_lobby_key fb t ≡ some key)
        × (ready_port fb t ≡ port)
        × (ready_capacity fb t ≡ capacity)
        × (ready_active fb t ≡ active)
  unfolding create_notice_lobby_ready ready_lobby_key ready_port ready_capacity ready_active
  notice_lobby_ready_lem key port capacity active = (
    rw laws.get_root-finish
        (laws.get_pointer-element 4 10 _ 0 _ refl ∙ laws.get_pointer-add 4 key _),
    rw laws.get_root-finish (
        laws.get_field-add_ne 6 10 _ 0 0 _ refl
        ∙ laws.get_field-string 6 4 0 key _ refl
        ∙ laws.get_field-add 6 port 0 _),
    rw laws.get_root-finish (
        laws.get_field-add_ne 8 10 _ 0 0 _ refl
        ∙ laws.get_field-string 8 4 0 key _ refl
        ∙ laws.get_field-add_ne 8 6 _ 0 0 _ refl
        ∙ laws.get_field-add 8 capacity 0 _),
    rw (laws.get_root-finish, laws.get_field-add) (bool_number-ne active),
  )

  -- NOTICE_LOBBYINFO: the accessors give, from the finished buffer, what it was created with.
  pub notice_lobby_info_lem :
      (key : Bytes) (current remain : ℕ) (active : Bool)
      → let t = fb.get_root (fb.finish (create_notice_lobby_info fb key current remain active)) in
        (info_lobby_key fb t ≡ some key)
        × (info_current fb t ≡ current)
        × (info_remain fb t ≡ remain)
        × (info_active fb t ≡ active)
  unfolding create_notice_lobby_info info_lobby_key info_current info_remain info_active
  notice_lobby_info_lem key current remain active = (
    rw laws.get_root-finish
        (laws.get_pointer-element 4 10 _ 0 _ refl ∙ laws.get_pointer-add 4 key _),
    rw laws.get_root-finish (
        laws.get_field-add_ne 6 10 _ 0 0 _ refl
        ∙ laws.get_field-string 6 4 0 key _ refl
        ∙ laws.get_field-add 6 current 0 _),
    rw laws.get_root-finish (
        laws.get_field-add_ne 8 10 _ 0 0 _ refl
        ∙ laws.get_field-string 8 4 0 key _ refl
        ∙ laws.get_field-add_ne 8 6 _ 0 0 _ refl
        ∙ laws.get_field-add 8 remain 0 _),
    rw (laws.get_root-finish, laws.get_field-add) (bool_number-ne active),
  )
