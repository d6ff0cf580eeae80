-- ===== src/LobbyJobs.antt =====
-- Common/Src/Protocol/LobbyServerProtocol.cpp and Common/Include/Protocol/Job.h: the messages that a
-- lobby server makes, as jobs that a job thread executes.
use iocp_j_server.Base.{ℕ, Bool, true, Bytes, length}
use iocp_j_server.Protocol.{
  FlatBuffers, message_number, notice_lobby_ready, notice_lobby_info, create_notice_lobby_ready,
  create_notice_lobby_info,
}

-- `Protocol::JobOutput`
pub record JobOutput : Type 0 where
  pub socket_ptr : ℕ
  pub body_size : ℕ
  pub contents_type : ℕ
  pub buffer : Bytes
  pub is_send : Bool

-- The subclasses of `Protocol::Job`, with what their constructors keep.
pub data LobbyJob : Type 0 where
  job_notice_lobby_ready : ℕ → Bytes → ℕ → ℕ → Bool → LobbyJob
  job_notice_lobby_info : ℕ → Bytes → ℕ → ℕ → Bool → LobbyJob

module _ (fb : FlatBuffers) where
  -- `Execute` fills every field of the output.
  unfoldable pub execute : LobbyJob → JobOutput
  unfolding message_number
  execute (job_notice_lobby_ready socket_ptr key port capacity active) =
      let bytes = fb.finish (create_notice_lobby_ready fb key port capacity active) in
      record {
        socket_ptr = socket_ptr;
        body_size = length bytes;
        contents_type = message_number notice_lobby_ready;
        buffer = bytes;
        is_send = true;
      }
  execute (job_notice_lobby_info socket_ptr key current remain active) =
      let bytes = fb.finish (create_notice_lobby_info fb key current remain active) in
      record {
        socket_ptr = socket_ptr;
        body_size = length bytes;
        contents_type = message_number notice_lobby_info;
        buffer = bytes;
        is_send = true;
      }
