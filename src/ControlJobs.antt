-- ===== src/ControlJobs.antt =====
-- Common/Src/Protocol/ControlServerProtocol.cpp: the jobs of the control server. Their callbacks are
-- the manager's methods that Hub.cpp passes.
use iocp_j_server.Base.{
  ℕ, Bool, true, false, Option, none, some, Bytes, [], length, Outcome, ok, ◌>>=◌,
}
use iocp_j_server.Json.{Floats, JsonLibrary}
use iocp_j_server.Redis.{Server}
use iocp_j_server.Protocol.{
  FlatBuffers, message_number, response_lobby_info as response_type, create_response_lobby_info,
}
use iocp_j_server.LobbyJobs.{JobOutput}
use iocp_j_server.LobbyManager.{
  LobbyManager, save_lobby_info, update_lobby_info, response_lobby_info,
}

-- The subclasses of `Protocol::Job`, with what their constructors keep.
pub data ControlJob : Type 0 where
  job_request_lobby_info : ℕ → ControlJob
  job_notice_lobby_ready : ℕ → Bytes → ℕ → ℕ → Bool → ControlJob
  job_notice_lobby_info : ℕ → Bytes → ℕ → ℕ → Bool → ControlJob

module _ (f : Floats) (j : JsonLibrary f) (r : Server) (fb : FlatBuffers) where
  -- What the request's `Execute` sends. `success` is passed by value, so it is `false` still.
  unfoldable pub response_output : ℕ → Bytes × ℕ → JobOutput
  unfolding message_number
  response_output socket_ptr (lobby_key, lobby_port) =
      let success = false in
      let bytes = fb.finish (create_response_lobby_info fb success lobby_key lobby_port) in
      record {
        socket_ptr = socket_ptr;
        body_size = length bytes;
        contents_type = message_number response_type;
        buffer = bytes;
        is_send = true;
      }

  -- `Execute`, on fuel for the scan; `none` means that it ran out.
  unfoldable pub execute :
      ℕ
      → ControlJob
      → JobOutput
      → LobbyManager f r
      → Option (Outcome (JobOutput × LobbyManager f r))
  unfolding response_output
  execute fuel (job_request_lobby_info socket_ptr) output m =
      elim (response_lobby_info f j r fuel [] 0 false m) [
        | none ↦ none
        | some found ↦ some (found >>= λ best. ok (response_output socket_ptr best, m))
      ]
  execute fuel (job_notice_lobby_ready socket_ptr key port capacity active) output m = some (
      save_lobby_info f j r key port capacity active m >>= λ m'.
      ok (record output { is_send = false }, m'))
  execute fuel (job_notice_lobby_info socket_ptr key current remain active) output m =
      some (
        ok (record output { is_send = false }, update_lobby_info f j r key current remain active m))
