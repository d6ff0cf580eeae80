-- ===== src/LobbyManager.antt =====
-- Server_Controll/Src/LobbyManager.cpp. An `int` is its 32-bit pattern, and log lines are left out.
pub mod Optimal
pub mod Map
pub mod Saved
use iocp_j_server.Base.{
  ℕ, ◌+◌, ◌%◌, ◌^◌, ◌≡◌, Bool, true, false, not, ◌&&◌, ◌||◌, Option, none, some, List, [], ◌∷◌,
  ◌==◌, if◌then◌else◌, Bytes, codes, bytes_eq, Fault, uncaught, Outcome, ok, fault, ◌>>=◌, lookup,
  insert_or_assign,
}
use iocp_j_server.Json.{Floats, JsonLibrary, LobbyInfo, lobby_info, data_to_json}
use iocp_j_server.Redis.{Server, update_data, scan_multiple_result}

-- `ControlServer::Lobby`
pub record Lobby (f : Floats) : Type 0 where
  pub key : Bytes
  pub port : ℕ
  pub capacity : ℕ
  pub current : ℕ
  pub remain : ℕ
  pub active : Bool
  pub response_speed : f.F

-- `LobbyManager`, with the state of the Redis server that its `_redisWorker` talks to. The lobbies
-- that `_lobbyMap` points to have no other owner.
pub record LobbyManager (f : Floats) (r : Server) : Type 0 where
  pub redis : r.State
  pub lobby_map : List (Bytes × Lobby f)
  pub expire_time : ℕ

-- The locals of `SearchBestLobby`.
pub record Best (f : Floats) : Type 0 where
  pub ratio : f.F
  pub response_speed : f.F
  pub key : Bytes
  pub port : ℕ

abbrev pub table : Bytes
table = codes "LobbyInfo"

module _ (f : Floats) where
  -- `targetLobby.Current + targetLobby.Remain`
  abbrev pub total : LobbyInfo f → ℕ
  total i = (i.current + i.remain) % 2 ^ 32

  abbrev pub ratio : LobbyInfo f → f.F
  ratio i = f.div (f.of_int i.current) (f.of_int (total i))

  -- The two `continue`s are not taken.
  abbrev pub eligible : LobbyInfo f → Bool
  eligible i = i.active && not (total i == 0)

  abbrev pub better : LobbyInfo f → Best f → Bool
  better i b =
      f.lt (ratio i) b.ratio || (f.eq (ratio i) b.ratio && f.lt i.response_speed b.response_speed)

  -- The body of the loop, once the entry is read.
  unfoldable pub compare_lobby : Bytes → LobbyInfo f → Best f → Best f
  compare_lobby k i b =
      if eligible i && better i b
      then record { ratio = ratio i; response_speed = i.response_speed; key = k; port = i.port }
      else b

  unfoldable pub start : Best f
  start = record { ratio = f.max; response_speed = f.max; key = []; port = 0 }

module _ (f : Floats) (j : JsonLibrary f) where
  -- An entry's text, read.
  abbrev pub read_row : Bytes → Outcome (LobbyInfo f)
  read_row text = j.parse text >>= λ json. lobby_info f j json

  -- The loop of `SearchBestLobby` over the map's entries.
  unfoldable pub search_rows : List (Bytes × Bytes) → Best f → Outcome (Best f)
  search_rows [] b = ok b
  search_rows ((k, text) ∷ rows) b = read_row text >>= λ i. search_rows rows (compare_lobby f k i b)

module _ (f : Floats) (j : JsonLibrary f) (r : Server) where
  -- The constructor and `Construct`.
  unfoldable pub construct : r.State → ℕ → LobbyManager f r
  construct redis expire_time = record { redis = redis; lobby_map = []; expire_time = expire_time }

  unfoldable pub save_lobby_info :
      Bytes → ℕ → ℕ → Bool → LobbyManager f r → Outcome (LobbyManager f r)
  save_lobby_info key port capacity active m = do
    let active_offset : ℕ = if active then 1 else 0
    text ← j.dump (data_to_json f j key port 0 capacity active_offset (f.of_int 0))
    ok (record m { redis = update_data r table key text m.expire_time m.redis })

  -- A key that is not in the map is only logged.
  unfoldable pub update_lobby_info : Bytes → ℕ → ℕ → Bool → LobbyManager f r → LobbyManager f r
  update_lobby_info key current remain active m = elim (lookup key m.lobby_map) [
    | none ↦ m
    | some lobby ↦
        let lobby' = record lobby { current = current; remain = remain; active = active } in
        record m { lobby_map = insert_or_assign key lobby' m.lobby_map }
  ]

  unfoldable pub update_lobby_response_speed : Bytes → f.F → LobbyManager f r → LobbyManager f r
  update_lobby_response_speed key speed m = elim (lookup key m.lobby_map) [
    | none ↦ m
    | some lobby ↦
        let lobby' = record lobby { response_speed = speed } in
        record m { lobby_map = insert_or_assign key lobby' m.lobby_map }
  ]

  -- On fuel for the scan; `none` means that it ran out.
  unfoldable pub search_best_lobby : ℕ → LobbyManager f r → Option (Outcome (Best f))
  unfolding search_rows start
  search_best_lobby fuel m = elim (scan_multiple_result r fuel table m.redis) [
    | none ↦ none
    | some rows ↦ some (rows >>= λ l. search_rows f j l (start f))
  ]

  -- `key` and `port` are references, and come back; `success` is a copy, and does not.
  unfoldable pub response_lobby_info :
      ℕ → Bytes → ℕ → Bool → LobbyManager f r → Option (Outcome (Bytes × ℕ))
  unfolding search_best_lobby
  response_lobby_info fuel key port success m = elim (search_best_lobby fuel m) [
    | none ↦ none
    | some found ↦
        some (found >>= λ b. if bytes_eq b.key [] then ok (key, port) else ok (b.key, b.port))
  ]
