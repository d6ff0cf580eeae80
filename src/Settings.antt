-- ===== src/Settings.antt =====
-- Common/Include/Utility/ConfigCreator.h and Server_Controll/main.cpp: the settings file, written and
-- read. nlohmann::json is a parameter, as far as these two call it.
pub mod Laws
pub mod Stored
pub mod Written
use iocp_j_server.Base.{
  ℕ, ◌≡◌, Bool, true, false, ◌&&◌, Option, none, some, List, [], ◌∷◌, Bytes, codes, bytes_eq, ltb,
  Outcome, ok, ◌>>=◌, if◌then◌else◌,
}
use iocp_j_server.Wire.{MessageHeader}
use iocp_j_server.Network.{NetworkManager, Answer}
use iocp_j_server.Hubs.{Machine, control_roles, bring_up}
use iocp_j_server.Startup.{Launcher, lobby_server_info_setting, lobby_server_start}

-- `index` is the read by `operator[]` of a name, which gives null where the name is missing, and
-- `assign` the assignment to it; `is_zero` is the comparison with NULL. All but the first five can
-- throw.
pub record JsonFiles : Type 1 where
  pub Json : Type 0
  pub null : Json
  pub of_string : Bytes → Json
  pub of_int : ℕ → Json
  pub of_strings : List Bytes → Json
  pub of_ints : List ℕ → Json
  pub is_zero : Json → Bool
  pub index : Json → Bytes → Outcome Json
  pub assign : Json → Bytes → Json → Outcome Json
  pub get_string : Json → Outcome Bytes
  pub get_int : Json → Outcome ℕ
  pub get_strings : Json → Outcome (List Bytes)
  pub get_ints : Json → Outcome (List ℕ)
  pub dump : Json → Outcome Bytes
  pub parse : Bytes → Outcome Json

-- The files by name, with their contents.
abbrev pub Files : Type 0
Files = Bytes → Option Bytes

module _ (j : JsonFiles) where
  -- A statement `config[section][name] = value`.
  pub record Setting : Type 0 where
    pub section : Bytes
    pub name : Bytes
    pub value : j.Json

  abbrev set_to : Bytes → Bytes → j.Json → Setting
  set_to section name value = record { section = section; name = name; value = value }

  unfoldable pub set_one : Setting → j.Json → Outcome j.Json
  set_one s config = do
    section ← j.index config s.section
    changed ← j.assign section s.name s.value
    j.assign config s.section changed

  unfoldable pub set_all : List Setting → j.Json → Outcome j.Json
  unfolding set_one
  set_all [] config = ok config
  set_all (s ∷ ss) config = do changed ← set_one s config; set_all ss changed

  -- The statements of `CreateServerSettingFiles`.
  abbrev pub default_settings : List Setting
  default_settings =
      set_to (codes "ControlServer") (codes "IP") (j.of_string (codes "127.0.0.1"))
      ∷ set_to (codes "ControlServer") (codes "Port") (j.of_int 9080)
      ∷ set_to (codes "ControlServer") (codes "ThreadCount") (j.of_int 10)
      ∷ set_to (codes "ControlServer") (codes "PreCreateSocketCount") (j.of_int 10)
      ∷ set_to (codes "ControlServer") (codes "AcceptSocketMax") (j.of_int 30)
      ∷ set_to (codes "ControlServer") (codes "OverlappedQueueSizemax") (j.of_int 100)
      ∷ set_to (codes "AuthServer") (codes "Keys") (j.of_string (codes "Auth"))
      ∷ set_to (codes "AuthServer") (codes "Ports") (j.of_int 9090)
      ∷ set_to (codes "AuthServer") (codes "ThreadCount") (j.of_int 10)
      ∷ set_to (codes "AuthServer") (codes "PreCreateSocketCount") (j.of_int 10)
      ∷ set_to (codes "AuthServer") (codes "AcceptSocketMax") (j.of_int 30)
      ∷ set_to (codes "AuthServer") (codes "OverlappedQueueSizemax") (j.of_int 100)
      ∷ set_to (codes "REDIS") (codes "PORT") (j.of_int 6379)
      ∷ set_to (codes "LobbyServer") (codes "Keys")
          (j.of_strings (codes "Lobby1" ∷ codes "Lobby2" ∷ codes "Lobby3" ∷ []))
      ∷ set_to (codes "LobbyServer") (codes "Ports") (j.of_ints (9091 ∷ 9092 ∷ 9093 ∷ []))
      ∷ set_to (codes "LobbyServer") (codes "ThreadCount") (j.of_int 10)
      ∷ set_to (codes "LobbyServer") (codes "PreCreateSocketCount") (j.of_int 10)
      ∷ set_to (codes "LobbyServer") (codes "AcceptSocketMax") (j.of_int 30)
      ∷ set_to (codes "LobbyServer") (codes "OverlappedQueueSizemax") (j.of_int 100)
      ∷ []

  -- `CreateServerSettingFiles`; a file that cannot be opened stays as it is.
  unfoldable pub create_server_setting_files : Bytes → Bool → Files → Outcome Files
  create_server_setting_files file_name opens files = do
    config ← set_all default_settings j.null
    text ← j.dump config
    ok (if opens then (λ f. if bytes_eq file_name f then some text else files f) else files)

  -- What a file holds, or NULL, the number 0.
  abbrev pub loaded : Option Bytes → Outcome j.Json
  loaded none = ok (j.of_int 0)
  loaded (some text) = j.parse text

  -- `LoadSettingFiles`
  unfoldable pub load_setting_files : Bytes → Files → Outcome j.Json
  load_setting_files file_name files = loaded (files file_name)

  -- `config[section][name]`
  abbrev pub look : j.Json → Bytes → Bytes → Outcome j.Json
  look config section name = j.index config section >>= λ inner. j.index inner name

  -- What `main` reads of one server that is not a lobby.
  pub record ServerSettings : Type 0 where
    pub key : Bytes
    pub port : ℕ
    pub thread_count : ℕ
    pub pre_create_socket_count : ℕ
    pub accept_socket_max : ℕ
    pub overlapped_queue_size_max : ℕ

  pub record LobbySettings : Type 0 where
    pub keys : List Bytes
    pub ports : List ℕ
    pub thread_count : ℕ
    pub pre_create_socket_count : ℕ
    pub accept_socket_max : ℕ
    pub overlapped_queue_size_max : ℕ

  abbrev pub number : j.Json → Bytes → Bytes → Outcome ℕ
  number config section name = look config section name >>= j.get_int

  unfoldable pub server_settings : Bytes → Bytes → Bytes → j.Json → Outcome ServerSettings
  server_settings section key_name port_name config = do
    key_member ← look config section key_name
    key ← j.get_string key_member
    port ← number config section port_name
    threads ← number config section (codes "ThreadCount")
    pre_create ← number config section (codes "PreCreateSocketCount")
    accept_max ← number config section (codes "AcceptSocketMax")
    overlapped_max ← number config section (codes "OverlappedQueueSizemax")
    ok (record {
      key = key;
      port = port;
      thread_count = threads;
      pre_create_socket_count = pre_create;
      accept_socket_max = accept_max;
      overlapped_queue_size_max = overlapped_max;
    })

  unfoldable pub lobby_settings : j.Json → Outcome LobbySettings
  lobby_settings config = do
    keys_member ← look config (codes "LobbyServer") (codes "Keys")
    keys ← j.get_strings keys_member
    ports_member ← look config (codes "LobbyServer") (codes "Ports")
    ports ← j.get_ints ports_member
    threads ← number config (codes "LobbyServer") (codes "ThreadCount")
    pre_create ← number config (codes "LobbyServer") (codes "PreCreateSocketCount")
    accept_max ← number config (codes "LobbyServer") (codes "AcceptSocketMax")
    overlapped_max ← number config (codes "LobbyServer") (codes "OverlappedQueueSizemax")
    ok (record {
      keys = keys;
      ports = ports;
      thread_count = threads;
      pre_create_socket_count = pre_create;
      accept_socket_max = accept_max;
      overlapped_queue_size_max = overlapped_max;
    })

  -- `main` of the control server up to `Start`, its threads left out: its network manager, the command
  -- lines of the lobby servers that it starts and what it keeps of these; or none of them where there
  -- is no settings file. The members of the hub are arbitrary before they are set.
  unfoldable pub main :
      Bytes → Files → Machine → Launcher → Outcome (Option (NetworkManager × List Bytes × Launcher))
  unfolding load_setting_files server_settings lobby_settings
  main file_name files machine fresh = do
    config ← load_setting_files file_name files
    let reads : Outcome (Option (NetworkManager × List Bytes × Launcher)) = (do
      control ← server_settings (codes "ControlServer") (codes "IP") (codes "Port") config
      lobby ← lobby_settings config
      auth ← server_settings (codes "AuthServer") (codes "Keys") (codes "Ports") config
      manager ←
          bring_up control_roles control.overlapped_queue_size_max control.pre_create_socket_count
            machine
      (lines, launcher) ← lobby_server_start 2 (
          lobby_server_info_setting lobby.keys lobby.ports lobby.thread_count
            lobby.pre_create_socket_count lobby.accept_socket_max lobby.overlapped_queue_size_max
            (record fresh {
              control_server_ip = control.key;
              control_server_port = control.port;
              current_lobby_count = 0;
            }))
      ok (some (manager, lines, launcher)))
    if j.is_zero config then ok none else reads
