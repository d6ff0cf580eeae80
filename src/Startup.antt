-- ===== src/Startup.antt =====
-- How the control server starts lobby servers (Server_Controll/Src/Hub.cpp, LobbyServerStart) and how
-- these and the auth server read their command lines (Server_Lobby/main.cpp, Server_Auth/main.cpp).
-- The splitting of a command line into `argv`, by the C runtime, is a parameter.
pub mod Decimal
pub mod Launches
pub mod CommandLine
use iocp_j_server.Base.{
  ℕ, zero, suc, ◌+◌, ◌-◌, ◌≡◌, Bool, true, false, ◌&&◌, not, Option, none, some, List, [], ◌∷◌,
  ◌++◌, length, get_elem?, get_or, ltb, ◌==◌, if◌then◌else◌, Bytes, codes, Outcome, ok, fault,
  Fault, out_of_bounds, ◌>>=◌,
}
use iocp_j_server.Startup.Decimal.{to_string, stoi}

-- What the hub keeps for starting lobbies.
pub record Launcher : Type 0 where
  pub lobby_keys : List Bytes
  pub lobby_ports : List ℕ
  pub lobby_thread_count : ℕ
  pub lobby_pre_create_socket_count : ℕ
  pub lobby_accept_socket_max : ℕ
  pub lobby_overlapped_queue_size_max : ℕ
  pub control_server_ip : Bytes
  pub control_server_port : ℕ
  pub current_lobby_count : ℕ

-- `LobbySeverInfoSetting`
unfoldable pub lobby_server_info_setting :
    List Bytes → List ℕ → (threads pre_create accept_max overlapped_max : ℕ) → Launcher → Launcher
lobby_server_info_setting keys ports threads pre_create accept_max overlapped_max l = record l {
  lobby_keys = keys;
  lobby_ports = ports;
  lobby_thread_count = threads;
  lobby_pre_create_socket_count = pre_create;
  lobby_accept_socket_max = accept_max;
  lobby_overlapped_queue_size_max = overlapped_max;
}

-- The command line of one lobby.
unfoldable pub command_line : Launcher → Bytes → ℕ → Bytes
unfolding to_string
command_line l lobby_key port =
    codes "Server_Lobby.exe"
    ++ codes " "
    ++ lobby_key
    ++ codes " "
    ++ to_string port
    ++ codes " "
    ++ to_string l.lobby_thread_count
    ++ codes " "
    ++ to_string l.lobby_pre_create_socket_count
    ++ codes " "
    ++ to_string l.lobby_accept_socket_max
    ++ codes " "
    ++ to_string l.lobby_overlapped_queue_size_max
    ++ codes " "
    ++ l.control_server_ip
    ++ codes " "
    ++ to_string l.control_server_port
    ++ codes " "
    ++ to_string 100

-- `v[i]`
abbrev pub at {ℓ} : {A : Type ℓ} → Option A → Outcome A
at none = fault out_of_bounds
at (some a) = ok a

-- The loop of `LobbyServerStart`: the command lines that go to `CreateProcessA`, whatever comes of it.
unfoldable pub launches : ℕ → ℕ → Launcher → Outcome (List Bytes)
unfolding command_line
launches zero i l = ok []
launches (suc rounds) i l = do
  lobby_key ← at (get_elem? l.lobby_keys i)
  port ← at (get_elem? l.lobby_ports i)
  rest ← launches rounds (i + 1) l
  ok (command_line l lobby_key port ∷ rest)

-- `LobbyServerStart`, for a count that is not negative: the command lines of the lobbies it starts.
unfoldable pub lobby_server_start : ℕ → Launcher → Outcome (List Bytes × Launcher)
unfolding launches
lobby_server_start count l =
    let started : Outcome (List Bytes × Launcher) = (do
      lines ← launches (count - l.current_lobby_count) l.current_lobby_count l
      ok (lines, record l { current_lobby_count = l.current_lobby_count + count })) in
    if ltb (length l.lobby_keys) (l.current_lobby_count + count)
    then ok ([], l)
    else (if length l.lobby_keys == length l.lobby_ports then started else ok ([], l))

-- What a server's `main` reads from its command line.
pub record Arguments : Type 0 where
  pub server_key : Bytes
  pub server_port : ℕ
  pub thread_count : ℕ
  pub pre_create_socket_count : ℕ
  pub accept_socket_max : ℕ
  pub overlapped_queue_max : ℕ
  pub control_server_ip : Bytes
  pub control_server_port : ℕ

abbrev pub lobby_defaults : Arguments
lobby_defaults = record {
  server_key = codes "Lobby1";
  server_port = 9091;
  thread_count = 10;
  pre_create_socket_count = 10;
  accept_socket_max = 10;
  overlapped_queue_max = 100;
  control_server_ip = codes "127.0.0.1";
  control_server_port = 9090;
}

abbrev pub auth_defaults : Arguments
auth_defaults = record lobby_defaults { server_key = codes "Auth"; server_port = 9090 }

-- The `try` block, over `argv`.
unfoldable pub parse_arguments : List Bytes → Outcome Arguments
unfolding stoi
parse_arguments argv = do
  server_port ← stoi (get_or argv 2 [])
  thread_count ← stoi (get_or argv 3 [])
  pre_create_socket_count ← stoi (get_or argv 4 [])
  accept_socket_max ← stoi (get_or argv 5 [])
  overlapped_queue_max ← stoi (get_or argv 6 [])
  control_server_port ← stoi (get_or argv 8 [])
  ok (record {
    server_key = get_or argv 1 [];
    server_port = server_port;
    thread_count = thread_count;
    pre_create_socket_count = pre_create_socket_count;
    accept_socket_max = accept_socket_max;
    overlapped_queue_max = overlapped_queue_max;
    control_server_ip = get_or argv 7 [];
    control_server_port = control_server_port;
  })

-- `main` up to the hub: with too few arguments the defaults, and none where it returns -1.
unfoldable pub read_arguments : Arguments → List Bytes → Option Arguments
unfolding parse_arguments
read_arguments defaults argv =
    let parsed : Option Arguments = elim (parse_arguments argv) [
      | ok a ↦ some a
      | fault e ↦ none
    ] in
    if ltb 8 (length argv) then parsed else some defaults

-- Words without spaces, tabs and quotes.
abbrev pub plain : Bytes → Bool
plain [] = true
plain (c ∷ s) = not (c == 32) && not (c == 9) && not (c == 34) && plain s

abbrev pub IsWord : Bytes → Type 0
IsWord s = (plain s ≡ true) × (ltb 0 (length s) ≡ true)

-- One space between each two words.
unfoldable pub spaced : Bytes → List Bytes → Bytes
spaced w [] = w
spaced w (v ∷ vs) = w ++ 32 ∷ spaced v vs

abbrev pub AreWords : List Bytes → Type 0
AreWords [] = Unit {0}
AreWords (w ∷ ws) = IsWord w × AreWords ws

-- What is documented of the C runtime: such words, set apart by spaces, are its arguments.
pub record IsSplitting (split : Bytes → List Bytes) : Type 0 where
  pub split-spaced :
      (w : Bytes) (ws : List Bytes) → IsWord w → AreWords ws → split (spaced w ws) ≡ w ∷ ws
