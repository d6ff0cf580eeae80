-- ===== src/Tests/Starting.antt =====
-- The start of two lobby servers, and of an auth server.
use iocp_j_server.Base.{
  ℕ, ◌+◌, ◌≤◌, ◌<◌, ◌≡◌, refl, arith, true, false, ◌==◌, if◌then◌else◌, List, [], ◌∷◌, ◌++◌, length,
  get_elem?, some, ok, Bytes, codes,
}
use iocp_j_server.CircleQueue
use iocp_j_server.Wire.{client}
use iocp_j_server.Tests.Connections.{system_members}
use iocp_j_server.Overlapped
use iocp_j_server.Overlapped.{Overlapped, zero_header, accept_setting}
use iocp_j_server.LobbyHub
use iocp_j_server.LobbyHub.{shared}
use iocp_j_server.AuthHub
use iocp_j_server.AuthHub.Alike.{
  Alike, Round, completes, disconnects, receives, auth_rounds, lobby_rounds, auth_rounds-construct,
}
use iocp_j_server.Startup.{
  Launcher, lobby_server_start, command_line, read_arguments, auth_defaults, plain, IsWord,
  AreWords, spaced, IsSplitting,
}
use iocp_j_server.Startup.Decimal.{to_string, stoi, stoi-to_string}
use iocp_j_server.Startup.Launches.{line, lobby_server_start_lem}
use iocp_j_server.Startup.CommandLine.{read_arguments-command_line}
use iocp_j_server.Tests.Samples.{swapping}

-- A splitting at each space.
abbrev cons_first : ℕ → List Bytes → List Bytes
cons_first c [] = (c ∷ []) ∷ []
cons_first c (w ∷ ws) = (c ∷ w) ∷ ws

abbrev pub split_spaces : Bytes → List Bytes
split_spaces [] = [] ∷ []
split_spaces (c ∷ s) = let rest = split_spaces s in if c == 32 then [] ∷ rest else cons_first c rest

plain_first : (c : ℕ) (w : Bytes) → plain (c ∷ w) ≡ true → ((c == 32) ≡ false) × (plain w ≡ true)
plain_first c w h = (ground (arith, h), ground (arith, h))

split_spaces-word : (w : Bytes) → plain w ≡ true → split_spaces w ≡ w ∷ []
split_spaces-word [] h = refl
split_spaces-word (c ∷ w) h =
    let (no_space, h') = plain_first c w h in rw (no_space, split_spaces-word w h')

split_spaces-append :
    (w s : Bytes) → plain w ≡ true → split_spaces (w ++ 32 ∷ s) ≡ w ∷ split_spaces s
split_spaces-append [] s h = refl
split_spaces-append (c ∷ w) s h =
    let (no_space, h') = plain_first c w h in rw (no_space, split_spaces-append w s h')

split_spaces-spaced :
    (w : Bytes) (ws : List Bytes) → IsWord w → AreWords ws → split_spaces (spaced w ws) ≡ w ∷ ws
unfolding spaced
split_spaces-spaced w [] h hs = split_spaces-word w h.0
split_spaces-spaced w (v ∷ vs) h (h', hs) =
    rw (split_spaces-append w (spaced v vs) h.0, split_spaces-spaced v vs h' hs)

pub split_spaces-IsSplitting : IsSplitting split_spaces
split_spaces-IsSplitting = record { split-spaced = split_spaces-spaced }

abbrev pub launcher : Launcher
launcher = record {
  lobby_keys = codes "Lobby1" ∷ codes "Lobby2" ∷ [];
  lobby_ports = 9091 ∷ 9092 ∷ [];
  lobby_thread_count = 10;
  lobby_pre_create_socket_count = 10;
  lobby_accept_socket_max = 10;
  lobby_overlapped_queue_size_max = 100;
  control_server_ip = codes "127.0.0.1";
  control_server_port = 9090;
  current_lobby_count = 0;
}

lobby_server_start_lem_example :
    (2 ≤ 2
      → (lines : List Bytes) × (lobby_server_start 2 launcher
          ≡ ok (lines, record launcher { current_lobby_count = 2 }))
        × (length lines ≡ 2)
        × ((j : ℕ) → j < 2 → get_elem? lines j ≡ some (line launcher (0 + j))))
    × (2 < 2 → lobby_server_start 2 launcher ≡ ok ([], launcher))
lobby_server_start_lem_example = lobby_server_start_lem 2 launcher refl

read_arguments-command_line_example :
    read_arguments auth_defaults (split_spaces (command_line launcher (codes "Lobby2") 9092))
    ≡ some (record {
      server_key = codes "Lobby2";
      server_port = 9092;
      thread_count = 10;
      pre_create_socket_count = 10;
      accept_socket_max = 10;
      overlapped_queue_max = 100;
      control_server_ip = codes "127.0.0.1";
      control_server_port = 9090;
    })
read_arguments-command_line_example =
    read_arguments-command_line split_spaces split_spaces-IsSplitting launcher (codes "Lobby2") 9092
      (refl, refl) (refl, refl) auth_defaults (omega arith) (omega arith) (omega arith)
      (omega arith) (omega arith) (omega arith)

stoi-to_string_test : stoi (to_string 4294967254) ≡ ok 4294967254
stoi-to_string_test = stoi-to_string 4294967254 (omega arith)

abbrev rounds : List Round
rounds =
    completes 3 (accept_setting 3 client (Overlapped.construct (zero_header, [], system_members)))
    ∷ receives
    ∷ disconnects 3
    ∷ []

auth_rounds-construct_example :
    Alike
      (CircleQueue.construct shared 4)
      (auth_rounds swapping rounds (AuthHub.construct (codes "Auth") 9090 4 2))
      (lobby_rounds swapping rounds (LobbyHub.construct (codes "Lobby1") 9091 4 2 1))
auth_rounds-construct_example =
    auth_rounds-construct swapping rounds (codes "Auth") (codes "Lobby1") 9090 9091 4 4 2 1
