-- ===== src/LobbyHub/Main.antt =====
-- Server_Lobby/main.cpp: a lobby server from its command line to its connection to the control server.
use iocp_j_server.Base.{
  [], ◌==◌, if◌then◌else◌, ℕ, Bool, Option, none, some, List, Bytes, Outcome, ok, ◌>>=◌,
}
use iocp_j_server.Startup.{Arguments, lobby_defaults, read_arguments}
use iocp_j_server.Network.{NetworkManager}
use iocp_j_server.Hubs.{Machine, lobby_roles, bring_up, connect_control_server}
use iocp_j_server.LobbyHub.{LobbyHub, construct, control_sever_info_setting}

-- A job queue that is constructed for -1.
unfoldable pub without_slots : LobbyHub → LobbyHub
without_slots hub = record hub {
  job_queue = record { queue_max_size = 0; input_index = 0; output_index = 0; buffer = [] };
}

-- The hub of a lobby with those arguments, and of its network manager.
unfoldable pub launch :
    Arguments → Machine → ℕ → (bound found taken : Bool) → Outcome (LobbyHub × NetworkManager)
launch a machine handle bound found taken = do
  listening ← bring_up lobby_roles a.overlapped_queue_max a.pre_create_socket_count machine
  let asked = construct a.server_key a.server_port a.overlapped_queue_max 100 100
  let hub = if a.overlapped_queue_max == 4294967295 then without_slots asked else asked
  let told = control_sever_info_setting a.control_server_ip a.control_server_port hub
  connecting ← connect_control_server handle bound found taken listening
  ok (told, connecting.1)

-- `main` up to `Start`, its threads left out, over `argv`; nothing where it returns -1.
unfoldable pub main :
    List Bytes
    → Machine
    → ℕ
    → (bound found taken : Bool) → Outcome (Option (LobbyHub × NetworkManager))
unfolding launch
main argv machine handle bound found taken = elim (read_arguments lobby_defaults argv) [
  | none ↦ ok none
  | some a ↦ launch a machine handle bound found taken >>= λ s. ok (some s)
]
