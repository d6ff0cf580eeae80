-- ===== src/Settings/Written.antt =====
-- What the control server's `main` makes of the settings file that `CreateServerSettingFiles` writes.
use iocp_j_server.Base.{
  ℕ, ◌≡◌, refl, ap, arith, true, some, List, [], ◌∷◌, Bytes, codes, bytes_eq, bytes_eq_refl, ok,
  if◌then◌else◌, ◌∙◌, none, map, ap₂, ◌<◌, ◌^◌, length,
}
use iocp_j_server.Startup.{
  Launcher, Arguments, lobby_server_info_setting, lobby_server_start, launches, command_line,
  read_arguments, IsWord, IsSplitting,
}
use iocp_j_server.Startup.CommandLine.{read_arguments-command_line}
use iocp_j_server.Overlapped.{buffer_size_max}
use iocp_j_server.Network.{NetworkManager}
use iocp_j_server.Network.Ownership.{accepts, pool}
use iocp_j_server.Hubs.{Machine, control_roles, construct_network, bring_up_lem}
use iocp_j_server.Hubs.Listening.{AllFine, construct_network-returns}
use iocp_j_server.Settings.{
  JsonFiles, Files, default_settings, create_server_setting_files, load_setting_files, loaded, look,
  server_settings, lobby_settings, main,
}
use iocp_j_server.Settings.Laws.{IsJsonFiles}
use iocp_j_server.Settings.Stored.{found, null-IsConfig, set_all-found, default_settings-AllAscii}

module _ (j : JsonFiles) (laws : IsJsonFiles j) where
  -- The values that the statements have assigned.
  module _ (config : j.Json)
      (reads : (a b : Bytes)
        → look j config a b ≡ found j laws (default_settings j) a b (look j j.null a b)) where
    control_settings :
        server_settings j (codes "ControlServer") (codes "IP") (codes "Port") config
        ≡ ok (record {
          key = codes "127.0.0.1";
          port = 9080;
          thread_count = 10;
          pre_create_socket_count = 10;
          accept_socket_max = 30;
          overlapped_queue_size_max = 100;
        })
    unfolding server_settings
    control_settings = simp (reads, laws.get_string-of_string, laws.get_int-of_int)

    auth_settings :
        server_settings j (codes "AuthServer") (codes "Keys") (codes "Ports") config
        ≡ ok (record {
          key = codes "Auth";
          port = 9090;
          thread_count = 10;
          pre_create_socket_count = 10;
          accept_socket_max = 30;
          overlapped_queue_size_max = 100;
        })
    unfolding server_settings
    auth_settings = simp (reads, laws.get_string-of_string, laws.get_int-of_int)

    lobby_settings_lem :
        lobby_settings j config
        ≡ ok (record {
          keys = codes "Lobby1" ∷ codes "Lobby2" ∷ codes "Lobby3" ∷ [];
          ports = 9091 ∷ 9092 ∷ 9093 ∷ [];
          thread_count = 10;
          pre_create_socket_count = 10;
          accept_socket_max = 30;
          overlapped_queue_size_max = 100;
        })
    unfolding lobby_settings
    lobby_settings_lem =
        simp (reads, laws.get_strings-of_strings, laws.get_ints-of_ints, laws.get_int-of_int)

-- The settings in the hub.
abbrev pub configured : ℕ → Launcher
configured count = record {
  lobby_keys = codes "Lobby1" ∷ codes "Lobby2" ∷ codes "Lobby3" ∷ [];
  lobby_ports = 9091 ∷ 9092 ∷ 9093 ∷ [];
  lobby_thread_count = 10;
  lobby_pre_create_socket_count = 10;
  lobby_accept_socket_max = 30;
  lobby_overlapped_queue_size_max = 100;
  control_server_ip = codes "127.0.0.1";
  control_server_port = 9080;
  current_lobby_count = count;
}

-- What a lobby server is to read from its command line.
abbrev pub lobby_arguments : Bytes → ℕ → Arguments
lobby_arguments key port = record {
  server_key = key;
  server_port = port;
  thread_count = 10;
  pre_create_socket_count = 10;
  accept_socket_max = 30;
  overlapped_queue_max = 100;
  control_server_ip = codes "127.0.0.1";
  control_server_port = 9080;
}

module _ (j : JsonFiles) (file_name : Bytes) (files : Files) where
  load-missing : files file_name ≡ none → load_setting_files j file_name files ≡ ok (j.of_int 0)
  unfolding load_setting_files
  load-missing missing = ap (loaded j) missing

  load-parses :
      (text : Bytes) {config : j.Json}
      → files file_name ≡ some text
      → j.parse text ≡ ok config
      → load_setting_files j file_name files ≡ ok config
  unfolding load_setting_files
  load-parses text there parses = ap (loaded j) there ∙ parses

module _ (j : JsonFiles) (laws : IsJsonFiles j) (file_name : Bytes) (files : Files)
    (machine : Machine) (fresh : Launcher) where
  -- Where there is no settings file, nothing is started.
  main-missing : files file_name ≡ none → main j file_name files machine fresh ≡ ok none
  unfolding main
  main-missing missing = rw (load-missing j file_name files missing, laws.is_zero-of_int) refl

  module _ {manager : NetworkManager}
      (constructs : construct_network control_roles 100 10 machine.memory machine.found
          machine.handles machine.answers
        ≡ ok manager) where
    main-create :
        (files' : Files) × (create_server_setting_files j file_name true files ≡ ok files')
        × (main j file_name files' machine fresh
            ≡ ok (
                some (
                  manager,
                  command_line (configured 0) (codes "Lobby1") 9091
                      ∷ command_line (configured 0) (codes "Lobby2") 9092
                      ∷ [],
                  configured 2,
                )))
    unfolding create_server_setting_files main lobby_server_info_setting lobby_server_start launches
    main-create =
        let (config, sets, is_config, no_zero, reads) =
          set_all-found j laws (default_settings j) j.null (default_settings-AllAscii j laws)
            (null-IsConfig j laws) laws.is_zero-null in
        let (text, dumps, parses) = laws.dump-IsAscii config is_config.nice.1 in
        let files' : Files = λ f. if bytes_eq file_name f then some text else files f in
        let there : files' file_name ≡ some text = rw (bytes_eq_refl file_name) refl in
        (
          files',
          rw (sets, dumps) refl,
          rw
              (
                load-parses j file_name files' text there parses,
                no_zero,
                control_settings j laws config reads,
                lobby_settings_lem j laws config reads,
                auth_settings j laws config reads,
                bring_up_lem control_roles 100 10 machine (omega arith) (omega arith),
                constructs,
              )
              refl,
        )

  -- With the settings file that CreateServerSettingFiles writes, whatever the files were, good answers
  -- of the system, and a C runtime that splits at spaces: `main` of the control server comes up, with
  -- ten records posted, each for an accept, and 90 records in the pool, and starts two lobby servers, which read from
  -- their command lines the keys, ports and other settings that were written for them, and the control
  -- server's address and port.
  pub main-starts :
      (split : Bytes → List Bytes)
      → IsSplitting split
      → (defaults : Arguments) → ((a : ℕ) → length (machine.memory a).1 ≡ buffer_size_max)
      → machine.found ≡ true
      → AllFine machine.answers
      → (files' : Files) × (manager : NetworkManager) × (lines : List Bytes)
        × (create_server_setting_files j file_name true files ≡ ok files')
        × (main j file_name files' machine fresh ≡ ok (some (manager, lines, configured 2)))
        × (length manager.posted ≡ 10)
        × (accepts manager.heap manager.posted ≡ 10)
        × (length (pool manager) ≡ 90)
        × (map (λ line. read_arguments defaults (split line)) lines
            ≡ some (lobby_arguments (codes "Lobby1") 9091)
              ∷ some (lobby_arguments (codes "Lobby2") 9092)
              ∷ [])
  main-starts split splits defaults long found fine =
      let (returns, exhausts) =
        construct_network-returns control_roles 100 10 machine.memory machine.handles
          machine.answers long fine in
      let (manager, constructs, posted, accepting, dropped, left) = returns (omega arith) in
      let (files', creates, starts) = main-create (rw found constructs) in
      (
        files',
        manager,
        command_line (configured 0) (codes "Lobby1") 9091
            ∷ command_line (configured 0) (codes "Lobby2") 9092
            ∷ [],
        creates,
        starts,
        posted,
        accepting,
        left,
        ap₂ (λ a b. a ∷ b ∷ []) (reads (codes "Lobby1") 9091 (refl, refl) (omega arith))
            (reads (codes "Lobby2") 9092 (refl, refl) (omega arith)),
      )
    where
      reads :
          (key : Bytes) (port : ℕ)
          → IsWord key
          → port < 2 ^ 32
          → read_arguments defaults (split (command_line (configured 0) key port))
            ≡ some (lobby_arguments key port)
      reads key port word small =
          read_arguments-command_line split splits (configured 0) key port word (refl, refl)
            defaults small (omega arith) (omega arith) (omega arith) (omega arith) (omega arith)
