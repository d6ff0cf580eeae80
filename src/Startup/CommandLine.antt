-- ===== src/Startup/CommandLine.antt =====
-- What a started server reads of the command line that the control server makes.
use iocp_j_server.Base.{
  ℕ, zero, suc, ◌+◌, ◌-◌, ◌/◌, ◌%◌, ◌^◌, ◌<◌, ◌≡◌, refl, ap, ◌∙◌, arith, List, [], ◌∷◌, length,
  Bytes, codes, ltb, some, true, append_assoc, lt→ltb, Bool-cases, inl, inr,
}
use iocp_j_server.Startup.{
  Launcher, Arguments, command_line, parse_arguments, read_arguments, plain, IsWord, spaced,
  IsSplitting,
}
use iocp_j_server.Startup.Decimal.{digits, to_string, stoi-to_string}

plain-digits : (fuel n : ℕ) (rest : Bytes) → plain rest ≡ true → plain (digits fuel n rest) ≡ true
unfolding digits
plain-digits zero n rest h = h
plain-digits (suc fuel) n rest h =
    let digit : plain ((48 + n % 10) ∷ rest) ≡ true = ground (arith, h) in
    elim (Bool-cases (ltb n 10)) [
      | inl one ↦ rw one digit
      | inr more ↦ rw more (plain-digits fuel (n / 10) _ digit)
    ]

some_digit : (fuel n : ℕ) (rest : Bytes) → n < fuel → 0 < length (digits fuel n rest)
unfolding digits
some_digit zero n rest h = absurd (omega arith)
some_digit (suc fuel) n rest h = elim (Bool-cases (ltb n 10)) [
  | inl one ↦ rw one (omega arith)
  | inr more ↦ rw more (some_digit fuel (n / 10) _ (ground arith))
]

digits-IsWord : (n : ℕ) → IsWord (digits (n + 1) n [])
digits-IsWord n =
    (plain-digits (n + 1) n [] refl, lt→ltb 0 _ (some_digit (n + 1) n [] (omega arith)))

to_string-IsWord : (n : ℕ) → IsWord (to_string n)
unfolding to_string
to_string-IsWord n = elim (Bool-cases (ltb n (2 ^ 31))) [
  | inl positive ↦ rw positive (digits-IsWord n)
  | inr negative ↦ rw negative ((digits-IsWord (2 ^ 32 - n)).0, lt→ltb 0 _ (omega arith))
]

-- The words of the command line.
abbrev words : Launcher → Bytes → ℕ → List Bytes
words l key port =
    key
    ∷ to_string port
    ∷ to_string l.lobby_thread_count
    ∷ to_string l.lobby_pre_create_socket_count
    ∷ to_string l.lobby_accept_socket_max
    ∷ to_string l.lobby_overlapped_queue_size_max
    ∷ l.control_server_ip
    ∷ to_string l.control_server_port
    ∷ to_string 100
    ∷ []

command_line-spaced :
    (l : Launcher) (key : Bytes) (port : ℕ)
    → command_line l key port ≡ spaced (codes "Server_Lobby.exe") (words l key port)
unfolding command_line spaced
command_line-spaced l key port = simp append_assoc

module _ (split : Bytes → List Bytes) (splits : IsSplitting split) (l : Launcher) (key : Bytes)
    (port : ℕ) (key_word : IsWord key) (ip_word : IsWord l.control_server_ip) where
  split-command_line : split (command_line l key port) ≡ codes "Server_Lobby.exe" ∷ words l key port
  split-command_line =
      ap split (command_line-spaced l key port)
      ∙ splits.split-spaced (codes "Server_Lobby.exe") (words l key port) (refl, refl)
          (
            key_word,
            (
              to_string-IsWord port,
              (
                to_string-IsWord l.lobby_thread_count,
                (
                  to_string-IsWord l.lobby_pre_create_socket_count,
                  (
                    to_string-IsWord l.lobby_accept_socket_max,
                    (
                      to_string-IsWord l.lobby_overlapped_queue_size_max,
                      (
                        ip_word,
                        (to_string-IsWord l.control_server_port, (to_string-IsWord 100, tt)),
                      ),
                    ),
                  ),
                ),
              ),
            ),
          )

  -- Where the C runtime splits at spaces, the lobby's key and the control server's address have no
  -- space, tab or quote in them and are not empty, and the numbers are 32-bit patterns: the server
  -- that is started with the command line reads from it what the control server has put there, and
  -- not its defaults.
  pub read_arguments-command_line :
      (defaults : Arguments)
      → port < 2 ^ 32
      → l.lobby_thread_count < 2 ^ 32
      → l.lobby_pre_create_socket_count < 2 ^ 32
      → l.lobby_accept_socket_max < 2 ^ 32
      → l.lobby_overlapped_queue_size_max < 2 ^ 32
      → l.control_server_port < 2 ^ 32
      → read_arguments defaults (split (command_line l key port))
        ≡ some (record {
          server_key = key;
          server_port = port;
          thread_count = l.lobby_thread_count;
          pre_create_socket_count = l.lobby_pre_create_socket_count;
          accept_socket_max = l.lobby_accept_socket_max;
          overlapped_queue_max = l.lobby_overlapped_queue_size_max;
          control_server_ip = l.control_server_ip;
          control_server_port = l.control_server_port;
        })
  unfolding read_arguments parse_arguments
  read_arguments-command_line defaults h1 h2 h3 h4 h5 h6 = rw (
    split-command_line,
    stoi-to_string port h1,
    stoi-to_string _ h2,
    stoi-to_string _ h3,
    stoi-to_string _ h4,
    stoi-to_string _ h5,
    stoi-to_string _ h6,
  )
