-- ===== src/Startup/Launches.antt =====
-- Which lobbies LobbyServerStart starts.
use iocp_j_server.Base.{
  ℕ, zero, suc, ◌+◌, ◌-◌, ◌≤◌, ◌<◌, ◌≡◌, refl, ap, arith, List, [], ◌∷◌, length, get_elem?, get_or,
  Bytes, ok, ltb, lt→ltb, ◌∙◌, ◌==◌, some, true, false,
}
use iocp_j_server.Startup.{Launcher, command_line, at, launches, lobby_server_start}

at-get_elem? {ℓ} :
    {A : Type ℓ} (xs : List A) (i : ℕ) (d : A)
    → i < length xs
    → at (get_elem? xs i) ≡ ok (get_or xs i d)
at-get_elem? [] i d h = absurd (omega arith)
at-get_elem? (x ∷ xs) zero d h = refl
at-get_elem? (x ∷ xs) (suc i) d h = at-get_elem? xs i d (omega arith)

not_fewer : (a b : ℕ) → b ≤ a → ltb a b ≡ false
not_fewer a b h = ground arith

equal : (a b : ℕ) → a ≡ b → (a == b) ≡ true
equal a b h = ground arith

-- The command line of the lobby with that index.
abbrev pub line : Launcher → ℕ → Bytes
line l i = command_line l (get_or l.lobby_keys i []) (get_or l.lobby_ports i 0)

abbrev pub lines_from : ℕ → ℕ → Launcher → List Bytes
lines_from zero i l = []
lines_from (suc rounds) i l = line l i ∷ lines_from rounds (i + 1) l

launches-lines :
    (rounds i : ℕ) (l : Launcher)
    → i + rounds ≤ length l.lobby_keys
    → i + rounds ≤ length l.lobby_ports
    → launches rounds i l ≡ ok (lines_from rounds i l)
unfolding launches
launches-lines zero i l keys ports = refl
launches-lines (suc rounds) i l keys ports = rw (
  at-get_elem? l.lobby_keys i [] (omega arith),
  at-get_elem? l.lobby_ports i 0 (omega arith),
  launches-lines rounds (i + 1) l (omega arith) (omega arith),
)

length-lines_from : (rounds i : ℕ) (l : Launcher) → length (lines_from rounds i l) ≡ rounds
length-lines_from zero i l = refl
length-lines_from (suc rounds) i l = ap suc (length-lines_from rounds (i + 1) l)

get_elem?-lines_from :
    (rounds i j : ℕ) (l : Launcher)
    → j < rounds
    → get_elem? (lines_from rounds i l) j ≡ some (line l (i + j))
get_elem?-lines_from zero i j l h = absurd (omega arith)
get_elem?-lines_from (suc rounds) i zero l h = ap (λ k. some (line l k)) (omega arith)
get_elem?-lines_from (suc rounds) i (suc j) l h =
    get_elem?-lines_from rounds (i + 1) j l (omega arith) ∙ ap (λ k. some (line l k)) (omega arith)

-- LobbyServerStart(count) with as many ports as keys, and no fewer than the lobbies counted already
-- and `count` more, starts the lobbies whose index is at least the number counted already and below
-- `count`, in order, each with its own key and port: so none where `count` are counted already. It
-- counts `count` more lobbies in any case. With fewer keys, it starts and counts none.
pub lobby_server_start_lem :
    (count : ℕ) (l : Launcher)
    → length l.lobby_keys ≡ length l.lobby_ports
    → (l.current_lobby_count + count ≤ length l.lobby_keys
        → (lines : List Bytes) × (lobby_server_start count l
            ≡ ok (lines, record l { current_lobby_count = l.current_lobby_count + count }))
          × (length lines ≡ count - l.current_lobby_count)
          × ((j : ℕ)
              → j < count - l.current_lobby_count
              → get_elem? lines j ≡ some (line l (l.current_lobby_count + j))))
      × (length l.lobby_keys < l.current_lobby_count + count
          → lobby_server_start count l ≡ ok ([], l))
unfolding lobby_server_start
lobby_server_start_lem count l same = (
  λ room. (
    lines_from (count - l.current_lobby_count) l.current_lobby_count l,
    rw (
      not_fewer (length l.lobby_keys) (l.current_lobby_count + count) room,
      equal (length l.lobby_keys) (length l.lobby_ports) same,
      launches-lines (count - l.current_lobby_count) l.current_lobby_count l (omega arith)
          (omega (arith, same)),
    ),
    length-lines_from _ _ l,
    λ j h. get_elem?-lines_from _ _ j l h,
  ),
  λ few. rw (lt→ltb _ _ few),
)
