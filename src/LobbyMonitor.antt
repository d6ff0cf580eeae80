-- ===== src/LobbyMonitor.antt =====
-- Server_Lobby/Src/LobbyMonitor.cpp. An `int` is its 32-bit pattern; atomic additions wrap around.
use iocp_j_server.Base.{ℕ, zero, suc, ◌+◌, ◌-◌, ◌%◌, ◌^◌, ◌≡◌, ◌<◌, arith, List, [], ◌∷◌}

pub record LobbyMonitor : Type 0 where
  pub capacity : ℕ
  pub current_user : ℕ
  pub remain_capacity : ℕ

unfoldable pub construct : ℕ → LobbyMonitor
construct capacity = record { capacity = capacity; current_user = 0; remain_capacity = capacity }

unfoldable pub register_lobby_user : LobbyMonitor → LobbyMonitor
register_lobby_user m = record m {
  current_user = (m.current_user + 1) % 2 ^ 32;
  remain_capacity = (m.remain_capacity + 2 ^ 32 - 1) % 2 ^ 32;
}

unfoldable pub unregister_lobby_user : LobbyMonitor → LobbyMonitor
unregister_lobby_user m = record m {
  current_user = (m.current_user + 2 ^ 32 - 1) % 2 ^ 32;
  remain_capacity = (m.remain_capacity + 1) % 2 ^ 32;
}

unfoldable pub get_capacity : LobbyMonitor → ℕ
get_capacity m = m.capacity

unfoldable pub get_current_user : LobbyMonitor → ℕ
get_current_user m = m.current_user

unfoldable pub get_remain_capacity : LobbyMonitor → ℕ
get_remain_capacity m = m.remain_capacity

-- The counters are `int`s that make up the capacity, up to wrap-around.
pub record IsBalanced (m : LobbyMonitor) : Type 0 where
  pub capacity_in : m.capacity < 2 ^ 32
  pub current_in : m.current_user < 2 ^ 32
  pub remain_in : m.remain_capacity < 2 ^ 32
  pub sum : (m.current_user + m.remain_capacity) % 2 ^ 32 ≡ m.capacity

pub data Visit : Type 0 where
  enters leaves : Visit

unfoldable pub visit : Visit → LobbyMonitor → LobbyMonitor
visit enters m = register_lobby_user m
visit leaves m = unregister_lobby_user m

unfoldable pub visits : List Visit → LobbyMonitor → LobbyMonitor
visits [] m = m
visits (v ∷ vs) m = visits vs (visit v m)

visit-IsBalanced : (v : Visit) {m : LobbyMonitor} → IsBalanced m → IsBalanced (visit v m)
unfolding visit register_lobby_user unregister_lobby_user
visit-IsBalanced enters b = ground arith
visit-IsBalanced leaves b = ground arith

visits-IsBalanced : (vs : List Visit) {m : LobbyMonitor} → IsBalanced m → IsBalanced (visits vs m)
unfolding visits
visits-IsBalanced [] b = b
visits-IsBalanced (v ∷ vs) b = visits-IsBalanced vs (visit-IsBalanced v b)

-- From Construct on, for a capacity below 2 ^ 32, whoever enters and leaves, the users and the free
-- places make up the capacity, modulo 2 ^ 32.
pub visits-construct :
    (vs : List Visit) (capacity : ℕ)
    → capacity < 2 ^ 32
    → IsBalanced (visits vs (construct capacity))
unfolding construct
visits-construct vs capacity h = visits-IsBalanced vs (omega arith)

-- On a balanced monitor, leaving undoes entering, and entering undoes leaving.
pub unregister-register :
    {m : LobbyMonitor}
    → IsBalanced m
    → (unregister_lobby_user (register_lobby_user m) ≡ m)
      × (register_lobby_user (unregister_lobby_user m) ≡ m)
unfolding register_lobby_user unregister_lobby_user
unregister-register b = ground arith

-- `n` users enter.
unfoldable pub entries : ℕ → LobbyMonitor → LobbyMonitor
entries zero m = m
entries (suc n) m = entries n (register_lobby_user m)

entries_lem :
    (n : ℕ) (m : LobbyMonitor)
    → IsBalanced m
    → n < 2 ^ 32
    → ((entries n m).current_user ≡ (m.current_user + n) % 2 ^ 32)
      × ((entries n m).remain_capacity ≡ (m.remain_capacity + 2 ^ 32 - n) % 2 ^ 32)
unfolding entries register_lobby_user visit
entries_lem zero m b h = omega arith
entries_lem (suc n) m b h =
    omega (arith, entries_lem n (register_lobby_user m) (visit-IsBalanced enters b))

-- Nothing turns users away: whatever the capacity, n entries after Construct are counted as n
-- users, and the free places as the capacity minus n modulo 2 ^ 32, both numbers being below 2 ^
-- 32.
pub entries-construct :
    (n capacity : ℕ)
    → capacity < 2 ^ 32
    → n < 2 ^ 32
    → (get_current_user (entries n (construct capacity)) ≡ n)
      × (get_remain_capacity (entries n (construct capacity)) ≡ (capacity + 2 ^ 32 - n) % 2 ^ 32)
unfolding construct get_current_user get_remain_capacity
entries-construct n capacity hc hn = omega (arith, entries_lem n (construct capacity) (omega arith))
