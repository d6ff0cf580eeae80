-- ===== src/LobbyManager/Map.antt =====
-- The manager's own map of lobbies.
use iocp_j_server.Base.{
  ℕ, ◌≡◌, refl, Bool, List, [], ◌∷◌, Bytes, Outcome, ok, fault, ◌>>=◌, subst, ap, ◌∙◌, none, lookup,
}
use iocp_j_server.Json.{Floats, JsonLibrary}
use iocp_j_server.Redis.{Server, update_data}
use iocp_j_server.LobbyManager.{
  LobbyManager, table, construct, save_lobby_info, update_lobby_info, update_lobby_response_speed,
}

lookup-nil {ℓ} : {V : Type ℓ} (k : Bytes) → lookup {V = V} k [] ≡ none
unfolding lookup
lookup-nil k = refl

-- The calls that could change the map.
pub data Change (f : Floats) : Type 0 where
  save : Bytes → ℕ → ℕ → Bool → Change f
  update : Bytes → ℕ → ℕ → Bool → Change f
  speed : Bytes → f.F → Change f

module _ (f : Floats) (j : JsonLibrary f) (r : Server) where
  unfoldable pub change : Change f → LobbyManager f r → Outcome (LobbyManager f r)
  change (save k p c a) m = save_lobby_info f j r k p c a m
  change (update k c q a) m = ok (update_lobby_info f j r k c q a m)
  change (speed k x) m = ok (update_lobby_response_speed f j r k x m)

  unfoldable pub changes : List (Change f) → LobbyManager f r → Outcome (LobbyManager f r)
  changes [] m = ok m
  changes (c ∷ cs) m = change c m >>= λ m'. changes cs m'

  -- What a call that returns leaves of an empty map.
  abbrev Keeps : Outcome (LobbyManager f r) → Type 0
  Keeps (ok m) = m.lobby_map ≡ []
  Keeps (fault e) = Unit {0}

  Keeps-bind :
      (o : Outcome (LobbyManager f r)) (g : LobbyManager f r → Outcome (LobbyManager f r))
      → Keeps o
      → ((m : LobbyManager f r) → m.lobby_map ≡ [] → Keeps (g m))
      → Keeps (o >>= g)
  Keeps-bind (ok m) g h k = k m h
  Keeps-bind (fault e) g h k = tt

  Keeps-dump :
      (o : Outcome Bytes) (g : Bytes → r.State) (m : LobbyManager f r)
      → m.lobby_map ≡ []
      → Keeps (o >>= λ text. ok (record m { redis = g text }))
  Keeps-dump (ok text) g m h = h
  Keeps-dump (fault e) g m h = tt

  save-Keeps :
      (k : Bytes) (p c : ℕ) (a : Bool) (m : LobbyManager f r)
      → m.lobby_map ≡ []
      → Keeps (save_lobby_info f j r k p c a m)
  unfolding save_lobby_info
  save-Keeps k p c a m h =
      Keeps-dump (j.dump _) (λ text. update_data r table k text m.expire_time m.redis) m h

  change-Keeps : (c : Change f) (m : LobbyManager f r) → m.lobby_map ≡ [] → Keeps (change c m)
  unfolding change update_lobby_info update_lobby_response_speed lookup
  change-Keeps (save k p c a) m h = save-Keeps k p c a m h
  change-Keeps (update k c q a) m h = rw (h, update_lobby_info) h
  change-Keeps (speed k x) m h = rw (h, update_lobby_response_speed) h

  changes-Keeps :
      (cs : List (Change f)) (m : LobbyManager f r) → m.lobby_map ≡ [] → Keeps (changes cs m)
  unfolding changes
  changes-Keeps [] m h = h
  changes-Keeps (c ∷ cs) m h =
      Keeps-bind (change c m) (changes cs) (change-Keeps c m h) (changes-Keeps cs)

  -- No sequence of calls of SaveLobbyInfo, UpdateLobbyInfo and UpdateLobbyReponseSpeed that returns
  -- puts a lobby into _lobbyMap, so from the constructor on both updates miss and change nothing.
  pub changes-miss :
      (cs : List (Change f)) (redis : r.State) (ttl : ℕ) {m : LobbyManager f r}
      → changes cs (construct f j r redis ttl) ≡ ok m
      → (m.lobby_map ≡ [])
        × ((k : Bytes) (c q : ℕ) (a : Bool) → update_lobby_info f j r k c q a m ≡ m)
        × ((k : Bytes) (x : f.F) → update_lobby_response_speed f j r k x m ≡ m)
  unfolding construct update_lobby_info update_lobby_response_speed
  changes-miss cs redis ttl {m} e = (
    is_empty,
    λ k c q a. rw (missing k, update_lobby_info),
    λ k x. rw (missing k, update_lobby_response_speed),
  )
    where
      is_empty : m.lobby_map ≡ []
      is_empty = subst Keeps e (changes-Keeps cs (construct f j r redis ttl) refl)

      missing : (k : Bytes) → lookup k m.lobby_map ≡ none
      missing k = ap (lookup k) is_empty ∙ lookup-nil k
