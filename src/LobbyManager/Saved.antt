-- ===== src/LobbyManager/Saved.antt =====
-- What becomes of a request for a lobby once a lobby has been saved.
use iocp_j_server.Base.{
  ℕ, ◌≡◌, ◌≤◌, sym, ◌∙◌, Bool, true, some, List, [], ◌∷◌, length, inl, inr, if◌then◌else◌, ap,
  Bytes, bytes_eq, Fault, uncaught, Outcome, ok, fault, lookup, Outcome-cases, Bool-cases,
  first_result,
}
use iocp_j_server.Json.{Floats, JsonLibrary, IsJson, data_to_json, lobby_info-data_to_json}
use iocp_j_server.Redis.{Server, Page, IsStore, update_data, scan_multiple_result, cache_key}
use iocp_j_server.Redis.Scan.{Iterates, on_pages, scan_multiple_result_lem}
use iocp_j_server.LobbyManager.{
  LobbyManager, Best, table, read_row, search_rows, save_lobby_info, search_best_lobby, start,
  response_lobby_info, compare_lobby,
}

module _ (f : Floats) (j : JsonLibrary f) where
  -- One entry that cannot be read is enough to end the search by a fault.
  search_rows-fault :
      (k : Bytes) {text : Bytes} {e : Fault} (rows : List (Bytes × Bytes)) (b : Best f)
      → lookup k rows ≡ some text
      → read_row f j text ≡ fault e
      → (e' : Fault) × (search_rows f j rows b ≡ fault e')
  unfolding search_rows lookup
  search_rows-fault k [] b found bad = cc
  search_rows-fault k {text} {e} ((i, t) ∷ rows) b found bad =
      elim (Outcome-cases (read_row f j t)) [
        | inl (x, reads) ↦ elim (Bool-cases (bytes_eq k i)) [
          | inl same ↦ let found' : some t ≡ some text = rw same at found in cc
          | inr other ↦
              rw reads (search_rows-fault k rows (compare_lobby f i x b) (rw other at found) bad)
        ]
        | inr (e', stops) ↦ (e', rw stops)
      ]

module _ (f : Floats) (j : JsonLibrary f) (r : Server) where
  abbrev redis_or : r.State → Outcome (LobbyManager f r) → r.State
  redis_or s (ok m) = m.redis
  redis_or s (fault e) = s

  save_lobby_info-ok :
      (key : Bytes) (port capacity : ℕ) (active : Bool) (m : LobbyManager f r)
      {m' : LobbyManager f r}
      → save_lobby_info f j r key port capacity active m ≡ ok m'
      → (text : Bytes) × (j.dump
            (data_to_json f j key port 0 capacity (if active then 1 else 0) (f.of_int 0))
          ≡ ok text)
        × (m'.redis ≡ r.set_ex (cache_key table key) text m.expire_time m.redis)
  unfolding save_lobby_info update_data
  save_lobby_info-ok key port capacity active m {m'} saved =
      let (text, dumped, e) = first_result _ saved in (text, dumped, sym (ap (redis_or m.redis) e))

  read_row-saved :
      IsJson f j
      → (key : Bytes) (port current remain active : ℕ) (speed : f.F) (text : Bytes)
      → j.dump (data_to_json f j key port current remain active speed) ≡ ok text
      → read_row f j text ≡ fault uncaught
  read_row-saved laws key port current remain active speed text dumped =
      rw (laws.parse-dump _ text dumped)
        (lobby_info-data_to_json f j laws key port current remain active speed)

  response_lobby_info-fault :
      (fuel : ℕ) (m : LobbyManager f r) (k : Bytes) (p : ℕ) (success : Bool)
      (rows : List (Bytes × Bytes)) {e : Fault}
      → scan_multiple_result r fuel table m.redis ≡ some (ok rows)
      → search_rows f j rows (start f) ≡ fault e
      → response_lobby_info f j r fuel k p success m ≡ some (fault e)
  unfolding response_lobby_info
  response_lobby_info-fault fuel m k p success rows scanned stops =
      rw (scanned, search_best_lobby, response_lobby_info) (rw stops)

  -- Once SaveLobbyInfo has run for a key, a request for a lobby ends by an uncaught exception or
  -- another fault, whatever the other entries are: if the SCAN that follows comes back to the
  -- cursor 0, finds the entry, and has enough fuel.
  pub response_lobby_info-save :
      IsJson f j
      → IsStore r
      → (fuel : ℕ) (ps : List Page) (key : Bytes) (port capacity : ℕ) (active : Bool)
        (m m' : LobbyManager f r) (k : Bytes) (p : ℕ) (success : Bool)
      → save_lobby_info f j r key port capacity active m ≡ ok m'
      → Iterates r table m'.redis 0 ps
      → length ps ≤ fuel
      → on_pages (cache_key table key) ps ≡ true
      → (e : Fault) × (response_lobby_info f j r fuel k p success m' ≡ some (fault e))
  response_lobby_info-save laws store fuel ps key port capacity active m m' k p success saved it
        enough found =
      let (text, dumped, stored) = save_lobby_info-ok key port capacity active m saved in
      let (rows, scanned, look) = scan_multiple_result_lem r table m'.redis fuel ps it enough in
      let there : lookup (cache_key table key) rows ≡ some text =
        look (cache_key table key) ∙ rw (found, stored) (store.get-set _ text _ _) in
      let (e, stops) = search_rows-fault f j (cache_key table key) rows (start f) there (
        read_row-saved laws key port 0 capacity (if active then 1 else 0) (f.of_int 0) text
          dumped) in
      (e, response_lobby_info-fault fuel m' k p success rows scanned stops)
