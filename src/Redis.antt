-- ===== src/Redis.antt =====
-- Common/Src/Database/RedisWorker.cpp. The server and hiredis are a parameter: each command is an
-- operation on the server's state, and between two commands of one call nobody else writes.
pub mod Scan
pub mod Deleting
use iocp_j_server.Base.{
  ℕ, zero, suc, ◌^◌, ◌≡◌, Bool, true, false, ◌&&◌, Option, none, some, List, [], ◌∷◌, ◌++◌, ltb,
  ◌==◌, if◌then◌else◌, Bytes, codes, Fault, uncaught, Outcome, ok, fault, ◌>>=◌, insert_or_assign,
  bytes_eq,
}

-- A well-formed reply of SCAN: the number that the cursor's text stands for, and the keys, of which
-- `none` is an element without a text.
pub record Page : Type 0 where
  pub cursor : ℕ
  pub keys : List (Option Bytes)

-- A connected server. `scan` gives `none` for a reply that is missing or not of that form, `get` for
-- one that is missing or no string, and `del` says whether the reply is the integer 1.
pub record Server : Type 1 where
  pub State : Type 0
  pub set_ex : Bytes → Bytes → ℕ → State → State
  pub scan : ℕ → Bytes → State → Option Page
  pub get : Bytes → State → Option Bytes
  pub del : Bytes → State → Bool × State

-- What is documented of SET and GET: a key that was just set, with a time to live, reads back.
pub record IsStore (r : Server) : Type 0 where
  pub get-set : (k v : Bytes) (ttl : ℕ) (s : r.State) → r.get k (r.set_ex k v ttl s) ≡ some v

-- `"table:" + table + ":" + key`
abbrev pub cache_key : Bytes → Bytes → Bytes
cache_key table key = codes "table:" ++ table ++ codes ":" ++ key

-- `"table:" + tableName + ":*"`
abbrev pub table_pattern : Bytes → Bytes
table_pattern table = codes "table:" ++ table ++ codes ":*"

-- `std::stoi` of a decimal text: out of the range of `int` it throws.
abbrev pub stoi : ℕ → Outcome ℕ
stoi n = if ltb n (2 ^ 31) then ok n else fault uncaught

-- `result[key] = value`, if GET gave a string.
abbrev pub add_row : Bytes → Option Bytes → List (Bytes × Bytes) → List (Bytes × Bytes)
add_row k none result = result
add_row k (some v) result = insert_or_assign k v result

module _ (r : Server) where
  unfoldable pub update_data : Bytes → Bytes → Bytes → ℕ → r.State → r.State
  update_data table key json ttl s = r.set_ex (cache_key table key) json ttl s

  -- The inner loop of `ScanMultipleResult`.
  unfoldable pub collect_keys :
      List (Option Bytes) → r.State → List (Bytes × Bytes) → List (Bytes × Bytes)
  collect_keys [] s result = result
  collect_keys (none ∷ ks) s result = collect_keys ks s result
  collect_keys (some k ∷ ks) s result = collect_keys ks s (add_row k (r.get k s) result)

  -- The outer loop, on fuel; `none` means that the fuel ran out.
  unfoldable pub scan_loop :
      ℕ → ℕ → Bytes → r.State → List (Bytes × Bytes) → Option (Outcome (List (Bytes × Bytes)))
  unfolding collect_keys
  scan_loop zero cursor table s result = none
  scan_loop (suc fuel) cursor table s result = elim (r.scan cursor (table_pattern table) s) [
    | none ↦ some (ok result)
    | some page ↦ elim (stoi page.cursor) [
      | fault e ↦ some (fault e)
      | ok next ↦
          let grown = collect_keys page.keys s result in
          let rest = scan_loop fuel next table s grown in
          if next == 0 then some (ok grown) else rest
    ]
  ]

  unfoldable pub scan_multiple_result :
      ℕ → Bytes → r.State → Option (Outcome (List (Bytes × Bytes)))
  unfolding scan_loop
  scan_multiple_result fuel table s = scan_loop fuel 0 table s []

  -- The inner loop of `DeleteTable`: the keys that it reports as deleted, and the state.
  unfoldable pub delete_keys : List (Option Bytes) → r.State → List Bytes × r.State
  delete_keys [] s = ([], s)
  delete_keys (none ∷ ks) s = delete_keys ks s
  delete_keys (some k ∷ ks) s =
      let (done, s') = r.del k s in
      let (deleted, s'') = delete_keys ks s' in (if done then k ∷ deleted else deleted, s'')

  -- `DeleteTable`, on fuel. `std::stoull` takes every cursor. COUNT is a hint, and is left to the
  -- server.
  unfoldable pub delete_table : ℕ → ℕ → Bytes → r.State → List Bytes → Option (List Bytes × r.State)
  unfolding delete_keys
  delete_table zero cursor table s deleted = none
  delete_table (suc fuel) cursor table s deleted = elim (r.scan cursor (table_pattern table) s) [
    | none ↦ some (deleted, s)
    | some page ↦
        let (more, s') = delete_keys page.keys s in
        let rest = delete_table fuel page.cursor table s' (deleted ++ more) in
        if page.cursor == 0 then some (deleted ++ more, s') else rest
  ]
