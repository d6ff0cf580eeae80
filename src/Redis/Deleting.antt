-- ===== src/Redis/Deleting.antt =====
-- What `DeleteTable` leaves, for a server whose cursors come back to 0.
use iocp_j_server.Base.{
  ℕ, zero, suc, ◌≤◌, ◌≡◌, refl, ◌∙◌, arith, Bool, true, false, Option, none, some, List, [], ◌∷◌,
  ◌++◌, length, Bytes, bytes_eq, bytes_eq→eq, if◌then◌else◌, Bool-cases, inl, inr, ap,
}
use iocp_j_server.Redis.{Page, Server, table_pattern, delete_keys, delete_table}
use iocp_j_server.Redis.Scan.{on_page, on_pages, suc-ne-zero}

-- What is documented of DEL: the key is gone, and no other is.
pub record IsDeleting (r : Server) : Type 0 where
  pub get-del : (k : Bytes) (s : r.State) → r.get k (r.del k s).1 ≡ none
  pub get-del_ne :
      (k j : Bytes) (s : r.State) → bytes_eq k j ≡ false → r.get k (r.del j s).1 ≡ r.get k s

none_anyway : (b : Bool) → if◌then◌else◌ {A = Option Bytes} b none none ≡ none
none_anyway true = refl
none_anyway false = refl

module _ (r : Server) (table : Bytes) where
  -- The pages of an iteration, each of whose keys are deleted before the next page is asked for, and
  -- the state that it comes to.
  pub data Clears : r.State → ℕ → List Page → r.State → Type 0 where
    last :
        {s : r.State} {c : ℕ} (p : Page)
        → r.scan c (table_pattern table) s ≡ some p
        → p.cursor ≡ 0
        → Clears s c (p ∷ []) (delete_keys r p.keys s).1
    more :
        {s s' : r.State} {c : ℕ} {ps : List Page} (p : Page) (n : ℕ)
        → r.scan c (table_pattern table) s ≡ some p
        → p.cursor ≡ suc n
        → Clears (delete_keys r p.keys s).1 (suc n) ps s'
        → Clears s c (p ∷ ps) s'

  delete_table-Clears :
      (fuel : ℕ) {s s' : r.State} {c : ℕ} {ps : List Page} (deleted : List Bytes)
      → Clears s c ps s'
      → length ps ≤ fuel
      → (all : List Bytes) × (delete_table r fuel c table s deleted ≡ some (all, s'))
  unfolding delete_table
  delete_table-Clears zero deleted (last p e z) h = absurd (omega arith)
  delete_table-Clears zero deleted (more p n e z it) h = absurd (omega arith)
  delete_table-Clears (suc fuel) {s} deleted (last p e z) h =
      (deleted ++ (delete_keys r p.keys s).0, rw (e, delete_table) (rw z refl))
  delete_table-Clears (suc fuel) {s} deleted (more p n e z it) h =
      let (all, goes_on) =
        delete_table-Clears fuel (deleted ++ (delete_keys r p.keys s).0) it (omega arith) in
      (all, rw (e, delete_table) (rw (z, suc-ne-zero n) goes_on))

  module _ (laws : IsDeleting r) where
    get-delete_keys :
        (k : Bytes) (ks : List (Option Bytes)) (s : r.State)
        → r.get k (delete_keys r ks s).1 ≡ (if on_page k ks then none else r.get k s)
    unfolding delete_keys
    get-delete_keys k [] s = refl
    get-delete_keys k (none ∷ ks) s = get-delete_keys k ks s
    get-delete_keys k (some j ∷ ks) s =
        get-delete_keys k ks (r.del j s).1 ∙ elim (Bool-cases (bytes_eq k j)) [
          | inl same ↦ rw same (
              ap (λ o. if on_page k ks then none else o) (deleted_now same)
              ∙ none_anyway (on_page k ks))
          | inr other ↦ rw (other, laws.get-del_ne k j s other)
        ]
      where
        deleted_now : bytes_eq k j ≡ true → r.get k (r.del j s).1 ≡ none
        deleted_now same = rw (← bytes_eq→eq k j same) (laws.get-del k s)

    get-Clears :
        (k : Bytes) {s s' : r.State} {c : ℕ} {ps : List Page}
        → Clears s c ps s'
        → r.get k s' ≡ (if on_pages k ps then none else r.get k s)
    get-Clears k {s} (last p e z) =
        get-delete_keys k p.keys s
        ∙ elim (Bool-cases (on_page k p.keys)) [ inl here ↦ rw here refl | inr gone ↦ rw gone refl ]
    get-Clears k {s} (more {ps = ps} p n e z it) =
        get-Clears k it ∙ elim (Bool-cases (on_page k p.keys)) [
          | inl here ↦ rw (get-delete_keys k p.keys s, here) (none_anyway (on_pages k ps))
          | inr gone ↦ rw (get-delete_keys k p.keys s, gone) refl
        ]

    -- Where SCAN comes back to the cursor 0 over some pages, while the keys of each are deleted before
    -- the next is asked for: as much fuel as there are pages is enough for `DeleteTable`, after which
    -- the keys on those pages are gone, and every other key is as it was.
    pub delete_table_lem :
        (fuel : ℕ) {s s' : r.State} (ps : List Page)
        → Clears s 0 ps s'
        → length ps ≤ fuel
        → (deleted : List Bytes) × (delete_table r fuel 0 table s [] ≡ some (deleted, s'))
          × ((k : Bytes) → r.get k s' ≡ (if on_pages k ps then none else r.get k s))
    delete_table_lem fuel ps it h =
        let (deleted, returns) = delete_table-Clears fuel [] it h in
        (deleted, returns, λ k. get-Clears k it)
