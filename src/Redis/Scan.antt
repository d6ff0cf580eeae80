-- ===== src/Redis/Scan.antt =====
-- What `ScanMultipleResult` gives, for a server whose cursors come back to 0.
use iocp_j_server.Base.{
  lt→ltb, ℕ, zero, suc, ◌^◌, ◌≤◌, ◌<◌, ◌≡◌, refl, ◌∙◌, arith, Bool, true, false, ◌||◌, Option, none,
  some, List, [], ◌∷◌, ◌==◌, if◌then◌else◌, Bytes, bytes_eq, bytes_eq→eq, ok, fault, uncaught,
  lookup, lookup-insert_self, lookup-insert_ne, length, Bool-cases, Option-cases, inl, inr,
}
use iocp_j_server.Redis.{
  Page, Server, table_pattern, add_row, collect_keys, scan_loop, scan_multiple_result,
}

-- A key stands on a page.
abbrev pub on_page : Bytes → List (Option Bytes) → Bool
on_page k [] = false
on_page k (none ∷ ks) = on_page k ks
on_page k (some j ∷ ks) = bytes_eq k j || on_page k ks

abbrev pub on_pages : Bytes → List Page → Bool
on_pages k [] = false
on_pages k (p ∷ ps) = on_page k p.keys || on_pages k ps

pub suc-ne-zero : (n : ℕ) → (suc n == 0) ≡ false
suc-ne-zero n = ground arith

abbrev or_old : Option Bytes → Option Bytes → Option Bytes
or_old none old = old
or_old (some v) old = some v

module _ (r : Server) (table : Bytes) (s : r.State) where
  -- The pages of an iteration from a cursor, up to the one whose cursor is 0.
  pub data Iterates : ℕ → List Page → Type 0 where
    last :
        {c : ℕ} (p : Page)
        → r.scan c (table_pattern table) s ≡ some p
        → p.cursor ≡ 0
        → Iterates c (p ∷ [])
    more :
        {c : ℕ} {ps : List Page} (p : Page) (n : ℕ)
        → r.scan c (table_pattern table) s ≡ some p
        → p.cursor ≡ suc n
        → suc n < 2 ^ 31
        → Iterates (suc n) ps
        → Iterates c (p ∷ ps)

  collect_pages : List Page → List (Bytes × Bytes) → List (Bytes × Bytes)
  collect_pages [] result = result
  collect_pages (p ∷ ps) result = collect_pages ps (collect_keys r p.keys s result)

  scan_loop-Iterates :
      (fuel : ℕ) {c : ℕ} {ps : List Page} (result : List (Bytes × Bytes))
      → Iterates c ps
      → length ps ≤ fuel
      → scan_loop r fuel c table s result ≡ some (ok (collect_pages ps result))
  unfolding scan_loop collect_pages
  scan_loop-Iterates zero result (last p e z) h = absurd (omega arith)
  scan_loop-Iterates zero result (more p n e z b it) h = absurd (omega arith)
  scan_loop-Iterates (suc fuel) result (last p e z) h = rw (e, scan_loop) (rw z)
  scan_loop-Iterates (suc fuel) result (more p n e z b it) h =
      rw (e, scan_loop)
        (rw (z, lt→ltb (suc n) (2 ^ 31) b, suc-ne-zero n)
          (scan_loop-Iterates fuel _ it (omega arith)))

  -- The value that GET gives, or what was there.
  abbrev fetched : Bytes → Option Bytes → Option Bytes
  fetched k old = or_old (r.get k s) old

  fetched-fetched : (k : Bytes) (old : Option Bytes) → fetched k (fetched k old) ≡ fetched k old
  fetched-fetched k old = elim (Option-cases (r.get k s)) [ inl e ↦ rw e | inr (v, e) ↦ rw e ]

  abbrev stored : Bytes → List (Bytes × Bytes) → List (Bytes × Bytes)
  stored j result = add_row j (r.get j s) result

  lookup-stored_self :
      (k : Bytes) (result : List (Bytes × Bytes))
      → lookup k (stored k result) ≡ fetched k (lookup k result)
  lookup-stored_self k result = elim (Option-cases (r.get k s)) [
    | inl e ↦ rw e
    | inr (v, e) ↦ rw e (lookup-insert_self k v result)
  ]

  lookup-stored_ne :
      (k j : Bytes) (result : List (Bytes × Bytes))
      → bytes_eq k j ≡ false
      → lookup k (stored j result) ≡ lookup k result
  lookup-stored_ne k j result h = elim (Option-cases (r.get j s)) [
    | inl e ↦ rw e
    | inr (v, e) ↦ rw e (lookup-insert_ne j k v result h)
  ]

  lookup-collect_keys :
      (k : Bytes) (ks : List (Option Bytes)) (result : List (Bytes × Bytes))
      → lookup k (collect_keys r ks s result)
        ≡ (if on_page k ks then fetched k (lookup k result) else lookup k result)
  unfolding collect_keys
  lookup-collect_keys k [] result = refl
  lookup-collect_keys k (none ∷ ks) result = lookup-collect_keys k ks result
  lookup-collect_keys k (some j ∷ ks) result =
      lookup-collect_keys k ks (stored j result) ∙ elim (Bool-cases (bytes_eq k j)) [
        | inl same ↦
            rw same
              (rw (← bytes_eq→eq k j same, lookup-stored_self k result) (twice (on_page k ks)))
        | inr other ↦ rw (other, lookup-stored_ne k j result other)
      ]
    where
      twice :
          (b : Bool)
          → (if b then fetched k (fetched k (lookup k result)) else fetched k (lookup k result))
            ≡ fetched k (lookup k result)
      twice true = fetched-fetched k (lookup k result)
      twice false = refl

  lookup-collect_pages :
      (k : Bytes) (ps : List Page) (result : List (Bytes × Bytes))
      → lookup k (collect_pages ps result)
        ≡ (if on_pages k ps then fetched k (lookup k result) else lookup k result)
  unfolding collect_pages
  lookup-collect_pages k [] result = refl
  lookup-collect_pages k (p ∷ ps) result =
      lookup-collect_pages k ps (collect_keys r p.keys s result)
      ∙ elim (Bool-cases (on_page k p.keys)) [
        | inl here ↦ rw (lookup-collect_keys k p.keys result, here) (twice (on_pages k ps))
        | inr gone ↦ rw (lookup-collect_keys k p.keys result, gone)
      ]
    where
      twice :
          (b : Bool)
          → (if b then fetched k (fetched k (lookup k result)) else fetched k (lookup k result))
            ≡ fetched k (lookup k result)
      twice true = fetched-fetched k (lookup k result)
      twice false = refl

  first_page :
      (k : Bytes) (b : Bool)
      → (if b then fetched k (lookup k []) else lookup k []) ≡ (if b then r.get k s else none)
  unfolding lookup
  first_page k true = elim (Option-cases (r.get k s)) [ inl e ↦ rw e | inr (v, e) ↦ rw e ]
  first_page k false = refl

  -- Where SCAN comes back to the cursor 0 over some pages, with no cursor of 2 ^ 31 or more, as
  -- much fuel as there are pages is enough, and the map holds exactly the keys on those pages whose
  -- GET gives a string, each with that string.
  pub scan_multiple_result_lem :
      (fuel : ℕ) (ps : List Page)
      → Iterates 0 ps
      → length ps ≤ fuel
      → (m : List (Bytes × Bytes)) × (scan_multiple_result r fuel table s ≡ some (ok m))
        × ((k : Bytes) → lookup k m ≡ (if on_pages k ps then r.get k s else none))
  unfolding scan_multiple_result
  scan_multiple_result_lem fuel ps it h = (
    collect_pages ps [],
    scan_loop-Iterates fuel [] it h,
    λ k. lookup-collect_pages k ps [] ∙ first_page k (on_pages k ps),
  )

  -- A cursor of 2 ^ 31 or more ends the call by the exception of `std::stoi`.
  pub scan_loop-overflow :
      (fuel c : ℕ) (p : Page) (result : List (Bytes × Bytes))
      → r.scan c (table_pattern table) s ≡ some p
      → 2 ^ 31 ≤ p.cursor
      → scan_loop r (suc fuel) c table s result ≡ some (fault uncaught)
  unfolding scan_loop
  scan_loop-overflow fuel c p result e h = rw (e, scan_loop) (ground arith)
