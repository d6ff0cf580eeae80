-- ===== src/LobbyManager/Optimal.antt =====
-- Which lobby `SearchBestLobby` chooses among entries that can be read.
use iocp_j_server.Base.{
  ◌^◌, ℕ, ◌≤◌, ◌<◌, ◌≡◌, ◌≢◌, refl, ◌∙◌, arith, true, false, ◌⊎◌, inl, inr, List, [], ◌∷◌, ltb,
  ◌==◌, Bytes, ok, Bool-cases,
}
use iocp_j_server.Json.{Floats, JsonLibrary, LobbyInfo}
use iocp_j_server.LobbyManager.{
  Best, total, ratio, eligible, better, compare_lobby, start, read_row, search_rows,
}

-- What is documented of `float`: away from NaN the comparisons are those of a linear order, and the
-- quotient of two `int`s lies below the greatest `float`.
pub record IsFloat (f : Floats) : Type 0 where
  pub rank : f.F → ℕ
  pub lt-rank : (x y : f.F) → f.lt x y ≡ ltb (rank x) (rank y)
  pub eq-rank : (x y : f.F) → f.eq x y ≡ (rank x == rank y)
  pub div-max : (a b : ℕ) → b < 2 ^ 32 → b ≢ 0 → rank (f.div (f.of_int a) (f.of_int b)) < rank f.max

-- The entries of the map, read.
pub data Reads (f : Floats) (j : JsonLibrary f)
    : List (Bytes × Bytes) → List (Bytes × LobbyInfo f) → Type 0 where
  nil : Reads f j [] []
  cons :
      {k text : Bytes} {i : LobbyInfo f} {rows : List (Bytes × Bytes)}
      {infos : List (Bytes × LobbyInfo f)}
      → read_row f j text ≡ ok i
      → Reads f j rows infos
      → Reads f j ((k, text) ∷ rows) ((k, i) ∷ infos)

module _ (f : Floats) where
  -- An entry with its ratio, response speed, key and port is the one that was chosen.
  abbrev pub Chosen : Bytes → LobbyInfo f → Best f → Type 0
  Chosen k i b =
      (eligible f i ≡ true)
      × (b
          ≡ record { ratio = ratio f i; response_speed = i.response_speed; key = k; port = i.port })

  abbrev pub SomeChosen : List (Bytes × LobbyInfo f) → Best f → Type 0
  SomeChosen [] b = ⊥
  SomeChosen ((k, i) ∷ infos) b = Chosen k i b ⊎ SomeChosen infos b

  -- No eligible entry beats the result.
  abbrev pub NoneBetter : List (Bytes × LobbyInfo f) → Best f → Type 0
  NoneBetter [] b = Unit {0}
  NoneBetter ((k, i) ∷ infos) b = (eligible f i ≡ true → better f i b ≡ false) × NoneBetter infos b

  abbrev pub NoneEligible : List (Bytes × LobbyInfo f) → Type 0
  NoneEligible [] = Unit {0}
  NoneEligible ((k, i) ∷ infos) = (eligible f i ≡ false) × NoneEligible infos

  compare_lobbies : List (Bytes × LobbyInfo f) → Best f → Best f
  compare_lobbies [] b = b
  compare_lobbies ((k, i) ∷ infos) b = compare_lobbies infos (compare_lobby f k i b)

module _ (f : Floats) (j : JsonLibrary f) where
  search_rows-Reads :
      {rows : List (Bytes × Bytes)} {infos : List (Bytes × LobbyInfo f)} (b : Best f)
      → Reads f j rows infos
      → search_rows f j rows b ≡ ok (compare_lobbies f infos b)
  unfolding search_rows compare_lobbies
  search_rows-Reads b nil = refl
  search_rows-Reads b (cons e rest) = rw e (search_rows-Reads _ rest)

module _ (f : Floats) (o : IsFloat f) where
  -- At least as good, in the lexicographic order of ratio and response speed.
  abbrev NoWorse : Best f → Best f → Type 0
  NoWorse b c =
      (o.rank b.ratio < o.rank c.ratio)
      ⊎ ((o.rank b.ratio ≡ o.rank c.ratio) × (o.rank b.response_speed ≤ o.rank c.response_speed))

  NoWorse-trans : (a b c : Best f) → NoWorse a b → NoWorse b c → NoWorse a c
  NoWorse-trans a b c h k = ground arith

  compare_lobby-NoWorse :
      (k : Bytes) (i : LobbyInfo f) (b : Best f) → NoWorse (compare_lobby f k i b) b
  unfolding compare_lobby
  compare_lobby-NoWorse k i b = ground (
    arith,
    o.lt-rank (ratio f i) b.ratio,
    o.eq-rank (ratio f i) b.ratio,
    o.lt-rank i.response_speed b.response_speed,
  )

  -- What is no worse than the result of a comparison is not beaten by the entry compared.
  not-better-compare :
      (k : Bytes) (i : LobbyInfo f) (b c : Best f)
      → NoWorse c (compare_lobby f k i b)
      → eligible f i ≡ true
      → better f i c ≡ false
  unfolding compare_lobby
  not-better-compare k i b c h e = ground (
    arith,
    o.lt-rank (ratio f i) b.ratio,
    o.eq-rank (ratio f i) b.ratio,
    o.lt-rank i.response_speed b.response_speed,
    o.lt-rank (ratio f i) c.ratio,
    o.eq-rank (ratio f i) c.ratio,
    o.lt-rank i.response_speed c.response_speed,
  )

  compare_lobby-cases :
      (k : Bytes) (i : LobbyInfo f) (b : Best f)
      → (compare_lobby f k i b ≡ b) ⊎ Chosen f k i (compare_lobby f k i b)
  unfolding compare_lobby
  compare_lobby-cases k i b = elim (Bool-cases (eligible f i)) [
    | inl e ↦ elim (Bool-cases (better f i b)) [
      | inl wins ↦ rw (e, wins) (inr (refl, refl))
      | inr loses ↦ rw (e, loses) (inl refl)
    ]
    | inr e ↦ rw e (inl refl)
  ]

  compare_lobbies-lem :
      (infos : List (Bytes × LobbyInfo f)) (b : Best f)
      → let c = compare_lobbies f infos b in
        NoWorse c b × NoneBetter f infos c × ((c ≡ b) ⊎ SomeChosen f infos c)
  unfolding compare_lobbies
  compare_lobbies-lem [] b = (inr (refl, omega arith), tt, inl refl)
  compare_lobbies-lem ((k, i) ∷ infos) b =
      let b' = compare_lobby f k i b in
      let c = compare_lobbies f infos b' in
      let (least, none_better, from) = compare_lobbies-lem infos b' in
      (
        NoWorse-trans c b' b least (compare_lobby-NoWorse k i b),
        (not-better-compare k i b c least, none_better),
        elim from [
          | inl same ↦ elim (compare_lobby-cases k i b) [
            | inl kept ↦ inl (same ∙ kept)
            | inr chosen ↦ inr (inl (rw same chosen))
          ]
          | inr later ↦ inr (inr later)
        ],
      )

  eligible-better : (i : LobbyInfo f) → eligible f i ≡ true → better f i (start f) ≡ true
  unfolding start
  eligible-better i e = ground (arith, o.lt-rank (ratio f i) f.max, o.div-max i.current (total f i))

  start-NoneEligible :
      (infos : List (Bytes × LobbyInfo f)) → NoneBetter f infos (start f) → NoneEligible f infos
  start-NoneEligible [] h = tt
  start-NoneEligible ((k, i) ∷ infos) h = (
    elim (Bool-cases (eligible f i)) [
      | inl e ↦ let wins = eligible-better i e in let loses = h.0 e in cc
      | inr e ↦ e
    ],
    start-NoneEligible infos h.1,
  )

module _ (f : Floats) (j : JsonLibrary f) (o : IsFloat f) where
  -- Where every entry can be read and floats compare by their rank, the search returns an active
  -- lobby of nonzero total that no other such lobby beats by ratio, or by response speed at an
  -- equal ratio; it keeps the empty key just where there is no such lobby.
  pub search_rows_lem :
      {rows : List (Bytes × Bytes)} (infos : List (Bytes × LobbyInfo f))
      → Reads f j rows infos
      → (b : Best f) × (search_rows f j rows (start f) ≡ ok b)
        × ((NoneEligible f infos × (b ≡ start f)) ⊎ (SomeChosen f infos b × NoneBetter f infos b))
  search_rows_lem infos reads =
      let b = compare_lobbies f infos (start f) in
      let (least, none_better, from) = compare_lobbies-lem f o infos (start f) in
      (
        b,
        search_rows-Reads f j (start f) reads,
        elim from [
          | inl same ↦ inl (start-NoneEligible f o infos (rw same at none_better), same)
          | inr chosen ↦ inr (chosen, none_better)
        ],
      )
