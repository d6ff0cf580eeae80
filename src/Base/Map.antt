-- ===== src/Base/Map.antt =====
-- `std::map<std::string, V>` and `tbb::concurrent_map` keyed by texts: entries in the keys' order.
use mathlib.Core.Path.{◌≡◌, ap}
use mathlib.Core.Bool.{false}
use mathlib.Core.Option.{Option, none, some}
use mathlib.Core.List.{List, [], ◌∷◌}
use mathlib.Core.Logic.{inl, inr}
use iocp_j_server.Base.Tests.{if◌then◌else◌, Bool-cases}
use iocp_j_server.Base.Texts.{Bytes, bytes_eq, bytes_lt, bytes_eq→eq, bytes_eq_refl}

module _ {ℓ} {V : Type ℓ} where
  -- `find`
  unfoldable pub lookup : Bytes → List (Bytes × V) → Option V
  lookup k [] = none
  lookup k ((j, v) ∷ m) = if bytes_eq k j then some v else lookup k m

  -- `m[k] = v`
  unfoldable pub insert_or_assign : Bytes → V → List (Bytes × V) → List (Bytes × V)
  insert_or_assign k v [] = (k, v) ∷ []
  insert_or_assign k v ((j, w) ∷ m) =
      if bytes_eq k j
      then (k, v) ∷ m
      else if bytes_lt k j
      then (k, v) ∷ (j, w) ∷ m
      else (j, w) ∷ insert_or_assign k v m

  pub lookup-insert_self :
      (k : Bytes) (v : V) (m : List (Bytes × V)) → lookup k (insert_or_assign k v m) ≡ some v
  unfolding lookup insert_or_assign
  lookup-insert_self k v [] = rw (bytes_eq_refl k)
  lookup-insert_self k v ((j, w) ∷ m) = elim (Bool-cases (bytes_eq k j)) [
    | inl same ↦ rw (same, bytes_eq_refl k)
    | inr other ↦ rw other (elim (Bool-cases (bytes_lt k j)) [
      | inl less ↦ rw (less, bytes_eq_refl k)
      | inr more ↦ rw (more, other) (lookup-insert_self k v m)
    ])
  ]

  pub lookup-insert_ne :
      (k i : Bytes) (v : V) (m : List (Bytes × V))
      → bytes_eq i k ≡ false
      → lookup i (insert_or_assign k v m) ≡ lookup i m
  unfolding lookup insert_or_assign
  lookup-insert_ne k i v [] h = rw h
  lookup-insert_ne k i v ((j, w) ∷ m) h = elim (Bool-cases (bytes_eq k j)) [
    | inl same ↦ rw (same, h, ← bytes_eq→eq k j same, h)
    | inr other ↦ rw other (elim (Bool-cases (bytes_lt k j)) [
      | inl less ↦ rw (less, h)
      | inr more ↦
          rw more (ap (λ o. if bytes_eq i j then some w else o) (lookup-insert_ne k i v m h))
    ])
  ]
