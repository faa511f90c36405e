-- ===== src/Prelude/Maps.antt =====
-- Go maps keyed by strings, as association lists. The order of the list stands for the order in
-- which one `range` over the map visits it, so what is proved holds for every such order.
use Prim.Native.Nat.{◌+◌, ◌≤◌}
use Prim.Native.String.{String}
use mathlib.Core.Path.{◌≡◌, refl}
use mathlib.Core.Bool.{Bool}
use mathlib.Core.List.{List, [], ◌∷◌, map}
use mathlib.Core.Option.{Option, none, some}
use native.Mathlib.Omega.{arith}
use text.Mathlib.Text.{◌==◌}
use text.Mathlib.TextEquality.{eq_iff}
use text.Mathlib.TextPositions.{eq_refl}
use machmqtt_dashboard.Prelude.Tests.{if◌then◌else◌}
use machmqtt_dashboard.Prelude.Lists.{length, filter}

abbrev pub Map {ℓ} : Type ℓ → Type ℓ
Map V = List (String × V)

module _ {ℓ} {V : Type ℓ} where
  -- `delete(m, key)`
  unfoldable pub delete : String → Map V → Map V
  delete key [] = []
  delete key ((k, v) ∷ rest) = let m' = delete key rest in if k == key then m' else (k, v) ∷ m'

  -- `v, ok := m[key]`
  unfoldable pub lookup : String → Map V → Option V
  lookup key [] = none
  lookup key ((k, v) ∷ rest) = if k == key then some v else lookup key rest

  -- `m[key] = v`
  unfoldable pub insert : String → V → Map V → Map V
  insert key v [] = (key, v) ∷ []
  insert key v ((k, w) ∷ rest) = if k == key then (key, v) ∷ rest else (k, w) ∷ insert key v rest

  abbrev pub keys : Map V → List String
  keys = map (λ e. e.0)

  pub lookup-nil : (k : String) → lookup k [] ≡ none
  unfolding lookup
  lookup-nil k = refl

  pub lookup-insert :
      (key asked : String) (v : V) (m : Map V)
      → lookup asked (insert key v m) ≡ (if key == asked then some v else lookup asked m)
  unfolding lookup insert
  lookup-insert key asked v [] = refl
  lookup-insert key asked v ((k, w) ∷ rest) =
      let tail = lookup-insert key asked v rest in
      ground (arith, tail, eq_iff k asked, eq_iff key asked, eq_iff k key)

  pub lookup-delete :
      (k j : String) (m : Map V) → lookup j (delete k m) ≡ (if k == j then none else lookup j m)
  unfolding lookup delete
  lookup-delete k j [] = ground arith
  lookup-delete k j ((i, w) ∷ m) =
      ground (arith, eq_iff k j, eq_iff i k, eq_iff i j, lookup-delete k j m)

  pub lookup-insert_self : (k : String) (v : V) (m : Map V) → lookup k (insert k v m) ≡ some v
  lookup-insert_self k v m = simp (lookup-insert, eq_refl)

  pub length-insert_new :
      (k : String) (v : V) (m : Map V) → lookup k m ≡ none → length (insert k v m) ≡ length m + 1
  unfolding lookup insert
  length-insert_new k v [] h = refl
  length-insert_new k v ((j, w) ∷ m) h = ground (arith, length-insert_new k v m)

  pub length-insert_old :
      (k : String) (v w : V) (m : Map V) → lookup k m ≡ some w → length (insert k v m) ≡ length m
  unfolding lookup insert
  length-insert_old k v w [] h = ground arith
  length-insert_old k v w ((j, u) ∷ m) h = ground (arith, length-insert_old k v w m)

  pub length-insert-le : (k : String) (v : V) (m : Map V) → length (insert k v m) ≤ length m + 1
  unfolding insert
  length-insert-le k v [] = omega arith
  length-insert-le k v ((j, w) ∷ m) = ground (arith, length-insert-le k v m)

  pub length-delete-le : (k : String) (m : Map V) → length (delete k m) ≤ length m
  unfolding delete
  length-delete-le k [] = omega arith
  length-delete-le k ((j, w) ∷ m) = ground (arith, length-delete-le k m)

-- A map has one entry for each key. It makes lengths and filters of the list those of the map.
module _ {ℓ} {V : Type ℓ} where
  abbrev pub Distinct : Map V → Type ℓ
  Distinct [] = Unit
  Distinct ((k, v) ∷ m) = (lookup k m ≡ none) × Distinct m

  pub insert-Distinct : (k : String) (v : V) (m : Map V) → Distinct m → Distinct (insert k v m)
  unfolding insert
  insert-Distinct k v [] d = (lookup-nil k, tt)
  insert-Distinct k v ((j, w) ∷ m) d =
      ground (arith, eq_iff j k, eq_iff k j, insert-Distinct k v m d.1, lookup-insert k j v m)

  pub delete-Distinct : (k : String) (m : Map V) → Distinct m → Distinct (delete k m)
  unfolding delete
  delete-Distinct k [] d = tt
  delete-Distinct k ((j, w) ∷ m) d =
      ground (arith, eq_iff j k, eq_iff k j, delete-Distinct k m d.1, lookup-delete k j m)

  pub delete_absent : (k : String) (m : Map V) → lookup k m ≡ none → delete k m ≡ m
  unfolding lookup delete
  delete_absent k [] h = refl
  delete_absent k ((j, w) ∷ m) h = ground (arith, delete_absent k m)

  pub length-delete :
      (k : String) (v : V) (m : Map V)
      → Distinct m
      → lookup k m ≡ some v
      → length (delete k m) + 1 ≡ length m
  unfolding lookup delete
  length-delete k v [] d h = ground arith
  length-delete k v ((j, w) ∷ m) d h =
      ground (arith, eq_iff j k, length-delete k v m d.1, delete_absent k m)

  module _ (p : String × V → Bool) where
    pub lookup-filter-none :
        (k : String) (m : Map V) → lookup k m ≡ none → lookup k (filter p m) ≡ none
    unfolding lookup
    lookup-filter-none k [] h = refl
    lookup-filter-none k ((j, w) ∷ m) h = ground (arith, lookup-filter-none k m)

    pub filter-Distinct : (m : Map V) → Distinct m → Distinct (filter p m)
    filter-Distinct [] d = tt
    filter-Distinct ((k, v) ∷ m) d =
        ground (arith, filter-Distinct m d.1, lookup-filter-none k m d.0)

    abbrev pub guard_value : String → Option V → Option V
    guard_value k none = none
    guard_value k (some v) = if p (k, v) then some v else none

    pub lookup-filter :
        (k : String) (m : Map V) → Distinct m → lookup k (filter p m) ≡ guard_value k (lookup k m)
    unfolding lookup
    lookup-filter k [] d = refl
    lookup-filter k ((j, w) ∷ m) d =
        ground (arith, eq_iff j k, lookup-filter k m d.1, lookup-filter-none k m)
