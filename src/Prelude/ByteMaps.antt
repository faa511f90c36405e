-- ===== src/Prelude/ByteMaps.antt =====
-- Go maps keyed by strings that the program takes from outside, as bytes.
use mathlib.Core.Path.{◌≡◌, refl}
use mathlib.Core.Bool.{true}
use mathlib.Core.List.{List, [], ◌∷◌}
use mathlib.Core.Option.{Option, none, some}
use native.Mathlib.Omega.{arith}
use machmqtt_dashboard.Prelude.Tests.{if◌then◌else◌}
use machmqtt_dashboard.Prelude.Text.{Bytes, bytes_eq, bytes_eq_iff, is_some}

abbrev pub ByteMap {ℓ} : Type ℓ → Type ℓ
ByteMap V = List (Bytes × V)

module _ {ℓ} {V : Type ℓ} where
  -- `v, ok := m[key]`
  unfoldable pub get : Bytes → ByteMap V → Option V
  get key [] = none
  get key ((k, v) ∷ m) = if bytes_eq k key then some v else get key m

  -- `m[key] = v`
  unfoldable pub put : Bytes → V → ByteMap V → ByteMap V
  put key v [] = (key, v) ∷ []
  put key v ((k, w) ∷ m) = if bytes_eq k key then (key, v) ∷ m else (k, w) ∷ put key v m

  pub get-put :
      (key asked : Bytes) (v : V) (m : ByteMap V)
      → get asked (put key v m) ≡ (if bytes_eq key asked then some v else get asked m)
  unfolding get put
  get-put key asked v [] = refl
  get-put key asked v ((k, w) ∷ m) = ground (
    arith,
    get-put key asked v m,
    bytes_eq_iff k asked,
    bytes_eq_iff key asked,
    bytes_eq_iff k key,
  )

  -- Entries are replaced and added, never lost.
  pub is_some-get-put :
      (key asked : Bytes) (v : V) (m : ByteMap V)
      → is_some (get asked m) ≡ true
      → is_some (get asked (put key v m)) ≡ true
  is_some-get-put key asked v m h = ground (arith, get-put key asked v m)
