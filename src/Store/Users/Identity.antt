-- ===== src/Store/Users/Identity.antt =====
-- internal/store/store.go, `UpsertExternalUser`: external identities and local accounts stay apart.
use machmqtt_dashboard.Prelude.{
  ℕ, ◌≡◌, refl, inl, inr, List, [], ◌∷◌, ◌++◌, String, Bool, false, ◌&&◌, str_eq, eq_iff, filter,
  arith, Bool-cases, Option-cases,
}
use machmqtt_dashboard.Store.Users.{Db, Row, find, update, is_local, provider_local}
use machmqtt_dashboard.Store.Users.External.{
  is_identity, refresh, external_row, upsert, upsert_external_user,
}

-- The rows of the local accounts, in the order of the table.
abbrev pub local_rows : List Row → List Row
local_rows = filter is_local

local_rows-update :
    (p : Row → Bool) (f : Row → Row) (rs : List Row)
    → ((r : Row) → (p r && is_local r) ≡ false)
    → ((r : Row) → is_local (f r) ≡ is_local r)
    → local_rows (update p f rs) ≡ local_rows rs
unfolding update
local_rows-update p f [] apart keeps = refl
local_rows-update p f (r ∷ rs) apart keeps =
    ground (arith, apart r, keeps r, local_rows-update p f rs apart keeps)

local_rows-append :
    (rs : List Row) (r : Row) → is_local r ≡ false → local_rows (rs ++ r ∷ []) ≡ local_rows rs
local_rows-append [] r h = ground (arith, h)
local_rows-append (x ∷ rs) r h = ground (arith, local_rows-append rs r h)

module _ (provider subject username display_name email role : String) (now : ℕ) where
  local_rows-upsert :
      (db : Db)
      → str_eq provider provider_local ≡ false
      → local_rows (upsert db provider subject username display_name email role now).rows
        ≡ local_rows db.rows
  unfolding upsert refresh
  local_rows-upsert db apart = elim (Option-cases (find (is_identity provider subject) db.rows)) [
    | inl e ↦
        rw (e, upsert)
          (local_rows-append db.rows
            (external_row db.next_id provider subject username display_name email role now) apart)
    | inr (r, e) ↦
        rw (e, upsert)
          (local_rows-update (is_identity provider subject)
            (refresh username display_name email role now) db.rows
            (λ x. ground (
              arith,
              apart,
              eq_iff x.auth_provider provider,
              eq_iff x.auth_provider provider_local,
              eq_iff provider provider_local,
            ))
            (λ x. refl))
  ]

  -- An external login leaves the rows of all local accounts as they were, whatever name and address the
  -- provider gives, and whether the call succeeds or not.
  pub local_rows-upsert_external_user :
      (db : Db)
      → local_rows
          (upsert_external_user db provider subject username display_name email role now).0.rows
        ≡ local_rows db.rows
  unfolding upsert_external_user
  local_rows-upsert_external_user db = elim (Bool-cases (str_eq provider provider_local)) [
    | inl same ↦ ground (arith, same)
    | inr apart ↦ ground (arith, local_rows-upsert db apart)
  ]
