-- ===== src/Auth/Session/Retired.antt =====
-- internal/auth/auth.go with internal/store/store.go: the versions that a user has left behind.
use machmqtt_dashboard.Prelude.{
  ℕ, ◌+◌, ◌<◌, ◌≡◌, refl, inl, inr, List, [], ◌∷◌, ◌++◌, String, Bool, true, ◌||◌, not, leb, arith,
  Option-cases, All,
}
use machmqtt_dashboard.Store.Users.{
  Db, Row, User, Bcrypt, Result, ok, err, find, update, remove, has_id, is_local_named, create_user,
  insert_local, authenticate, check_password, note_failure, note_login, role_admin,
}
use machmqtt_dashboard.Store.Users.Admins.{
  delete_user, is_deletable, ensure_break_glass_admin, finish_bootstrap, promote, require_change,
}
use machmqtt_dashboard.Store.Users.External.{upsert_external_user, upsert, is_identity, refresh}
use machmqtt_dashboard.Store.Users.Sessions.{
  bump_token_version, bump, change_password, new_password,
}

module _ (id v : ℕ) where
  abbrev pub is_old : Row → Bool
  is_old r = leb v r.token_version || not (has_id id r)

  -- The user `id` has left all session versions below `v` behind, or is gone for good.
  pub record Retired (db : Db) : Type 0 where
    pub used : id < db.next_id
    pub versions : All (λ r. is_old r ≡ true) db.rows

  update-All :
      (p : Row → Bool) (f : Row → Row) (rs : List Row)
      → ((r : Row) → is_old r ≡ true → is_old (f r) ≡ true)
      → All (λ r. is_old r ≡ true) rs
      → All (λ r. is_old r ≡ true) (update p f rs)
  unfolding update
  update-All p f [] k h = tt
  update-All p f (r ∷ rs) k h = ground (arith, k r, update-All p f rs k h.1)

  remove-All :
      (p : Row → Bool) (rs : List Row)
      → All (λ r. is_old r ≡ true) rs
      → All (λ r. is_old r ≡ true) (remove p rs)
  unfolding remove
  remove-All p [] h = tt
  remove-All p (r ∷ rs) h = ground (arith, remove-All p rs h.1)

  append-All :
      (rs : List Row) (r : Row)
      → is_old r ≡ true
      → All (λ x. is_old x ≡ true) rs
      → All (λ x. is_old x ≡ true) (rs ++ r ∷ [])
  append-All [] r e h = (e, tt)
  append-All (x ∷ rs) r e h = (h.0, append-All rs r e h.1)

  update-Retired :
      (p : Row → Bool) (f : Row → Row) (db : Db)
      → ((r : Row) → is_old r ≡ true → is_old (f r) ≡ true)
      → Retired db
      → Retired (record db { rows = update p f db.rows })
  update-Retired p f db k t = record {
    used = t.used;
    versions = update-All p f db.rows k t.versions;
  }

  append-Retired :
      (db : Db) (r : Row)
      → r.id ≡ db.next_id
      → Retired db
      → Retired (record db { rows = db.rows ++ r ∷ []; next_id = db.next_id + 1 })
  append-Retired db r e t = record {
    used = omega (arith, t.used);
    versions = append-All db.rows r (ground (arith, t.used)) t.versions;
  }

  pub insert_local-Retired :
      (db : Db) (username hash role : String) (now : ℕ)
      → Retired db
      → Retired (insert_local db username hash role now).0
  unfolding insert_local
  insert_local-Retired db username hash role now t =
      elim (Option-cases (find (is_local_named username) db.rows)) [
        | inl e ↦ rw (e, insert_local) (append-Retired db _ refl t)
        | inr (r, e) ↦ rw (e, insert_local) t
      ]

  pub create_user-Retired :
      (b : Bcrypt) (db : Db) (salt : ℕ) (username password role : String) (now : ℕ)
      → Retired db
      → Retired (create_user b db salt username password role now).0
  unfolding create_user
  create_user-Retired b db salt username password role now t =
      elim (Option-cases (b.generate salt password)) [
        | inl e ↦ ground (arith, e, t)
        | inr (hash, e) ↦ ground (arith, e, t, insert_local-Retired db username hash role now t)
      ]

  pub authenticate-Retired :
      (b : Bcrypt) (db : Db) (username password : String) (now : ℕ)
      → Retired db
      → Retired (authenticate b db username password now).0
  unfolding authenticate check_password
  authenticate-Retired b db username password now t =
      elim (Option-cases (find (is_local_named username) db.rows)) [
        | inl e ↦ ground (arith, e, t)
        | inr (r, e) ↦
            let failed = update-Retired (has_id r.id) (note_failure now) db (λ _ h. h) t in
            let passed = update-Retired (has_id r.id) (note_login now) db (λ _ h. h) t in
            ground (arith, e, t, failed, passed)
      ]

  upsert-Retired :
      (db : Db) (provider subject username display_name email role : String) (now : ℕ)
      → Retired db
      → Retired (upsert db provider subject username display_name email role now)
  unfolding upsert refresh
  upsert-Retired db provider subject username display_name email role now t =
      elim (Option-cases (find (is_identity provider subject) db.rows)) [
        | inl e ↦ rw (e, upsert) (append-Retired db _ refl t)
        | inr (r, e) ↦
            rw (e, upsert)
              (update-Retired (is_identity provider subject)
                (refresh username display_name email role now) db (λ x h. ground arith) t)
      ]

  pub upsert_external_user-Retired :
      (db : Db) (provider subject username display_name email role : String) (now : ℕ)
      → Retired db
      → Retired (upsert_external_user db provider subject username display_name email role now).0
  unfolding upsert_external_user
  upsert_external_user-Retired db provider subject username display_name email role now t =
      ground (arith, t, upsert-Retired db provider subject username display_name email role now t)

  finish_bootstrap-Retired :
      (made : Db × Result User) → Retired made.0 → Retired (finish_bootstrap made).0
  unfolding finish_bootstrap
  finish_bootstrap-Retired (db, err e) t = t
  finish_bootstrap-Retired (db, ok u) t =
      update-Retired (has_id u.id) require_change db (λ _ h. h) t

  pub bootstrap-Retired :
      (b : Bcrypt) (db : Db) (salt : ℕ) (password : String) (now : ℕ)
      → Retired db
      → Retired (ensure_break_glass_admin b db salt password now).0
  unfolding ensure_break_glass_admin
  bootstrap-Retired b db salt password now t =
      let made =
        finish_bootstrap-Retired (create_user b db salt "admin" password role_admin now)
          (create_user-Retired b db salt "admin" password role_admin now t) in
      elim (Option-cases (find (is_local_named "admin") db.rows)) [
        | inl e ↦ ground (arith, e, t, made)
        | inr (r, e) ↦
            ground (arith, e, t, update-Retired (has_id r.id) promote db (λ x h. ground arith) t)
      ]

  pub change_password-Retired :
      (b : Bcrypt) (db : Db) (salt user : ℕ) (old_password password : String)
      → Retired db
      → Retired (change_password b db salt user old_password password).0
  unfolding change_password
  change_password-Retired b db salt user old_password password t =
      elim (Option-cases (b.generate salt password)) [
        | inl e ↦ ground (arith, e, t)
        | inr (hash, e) ↦ ground (
          arith,
          e,
          t,
          update-Retired (has_id user) (new_password hash) db (λ x h. ground arith) t,
        )
      ]

  pub bump-Retired : (db : Db) (user : ℕ) → Retired db → Retired (bump_token_version db user).0
  unfolding bump_token_version
  bump-Retired db user t =
      ground (arith, t, update-Retired (has_id user) bump db (λ x h. ground arith) t)

  pub delete_user-Retired : (db : Db) (user : ℕ) → Retired db → Retired (delete_user db user).0
  unfolding delete_user
  delete_user-Retired db user t =
      let gone = remove-All (is_deletable user db) db.rows t.versions in ground (arith, t, gone)
