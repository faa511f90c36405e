-- ===== src/Auth/Session/Revocation.antt =====
-- internal/auth/auth.go with internal/store/store.go: an ended session stays ended.
use machmqtt_dashboard.Prelude.{
  ℕ, ◌+◌, ◌≤◌, ◌<◌, ◌≡◌, refl, inl, inr, List, [], ◌∷◌, String, true, some, none, ==_iff, arith,
  Bool-cases, Option-cases, All,
}
use machmqtt_dashboard.Store.Users.{Db, Row, Bcrypt, ok, find, update, has_id, to_user}
use machmqtt_dashboard.Store.Users.Admins.{get_user}
use machmqtt_dashboard.Store.Users.Sessions.{
  bump_token_version, bump, change_password, new_password,
}
use machmqtt_dashboard.Store.Users.History.{
  Op, creates, authenticates, upserts, changes, bumps, deletes, bootstraps, apply, run,
}
use machmqtt_dashboard.Store.Users.Valid.{IsValid, DistinctIds}
use machmqtt_dashboard.Auth.Session.Retired.{
  is_old, Retired, create_user-Retired, authenticate-Retired, upsert_external_user-Retired,
  bootstrap-Retired, change_password-Retired, bump-Retired, delete_user-Retired,
}
use machmqtt_dashboard.Auth.Session.{
  Auth, Claims, Request, unauthorized, middleware, resolve, validate_token,
}

module _ (id v : ℕ) where
  apply-Retired :
      (b : Bcrypt) (db : Db) (op : ℕ × Op) → Retired id v db → Retired id v (apply b db op)
  unfolding apply
  apply-Retired b db (now, creates salt username password role) t =
      create_user-Retired id v b db salt username password role now t
  apply-Retired b db (now, authenticates username password) t =
      authenticate-Retired id v b db username password now t
  apply-Retired b db (now, upserts provider subject username display_name email role) t =
      upsert_external_user-Retired id v db provider subject username display_name email role now t
  apply-Retired b db (now, changes salt user old_password password) t =
      change_password-Retired id v b db salt user old_password password t
  apply-Retired b db (now, bumps user) t = bump-Retired id v db user t
  apply-Retired b db (now, deletes user) t = delete_user-Retired id v db user t
  apply-Retired b db (now, bootstraps salt password) t =
      bootstrap-Retired id v b db salt password now t

  run-Retired :
      (b : Bcrypt) (db : Db) (ops : List (ℕ × Op)) → Retired id v db → Retired id v (run b db ops)
  unfolding run
  run-Retired b db [] t = t
  run-Retired b db (op ∷ ops) t = run-Retired b (apply b db op) ops (apply-Retired b db op t)

  find-old :
      (rs : List Row) (r : Row)
      → All (λ x. is_old id v x ≡ true) rs
      → find (has_id id) rs ≡ some r
      → v ≤ r.token_version
  unfolding find
  find-old [] r h e = absurd (ground arith)
  find-old (x ∷ rs) r h e = ground (arith, find-old rs r h.1)

  -- A token of the user with an older version is refused.
  Retired-refused :
      (a : Auth) (db : Db) (now : ℕ) (r : Request) (token : String) (c : Claims)
      → Retired id v db
      → db.available ≡ true
      → r.cookie ≡ some token
      → validate_token a now token ≡ some c
      → c.user_id ≡ id
      → c.session_version < v
      → middleware a db now r ≡ unauthorized
  unfolding middleware resolve get_user to_user
  Retired-refused a db now r token c t up sent valid who old =
      elim (Option-cases (find (has_id c.user_id) db.rows)) [
        | inl e ↦ ground (arith, e)
        | inr (row, e) ↦ ground (
          arith,
          e,
          find-old db.rows row t.versions (rw (← who) e),
          ==_iff c.session_version row.token_version,
        )
      ]

absent-All :
    (id v : ℕ) (f : Row → Row) (rs : List Row)
    → find (has_id id) rs ≡ none
    → All (λ r. is_old id v r ≡ true) (update (has_id id) f rs)
unfolding find update
absent-All id v f [] e = tt
absent-All id v f (r ∷ rs) e = ground (arith, absent-All id v f rs)

-- One write that raises the version of the user's row retires the version it had.
raise-All :
    (id : ℕ) (f : Row → Row) (row : Row) (rs : List Row)
    → ((r : Row) → (f r).token_version ≡ r.token_version + 1)
    → DistinctIds rs
    → find (has_id id) rs ≡ some row
    → All (λ r. is_old id (row.token_version + 1) r ≡ true) (update (has_id id) f rs)
unfolding find update
raise-All id f row [] k d e = tt
raise-All id f row (r ∷ rs) k d e = elim (Bool-cases (has_id id r)) [
  | inl hit ↦
      let here : r.id ≡ id = (==_iff r.id id).0 hit in
      let rest = absent-All id (row.token_version + 1) f rs (rw (← here) d.0) in
      ground (arith, hit, k r, rest)
  | inr miss ↦ ground (arith, miss, raise-All id f row rs k d.1)
]

find-used :
    (id n : ℕ) (row : Row) (rs : List Row)
    → All (λ r. r.id < n) rs
    → find (has_id id) rs ≡ some row
    → id < n
unfolding find
find-used id n row [] h e = absurd (ground arith)
find-used id n row (r ∷ rs) h e = ground (arith, find-used id n row rs h.1)

bump-retires :
    (db : Db) (id : ℕ) (row : Row)
    → IsValid db
    → db.available ≡ true
    → find (has_id id) db.rows ≡ some row
    → Retired id (row.token_version + 1) (bump_token_version db id).0
unfolding bump_token_version
bump-retires db id row v up e =
    let used = find-used id db.next_id row db.rows v.fresh e in
    let versions = raise-All id bump row db.rows (λ _. refl) v.distinct e in
    simp up (record { used = used; versions = versions })

-- After a logout, which bumps the user's version, every token issued to the user so far is refused:
-- then and after any further calls on the table, whoever makes them.
pub middleware-bump_token_version :
    (a : Auth) (b : Bcrypt) (db : Db) (id : ℕ) (row : Row) (ops : List (ℕ × Op)) (now : ℕ)
    (r : Request) (token : String) (c : Claims)
    → IsValid db
    → db.available ≡ true
    → find (has_id id) db.rows ≡ some row
    → (run b (bump_token_version db id).0 ops).available ≡ true
    → r.cookie ≡ some token
    → validate_token a now token ≡ some c
    → c.user_id ≡ id
    → c.session_version ≤ row.token_version
    → middleware a (run b (bump_token_version db id).0 ops) now r ≡ unauthorized
middleware-bump_token_version a b db id row ops now r token c v up e still sent valid who old =
    let t = bump-retires db id row v up e in
    Retired-refused id (row.token_version + 1) a (run b (bump_token_version db id).0 ops) now r
      token c (run-Retired id (row.token_version + 1) b (bump_token_version db id).0 ops t) still
      sent valid who (omega arith)

change_password-retires :
    (b : Bcrypt) (db db' : Db) (salt id : ℕ) (old_password password : String) (row : Row)
    → IsValid db
    → find (has_id id) db.rows ≡ some row
    → change_password b db salt id old_password password ≡ (db', ok tt)
    → Retired id (row.token_version + 1) db'
unfolding change_password
change_password-retires b db db' salt id old_password password row v e h =
    elim (Option-cases (b.generate salt password)) [
      | inl g ↦ absurd (ground (arith, g))
      | inr (hash, g) ↦
          let used = find-used id db.next_id row db.rows v.fresh e in
          let versions = raise-All id (new_password hash) row db.rows (λ _. refl) v.distinct e in
          let written : db' ≡ record db { rows = update (has_id id) (new_password hash) db.rows } =
            ground (arith, g) in
          rw written (record { used = used; versions = versions })
    ]

-- After a change of a password that succeeds, every token issued to the user so far is refused: then and
-- after any further calls on the table, whoever makes them.
pub middleware-change_password :
    (a : Auth) (b : Bcrypt) (db db' : Db) (salt id : ℕ) (old_password password : String) (row : Row)
    (ops : List (ℕ × Op)) (now : ℕ) (r : Request) (token : String) (c : Claims)
    → IsValid db
    → find (has_id id) db.rows ≡ some row
    → change_password b db salt id old_password password ≡ (db', ok tt)
    → (run b db' ops).available ≡ true
    → r.cookie ≡ some token
    → validate_token a now token ≡ some c
    → c.user_id ≡ id
    → c.session_version ≤ row.token_version
    → middleware a (run b db' ops) now r ≡ unauthorized
middleware-change_password a b db db' salt id old_password password row ops now r token c v e h
      still sent valid who old =
    let t = change_password-retires b db db' salt id old_password password row v e h in
    Retired-refused id (row.token_version + 1) a (run b db' ops) now r token c
      (run-Retired id (row.token_version + 1) b db' ops t) still sent valid who (omega arith)
