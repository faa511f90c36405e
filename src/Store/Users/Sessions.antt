-- ===== src/Store/Users/Sessions.antt =====
-- internal/store/store.go: passwords, and the version that every issued session carries.
use machmqtt_dashboard.Prelude.{
  ℕ, ◌+◌, String, Bool, false, ◌&&◌, not, some, none, str_eq, if◌then◌else◌,
}
use machmqtt_dashboard.Store.Users.{
  Db, Row, Bcrypt, Result, ok, err, unavailable, no_rows, new_password_required, user_not_found,
  invalid_old_password, hash_failed, find, update, has_id, is_local,
}

abbrev pub bump : Row → Row
bump r = record r { token_version = r.token_version + 1 }

-- `token_version = token_version + 1`.
unfoldable pub bump_token_version : Db → ℕ → Db × Result (Unit {0})
bump_token_version db id =
    if not db.available
    then (db, err unavailable)
    else (record db { rows = update (has_id id) bump db.rows }, ok tt)

abbrev pub new_password : String → Row → Row
new_password hash r = record r {
  password_hash = some hash;
  must_change_password = false;
  token_version = r.token_version + 1;
}

-- A query that fails, or a NULL hash, is reported as "user not found".
unfoldable pub change_password : Bcrypt → Db → ℕ → ℕ → String → String → Db × Result (Unit {0})
change_password bcrypt db salt id old_password password =
    if str_eq password ""
    then (db, err new_password_required)
    else if not db.available
    then (db, err user_not_found)
    else elim (find (λ r. has_id id r && is_local r) db.rows) [
      | none ↦ (db, err user_not_found)
      | some r ↦ elim r.password_hash [
        | none ↦ (db, err user_not_found)
        | some hash ↦
            if not (bcrypt.compare hash old_password)
            then (db, err invalid_old_password)
            else elim (bcrypt.generate salt password) [
              | none ↦ (db, err hash_failed)
              | some hash' ↦
                  (record db { rows = update (has_id id) (new_password hash') db.rows }, ok tt)
            ]
      ]
    ]

pub record SessionState : Type 0 where
  pub role : String
  pub session_version : ℕ
  pub must_change_password : Bool

unfoldable pub get_session_state : Db → ℕ → Result SessionState
get_session_state db id =
    if not db.available then err unavailable else elim (find (has_id id) db.rows) [
      | none ↦ err no_rows
      | some r ↦ ok (record {
        role = r.role;
        session_version = r.token_version;
        must_change_password = r.must_change_password;
      })
    ]
