-- ===== src/Store/Users/External.antt =====
-- internal/store/store.go: `UpsertExternalUser`, the accounts of external identity providers.
use machmqtt_dashboard.Prelude.{
  ℕ, ◌+◌, [], ◌∷◌, ◌++◌, String, Bool, false, ◌&&◌, ◌||◌, not, Option, some, none, str_eq,
  if◌then◌else◌,
}
use machmqtt_dashboard.Store.Users.{
  Db, Row, User, Result, ok, err, unavailable, no_rows, invalid_provider, identity_required,
  invalid_role, find, update, to_user, provider_local, is_role,
}

abbrev pub subject_is : String → Option String → Bool
subject_is subject none = false
subject_is subject (some s) = str_eq s subject

-- The key of the unique index on `(auth_provider, external_subject)`.
abbrev pub is_identity : String → String → Row → Bool
is_identity provider subject r =
    str_eq r.auth_provider provider && subject_is subject r.external_subject

-- `DO UPDATE SET`: a change of role also ends the sessions issued so far.
unfoldable pub refresh : String → String → String → String → ℕ → Row → Row
refresh username display_name email role now r = record r {
  username = username;
  role = role;
  display_name = display_name;
  email = email;
  last_login = some now;
  failed_attempts = 0;
  token_version = r.token_version + (if str_eq r.role role then 0 else 1);
}

abbrev pub external_row : ℕ → String → String → String → String → String → String → ℕ → Row
external_row id provider subject username display_name email role now = record {
  id = id;
  username = username;
  password_hash = none;
  role = role;
  auth_provider = provider;
  external_subject = some subject;
  display_name = display_name;
  email = email;
  created_at = now;
  last_login = some now;
  failed_attempts = 0;
  last_failed_at = none;
  must_change_password = false;
  token_version = 0;
}

-- The INSERT with its ON CONFLICT clause.
unfoldable pub upsert : Db → String → String → String → String → String → String → ℕ → Db
upsert db provider subject username display_name email role now =
    elim (find (is_identity provider subject) db.rows) [
      | some r ↦ record db {
        rows =
            update (is_identity provider subject) (refresh username display_name email role now)
              db.rows;
      }
      | none ↦ record db {
        rows =
            db.rows
            ++ external_row db.next_id provider subject username display_name email role now ∷ [];
        next_id = db.next_id + 1;
      }
    ]

unfoldable pub found_user : Option Row → Result User
found_user none = err no_rows
found_user (some r) = ok (to_user r)

unfoldable pub upsert_external_user :
    Db → String → String → String → String → String → String → ℕ → Db × Result User
unfolding refresh upsert found_user
upsert_external_user db provider subject username display_name email role now =
    if str_eq provider "" || str_eq provider provider_local
    then (db, err invalid_provider)
    else if str_eq subject "" || str_eq username ""
    then (db, err identity_required)
    else if not (is_role role)
    then (db, err invalid_role)
    else if not db.available
    then (db, err unavailable)
    else let db' = upsert db provider subject username display_name email role now in
      (db', found_user (find (is_identity provider subject) db'.rows))
