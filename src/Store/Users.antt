-- ===== src/Store/Users.antt =====
-- internal/store/store.go: the table `users` and the methods of `Store` on it.
-- The table is a list of rows in the order of `id`; an SQL statement is a function of that list, with
-- the two unique indexes of `migrateUsers` as the reason for an INSERT to fail. `available` says
-- whether the database answers during a call. bcrypt is a parameter; `now` is `time.Now()`.
pub mod Admins
pub mod Lockout
pub mod External
pub mod Identity
pub mod Sessions
pub mod Valid
pub mod Steps
pub mod Bootstrap
pub mod History
mod Tests
use Prim.Native.String.{count as utf8_count, len}
use machmqtt_dashboard.Prelude.{
  ℕ, zero, suc, ◌+◌, ◌*◌, ◌≡◌, List, [], ◌∷◌, ◌++◌, String, Bool, true, false, ◌&&◌, ◌||◌, not,
  Option, some, none, ltb, leb, ◌==◌, str_eq, if◌then◌else◌, length, count, map,
}

abbrev pub role_admin : String
role_admin = "admin"

abbrev pub role_viewer : String
role_viewer = "viewer"

abbrev pub provider_local : String
provider_local = "local"

abbrev pub min_password_length : ℕ
min_password_length = 8

abbrev pub max_failed_attempts : ℕ
max_failed_attempts = 10

-- 15 minutes in nanoseconds.
abbrev pub lockout_window : ℕ
lockout_window = 900_000_000_000

pub record User : Type 0 where
  pub id : ℕ
  pub username : String
  pub role : String
  pub auth_provider : String
  pub external_subject : String
  pub display_name : String
  pub email : String
  pub created_at : ℕ
  pub last_login : Option ℕ
  pub failed_attempts : ℕ
  pub last_failed_at : Option ℕ
  pub must_change_password : Bool
  pub session_version : ℕ

-- A row of the table: NULL is `none`.
pub record Row : Type 0 where
  pub id : ℕ
  pub username : String
  pub password_hash : Option String
  pub role : String
  pub auth_provider : String
  pub external_subject : Option String
  pub display_name : String
  pub email : String
  pub created_at : ℕ
  pub last_login : Option ℕ
  pub failed_attempts : ℕ
  pub last_failed_at : Option ℕ
  pub must_change_password : Bool
  pub token_version : ℕ

pub data Error : Type 0 where
  unavailable no_rows invalid_credentials account_locked fields_required invalid_role hash_failed :
      Error
  insert_failed invalid_provider identity_required new_password_required user_not_found : Error
  invalid_old_password last_administrator bootstrap_password_required : Error

pub data Result {ℓ} (A : Type ℓ) : Type ℓ where
  ok : A → Result A
  err : Error → Result A

pub record Db : Type 0 where
  pub rows : List Row
  pub next_id : ℕ
  pub available : Bool

-- `golang.org/x/crypto/bcrypt`: hashing takes a random salt and may refuse the password.
pub record Bcrypt : Type 0 where
  pub generate : ℕ → String → Option String
  pub compare : String → String → Bool

-- `SELECT … WHERE p`, the first row of it.
unfoldable pub find : (Row → Bool) → List Row → Option Row
find p [] = none
find p (r ∷ rs) = if p r then some r else find p rs

-- `UPDATE users SET f WHERE p`.
unfoldable pub update : (Row → Bool) → (Row → Row) → List Row → List Row
update p f [] = []
update p f (r ∷ rs) = (if p r then f r else r) ∷ update p f rs

-- `DELETE FROM users WHERE p`.
unfoldable pub remove : (Row → Bool) → List Row → List Row
remove p [] = []
remove p (r ∷ rs) = if p r then remove p rs else r ∷ remove p rs

abbrev pub has_id : ℕ → Row → Bool
has_id id r = r.id == id

abbrev pub is_local : Row → Bool
is_local r = str_eq r.auth_provider provider_local

abbrev pub is_local_named : String → Row → Bool
is_local_named name r = is_local r && str_eq r.username name

abbrev pub is_local_admin : Row → Bool
is_local_admin r = is_local r && str_eq r.role role_admin

abbrev pub or_empty : Option String → String
or_empty none = ""
or_empty (some s) = s

-- The columns that `GetUser`, `ListUsers` and `UpsertExternalUser` scan.
unfoldable pub to_user : Row → User
to_user r = record {
  id = r.id;
  username = r.username;
  role = r.role;
  auth_provider = r.auth_provider;
  external_subject = or_empty r.external_subject;
  display_name = r.display_name;
  email = r.email;
  created_at = r.created_at;
  last_login = r.last_login;
  failed_attempts = r.failed_attempts;
  last_failed_at = r.last_failed_at;
  must_change_password = r.must_change_password;
  session_version = r.token_version;
}

abbrev pub is_role : String → Bool
is_role role = str_eq role role_admin || str_eq role role_viewer

abbrev pub local_row : ℕ → String → String → String → ℕ → Row
local_row id username hash role now = record {
  id = id;
  username = username;
  password_hash = some hash;
  role = role;
  auth_provider = provider_local;
  external_subject = none;
  display_name = "";
  email = "";
  created_at = now;
  last_login = none;
  failed_attempts = 0;
  last_failed_at = none;
  must_change_password = false;
  token_version = 0;
}

-- The INSERT of `CreateUser`: a local user name is unique.
unfoldable pub insert_local : Db → String → String → String → ℕ → Db × Result User
insert_local db username hash role now = elim (find (is_local_named username) db.rows) [
  | some r ↦ (db, err insert_failed)
  | none ↦
      let row = local_row db.next_id username hash role now in
      (record db { rows = db.rows ++ row ∷ []; next_id = db.next_id + 1 }, ok (to_user row))
]

unfoldable pub create_user : Bcrypt → Db → ℕ → String → String → String → ℕ → Db × Result User
create_user bcrypt db salt username password role now =
    if str_eq username "" || str_eq password ""
    then (db, err fields_required)
    else if not (is_role role)
    then (db, err invalid_role)
    else elim (bcrypt.generate salt password) [
      | none ↦ (db, err hash_failed)
      | some hash ↦
          if db.available then insert_local db username hash role now else (db, err unavailable)
    ]

abbrev pub within_window : Option ℕ → ℕ → Bool
within_window none now = false
within_window (some at) now = ltb now (at + lockout_window)

-- The account is locked: `FailedAttempts >= maxFailedAttempts` and the last failure is recent.
abbrev pub is_locked : Row → ℕ → Bool
is_locked r now = leb max_failed_attempts r.failed_attempts && within_window r.last_failed_at now

abbrev pub note_failure : ℕ → Row → Row
note_failure now r = record r { failed_attempts = r.failed_attempts + 1; last_failed_at = some now }

abbrev pub note_login : ℕ → Row → Row
note_login now r = record r { last_login = some now; failed_attempts = 0 }

-- The user that `Authenticate` returns: the previous login time, and no last failure.
abbrev pub logged_in : Row → User
logged_in r = record (to_user r) { failed_attempts = 0; last_failed_at = none }

unfoldable pub check_password : Bcrypt → Db → Row → String → ℕ → Db × Result User
unfolding to_user
check_password bcrypt db r password now =
    if is_locked r now
    then (db, err account_locked)
    else if bcrypt.compare (or_empty r.password_hash) password
    then (record db { rows = update (has_id r.id) (note_login now) db.rows }, ok (logged_in r))
    else (
      record db { rows = update (has_id r.id) (note_failure now) db.rows },
      err invalid_credentials,
    )

-- A NULL hash cannot be scanned into a Go string: that is an error of the query.
unfoldable pub authenticate : Bcrypt → Db → String → String → ℕ → Db × Result User
unfolding check_password
authenticate bcrypt db username password now =
    if not db.available
    then (db, err unavailable)
    else elim (find (is_local_named username) db.rows) [
      | none ↦ (db, err invalid_credentials)
      | some r ↦ elim r.password_hash [
        | none ↦ (db, err unavailable)
        | some hash ↦ check_password bcrypt db r password now
      ]
    ]
