-- ===== src/Store/Users/Admins.antt =====
-- internal/store/store.go: deletion, and the local administrator that must always exist.
use Prim.Native.String.{len}
use machmqtt_dashboard.Prelude.{
  ℕ, ◌+◌, ◌-◌, String, Bool, true, ◌&&◌, not, Option, some, none, ltb, leb, ◌==◌, if◌then◌else◌,
  length, count,
}
use machmqtt_dashboard.Store.Users.{
  Db, Row, User, Bcrypt, Result, ok, err, unavailable, last_administrator, user_not_found, find,
  update, remove, has_id, is_local_named, is_local_admin, role_admin, to_user, create_user,
  bootstrap_password_required, no_rows,
}

-- How many local administrators the table has.
abbrev pub local_admins : Db → ℕ
local_admins db = count is_local_admin db.rows

-- The WHERE clause of the DELETE: never the last local administrator.
abbrev pub is_deletable : ℕ → Db → Row → Bool
is_deletable id db r = has_id id r && not (is_local_admin r && leb (local_admins db) 1)

unfoldable pub delete_user : Db → ℕ → Db × Result (Unit {0})
delete_user db id =
    if not db.available
    then (db, err unavailable)
    else let rows = remove (is_deletable id db) db.rows in
      if length db.rows - length rows == 0
      then (
        db,
        elim (find (has_id id) db.rows) [
          | some r ↦ err last_administrator
          | none ↦ err user_not_found
        ],
      )
      else (record db { rows = rows }, ok tt)

unfoldable pub get_user : Db → ℕ → Result User
get_user db id =
    if not db.available
    then err unavailable
    else elim (find (has_id id) db.rows) [ none ↦ err no_rows | some r ↦ ok (to_user r) ]

abbrev pub promote : Row → Row
promote r = record r {
  role = role_admin;
  must_change_password = true;
  token_version = r.token_version + 1;
}

abbrev pub require_change : Row → Row
require_change r = record r { must_change_password = true }

-- After `CreateUser`: the new administrator must change the password.
unfoldable pub finish_bootstrap : Db × Result User → Db × Result (Option User)
finish_bootstrap (db, err e) = (db, err e)
finish_bootstrap (db, ok u) = (
  record db { rows = update (has_id u.id) require_change db.rows },
  ok (some (record u { must_change_password = true })),
)

abbrev pub as_option : Result User → Result (Option User)
as_option (ok u) = ok (some u)
as_option (err e) = err e

-- `nil` is returned where an administrator exists already.
unfoldable pub ensure_break_glass_admin : Bcrypt → Db → ℕ → String → ℕ → Db × Result (Option User)
unfolding finish_bootstrap get_user
ensure_break_glass_admin bcrypt db salt password now =
    if not db.available
    then (db, err unavailable)
    else if ltb 0 (local_admins db)
    then (db, ok none)
    else if ltb (len password) 12
    then (db, err bootstrap_password_required)
    else elim (find (is_local_named "admin") db.rows) [
      | some r ↦
          let db' = record db { rows = update (has_id r.id) promote db.rows } in
          (db', as_option (get_user db' r.id))
      | none ↦ finish_bootstrap (create_user bcrypt db salt "admin" password role_admin now)
    ]
