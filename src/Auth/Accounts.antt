-- ===== src/Auth/Accounts.antt =====
-- internal/auth/handlers.go: the handlers on accounts behind the middleware.
-- The claims are those that the middleware puts into the request's context, `none` without it; `id` is what
-- `strconv.ParseInt` makes of the path, and a body is `none` where JSON does not decode.
pub mod Rotation
mod Tests
use Prim.Native.String.{len}
use machmqtt_dashboard.Prelude.{
  ℕ, List, [], ◌∷◌, String, Bool, true, false, ◌||◌, Option, some, none, ltb, ◌==◌, str_eq,
  if◌then◌else◌, map,
}
use machmqtt_dashboard.Store.Users.{
  Db, Row, User, Bcrypt, Result, ok, err, create_user, min_password_length, role_viewer, to_user,
}
use machmqtt_dashboard.Store.Users.Admins.{delete_user, get_user}
use machmqtt_dashboard.Store.Users.Sessions.{bump_token_version, change_password}
use machmqtt_dashboard.Auth.Session.{Auth, Claims, issue_token}

-- `renews` sets the session cookie to a token; `logs_out` clears it; the others carry a JSON body.
pub data AccountReply : Type 0 where
  respond : (status : ℕ) (body : String) → AccountReply
  renews : (token : String) → AccountReply
  logs_out : AccountReply
  shows : (status : ℕ) (user : User) → AccountReply
  lists : List User → AccountReply

abbrev pub too_short : AccountReply
too_short = respond 400 "{\"error\":\"password must be at least 8 characters\"}"

abbrev pub is_user : ℕ → Option Claims → Bool
is_user id none = false
is_user id (some c) = c.user_id == id

-- A failure to end the sessions is logged, and the cookie goes all the same.
unfoldable pub handle_logout : Db → Option Claims → Db × AccountReply
handle_logout db none = (db, logs_out)
handle_logout db (some c) = ((bump_token_version db c.user_id).0, logs_out)

unfoldable pub show_user : Result User → AccountReply
show_user (ok u) = shows 200 u
show_user (err e) = respond 404 "{\"error\":\"user not found\"}"

unfoldable pub handle_me : Db → Option Claims → AccountReply
unfolding show_user
handle_me db none = respond 401 "{\"error\":\"unauthorized\"}"
handle_me db (some c) = show_user (get_user db c.user_id)

-- After the change: a token for the new session version.
unfoldable pub renew : Auth → ℕ → Option String → Result User → AccountReply
renew a now token_id (err e) = respond 500 "{\"error\":\"internal error\"}"
renew a now token_id (ok u) = elim (issue_token a now token_id u) [
  | none ↦ respond 500 "{\"error\":\"internal error\"}"
  | some token ↦ renews token
]

unfoldable pub rotate : Auth → ℕ → Option String → ℕ → Db × Result (Unit {0}) → Db × AccountReply
unfolding renew
rotate a now token_id id (db, err e) = (db, respond 400 "{\"error\":\"failed to change password\"}")
rotate a now token_id id (db, ok done) = (db, renew a now token_id (get_user db id))

unfoldable pub handle_change_password :
    Bcrypt
    → Auth
    → Db
    → ℕ
    → ℕ
    → Option String
    → Option ℕ
    → Option Claims
    → Option (String × String)
    → Db × AccountReply
unfolding rotate
handle_change_password b a db salt now token_id none claims body =
    (db, respond 400 "{\"error\":\"invalid user id\"}")
handle_change_password b a db salt now token_id (some id) claims none = (
  db,
  if is_user id claims
      then respond 400 "{\"error\":\"invalid request\"}"
      else respond 403 "{\"error\":\"forbidden\"}",
)
handle_change_password b a db salt now token_id (some id) claims (some (old_password, password)) =
    if is_user id claims
    then (if ltb (len password) min_password_length
        then (db, too_short)
        else rotate a now token_id id (change_password b db salt id old_password password))
    else (db, respond 403 "{\"error\":\"forbidden\"}")

abbrev pub user_of : Row → User
user_of r = to_user r

unfoldable pub handle_list_users : Db → AccountReply
handle_list_users db =
    if db.available
    then lists (map user_of db.rows)
    else respond 500 "{\"error\":\"internal error\"}"

unfoldable pub created : Db × Result User → Db × AccountReply
created (db, ok u) = (db, shows 201 u)
created (db, err e) = (db, respond 400 "{\"error\":\"failed to create user\"}")

unfoldable pub handle_create_user :
    Bcrypt → Db → ℕ → ℕ → Option (String × String × String) → Db × AccountReply
unfolding created
handle_create_user b db salt now none = (db, respond 400 "{\"error\":\"invalid request\"}")
handle_create_user b db salt now (some (username, password, role)) =
    if str_eq username "" || str_eq password ""
    then (db, respond 400 "{\"error\":\"username and password are required\"}")
    else if ltb (len password) min_password_length
    then (db, too_short)
    else created
        (create_user b db salt username password (if str_eq role "" then role_viewer else role) now)

unfoldable pub deleted : Db × Result (Unit {0}) → Db × AccountReply
deleted (db, ok done) = (db, respond 200 "{\"ok\":true}")
deleted (db, err e) = (db, respond 400 "{\"error\":\"failed to delete user\"}")

unfoldable pub handle_delete_user : Db → Option ℕ → Option Claims → Db × AccountReply
unfolding deleted
handle_delete_user db none claims = (db, respond 400 "{\"error\":\"invalid user id\"}")
handle_delete_user db (some id) claims =
    if is_user id claims
    then (db, respond 400 "{\"error\":\"cannot delete your own account\"}")
    else deleted (delete_user db id)
