-- ===== src/Auth/Session.antt =====
-- internal/auth/auth.go: sessions as signed tokens, and the middleware in front of every handler.
-- A handler's answer is a `Reply`. The JWT library is the record `Jwt`; the path that
-- `fmt.Sprintf("/api/users/%d/password", id)` makes is a function of the id.
pub mod Gate
pub mod Retired
pub mod Revocation
mod Tests
use machmqtt_dashboard.Prelude.{
  ℕ, ◌+◌, ◌/◌, ◌≡◌, String, Bool, true, false, ◌&&◌, ◌||◌, not, Option, some, none, ◌==◌, str_eq,
  if◌then◌else◌,
}
use machmqtt_dashboard.Store.Users.{
  Db, User, Result, ok, err, Error, no_rows, role_admin, provider_local,
}
use machmqtt_dashboard.Store.Users.Admins.{get_user}

abbrev pub session_issuer : String
session_issuer = "machmqtt-dashboard"

-- The three times are in seconds.
pub record Claims : Type 0 where
  pub issuer : String
  pub subject : String
  pub audience : String
  pub token_id : String
  pub issued_at : ℕ
  pub not_before : ℕ
  pub expires_at : ℕ
  pub user_id : ℕ
  pub username : String
  pub role : String
  pub auth_provider : String
  pub session_version : ℕ

-- What `ParseWithClaims` is asked to insist on, beside an expiry time.
pub record Options : Type 0 where
  pub algorithm : String
  pub issuer : String
  pub audience : String

-- `github.com/golang-jwt/jwt/v5`: the claims of a token that is authentic, meets the options and is
-- neither early nor expired; and the signed token of claims.
pub record Jwt : Type 0 where
  pub parse : Options → String → ℕ → String → Option Claims
  pub sign : String → Claims → Option String

abbrev pub session_options : Options
session_options = record { algorithm = "HS256"; issuer = session_issuer; audience = session_issuer }

pub record Auth : Type 0 where
  pub secret : String
  pub cookie_ttl : ℕ
  pub jwt : Jwt
  pub password_path : ℕ → String
  pub subject_of : ℕ → String

-- `jwt.NewNumericDate`: whole seconds.
abbrev pub numeric_date : ℕ → ℕ
numeric_date t = t / 1_000_000_000

abbrev pub claims_for : Auth → ℕ → String → User → Claims
claims_for a now token_id user = record {
  issuer = session_issuer;
  subject = a.subject_of user.id;
  audience = session_issuer;
  token_id = token_id;
  issued_at = numeric_date now;
  not_before = numeric_date now;
  expires_at = numeric_date (now + a.cookie_ttl);
  user_id = user.id;
  username = user.username;
  role = user.role;
  auth_provider = user.auth_provider;
  session_version = user.session_version;
}

-- `token_id` is what `newTokenID` draws, `none` where the random source fails.
unfoldable pub issue_token : Auth → ℕ → Option String → User → Option String
issue_token a now token_id user = elim token_id [
  | none ↦ none
  | some id ↦ a.jwt.sign a.secret (claims_for a now id user)
]

unfoldable pub validate_token : Auth → ℕ → String → Option Claims
validate_token a now token = a.jwt.parse session_options a.secret now token

pub record Request : Type 0 where
  pub method : String
  pub path : String
  pub cookie : Option String

-- `next` is the call of the wrapped handler with the claims in the request's context.
pub data Reply : Type 0 where
  respond : (status : ℕ) (body : String) → Reply
  next : Claims → Reply

abbrev pub unauthorized : Reply
unauthorized = respond 401 "{\"error\":\"unauthorized\"}"

unfoldable pub password_rotation_allowed : Auth → Request → ℕ → Bool
password_rotation_allowed a r user_id =
    if str_eq r.method "GET" && str_eq r.path "/api/me"
    then true
    else if str_eq r.method "POST" && str_eq r.path "/api/logout"
    then true
    else str_eq r.method "PUT" && str_eq r.path (a.password_path user_id)

-- The claims that the handler sees: who the user is now, not when the token was issued.
abbrev pub refreshed : Claims → User → Claims
refreshed c u = record c {
  username = u.username;
  role = u.role;
  auth_provider = u.auth_provider;
  session_version = u.session_version;
}

unfoldable pub admit : Auth → Request → Claims → User → Reply
unfolding password_rotation_allowed
admit a r c u =
    if not (c.session_version == u.session_version)
    then unauthorized
    else if str_eq u.auth_provider provider_local
        && (u.must_change_password && not (password_rotation_allowed a r u.id))
    then respond 403 "{\"error\":\"password change required\"}"
    else next (refreshed c u)

-- A user that is gone is unauthorized; a database that fails is not the client's fault.
unfoldable pub resolve : Auth → Request → Claims → Result User → Reply
unfolding admit
resolve a r c (ok u) = admit a r c u
resolve a r c (err no_rows) = unauthorized
resolve a r c (err _) = respond 500 "{\"error\":\"internal error\"}"

unfoldable pub middleware : Auth → Db → ℕ → Request → Reply
unfolding resolve validate_token
middleware a db now r = elim r.cookie [
  | none ↦ unauthorized
  | some token ↦ elim (validate_token a now token) [
    | none ↦ unauthorized
    | some c ↦ resolve a r c (get_user db c.user_id)
  ]
]

-- `AdminMiddleware`, which stands behind `Middleware`.
unfoldable pub admin_only : Reply → Reply
admin_only (respond status body) = respond status body
admin_only (next c) =
    if str_eq c.role role_admin
    then next c
    else respond 403 "{\"error\":\"forbidden: admin role required\"}"
