-- ===== src/Auth/Session/Tests.antt =====
-- Instances of the theorems on sessions: internal/auth/auth.go.
use machmqtt_dashboard.Prelude.{
  ℕ, ◌*◌, ◌<◌, ◌≤◌, ◌≡◌, refl, List, [], ◌∷◌, String, Bool, true, some, none, str_eq, arith,
  if◌then◌else◌, ◌&&◌, ◌==◌, ==_iff, eq_iff, Bool-cases, inl, inr,
}
use machmqtt_dashboard.Store.Users.{Db, Row, Bcrypt, find, update, to_user, local_row, role_admin}
use machmqtt_dashboard.Store.Users.Admins.{get_user}
use machmqtt_dashboard.Store.Users.Valid.{IsValid}
use machmqtt_dashboard.Store.Users.History.{Op, authenticates, bumps, apply, run}
use machmqtt_dashboard.Store.Users.Sessions.{bump_token_version, change_password}
use machmqtt_dashboard.Store.Users.{authenticate}
use machmqtt_dashboard.Auth.Session.{
  Auth, Claims, Jwt, Request, next, unauthorized, middleware, claims_for, refreshed, admin_only,
  session_issuer, session_options, issue_token,
}
use machmqtt_dashboard.Auth.Session.Gate.{middleware-issue_token}
use machmqtt_dashboard.Auth.Session.Revocation.{middleware-change_password}

program : Unit {0}
unfolding middleware admin_only issue_token find update to_user bump_token_version change_password
    apply run authenticate
program = tt

abbrev plain : Bcrypt
plain = record { generate = λ salt p. some p; compare = str_eq }

abbrev root : Row
root = local_row 1 "admin" "secret" role_admin 5

abbrev db : Db
db = record { rows = root ∷ []; next_id = 2; available = true }

db-IsValid : IsValid db
unfolding program
db-IsValid = record { distinct = (refl, tt); fresh = omega arith }

-- A library that knows one token, the one of the administrator issued at the second 10.
abbrev one_claim : Claims
one_claim = record {
  issuer = "machmqtt-dashboard";
  subject = "user:1";
  audience = "machmqtt-dashboard";
  token_id = "t1";
  issued_at = 10;
  not_before = 10;
  expires_at = 110;
  user_id = 1;
  username = "admin";
  role = "admin";
  auth_provider = "local";
  session_version = 0;
}

abbrev one_token : Jwt
one_token = record {
  parse = λ o secret now token. if str_eq token "tok" then some one_claim else none;
  sign = λ secret c. some "tok";
}

abbrev auth : Auth
auth = record {
  secret = "s";
  cookie_ttl = 100_000_000_000;
  jwt = one_token;
  password_path = λ id. "/api/users/1/password";
  subject_of = λ id. "user:1";
}

abbrev get_me : Request
get_me = record { method = "GET"; path = "/api/me"; cookie = some "tok" }

abbrev later_logins : List (ℕ × Op)
later_logins = (40, authenticates "admin" "secret") ∷ (41, bumps 1) ∷ []

middleware-change_password_example :
    middleware auth
      (run plain (change_password plain db 0 1 "secret" "fresh-secret").0 later_logins)
      50
      get_me
    ≡ unauthorized
unfolding program
middleware-change_password_example =
    middleware-change_password auth plain db
      (change_password plain db 0 1 "secret" "fresh-secret").0 0 1 "secret" "fresh-secret" root
      later_logins 50 get_me "tok" one_claim db-IsValid refl refl refl refl refl refl (omega arith)

-- A library that signs one token, and reads it back.
abbrev is_one_claim : Claims → Bool
is_one_claim c =
    str_eq c.issuer "machmqtt-dashboard"
    && str_eq c.subject "user:1"
    && str_eq c.audience "machmqtt-dashboard"
    && str_eq c.token_id "t1"
    && (c.issued_at == 10)
    && (c.not_before == 10)
    && (c.expires_at == 110)
    && (c.user_id == 1)
    && str_eq c.username "admin"
    && str_eq c.role "admin"
    && str_eq c.auth_provider "local"
    && (c.session_version == 0)

is_one_claim-one : (c : Claims) → is_one_claim c ≡ true → one_claim ≡ c
is_one_claim-one c h = ground (
  arith,
  eq_iff c.issuer "machmqtt-dashboard",
  eq_iff c.subject "user:1",
  eq_iff c.audience "machmqtt-dashboard",
  eq_iff c.token_id "t1",
  eq_iff c.username "admin",
  eq_iff c.role "admin",
  eq_iff c.auth_provider "local",
  ==_iff c.issued_at 10,
  ==_iff c.not_before 10,
  ==_iff c.expires_at 110,
  ==_iff c.user_id 1,
  ==_iff c.session_version 0,
)

abbrev careful : Auth
careful = record auth {
  jwt = record one_token { sign = λ secret c. if is_one_claim c then some "tok" else none };
}

careful-law :
    (c : Claims) (t : String)
    → careful.jwt.sign careful.secret c ≡ some t
    → c.issuer ≡ session_issuer
    → c.audience ≡ session_issuer
    → c.not_before * 1_000_000_000 ≤ 20_000_000_000
    → 20_000_000_000 < c.expires_at * 1_000_000_000
    → careful.jwt.parse session_options careful.secret 20_000_000_000 t ≡ some c
careful-law c t signed i a le lt = elim (Bool-cases (is_one_claim c)) [
  | inl e ↦
      let same : one_claim ≡ c = is_one_claim-one c e in ground (arith, e, same, eq_iff t "tok")
  | inr e ↦ absurd (ground (arith, e))
]

middleware-issue_token_example :
    middleware careful db 20_000_000_000 get_me
    ≡ next (refreshed (claims_for careful 10_000_000_000 "t1" (to_user root)) (to_user root))
unfolding program get_user
middleware-issue_token_example =
    middleware-issue_token careful db 10_000_000_000 20_000_000_000 get_me "t1" "tok" (to_user root)
      root careful-law refl refl (omega arith) (omega arith) refl refl refl refl
