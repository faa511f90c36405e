-- ===== src/Auth/Login/Tests.antt =====
-- Logins, and instances of the theorems on internal/auth/handlers.go and providers.go.
use machmqtt_dashboard.Prelude.{
  ◌≡◌, refl, [], ◌∷◌, String, true, false, some, none, str_eq, lookup, insert,
}
use machmqtt_dashboard.Store.Users.{
  Db, Bcrypt, authenticate, find, update, to_user, local_row, role_admin, logged_in, check_password,
}
use machmqtt_dashboard.Auth.RateLimit.{new, allow, prune_front}
use machmqtt_dashboard.Auth.Session.{Auth, issue_token}
use machmqtt_dashboard.Auth.Login.{
  World, Provider, accepted, answers, no_match, rejected, failed, judge, authenticate_password,
  authenticate_local, record_auth_event,
}
use machmqtt_dashboard.Auth.Login.Chain.{passes}
use machmqtt_dashboard.Auth.Login.Handler.{
  Server, LoginRequest, respond, handle_password_login, login_body, answer_login, finish_login,
  handle_password_login-session,
}

program : Unit {0}
unfolding handle_password_login login_body answer_login finish_login authenticate_local authenticate
    check_password find update to_user allow prune_front lookup insert issue_token record_auth_event
    passes judge authenticate_password
program = tt

abbrev plain : Bcrypt
plain = record { generate = λ salt p. some p; compare = str_eq }

abbrev auth : Auth
auth = record {
  secret = "s";
  cookie_ttl = 100;
  jwt = record { parse = λ o secret now token. none; sign = λ secret c. some "tok" };
  password_path = λ id. "/api/users/1/password";
  subject_of = λ id. "user:1";
}

abbrev db : Db
db = record { rows = local_row 1 "admin" "secret" role_admin 5 ∷ []; next_id = 2; available = true }

abbrev world : World
world = record { db = db; auth_events = [] }

-- A directory that knows no one, one that knows everyone's password to be wrong, and one that is down.
abbrev empty_directory : Provider
empty_directory = record {
  name = "empty";
  authenticate_at = λ d now u p. (d, answers no_match none);
}

abbrev strict_directory : Provider
strict_directory = record {
  name = "strict";
  authenticate_at = λ d now u p. (d, answers rejected none);
}

abbrev dead_directory : Provider
dead_directory = record { name = "dead"; authenticate_at = λ d now u p. (d, failed) }

abbrev server : Server
server = record { login_limiter = new 2 100; local_login_limiter = new 2 100; world = world }

abbrev good : LoginRequest
good = record { ip = "a"; body = some ("admin", "secret") }

handle_password_login-session_example :
    ((allow server.local_login_limiter "a" 9).1 ≡ true)
    × (username : String) × (password : String) × (good.body ≡ some (username, password))
    × ((authenticate_local plain world 9 username password).1
        ≡ accepted (logged_in (local_row 1 "admin" "secret" role_admin 5)))
    × (issue_token auth 9 (some "t") (logged_in (local_row 1 "admin" "secret" role_admin 5))
        ≡ some "tok")
unfolding program
handle_password_login-session_example =
    handle_password_login-session "/" plain auth (strict_directory ∷ []) server 9 (some "t") good
      true "tok" (logged_in (local_row 1 "admin" "secret" role_admin 5)) refl

abbrev tired : Server
tired = record server { login_limiter = record (new 2 100) { attempts = ("a", 7 ∷ 8 ∷ []) ∷ [] } }

-- A refused address is told so, with the right password too.
tired_is_refused :
    (handle_password_login "/" plain auth [] tired 9 (some "t") good false).1
    ≡ respond 429 "{\"error\":\"too many login attempts, try again later\"}"
unfolding program
tired_is_refused = refl
