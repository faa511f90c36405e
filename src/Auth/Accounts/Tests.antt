-- ===== src/Auth/Accounts/Tests.antt =====
-- Requests on accounts, and an instance of the theorem on password changes: internal/auth/handlers.go.
use machmqtt_dashboard.Prelude.{◌≡◌, refl, [], ◌∷◌, true, some, none, str_eq}
use machmqtt_dashboard.Store.Users.{
  Db, Bcrypt, find, update, remove, to_user, local_row, role_admin,
}
use machmqtt_dashboard.Store.Users.Admins.{get_user, delete_user}
use machmqtt_dashboard.Store.Users.Sessions.{change_password}
use machmqtt_dashboard.Auth.Session.{Auth, Claims, issue_token}
use machmqtt_dashboard.Auth.Accounts.{respond, handle_change_password, handle_delete_user, rotate}

program : Unit {0}
unfolding handle_change_password handle_delete_user rotate change_password delete_user get_user find
    update remove to_user issue_token
program = tt

abbrev plain : Bcrypt
plain = record { generate = λ salt p. some p; compare = str_eq }

abbrev auth : Auth
auth = record {
  secret = "s";
  cookie_ttl = 100;
  jwt = record { parse = λ o secret now token. none; sign = λ secret c. some "tok" };
  password_path = λ id. "/api/users/1/password";
  subject_of = λ id. "user:1";
}

abbrev db : Db
db = record { rows = local_row 1 "admin" "secret" role_admin 5 ∷ []; next_id = 2; available = true }

abbrev me : Claims
me = record {
  issuer = "machmqtt-dashboard";
  subject = "user:1";
  audience = "machmqtt-dashboard";
  token_id = "t1";
  issued_at = 10;
  not_before = 10;
  expires_at = 110;
  user_id = 1;
  username = "admin";
  role = "admin";
  auth_provider = "local";
  session_version = 0;
}

cannot_delete_myself :
    (handle_delete_user db (some 1) (some me)).1
    ≡ respond 400 "{\"error\":\"cannot delete your own account\"}"
unfolding program
cannot_delete_myself = refl
