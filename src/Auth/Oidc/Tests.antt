-- ===== src/Auth/Oidc/Tests.antt =====
-- Runs and instances of the theorems on internal/auth/oidc.go.
use machmqtt_dashboard.Prelude.{
  ◌≡◌, refl, [], ◌∷◌, true, some, none, lookup, insert, delete, str_eq, arith, if◌then◌else◌,
}
use machmqtt_dashboard.Store.Users.{Db, User, find, to_user, update}
use machmqtt_dashboard.Store.Users.External.{upsert_external_user, external_row}
use machmqtt_dashboard.Auth.Oidc.{
  Flow, Flows, Names, Config, Exchange, IdToken, text, items, refused, invalid_response,
  complete_login, store_flow,
}
use machmqtt_dashboard.Auth.Oidc.Table.{IsValid}
use machmqtt_dashboard.Auth.Oidc.Callback.{
  Proven, complete_login-Proven, complete_login-replayed, begin_all,
}

program : Unit {0}
unfolding complete_login store_flow lookup insert delete find to_user update upsert_external_user
    begin_all
program = tt

abbrev names : Names
names = record { normalize = λ s. s; first_attribute = λ s. none }

abbrev cfg : Config
cfg = record {
  admin_groups = "ops" ∷ [];
  viewer_groups = [];
  default_role = "";
  groups_claim = "groups";
  username_claim = "name";
  display_name_claim = "display";
  email_claim = "email";
}

abbrev id_token : IdToken
id_token = record {
  nonce = "n";
  subject = "s1";
  claims = some (("groups", items (none ∷ some "ops" ∷ [])) ∷ ("email", text "a@b") ∷ []);
}

-- A provider that knows one code.
abbrev provider : Exchange
provider = record {
  is_ready = true;
  exchange = λ code verifier. if str_eq code "code" then some "raw" else none;
  verify = λ raw. some id_token;
}

abbrev flow : Flow
flow = record { nonce = "n"; verifier = "v"; binding = "b"; created = 10 }

abbrev begun : Flows
begun = record { flows = ("st", flow) ∷ []; flow_evictions = 0; last_sweep = none }

abbrev db : Db
db = record { rows = []; next_id = 1; available = true }

abbrev ann : User
ann = to_user (external_row 1 "sso" "s1" "a@b" "" "a@b" "admin" 20)

complete_login-Proven_example : Proven names cfg "sso" provider begun 20 "st" "code" "b"
unfolding program
complete_login-Proven_example =
    complete_login-Proven names cfg "sso" provider begun db 20 "st" "code" "b" ann refl

complete_login-replayed_example :
    (complete_login names cfg "sso" provider
      (begin_all names cfg "sso" provider
        (complete_login names cfg "sso" provider begun db 20 "st" "code" "b").0
        ((21, "st2", flow) ∷ []))
      db
      22
      "st"
      "code"
      "b").2
    ≡ refused invalid_response
complete_login-replayed_example =
    complete_login-replayed names cfg "sso" provider begun db db 20 22 "st" "code" "code" "b" "b"
      ((21, "st2", flow) ∷ []) (refl, tt)

begun-IsValid : IsValid begun
unfolding program
begun-IsValid = record { distinct = (refl, tt); bounded = omega arith }
