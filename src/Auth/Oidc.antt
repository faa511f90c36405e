-- ===== src/Auth/Oidc.antt =====
-- internal/auth/oidc.go: logins at an external identity provider, from the table of flows in progress to the
-- account of who comes back; and `groupMatch` of internal/auth/ldap.go.
-- The provider's side (`coreos/go-oidc`, `x/oauth2`) is the record `Exchange`.
pub mod Table
pub mod Callback
mod Tests
use machmqtt_dashboard.Prelude.{
  ℕ, ◌+◌, ◌-◌, List, [], ◌∷◌, ◌++◌, String, Bool, true, false, ◌&&◌, ◌||◌, not, Option, some, none,
  Map, lookup, insert, delete, length, filter, ltb, leb, ◌==◌, str_eq, if◌then◌else◌, add_u64,
}
use machmqtt_dashboard.Store.Users.{Db, User, Result, ok, err, role_admin, role_viewer}
use machmqtt_dashboard.Store.Users.External.{upsert_external_user}

pub record Flow : Type 0 where
  pub nonce : String
  pub verifier : String
  pub binding : String
  pub created : ℕ

-- The part of `OIDCProvider` behind `flowMu`.
pub record Flows : Type 0 where
  pub flows : Map Flow
  pub flow_evictions : ℕ
  pub last_sweep : Option ℕ

-- 10 minutes, and 1 minute, in nanoseconds.
abbrev pub oidc_flow_ttl : ℕ
oidc_flow_ttl = 600_000_000_000

abbrev pub sweep_interval : ℕ
sweep_interval = 60_000_000_000

abbrev pub oidc_max_flows : ℕ
oidc_max_flows = 10000

-- `created.Before(now - ttl)`.
abbrev pub is_expired_flow : ℕ → Flow → Bool
is_expired_flow now f = ltb (f.created + oidc_flow_ttl) now

abbrev pub sweep_due : Option ℕ → ℕ → Bool
sweep_due none now = true
sweep_due (some at) now = leb (at + sweep_interval) now

unfoldable pub sweep : Flows → ℕ → Flows
sweep p now =
    let kept = filter (λ e. not (is_expired_flow now e.1)) p.flows in
    record p {
      flows = kept;
      flow_evictions = add_u64 p.flow_evictions (length p.flows - length kept);
      last_sweep = some now;
    }

-- The loop that looks for the oldest flow: `""` is no key yet.
unfoldable pub oldest : String → ℕ → Map Flow → String
oldest key at [] = key
oldest key at ((k, f) ∷ rest) =
    if str_eq key "" || ltb f.created at then oldest k f.created rest else oldest key at rest

unfoldable pub evict_oldest : Flows → Flows
unfolding oldest
evict_oldest p = record p {
  flows = delete (oldest "" 0 p.flows) p.flows;
  flow_evictions = add_u64 p.flow_evictions 1;
}

unfoldable pub store_flow : Flows → ℕ → String → Flow → Flows
unfolding sweep evict_oldest
store_flow p now state flow =
    let due = sweep_due p.last_sweep now || leb oidc_max_flows (length p.flows) in
    let swept = if due then sweep p now else p in
    let room = if leb oidc_max_flows (length swept.flows) then evict_oldest swept else swept in
    record room { flows = insert state flow room.flows }

unfoldable pub consume_flow : Flows → ℕ → String → Flows × Option Flow
consume_flow p now state = (
  record p { flows = delete state p.flows },
  elim (lookup state p.flows) [
    | none ↦ none
    | some flow ↦ if is_expired_flow now flow then none else some flow
  ],
)

-- A value of the claims' JSON object: a list keeps `none` for an element that is no string, and a
-- `json.RawMessage` is what it unmarshals to.
pub data Value : Type 0 where
  text : String → Value
  texts : List String → Value
  items : List (Option String) → Value
  raw_message : List String → Value
  other : Value

unfoldable pub string_claim : Option Value → String
string_claim (some (text s)) = s
string_claim _ = ""

unfoldable pub strings_of : List (Option String) → List String
strings_of [] = []
strings_of (none ∷ rest) = strings_of rest
strings_of (some s ∷ rest) = s ∷ strings_of rest

unfoldable pub string_slice_claim : Option Value → List String
unfolding strings_of
string_slice_claim (some (text s)) = s ∷ []
string_slice_claim (some (texts values)) = values
string_slice_claim (some (items values)) = strings_of values
string_slice_claim (some (raw_message values)) = values
string_slice_claim _ = []

-- `strings.ToLower` after `strings.TrimSpace`, and the lower-case value of the first attribute of a
-- distinguished name, as `ldap.ParseDN` and `strings.ToLower` give it.
pub record Names : Type 0 where
  pub normalize : String → String
  pub first_attribute : String → Option String

unfoldable pub mem : String → List String → Bool
mem s [] = false
mem s (t ∷ ts) = str_eq t s || mem s ts

abbrev pub mem_option : Option String → List String → Bool
mem_option none wanted = false
mem_option (some value) wanted = mem value wanted

unfoldable pub normalized : Names → List String → List String
normalized n [] = []
normalized n (g ∷ gs) = n.normalize g ∷ normalized n gs

unfoldable pub group_match : Names → List String → List String → Bool
unfolding mem normalized
group_match n [] configured = false
group_match n (group ∷ rest) configured =
    let wanted = normalized n configured in
    (mem (n.normalize group) wanted || mem_option (n.first_attribute group) wanted)
    || group_match n rest configured

unfoldable pub role_for_external_groups :
    Names → List String → List String → List String → String → String
unfolding group_match
role_for_external_groups n actual admins viewers default_role =
    if group_match n actual admins
    then role_admin
    else if group_match n actual viewers
    then role_viewer
    else default_role

pub record Config : Type 0 where
  pub admin_groups : List String
  pub viewer_groups : List String
  pub default_role : String
  pub groups_claim : String
  pub username_claim : String
  pub display_name_claim : String
  pub email_claim : String

-- A verified ID token; `claims` is `none` where they do not decode.
pub record IdToken : Type 0 where
  pub nonce : String
  pub subject : String
  pub claims : Option (Map Value)

-- The provider: whether discovery has succeeded, the raw ID token for a code and a PKCE verifier
-- (`some ""` where the answer holds none), and the verification of a raw token.
pub record Exchange : Type 0 where
  pub is_ready : Bool
  pub exchange : String → String → Option String
  pub verify : String → Option IdToken

pub data LoginError : Type 0 where
  invalid_response forbidden provider_failed store_failed : LoginError

pub data LoginResult : Type 0 where
  signed_in : User → LoginResult
  refused : LoginError → LoginResult

abbrev pub of_result : Result User → LoginResult
of_result (ok u) = signed_in u
of_result (err e) = refused store_failed

abbrev pub or_if_empty : String → String → String
or_if_empty a b = if str_eq a "" then b else a

module _ (n : Names) (cfg : Config) (name : String) (ex : Exchange) where
  -- From the claims to the account.
  unfoldable pub admit_claims : Db → ℕ → String → Map Value → Db × LoginResult
  unfolding string_claim string_slice_claim role_for_external_groups
  admit_claims db now subject claims =
      let groups = string_slice_claim (lookup cfg.groups_claim claims) in
      let role =
        role_for_external_groups n groups cfg.admin_groups cfg.viewer_groups cfg.default_role in
      let email = string_claim (lookup cfg.email_claim claims) in
      let username =
        or_if_empty (or_if_empty (string_claim (lookup cfg.username_claim claims)) email) subject in
      if str_eq role ""
      then (db, refused forbidden)
      else let r =
          upsert_external_user db name subject username
            (string_claim (lookup cfg.display_name_claim claims)) email role now in
        (r.0, of_result r.1)

  unfoldable pub admit_token : Db → ℕ → Flow → IdToken → Db × LoginResult
  unfolding admit_claims
  admit_token db now flow id_token =
      if not (str_eq id_token.nonce flow.nonce)
      then (db, refused invalid_response)
      else elim id_token.claims [
        | none ↦ (db, refused provider_failed)
        | some claims ↦ admit_claims db now id_token.subject claims
      ]

  unfoldable pub redeem : Db → ℕ → Flow → String → Db × LoginResult
  unfolding admit_token
  redeem db now flow code =
      if not ex.is_ready
      then (db, refused provider_failed)
      else elim (ex.exchange code flow.verifier) [
        | none ↦ (db, refused provider_failed)
        | some raw ↦
            if str_eq raw "" then (db, refused invalid_response) else elim (ex.verify raw) [
              | none ↦ (db, refused provider_failed)
              | some id_token ↦ admit_token db now flow id_token
            ]
      ]

  unfoldable pub complete_flow : Db → ℕ → Option Flow → String → String → Db × LoginResult
  unfolding redeem
  complete_flow db now none code binding = (db, refused invalid_response)
  complete_flow db now (some flow) code binding =
      if (str_eq code "" || str_eq binding "") || not (str_eq binding flow.binding)
      then (db, refused invalid_response)
      else redeem db now flow code

  -- `CompleteLogin`, with the table of flows and the database as its state.
  unfoldable pub complete_login :
      Flows → Db → ℕ → String → String → String → Flows × Db × LoginResult
  unfolding consume_flow complete_flow
  complete_login p db now state code binding =
      let c = consume_flow p now state in
      let r = complete_flow db now c.1 code binding in (c.0, r.0, r.1)
