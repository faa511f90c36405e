-- ===== src/Config/Sources.antt =====
-- internal/config/config.go: what holds of a directory's and an OIDC provider's settings that are accepted.
use machmqtt_dashboard.Prelude.{
  ℕ, ◌≤◌, ◌≡◌, ◌≢◌, ◌↔◌, ◌⊎◌, ◌&&◌, ◌||◌, not, ◌==◌, if◌then◌else◌, List, [], ◌∷◌, true, Bytes,
  bytes_eq_iff, codes, arith,
}
use machmqtt_dashboard.Environments.{is_empty}
use machmqtt_dashboard.Config.{LdapAuthConfig, OidcAuthConfig, Platform}
use machmqtt_dashboard.Config.Checks.{resolve_secret, or_default, mentions, is_ca_file}
use machmqtt_dashboard.Config.Providers.{
  is_default_role, has_role, is_issuer, is_ldap, is_ldaps, filter_of, with_claims, with_attributes,
  validate_oidc_provider, validate_ldap_provider,
}
use machmqtt_dashboard.Config.Post.{Post, returns, ◌⟫◌, require-Post, self-Post}
use machmqtt_dashboard.Config.Valid.{is_empty_iff, not-is_empty_iff}

-- Somebody can get a role; and the one that all get is a role.
abbrev pub IsReachable : List Bytes → List Bytes → Bytes → Type 0
IsReachable admins viewers role = (admins ≢ []) ⊎ ((viewers ≢ []) ⊎ (role ≢ []))

abbrev pub IsRole : Bytes → Type 0
IsRole role = (role ≡ []) ⊎ ((role ≡ codes "admin") ⊎ (role ≡ codes "viewer"))

is_default_role_iff : (role : Bytes) → (is_default_role role ≡ true) ↔ IsRole role
is_default_role_iff role = ground (
  arith,
  is_empty_iff role,
  bytes_eq_iff role (codes "admin"),
  bytes_eq_iff role (codes "viewer"),
)

-- A directory's settings: passwords are never sent in the clear unless that is asked for, the search binds
-- with a password or as nobody, and searches name the user.
pub record IsDirectory (h : Platform) (c : LdapAuthConfig) : Type 0 where
  pub encrypted :
      (is_ldaps h c.url ≡ true)
      ⊎ ((is_ldap h c.url ≡ true) × ((c.start_tls ≡ true) ⊎ (c.allow_plaintext ≡ true)))
  pub binds :
      ((c.bind_dn ≡ []) × (c.bind_password ≡ [])) ⊎ ((c.bind_dn ≢ []) × (c.bind_password ≢ []))
  pub base : c.user_base_dn ≢ []
  pub subject : c.subject_attribute ≢ []
  pub role : IsRole c.default_role
  pub reachable : IsReachable c.admin_groups c.viewer_groups c.default_role
  pub names_user : mentions (codes "{username}") c.user_filter ≡ true
  pub attribute : c.username_attribute ≢ []
  pub waits : 1 ≤ c.timeout

-- A provider's settings: an issuer over https, a client with a secret, and claims with names.
pub record IsClient (h : Platform) (c : OidcAuthConfig) : Type 0 where
  pub issuer : is_issuer (h.parse c.issuer_url) ≡ true
  pub client : (c.client_id ≢ []) × (c.client_secret ≢ [])
  pub role : IsRole c.default_role
  pub reachable : IsReachable c.admin_groups c.viewer_groups c.default_role
  pub claims : (c.username_claim ≢ []) × (c.groups_claim ≢ [])

has_role-IsReachable :
    (admins viewers : List Bytes) (role : Bytes)
    → has_role admins viewers role ≡ true
    → IsReachable admins viewers role
has_role-IsReachable admins viewers role e =
    ground (arith, e, is_empty_iff admins, is_empty_iff viewers, is_empty_iff role)

or_default-filled : (s d : Bytes) → d ≢ [] → or_default s d ≢ []
or_default-filled [] d n = n
or_default-filled (c ∷ cs) d n = ground arith

waits : (n : ℕ) → 1 ≤ (if n == 0 then 5_000_000_000 else n)
waits n = ground arith

module _ (h : Platform) where
  pub oidc_provider-IsClient : (c : OidcAuthConfig) → Post (IsClient h) (validate_oidc_provider h c)
  unfolding validate_oidc_provider
  oidc_provider-IsClient c = require-Post (is_issuer (h.parse c.issuer_url)) ⟫ λ _ i.
      self-Post (resolve_secret h c.client_secret c.client_secret_file) ⟫ λ secret _.
      require-Post (not (is_empty c.client_id || is_empty secret)) ⟫ λ _ s.
      require-Post (is_default_role c.default_role) ⟫ λ _ r.
      require-Post (has_role c.admin_groups c.viewer_groups c.default_role) ⟫ λ _ g.
      returns {a = with_claims (record c { client_secret = secret })} (record {
        issuer = i;
        client = ground (arith, s, is_empty_iff c.client_id, is_empty_iff secret);
        role = (is_default_role_iff c.default_role).0 r;
        reachable = has_role-IsReachable c.admin_groups c.viewer_groups c.default_role g;
        claims = (
          or_default-filled c.username_claim _ (ground arith),
          or_default-filled c.groups_claim _ (ground arith),
        );
      })

  pub ldap_provider-IsDirectory :
      (c : LdapAuthConfig) → Post (IsDirectory h) (validate_ldap_provider h c)
  unfolding validate_ldap_provider
  ldap_provider-IsDirectory c = require-Post (not (is_empty c.url)) ⟫ λ _ _.
      require-Post (is_ldap h c.url || is_ldaps h c.url) ⟫ λ _ k.
      require-Post (not (is_ldap h c.url && (not c.start_tls && not c.allow_plaintext)))
      ⟫ λ _ plain. require-Post (not (is_ldaps h c.url && c.start_tls)) ⟫ λ _ _.
          require-Post (is_empty c.ca_file || is_ca_file h c.ca_file) ⟫ λ _ _.
          self-Post (resolve_secret h c.bind_password c.bind_password_file) ⟫ λ password _.
          require-Post (if is_empty c.bind_dn then is_empty password else not (is_empty password))
          ⟫ λ _ b. require-Post (not (is_empty c.user_base_dn)) ⟫ λ _ base.
              require-Post (not (is_empty c.subject_attribute)) ⟫ λ _ subject.
              require-Post (not (c.nested_active_directory && is_empty c.group_base_dn)) ⟫ λ _ _.
              require-Post (is_default_role c.default_role) ⟫ λ _ r.
              require-Post (has_role c.admin_groups c.viewer_groups c.default_role) ⟫ λ _ g.
              require-Post (mentions (codes "{username}") (filter_of c)) ⟫ λ _ f.
              returns
                {a = with_attributes
                  (record c { bind_password = password; user_filter = filter_of c })}
                (record {
                  encrypted = ground (arith, k, plain);
                  binds = ground (arith, b, is_empty_iff c.bind_dn, is_empty_iff password);
                  base = (not-is_empty_iff c.user_base_dn).0 base;
                  subject = (not-is_empty_iff c.subject_attribute).0 subject;
                  role = (is_default_role_iff c.default_role).0 r;
                  reachable = has_role-IsReachable c.admin_groups c.viewer_groups c.default_role g;
                  names_user = f;
                  attribute = or_default-filled c.username_attribute _ (ground arith);
                  waits = waits c.timeout;
                })
