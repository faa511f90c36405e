-- ===== src/Config/Providers.antt =====
-- internal/config/config.go: `validateOIDCProvider`, `validateLDAPProvider` and the loop over the providers, which
-- check a provider's settings and fill in those that are blank.
use machmqtt_dashboard.Prelude.{
  ◌&&◌, ◌||◌, not, ◌==◌, if◌then◌else◌, List, [], ◌∷◌, Bool, false, Option, none, some, Bytes,
  bytes_eq, codes, is_some, ◌>>=◌,
}
use machmqtt_dashboard.Environments.{is_empty}
use machmqtt_dashboard.Urls.{Url}
use machmqtt_dashboard.Config.{LdapAuthConfig, OidcAuthConfig, AuthProviderConfig, Platform}
use machmqtt_dashboard.Config.Checks.{
  require, ◌>>◌, trim_end, mentions, resolve_secret, is_provider_name, is_seen, or_default,
  is_ca_file,
}

abbrev pub is_default_role : Bytes → Bool
is_default_role role =
    is_empty role || (bytes_eq role (codes "admin") || bytes_eq role (codes "viewer"))

-- Groups or a default role are configured.
abbrev pub has_role : List Bytes → List Bytes → Bytes → Bool
has_role admins viewers role = not (is_empty admins && (is_empty viewers && is_empty role))

abbrev pub is_issuer : Option Url → Bool
is_issuer none = false
is_issuer (some u) =
    bytes_eq u.scheme (codes "https")
    && (not (is_empty u.host)
        && (not (is_some u.user) && (is_empty u.raw_query && is_empty u.fragment)))

abbrev pub with_claims : OidcAuthConfig → OidcAuthConfig
with_claims cfg = record cfg {
  username_claim = or_default cfg.username_claim (codes "preferred_username");
  display_name_claim = or_default cfg.display_name_claim (codes "name");
  email_claim = or_default cfg.email_claim (codes "email");
  groups_claim = or_default cfg.groups_claim (codes "groups");
}

-- `validateOIDCProvider`
unfoldable pub validate_oidc_provider : Platform → OidcAuthConfig → Option OidcAuthConfig
unfolding require resolve_secret
validate_oidc_provider h cfg = do
  require (is_issuer (h.parse cfg.issuer_url))
  secret ← resolve_secret h cfg.client_secret cfg.client_secret_file
  require (not (is_empty cfg.client_id || is_empty secret))
  require (is_default_role cfg.default_role)
  require (has_role cfg.admin_groups cfg.viewer_groups cfg.default_role)
  some (with_claims (record cfg { client_secret = secret }))

abbrev pub is_scheme : Bytes → Option Url → Bool
is_scheme scheme none = false
is_scheme scheme (some u) = not (is_empty u.host) && bytes_eq u.scheme scheme

abbrev pub is_ldap : Platform → Bytes → Bool
is_ldap h url = is_scheme (codes "ldap") (h.parse url)

abbrev pub is_ldaps : Platform → Bytes → Bool
is_ldaps h url = is_scheme (codes "ldaps") (h.parse url)

abbrev pub with_attributes : LdapAuthConfig → LdapAuthConfig
with_attributes cfg = record cfg {
  username_attribute = or_default cfg.username_attribute (codes "sAMAccountName");
  display_name_attribute = or_default cfg.display_name_attribute (codes "displayName");
  email_attribute = or_default cfg.email_attribute (codes "mail");
  group_attribute = or_default cfg.group_attribute (codes "memberOf");
  timeout = if cfg.timeout == 0 then 5_000_000_000 else cfg.timeout;
}

abbrev pub default_user_filter : Bytes
default_user_filter = codes "(|(sAMAccountName={username})(userPrincipalName={username}))"

abbrev pub filter_of : LdapAuthConfig → Bytes
filter_of cfg = or_default cfg.user_filter default_user_filter

-- `validateLDAPProvider`
unfoldable pub validate_ldap_provider : Platform → LdapAuthConfig → Option LdapAuthConfig
unfolding require resolve_secret mentions
validate_ldap_provider h cfg = do
  require (not (is_empty cfg.url))
  require (is_ldap h cfg.url || is_ldaps h cfg.url)
  require (not (is_ldap h cfg.url && (not cfg.start_tls && not cfg.allow_plaintext)))
  require (not (is_ldaps h cfg.url && cfg.start_tls))
  require (is_empty cfg.ca_file || is_ca_file h cfg.ca_file)
  password ← resolve_secret h cfg.bind_password cfg.bind_password_file
  require (if is_empty cfg.bind_dn then is_empty password else not (is_empty password))
  require (not (is_empty cfg.user_base_dn))
  require (not (is_empty cfg.subject_attribute))
  require (not (cfg.nested_active_directory && is_empty cfg.group_base_dn))
  require (is_default_role cfg.default_role)
  require (has_role cfg.admin_groups cfg.viewer_groups cfg.default_role)
  require (mentions (codes "{username}") (filter_of cfg))
  some (with_attributes (record cfg { bind_password = password; user_filter = filter_of cfg }))

-- The domains of a provider, trimmed and in lower case.
unfoldable pub normalize_domains : Platform → List Bytes → Option (List Bytes)
unfolding require
normalize_domains h [] = some []
normalize_domains h (d ∷ ds) = do
  require (not (is_empty (h.normalize d)))
  rest ← normalize_domains h ds
  some (h.normalize d ∷ rest)

abbrev pub is_public : Option Url → Bool
is_public none = false
is_public (some u) =
    bytes_eq u.scheme (codes "https")
    && (not (is_empty u.host)
        && ((is_empty u.path || bytes_eq u.path (codes "/"))
            && (is_empty u.raw_query && is_empty u.fragment)))

abbrev pub trim_slashes : Bytes → Bytes
trim_slashes = trim_end (λ c. c == b'/')

-- The two cases of the switch on the type, with the public URL as it is afterwards.
abbrev pub validate_ldap :
    Platform → Bytes → AuthProviderConfig → Option (Bytes × AuthProviderConfig)
validate_ldap h public_url p = do
  require (not (is_some p.oidc))
  cfg ← p.ldap
  valid ← validate_ldap_provider h cfg
  some (public_url, record p { ldap = some valid })

abbrev pub validate_oidc :
    Platform → Bool → Bytes → AuthProviderConfig → Option (Bytes × AuthProviderConfig)
validate_oidc h secure_cookies public_url p = do
  require (not (is_some p.ldap))
  cfg ← p.oidc
  require (not (is_empty public_url))
  require secure_cookies
  require (is_public (h.parse public_url))
  valid ← validate_oidc_provider h cfg
  some (trim_slashes public_url, record p { oidc = some valid })

abbrev pub validate_kind :
    Platform → Bool → Bytes → AuthProviderConfig → Option (Bytes × AuthProviderConfig)
validate_kind h secure_cookies public_url p =
    if bytes_eq p.kind (codes "ldap")
    then validate_ldap h public_url p
    else if bytes_eq p.kind (codes "oidc")
    then validate_oidc h secure_cookies public_url p
    else none

-- The loop of `Load` over the providers, with the names seen before.
unfoldable pub validate_providers :
    Platform
    → Bool
    → List Bytes
    → Bytes
    → List AuthProviderConfig
    → Option (Bytes × List AuthProviderConfig)
unfolding validate_ldap_provider validate_oidc_provider normalize_domains is_seen require trim_end
validate_providers h secure_cookies names public_url [] = some (public_url, [])
validate_providers h secure_cookies names public_url (p ∷ ps) = do
  require (not (is_empty p.name))
  require (is_provider_name p.name)
  require (not (is_seen p.name names))
  domains ← normalize_domains h p.domains
  (url, valid) ← validate_kind h secure_cookies public_url (record p { domains = domains })
  (final, rest) ← validate_providers h secure_cookies (p.name ∷ names) url ps
  some (final, valid ∷ rest)
