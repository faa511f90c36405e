-- ===== src/Config.antt =====
-- internal/config/config.go: the settings file. Strings are bytes; a duration is in nanoseconds, and 0 stands for
-- a negative one, which the code treats alike. The text of an error is left out: an error is `none`.
pub mod Checks
pub mod Post
pub mod Valid
pub mod Providers
pub mod Load
pub mod Clusters
pub mod Loops
pub mod Decides
pub mod Sources
pub mod Accepted
pub mod Loaded
pub mod Startable
mod Tests
use machmqtt_dashboard.Prelude.{ℕ, List, Bool, Option, Bytes}
use machmqtt_dashboard.Environments.{Environment, File}
use machmqtt_dashboard.Urls.{Url}

pub record LdapAuthConfig : Type 0 where
  pub url : Bytes
  pub start_tls : Bool
  pub allow_plaintext : Bool
  pub ca_file : Bytes
  pub insecure_skip_verify : Bool
  pub bind_dn : Bytes
  pub bind_password : Bytes
  pub bind_password_file : Bytes
  pub user_base_dn : Bytes
  pub user_filter : Bytes
  pub username_attribute : Bytes
  pub subject_attribute : Bytes
  pub display_name_attribute : Bytes
  pub email_attribute : Bytes
  pub group_attribute : Bytes
  pub group_base_dn : Bytes
  pub nested_active_directory : Bool
  pub admin_groups : List Bytes
  pub viewer_groups : List Bytes
  pub default_role : Bytes
  pub timeout : ℕ

pub record OidcAuthConfig : Type 0 where
  pub issuer_url : Bytes
  pub client_id : Bytes
  pub client_secret : Bytes
  pub client_secret_file : Bytes
  pub scopes : List Bytes
  pub username_claim : Bytes
  pub display_name_claim : Bytes
  pub email_claim : Bytes
  pub groups_claim : Bytes
  pub admin_groups : List Bytes
  pub viewer_groups : List Bytes
  pub default_role : Bytes

-- With the domains of `AuthMatchConfig`.
pub record AuthProviderConfig : Type 0 where
  pub name : Bytes
  pub kind : Bytes
  pub domains : List Bytes
  pub ldap : Option LdapAuthConfig
  pub oidc : Option OidcAuthConfig

pub record LocalAuthConfig : Type 0 where
  pub enabled : Bool
  pub break_glass_login : Bool
  pub bootstrap_password : Bytes
  pub bootstrap_password_file : Bytes

pub record AuthenticationConfig : Type 0 where
  pub public_url : Bytes
  pub trusted_proxy_cidrs : List Bytes
  pub local : LocalAuthConfig
  pub providers : List AuthProviderConfig

pub record Config : Type 0 where
  pub listen : Bytes
  pub poll_interval : ℕ
  pub session_secret : Bytes
  pub secure_cookies : Bool
  pub data_dir : Bytes
  pub metrics_retention : ℕ
  pub trust_proxy_headers : Bool
  pub authentication : AuthenticationConfig
  pub metrics_token : Bytes
  pub metrics_token_file : Bytes
  pub environments : List Environment

-- What the host and Go's libraries give.
pub record Platform : Type 0 where
  -- `os.ReadFile`, and an opened file for `readCertFile`
  pub read_file : Bytes → Option Bytes
  pub disk : Bytes → Option File
  -- `SESSION_SECRET`, blank where it is not set
  pub session_secret : Bytes
  -- the first YAML document over the given settings, and whether the next `Decode` gives `io.EOF`
  pub decode : Config → Bytes → Option (Config × Bool)
  -- `url.Parse` and `URL.Port`
  pub parse : Bytes → Option Url
  pub port : Url → Bytes
  -- `net.LookupPort`, the port of `net.SplitHostPort`, and whether `net.ParseCIDR` gives no error
  pub lookup_port : Bytes → Option ℕ
  pub split_port : Bytes → Option Bytes
  pub is_cidr : Bytes → Bool
  -- whether `AppendCertsFromPEM` takes a certificate
  pub is_usable : Bytes → Bool
  -- `strings.ToLower` after `strings.TrimSpace`
  pub normalize : Bytes → Bytes
