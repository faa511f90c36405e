-- ===== src/Config/Tests.antt =====
-- Runs and instances of internal/config/config.go, on a file that is decoded to a few settings.
use machmqtt_dashboard.Prelude.{
  ◌≡◌, ◌↔◌, refl, [], ◌∷◌, true, false, Option, none, some, Bytes, codes, is_some, cut_prefix, All,
}
use machmqtt_dashboard.Environments.{Environment, resolve_ca_file}
use machmqtt_dashboard.Urls.{Url}
use machmqtt_dashboard.Store.Clusters.Listing.{seed_clusters}
use machmqtt_dashboard.Store.Clusters.Tests.{machine, draw, empty}
use machmqtt_dashboard.Config.{LdapAuthConfig, Config, Platform}
use machmqtt_dashboard.Config.Checks.{
  require, resolve_secret, trim_end, mentions, are_name_bytes, is_seen, is_http_url,
}
use machmqtt_dashboard.Config.Providers.{
  validate_ldap_provider, validate_oidc_provider, normalize_domains, validate_providers,
}
use machmqtt_dashboard.Config.Clusters.{
  validate_servers, validate_bridges, are_ports, validate_tls, validate_environment, validate_each,
  validate_environments,
}
use machmqtt_dashboard.Config.Load.{default_config, are_cidrs, validate_config, load}
use machmqtt_dashboard.Config.Valid.{AreValid}
use machmqtt_dashboard.Config.Decides.{validate_environments-accepts}
use machmqtt_dashboard.Config.Startable.{IsBlameless, IsTaken, load-startable}

program : Unit {0}
unfolding require resolve_secret trim_end mentions are_name_bytes is_seen is_http_url cut_prefix
    resolve_ca_file validate_ldap_provider validate_oidc_provider normalize_domains
    validate_providers validate_servers validate_bridges are_ports validate_tls validate_environment
    validate_each are_cidrs validate_config load
program = tt

-- A URL of a scheme and a host.
abbrev of_scheme : Bytes → Option Bytes → Option Url → Option Url
of_scheme scheme none other = other
of_scheme scheme (some host) other = some (record {
  scheme = scheme;
  user = none;
  host = host;
  path = [];
  raw_query = [];
  fragment = [];
  rest = [];
})

abbrev parse_url : Bytes → Option Url
parse_url raw =
    of_scheme (codes "http") (cut_prefix (codes "http://") raw)
      (of_scheme (codes "ldaps") (cut_prefix (codes "ldaps://") raw) none)

abbrev one_server : Environment
one_server = record {
  name = codes "shop";
  servers = record { url = codes "http://a" } ∷ record { url = codes "http://b" } ∷ [];
  mqtt_bridges = record { name = codes "m"; url = codes "http://m"; bearer_token = [] } ∷ [];
  mqtt_discovery = none;
  admin_token = [];
  tls = none;
  nats_conn = none;
}

abbrev directory : LdapAuthConfig
directory = record {
  url = codes "ldaps://d";
  start_tls = false;
  allow_plaintext = false;
  ca_file = [];
  insecure_skip_verify = false;
  bind_dn = codes "cn=d";
  bind_password = [];
  bind_password_file = codes "/secret";
  user_base_dn = codes "dc=d";
  user_filter = [];
  username_attribute = [];
  subject_attribute = codes "uid";
  display_name_attribute = [];
  email_attribute = [];
  group_attribute = [];
  group_base_dn = [];
  nested_active_directory = false;
  admin_groups = [];
  viewer_groups = [];
  default_role = codes "viewer";
  timeout = 0;
}

abbrev settings : Config
settings = record default_config {
  session_secret = codes "0123456789abcdef0123456789abcdef";
  authentication = record default_config.authentication {
    providers =
        record {
          name = codes "corp";
          kind = codes "ldap";
          domains = codes "example.org" ∷ [];
          ldap = some directory;
          oidc = none;
        }
        ∷ [];
  };
  environments = one_server ∷ [];
}

-- Every file has the same line, and is decoded to these settings.
abbrev host : Platform
host = record {
  read_file = λ path. some (codes "hunter2\r\n");
  disk = λ path. none;
  session_secret = [];
  decode = λ c text. some (settings, true);
  parse = parse_url;
  port = λ u. [];
  lookup_port = λ port. none;
  split_port = λ listen. some (codes "8080");
  is_cidr = λ c. true;
  is_usable = λ pem. true;
  normalize = λ d. d;
}

-- The password comes from its file, without the line's end, and what is blank gets its default.
abbrev loaded : Config
loaded = record settings {
  authentication = record settings.authentication {
    providers =
        record {
          name = codes "corp";
          kind = codes "ldap";
          domains = codes "example.org" ∷ [];
          ldap = some (record directory {
            bind_password = codes "hunter2";
            user_filter = codes "(|(sAMAccountName={username})(userPrincipalName={username}))";
            username_attribute = codes "sAMAccountName";
            display_name_attribute = codes "displayName";
            email_attribute = codes "mail";
            group_attribute = codes "memberOf";
            timeout = 5_000_000_000;
          });
          oidc = none;
        }
        ∷ [];
  };
}

loads : load host (codes "config.yaml") ≡ some loaded
unfolding program
loads = refl

two_of_a_name : validate_environments host (one_server ∷ one_server ∷ []) ≡ none
unfolding program
two_of_a_name = refl

validate_environments-accepts_example :
    (is_some (validate_environments host (one_server ∷ [])) ≡ true)
    ↔ AreValid host (one_server ∷ [])
validate_environments-accepts_example = validate_environments-accepts host (one_server ∷ [])

load-startable_example :
    IsBlameless (seed_clusters machine draw loaded.environments empty).2
    × All (IsTaken host.is_usable) loaded.environments
load-startable_example = load-startable host (codes "config.yaml") loaded machine draw empty loads
