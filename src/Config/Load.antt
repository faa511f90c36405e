-- ===== src/Config/Load.antt =====
-- internal/config/config.go: `Load`.
use machmqtt_dashboard.Prelude.{
  ℕ, ◌*◌, ◌&&◌, ◌||◌, not, leb, ◌==◌, if◌then◌else◌, List, [], ◌∷◌, Bool, true, false, Option, none,
  some, Bytes, codes, length, ◌>>=◌,
}
use machmqtt_dashboard.Environments.{is_empty}
use machmqtt_dashboard.Config.{Config, Platform}
use machmqtt_dashboard.Config.Checks.{require, ◌>>◌, resolve_secret}
use machmqtt_dashboard.Config.Providers.{validate_providers}
use machmqtt_dashboard.Config.Clusters.{validate_environments, validate_each}

abbrev pub second : ℕ
second = 1_000_000_000

abbrev pub hour : ℕ
hour = 3600 * second

abbrev pub default_config : Config
default_config = record {
  listen = codes ":8080";
  poll_interval = 30 * second;
  session_secret = [];
  secure_cookies = false;
  data_dir = codes "./data";
  metrics_retention = 24 * hour;
  trust_proxy_headers = false;
  authentication = record {
    public_url = [];
    trusted_proxy_cidrs = [];
    local = record {
      enabled = true;
      break_glass_login = true;
      bootstrap_password = [];
      bootstrap_password_file = [];
    };
    providers = [];
  };
  metrics_token = [];
  metrics_token_file = [];
  environments = [];
}

-- One document and no more.
abbrev pub alone : Config × Bool → Option Config
alone (cfg, at_end) = if at_end then some cfg else none

-- The retention and the secret that are in force.
abbrev pub overridden : Platform → Config → Config
overridden h cfg = record cfg {
  metrics_retention = if cfg.metrics_retention == 0 then 24 * hour else cfg.metrics_retention;
  session_secret = if is_empty h.session_secret then cfg.session_secret else h.session_secret;
}

abbrev pub has_port : Option Bytes → Bool
has_port none = false
has_port (some port) = not (is_empty port)

unfoldable pub are_cidrs : Platform → List Bytes → Bool
are_cidrs h [] = true
are_cidrs h (c ∷ cs) = h.is_cidr c && are_cidrs h cs

-- A secret that is set has at least so many bytes.
abbrev pub is_long : ℕ → Bytes → Bool
is_long n secret = is_empty secret || leb n (length secret)

-- The checks of `Load` after the overrides.
unfoldable pub validate_config : Platform → Config → Option Config
unfolding require resolve_secret are_cidrs validate_providers validate_each
validate_config h cfg = do
  require (not (is_empty cfg.session_secret))
  require (leb 32 (length cfg.session_secret))
  require (leb second cfg.poll_interval && leb cfg.poll_interval (600 * second))
  require (leb hour cfg.metrics_retention && leb cfg.metrics_retention (8760 * hour))
  require (has_port (h.split_port cfg.listen))
  metrics_token ← resolve_secret h cfg.metrics_token cfg.metrics_token_file
  require (is_long 16 metrics_token)
  require cfg.authentication.local.enabled
  require cfg.authentication.local.break_glass_login
  password ←
      resolve_secret h cfg.authentication.local.bootstrap_password
        cfg.authentication.local.bootstrap_password_file
  require (is_long 12 password)
  require (are_cidrs h cfg.authentication.trusted_proxy_cidrs)
  (public_url, providers) ←
      validate_providers h cfg.secure_cookies [] cfg.authentication.public_url
        cfg.authentication.providers
  environments ← validate_environments h cfg.environments
  some (record cfg {
    metrics_token = metrics_token;
    authentication = record cfg.authentication {
      public_url = public_url;
      local = record cfg.authentication.local { bootstrap_password = password };
      providers = providers;
    };
    environments = environments;
  })

-- `Load` of the file at a path.
unfoldable pub load : Platform → Bytes → Option Config
unfolding validate_config
load h path = do
  data' ← h.read_file path
  decoded ← h.decode default_config data'
  cfg ← alone decoded
  validate_config h (overridden h cfg)
