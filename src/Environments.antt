-- ===== src/Environments.antt =====
-- internal/config/config.go: the settings of one environment, which is a cluster of NATS servers with its
-- bridges, and what is read of them. Strings are bytes. `net.SplitHostPort` and the file system are
-- parameters; letters are those of ASCII.
pub mod Hosts
pub mod Certificates
pub mod Tests
use machmqtt_dashboard.Prelude.{
  ℕ, ◌+◌, ◌^◌, ◌&&◌, ◌||◌, not, leb, ltb, if◌then◌else◌, List, [], ◌∷◌, ◌++◌, map, Bool, true,
  false, Option, none, some, Bytes, codes, bytes_eq, ByteMap, get, put, length, cut_prefix, take,
  ◌==◌,
}

pub record Server : Type 0 where
  pub url : Bytes

-- `TLSConfig`
pub record TlsConfig : Type 0 where
  pub ca_file : Bytes
  pub ca_pem : Bytes
  pub insecure : Bool

-- `NATSConnConfig`
pub record NatsConnConfig : Type 0 where
  pub urls : List Bytes
  pub username : Bytes
  pub password : Bytes
  pub token : Bytes
  pub nkey : Bytes
  pub creds_file : Bytes
  pub subject_prefix : Bytes
  pub sys_collection : Bool
  pub tls : Option TlsConfig

-- `MQTTBridge`
pub record MqttBridge : Type 0 where
  pub name : Bytes
  pub url : Bytes
  pub bearer_token : Bytes

-- `MQTTDiscoveryConfig`
pub record MqttDiscoveryConfig : Type 0 where
  pub enabled : Option Bool
  pub admin_ports : List ℕ
  pub trusted_hosts : List Bytes

pub record Environment : Type 0 where
  pub name : Bytes
  pub servers : List Server
  pub mqtt_bridges : List MqttBridge
  pub mqtt_discovery : Option MqttDiscoveryConfig
  pub admin_token : Bytes
  pub tls : Option TlsConfig
  pub nats_conn : Option NatsConnConfig

abbrev pub is_empty {ℓ} : {A : Type ℓ} → List A → Bool
is_empty [] = true
is_empty (x ∷ xs) = false

abbrev pub subject_prefix_or_default : Option NatsConnConfig → Bytes
subject_prefix_or_default none = codes "$MQTT5"
subject_prefix_or_default (some n) =
    if is_empty n.subject_prefix then codes "$MQTT5" else n.subject_prefix

abbrev pub enabled_or_default : Option Bool → Bool
enabled_or_default none = true
enabled_or_default (some b) = b

abbrev pub discovery_enabled : Option MqttDiscoveryConfig → Bool
discovery_enabled none = true
discovery_enabled (some d) = enabled_or_default d.enabled

abbrev pub mqtt_discovery_enabled : Environment → Bool
mqtt_discovery_enabled e = discovery_enabled e.mqtt_discovery

abbrev pub discovery_ports : Option MqttDiscoveryConfig → List ℕ
discovery_ports none = 8080 ∷ []
discovery_ports (some d) = if is_empty d.admin_ports then 8080 ∷ [] else d.admin_ports

abbrev pub mqtt_discovery_ports : Environment → List ℕ
mqtt_discovery_ports e = discovery_ports e.mqtt_discovery

abbrev pub resolve_bridge_token : Environment → Bytes → Bytes
resolve_bridge_token e per_bridge = if is_empty per_bridge then e.admin_token else per_bridge

-- `strings.ToLower`
abbrev pub lower : Bytes → Bytes
lower = map (λ c. if leb b'A' c && leb c b'Z' then c + 32 else c)

-- The part behind the first `://`.
unfoldable pub after_scheme : Bytes → Option Bytes
unfolding cut_prefix
after_scheme [] = none
after_scheme (c ∷ cs) =
    let rest = after_scheme cs in
    elim (cut_prefix (codes "://") (c ∷ cs)) [ none ↦ rest | some s ↦ some s ]

abbrev pub or_whole : Bytes → Option Bytes → Bytes
or_whole s none = s
or_whole s (some t) = t

-- The part before the first `/` or `?`.
unfoldable pub before_path : Bytes → Bytes
before_path [] = []
before_path (c ∷ cs) = let rest = before_path cs in if c == b'/' || c == b'?' then [] else c ∷ rest

-- The first argument is the host that `net.SplitHostPort` gives.
unfoldable pub host_from_url : (Bytes → Option Bytes) → Bytes → Bytes
unfolding after_scheme before_path
host_from_url split_host_port raw =
    let s = before_path (or_whole raw (after_scheme raw)) in or_whole s (split_host_port s)

-- `add` in `DiscoveryTrustedHosts`, for each of a list.
unfoldable pub add_hosts : List Bytes → ByteMap Bool → ByteMap Bool
add_hosts [] hosts = hosts
add_hosts (h ∷ hs) hosts = add_hosts hs (if is_empty h then hosts else put (lower h) true hosts)

abbrev pub conn_urls : Option NatsConnConfig → List Bytes
conn_urls none = []
conn_urls (some n) = n.urls

abbrev pub configured_hosts : Option MqttDiscoveryConfig → List Bytes
configured_hosts none = []
configured_hosts (some d) = d.trusted_hosts

unfoldable pub discovery_trusted_hosts : (Bytes → Option Bytes) → Environment → ByteMap Bool
unfolding add_hosts host_from_url
discovery_trusted_hosts split_host_port e =
    let host = host_from_url split_host_port in
    add_hosts (configured_hosts e.mqtt_discovery) (
      add_hosts (map host (conn_urls e.nats_conn)) (
        add_hosts (map (λ b. host b.url) e.mqtt_bridges)
          (add_hosts (map (λ s. host s.url) e.servers) [])))

-- A file as `Stat` and reading find it; opening it may fail.
pub record File : Type 0 where
  pub is_regular : Bool
  pub contents : Bytes

abbrev pub max_cert_file_bytes : ℕ
max_cert_file_bytes = 2 ^ 20

-- What `io.ReadAll` and `io.LimitReader` give of an opened file, under a limit in bytes.
unfoldable pub read_limited : ℕ → Option File → Option Bytes
read_limited limit none = none
read_limited limit (some f) =
    let contents = take (limit + 1) f.contents in
    if not f.is_regular then none else if ltb limit (length contents) then none else some contents

-- `readCertFile`
abbrev pub read_cert_file : (Bytes → Option File) → Bytes → Option Bytes
read_cert_file disk path = read_limited max_cert_file_bytes (disk path)

abbrev pub with_pem : TlsConfig → Option Bytes → Option (Option TlsConfig)
with_pem t none = none
with_pem t (some pem) = some (some (record t { ca_pem = pem }))

-- `ResolveCAFile`: `none` is an error.
unfoldable pub resolve_ca_file :
    (Bytes → Option File) → Option TlsConfig → Option (Option TlsConfig)
unfolding read_limited
resolve_ca_file disk none = some none
resolve_ca_file disk (some t) =
    if is_empty t.ca_file || not (is_empty t.ca_pem)
    then some (some t)
    else with_pem t (read_cert_file disk t.ca_file)
