-- ===== src/Api/Clusters.antt =====
-- internal/api/handlers_clusters.go: the settings of clusters over HTTP. A request is its decoded body, or
-- nothing where that cannot be decoded. A pointer that the code writes through is a record that is given back.
pub mod Handlers
pub mod Secrecy
pub mod Paths
pub mod Edit
pub mod Atomic
pub mod Tests
use machmqtt_dashboard.Prelude.{
  ℕ, ◌&&◌, ◌||◌, not, if◌then◌else◌, String, List, [], ◌∷◌, map, Bool, true, false, Option, none,
  some, ◌>>=◌, Bytes, bytes_eq, ByteMap, get, put,
}
use machmqtt_dashboard.Urls.{Url, UrlLibrary}
use machmqtt_dashboard.Environments.{
  Server, MqttBridge, MqttDiscoveryConfig, TlsConfig, NatsConnConfig, is_empty,
}
use machmqtt_dashboard.Store.Clusters.{Cluster}

-- `clusterRequest`
pub record ClusterRequest : Type 0 where
  pub name : Bytes
  pub servers : List Server
  pub mqtt_bridges : List MqttBridge
  pub mqtt_discovery : Option MqttDiscoveryConfig
  pub tls : Option TlsConfig
  pub admin_token : Bytes
  pub nats_conn : Option NatsConnConfig

-- `natsConnView`
pub record NatsConnView : Type 0 where
  pub urls : List Bytes
  pub username : Bytes
  pub subject_prefix : Bytes
  pub sys_collection : Bool
  pub tls : Option TlsConfig
  pub has_password : Bool
  pub has_token : Bool
  pub has_nkey : Bool
  pub has_creds : Bool

-- `mqttBridgeView`
pub record MqttBridgeView : Type 0 where
  pub name : Bytes
  pub url : Bytes
  pub has_bearer_token : Bool

-- `clusterView`; no time is Go's zero time.
pub record ClusterView : Type 0 where
  pub id : String
  pub name : Bytes
  pub servers : List Server
  pub mqtt_bridges : List MqttBridgeView
  pub mqtt_discovery : Option MqttDiscoveryConfig
  pub tls : Option TlsConfig
  pub has_admin_token : Bool
  pub nats_conn : Option NatsConnView
  pub created_at : Option ℕ

module _ (net : UrlLibrary) where
  abbrev pub without_user : Bytes → Url → Option Bytes → Bytes
  without_user raw u none = raw
  without_user raw u (some creds) = net.print (record u { user = none })

  abbrev pub redact_parsed : Bytes → Option Url → Bytes
  redact_parsed raw none = raw
  redact_parsed raw (some u) = without_user raw u u.user

  -- `redactURLCreds`
  unfoldable pub redact_url_creds : Bytes → Bytes
  redact_url_creds raw = redact_parsed raw (net.parse raw)

  -- The userinfo of a stored URL, if it is for that host.
  abbrev pub creds_for : Bytes → Option Url → Option Bytes
  creds_for host none = none
  creds_for host (some p) = if bytes_eq p.host host then p.user else none

  abbrev pub or_grafted : Bytes → Url → Option Bytes → Bytes
  or_grafted rest u none = rest
  or_grafted rest u (some creds) = net.print (record u { user = some creds })

  -- The loop of `restoreURLCreds` over the stored URLs.
  unfoldable pub graft : Bytes → Url → List Bytes → Bytes
  graft incoming u [] = incoming
  graft incoming u (p ∷ ps) = or_grafted (graft incoming u ps) u (creds_for u.host (net.parse p))

  abbrev pub unless_fresh : Bytes → Url → List Bytes → Option Bytes → Bytes
  unless_fresh incoming u prev none = graft incoming u prev
  unless_fresh incoming u prev (some creds) = incoming

  abbrev pub restore_parsed : Bytes → List Bytes → Option Url → Bytes
  restore_parsed incoming prev none = incoming
  restore_parsed incoming prev (some u) = unless_fresh incoming u prev u.user

  -- `restoreURLCreds`
  unfoldable pub restore_url_creds : Bytes → List Bytes → Bytes
  restore_url_creds incoming prev = restore_parsed incoming prev (net.parse incoming)

  abbrev pub server_view : Server → Server
  server_view s = record { url = redact_url_creds s.url }

  abbrev pub bridge_view : MqttBridge → MqttBridgeView
  bridge_view b = record {
    name = b.name;
    url = redact_url_creds b.url;
    has_bearer_token = not (is_empty b.bearer_token);
  }

  abbrev pub conn_view : Option NatsConnConfig → Option NatsConnView
  conn_view none = none
  conn_view (some n) = some (record {
    urls = map redact_url_creds n.urls;
    username = n.username;
    subject_prefix = n.subject_prefix;
    sys_collection = n.sys_collection;
    tls = n.tls;
    has_password = not (is_empty n.password);
    has_token = not (is_empty n.token);
    has_nkey = not (is_empty n.nkey);
    has_creds = not (is_empty n.creds_file);
  })

  -- `toClusterView`
  unfoldable pub to_cluster_view : Cluster → ClusterView
  to_cluster_view c = record {
    id = c.id;
    name = c.name;
    servers = map server_view c.servers;
    mqtt_bridges = map bridge_view c.mqtt_bridges;
    mqtt_discovery = c.mqtt_discovery;
    tls = c.tls;
    has_admin_token = not (is_empty c.admin_token);
    nats_conn = conn_view c.nats_conn;
    created_at = c.created_at;
  }

-- What a blank field means on a write.
abbrev pub keep_if_blank : Bytes → Bytes → Bytes
keep_if_blank incoming stored = if is_empty incoming then stored else incoming

abbrev pub stored_path : Option TlsConfig → Bytes
stored_path none = []
stored_path (some t) = t.ca_file

abbrev pub stored_pem : Option TlsConfig → Bytes
stored_pem none = []
stored_pem (some t) = t.ca_pem

-- `sanitizedTLS`: the outer `none` is an error.
unfoldable pub sanitized_tls : Option TlsConfig → Option TlsConfig → Option (Option TlsConfig)
sanitized_tls none stored = some none
sanitized_tls (some t) stored =
    if not (is_empty t.ca_file) && not (bytes_eq t.ca_file (stored_path stored))
    then none
    else some (
        some (record {
          ca_file = stored_path stored;
          ca_pem = keep_if_blank t.ca_pem (stored_pem stored);
          insecure = t.insecure;
        }))

abbrev pub tls_of : Option NatsConnConfig → Option TlsConfig
tls_of none = none
tls_of (some n) = n.tls

abbrev pub creds_of : Option NatsConnConfig → Bytes
creds_of none = []
creds_of (some n) = n.creds_file

-- The NATS part of `sanitizeHostPaths`, against the stored connection.
unfoldable pub sanitized_conn :
    Option NatsConnConfig → Option NatsConnConfig → Option (Option NatsConnConfig)
unfolding sanitized_tls
sanitized_conn none stored = some none
sanitized_conn (some n) stored = do
  tls ← sanitized_tls n.tls (tls_of stored)
  if not (is_empty n.creds_file) && not (bytes_eq n.creds_file (creds_of stored))
      then none
      else some (some (record n { tls = tls; creds_file = creds_of stored }))

abbrev pub prev_tls : Option Cluster → Option TlsConfig
prev_tls none = none
prev_tls (some c) = c.tls

abbrev pub prev_conn : Option Cluster → Option NatsConnConfig
prev_conn none = none
prev_conn (some c) = c.nats_conn

-- `sanitizeHostPaths`: `none` is an error.
unfoldable pub sanitize_host_paths : ClusterRequest → Option Cluster → Option ClusterRequest
unfolding sanitized_conn
sanitize_host_paths req prev = do
  tls ← sanitized_tls req.tls (prev_tls prev)
  nats_conn ← sanitized_conn req.nats_conn (prev_conn prev)
  some (record req { tls = tls; nats_conn = nats_conn })
