-- ===== src/Store/Clusters.antt =====
-- internal/store/clusters.go: the table of clusters. JSON, the source of ids and the file system are
-- parameters; so is which statement of SQLite fails. A method takes the database and gives it back.
pub mod Methods
pub mod Listing
pub mod Cascade
pub mod Known
pub mod Seeding
pub mod RoundTrip
pub mod Tests
use machmqtt_dashboard.Prelude.{
  ℕ, ◌+◌, ◌==◌, ◌&&◌, ◌||◌, not, ltb, if◌then◌else◌, String, str_eq, List, [], ◌∷◌, ◌++◌, map,
  filter, length, Bool, true, false, Option, none, some, Map, ◌>>=◌, Bytes, bytes_eq, codes,
}
use machmqtt_dashboard.Environments.{
  Environment, Server, MqttBridge, MqttDiscoveryConfig, TlsConfig, NatsConnConfig, File, is_empty,
  resolve_ca_file,
}

-- The five sentinel and wrapped errors.
pub data ClusterError : Type 0 where
  cluster_not_found name_required servers_required : ClusterError
  id_failed marshal_failed statement_failed scan_failed : ClusterError

pub data ClusterResult {ℓ} (A : Type ℓ) : Type ℓ where
  done : A → ClusterResult A
  failed : ClusterError → ClusterResult A

pub record Cluster : Type 0 where
  pub id : String
  pub name : Bytes
  pub servers : List Server
  pub mqtt_bridges : List MqttBridge
  pub mqtt_discovery : Option MqttDiscoveryConfig
  pub tls : Option TlsConfig
  pub admin_token : Bytes
  pub nats_conn : Option NatsConnConfig
  pub created_at : Option ℕ

abbrev pub to_environment : Cluster → Environment
to_environment c = record {
  name = c.name;
  servers = c.servers;
  mqtt_bridges = c.mqtt_bridges;
  mqtt_discovery = c.mqtt_discovery;
  admin_token = c.admin_token;
  tls = c.tls;
  nats_conn = c.nats_conn;
}

abbrev pub cluster_from_environment : Environment → Cluster
cluster_from_environment e = record {
  id = "";
  name = e.name;
  servers = e.servers;
  mqtt_bridges = e.mqtt_bridges;
  mqtt_discovery = e.mqtt_discovery;
  tls = e.tls;
  admin_token = e.admin_token;
  nats_conn = e.nats_conn;
  created_at = none;
}

-- `clusterCols`; the columns as they are stored.
pub record Columns : Type 0 where
  pub servers : Bytes
  pub bridges : Bytes
  pub discovery : Option Bytes
  pub tls : Option Bytes
  pub nats_conn : Option Bytes

pub record ClusterRow : Type 0 where
  pub id : String
  pub name : Bytes
  pub columns : Columns
  pub admin_token : Bytes
  pub created_at : ℕ

-- A row of one of the tables that key on a cluster's id.
pub record Datum : Type 0 where
  pub env : String
  pub payload : ℕ

pub record ClusterDb : Type 0 where
  pub clusters : List ClusterRow
  pub data_of : String → List Datum

-- `json.Marshal` and `json.Unmarshal` at one type.
pub record Codec (A : Type 0) : Type 0 where
  pub marshal : A → Option Bytes
  pub unmarshal : Bytes → Option A

pub record Outside : Type 0 where
  pub servers : Codec (List Server)
  pub bridges : Codec (List MqttBridge)
  pub discovery : Codec MqttDiscoveryConfig
  pub tls : Codec TlsConfig
  pub nats_conn : Codec NatsConnConfig
  pub disk : Bytes → Option File
  -- whether the statement on that table fails, or that of that name: `BEGIN` or `COMMIT`
  pub is_failing : String → Bool

-- `marshalNullable`: what it is given is a pointer in an interface, which is never nil itself, so that a
-- nil pointer is stored as the JSON text `null`. The outer `none` is an error.
unfoldable pub marshal_nullable : {A : Type 0} → Codec A → Option A → Option (Option Bytes)
marshal_nullable c none = some (some (codes "null"))
marshal_nullable c (some a) = do text ← c.marshal a; some (some text)

unfoldable pub unmarshal_nullable : {A : Type 0} → Codec A → Option Bytes → Option (Option A)
unmarshal_nullable c none = some none
unmarshal_nullable c (some text) =
    if is_empty text || bytes_eq text (codes "null")
    then some none
    else do a ← c.unmarshal text; some (some a)

-- `marshalClusterFields`
unfoldable pub marshal_cluster_fields : Outside → Cluster → Option Columns
unfolding marshal_nullable
marshal_cluster_fields o c = do
  servers ← o.servers.marshal c.servers
  bridges ← o.bridges.marshal c.mqtt_bridges
  discovery ← marshal_nullable o.discovery c.mqtt_discovery
  tls ← marshal_nullable o.tls c.tls
  nats_conn ← marshal_nullable o.nats_conn c.nats_conn
  some (record {
    servers = servers;
    bridges = bridges;
    discovery = discovery;
    tls = tls;
    nats_conn = nats_conn;
  })

abbrev pub with_tls : NatsConnConfig → Option TlsConfig → NatsConnConfig
with_tls n t = record n { tls = t }

-- `ResolveCAFile` of the NATS connection.
abbrev pub resolve_conn : Outside → Option NatsConnConfig → Option (Option NatsConnConfig)
resolve_conn o none = some none
resolve_conn o (some n) = elim (resolve_ca_file o.disk n.tls) [
  | none ↦ none
  | some t ↦ some (some (with_tls n t))
]

-- `scanCluster`
unfoldable pub scan_cluster : Outside → ClusterRow → Option Cluster
unfolding unmarshal_nullable resolve_ca_file
scan_cluster o r = do
  servers ← o.servers.unmarshal r.columns.servers
  bridges ← o.bridges.unmarshal r.columns.bridges
  discovery ← unmarshal_nullable o.discovery r.columns.discovery
  tls ← unmarshal_nullable o.tls r.columns.tls
  nats_conn ← unmarshal_nullable o.nats_conn r.columns.nats_conn
  resolved ← resolve_ca_file o.disk tls
  connected ← resolve_conn o nats_conn
  some (record {
    id = r.id;
    name = r.name;
    servers = servers;
    mqtt_bridges = bridges;
    mqtt_discovery = discovery;
    tls = resolved;
    admin_token = r.admin_token;
    nats_conn = connected;
    created_at = some r.created_at;
  })
