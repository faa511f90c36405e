-- ===== src/Discovery.antt =====
-- internal/collector/mqtt_discovery.go: bridges found among the connections of the NATS servers, and the
-- probes of their admin interfaces. Strings are bytes; Go's `net` and `fmt`, the probe itself and the
-- division of floats are parameters. A Go map is a list in the order in which `range` visits it, and the
-- instances stand in the order of their groups, which is one of the orders that the goroutines may have.
pub mod Probing
pub mod Probes
pub mod Groups
pub mod Tests
use machmqtt_dashboard.Prelude.{
  ℕ, ◌+◌, ◌-◌, ◌&&◌, ◌||◌, not, leb, if◌then◌else◌, List, [], ◌∷◌, ◌++◌, map, Bool, true, false,
  Option, none, some, Bytes, codes, bytes_eq, ByteMap, get, put, cut_prefix, is_some, Int64,
  add_i64, sub_i64, leb_i64, String, ◌==◌,
}
use machmqtt_dashboard.Environments.{is_empty}

-- `ConnInfo`, as far as it is read here.
pub record Conn : Type 0 where
  pub name : Bytes
  pub ip : Bytes
  pub num_subs : Int64
  pub in_msgs : Int64
  pub out_msgs : Int64
  pub in_bytes : Int64
  pub out_bytes : Int64

-- `Varz`
pub record Host : Type 0 where
  pub server_name : Bytes
  pub host : Bytes

-- `Snapshot`, as far as it is read here; a timestamp of zero is `none`.
pub record Scan : Type 0 where
  pub connz : ByteMap (List Conn)
  pub varz : ByteMap Host
  pub server_urls : ByteMap Bytes
  pub timestamp : Option ℕ

abbrev pub is_mqtt_bridge_conn : Bytes → Bool
unfolding cut_prefix
is_mqtt_bridge_conn name =
    bytes_eq name (codes "machmqtt-bridge") || is_some (cut_prefix (codes "machmqtt-pool-") name)

abbrev pub host_of : Bytes → Option Host → Bytes
host_of ip none = ip
host_of ip (some v) = if is_empty v.host || bytes_eq v.host (codes "0.0.0.0") then ip else v.host

abbrev pub url_or_host : Bytes → Option Bytes → Option Host → Bytes
url_or_host ip none v = host_of ip v
url_or_host ip (some []) v = host_of ip v
url_or_host ip (some (c ∷ cs)) v = c ∷ cs

unfoldable pub resolve_bridge_ip : Bytes → Bytes → Scan → Bytes
unfolding get
resolve_bridge_ip srv_id ip s =
    if bytes_eq ip (codes "127.0.0.1") || bytes_eq ip (codes "::1")
    then url_or_host ip (get srv_id s.server_urls) (get srv_id s.varz)
    else ip

-- `bridgeKey` and `bridgeAccum`
pub record Group : Type 0 where
  pub server_id : Bytes
  pub ip : Bytes
  pub pool_conns : ℕ
  pub total_subs : Int64
  pub in_msgs : Int64
  pub out_msgs : Int64
  pub in_bytes : Int64
  pub out_bytes : Int64

abbrev pub new_group : Bytes → Bytes → Group
new_group server_id ip = record {
  server_id = server_id;
  ip = ip;
  pool_conns = 0;
  total_subs = 0;
  in_msgs = 0;
  out_msgs = 0;
  in_bytes = 0;
  out_bytes = 0;
}

abbrev pub add_conn : Conn → Group → Group
add_conn c g = record g {
  pool_conns = g.pool_conns + 1;
  total_subs = add_i64 g.total_subs c.num_subs;
  in_msgs = add_i64 g.in_msgs c.in_msgs;
  out_msgs = add_i64 g.out_msgs c.out_msgs;
  in_bytes = add_i64 g.in_bytes c.in_bytes;
  out_bytes = add_i64 g.out_bytes c.out_bytes;
}

abbrev pub is_group : Bytes → Bytes → Group → Bool
is_group server_id ip g = bytes_eq g.server_id server_id && bytes_eq g.ip ip

unfoldable pub add_to_group : Bytes → Bytes → Conn → List Group → List Group
add_to_group server_id ip c [] = add_conn c (new_group server_id ip) ∷ []
add_to_group server_id ip c (g ∷ gs) =
    if is_group server_id ip g then add_conn c g ∷ gs else g ∷ add_to_group server_id ip c gs

-- The inner loop: the connections of one server.
unfoldable pub group_conns : Scan → Bytes → List Conn → List Group → List Group
unfolding resolve_bridge_ip add_to_group
group_conns s server_id [] gs = gs
group_conns s server_id (c ∷ cs) gs = group_conns s server_id cs (
    if is_mqtt_bridge_conn c.name
    then add_to_group server_id (resolve_bridge_ip server_id c.ip s) c gs
    else gs)

unfoldable pub group_servers : Scan → ByteMap (List Conn) → List Group → List Group
unfolding group_conns
group_servers s [] gs = gs
group_servers s ((server_id, cs) ∷ rest) gs = group_servers s rest (group_conns s server_id cs gs)

abbrev pub groups : Scan → List Group
groups s = group_servers s s.connz []

abbrev pub server_name : Bytes → Option Host → Bytes
server_name id none = id
server_name id (some v) = if is_empty v.server_name then id else v.server_name

unfoldable pub find_group : Bytes → Bytes → List Group → Group
find_group server_id ip [] = new_group server_id ip
find_group server_id ip (g ∷ gs) = if is_group server_id ip g then g else find_group server_id ip gs

-- The connections that `discoverMQTTBridges` counts for its log.
unfoldable pub matching_of : List Conn → ℕ
matching_of [] = 0
matching_of (c ∷ cs) =
    let rest = matching_of cs in if is_mqtt_bridge_conn c.name then rest + 1 else rest

unfoldable pub matching_conns : ByteMap (List Conn) → ℕ
unfolding matching_of
matching_conns [] = 0
matching_conns ((server_id, cs) ∷ rest) = matching_of cs + matching_conns rest
