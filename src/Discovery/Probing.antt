-- ===== src/Discovery/Probing.antt =====
-- internal/collector/mqtt_discovery.go: the probes of the admin interfaces, and the instances found.
use machmqtt_dashboard.Prelude.{
  ℕ, ◌-◌, ◌==◌, ◌&&◌, ◌||◌, not, leb, if◌then◌else◌, List, [], ◌∷◌, ◌++◌, Bool, true, false, Option,
  none, some, Bytes, codes, bytes_eq, ByteMap, get, Int64, sub_i64, leb_i64,
}
use machmqtt_dashboard.Environments.{
  Environment, is_empty, lower, mqtt_discovery_ports, resolve_bridge_token, discovery_trusted_hosts,
}
use machmqtt_dashboard.Environments.Hosts.{trusts}
use machmqtt_dashboard.Discovery.{Scan, Group, groups, group_servers, find_group, server_name}

pub record Net : Type 0 where
  -- `net.ParseIP` gives an address, and it is a loopback one
  pub is_ip : Bytes → Bool
  pub is_loopback : Bytes → Bool
  -- `http://%s:%d`
  pub format_url : Bytes → ℕ → Bytes

unfoldable pub discovery_host_trusted : Net → Bytes → ByteMap Bool → Bool
unfolding get
discovery_host_trusted net host trusted =
    (net.is_ip host && net.is_loopback host)
    || (bytes_eq (lower host) (codes "localhost") || trusts trusted (lower host))

unfoldable pub contains : ℕ → Bytes → Bool
contains b [] = false
contains b (c ∷ cs) = c == b || contains b cs

abbrev pub probe_url : Net → Bytes → ℕ → Bytes
probe_url net host port =
    net.format_url (if net.is_ip host && contains b':' host then b'[' ∷ host ++ b']' ∷ [] else host)
      port

-- A request to an admin interface: where to, and with which token.
pub record Probe : Type 0 where
  pub host : Bytes
  pub url : Bytes
  pub token : Bytes

-- Float64 is `Float`, and `Status` what a probe gives, with an error or not.
pub record Instance (Float Status : Type 0) : Type 0 where
  pub group : Group
  pub server_name : Bytes
  pub in_msgs_rate : Float
  pub out_msgs_rate : Float
  pub in_bytes_rate : Float
  pub out_bytes_rate : Float
  pub last_seen : Option ℕ
  pub admin_url : Bytes
  pub status : Option Status
  pub reachable : Bool

-- `FetchStatus`, the division by the seconds between the two scans, and whether the context ends before
-- a probe starts.
pub record Outside (Float Status : Type 0) : Type 0 where
  pub fetch_status : Probe → Status
  pub has_error : Status → Bool
  pub zero_rate : Float
  pub per_second : Int64 → ℕ → Float
  pub is_cancelled : Bytes → Bytes → Bool

abbrev pub elapsed : Option ℕ → Option ℕ → ℕ
elapsed (some now) (some before) = now - before
elapsed _ _ = 0

module _ {Float Status : Type 0} (net : Net) (o : Outside Float Status) where
  abbrev pub rate : ℕ → Int64 → Int64 → Float
  rate dt cur prev =
      if leb dt 0 || leb_i64 cur prev then o.zero_rate else o.per_second (sub_i64 cur prev) dt

  unfoldable pub new_instance : Scan → ℕ → List Group → Group → Instance Float Status
  unfolding find_group get
  new_instance s dt prev g =
      let pg = find_group g.server_id g.ip prev in
      record {
        group = g;
        server_name = server_name g.server_id (get g.server_id s.varz);
        in_msgs_rate = rate dt g.in_msgs pg.in_msgs;
        out_msgs_rate = rate dt g.out_msgs pg.out_msgs;
        in_bytes_rate = rate dt g.in_bytes pg.in_bytes;
        out_bytes_rate = rate dt g.out_bytes pg.out_bytes;
        last_seen = s.timestamp;
        admin_url = [];
        status = none;
        reachable = false;
      }

  -- The ports in turn, until a probe has no error; with the probes that were sent.
  unfoldable pub probe_ports :
      Bytes → List ℕ → Instance Float Status → Instance Float Status × List Probe
  probe_ports token [] inst = (inst, [])
  probe_ports token (port ∷ ports) inst =
      let p : Probe = record {
        host = inst.group.ip;
        url = probe_url net inst.group.ip port;
        token = token;
      } in
      let (last, sent) = probe_ports token ports inst in
      if o.has_error (o.fetch_status p) then (last, p ∷ sent) else (
        record inst { admin_url = p.url; status = some (o.fetch_status p); reachable = true },
        p ∷ [],
      )

  abbrev pub probe_token : Bytes → ByteMap Bool → Bytes → Bytes
  probe_token admin_token trusted host =
      if not (is_empty admin_token) && not (discovery_host_trusted net host trusted)
      then []
      else admin_token

  -- The goroutines, one for each group.
  unfoldable pub probe_groups :
      (Group → Instance Float Status)
      → List ℕ
      → Bytes
      → ByteMap Bool
      → List Group
      → List (Instance Float Status) × List Probe
  unfolding probe_ports
  probe_groups make ports admin_token trusted [] = ([], [])
  probe_groups make ports admin_token trusted (g ∷ gs) =
      let (insts, probes) = probe_groups make ports admin_token trusted gs in
      let (inst, sent) = probe_ports (probe_token admin_token trusted g.ip) ports (make g) in
      if o.is_cancelled g.server_id g.ip then (insts, probes) else (inst ∷ insts, sent ++ probes)

  abbrev pub prev_groups : Option Scan → List Group
  prev_groups none = []
  prev_groups (some s) = groups s

  abbrev pub prev_timestamp : Option Scan → Option ℕ
  prev_timestamp none = none
  prev_timestamp (some s) = s.timestamp

  -- `DiscoverMQTTBridges`
  unfoldable pub discover_mqtt_bridges :
      Option Scan
      → Option Scan
      → List ℕ
      → Bytes
      → ByteMap Bool
      → List (Instance Float Status) × List Probe
  unfolding group_servers probe_groups new_instance
  discover_mqtt_bridges none prev ports admin_token trusted = ([], [])
  discover_mqtt_bridges (some s) prev ports admin_token trusted =
      probe_groups (new_instance s (elapsed s.timestamp (prev_timestamp prev)) (prev_groups prev))
        (if is_empty ports then 8080 ∷ [] else ports) admin_token trusted (groups s)

  -- The scan of `discoverMQTTBridges`, with the settings of the environment.
  unfoldable pub discover_for :
      (Bytes → Option Bytes)
      → Environment
      → Option Scan
      → Option Scan
      → List (Instance Float Status) × List Probe
  unfolding discover_mqtt_bridges discovery_trusted_hosts
  discover_for split_host_port env snap prev =
      discover_mqtt_bridges snap prev (mqtt_discovery_ports env) (resolve_bridge_token env [])
        (discovery_trusted_hosts split_host_port env)
