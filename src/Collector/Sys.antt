-- ===== src/Collector/Sys.antt =====
-- internal/collector/sys_collector.go: the servers that publish their statistics on $SYS. NATS is a parameter:
-- what is received, decoded or not, and whether the connection is up. Sizes and rates are what is published.
pub mod Durations
pub mod Ping
pub mod Carried
pub mod Tests
use machmqtt_dashboard.Prelude.{
  ℕ, ◌+◌, ◌&&◌, ◌||◌, not, ◌==◌, leb, if◌then◌else◌, String, str_eq, List, [], ◌∷◌, Bool, true,
  false, Option, none, some, Map, lookup, insert, length, filter,
}
use machmqtt_dashboard.Collector.{Payloads, Varz, Snapshot}
use machmqtt_dashboard.Collector.Poll.{empty_snapshot}
use machmqtt_dashboard.Collector.Sys.Durations.{Uptime, format_uptime}

-- `sysServerInfo`
pub record SysServerInfo : Type 0 where
  pub id : String
  pub name : String
  pub host : String
  pub cluster : String
  pub version : String
  pub time : ℕ

-- `sysServerStats`, with the counters of what is sent and received; of routes only the number is used.
pub record SysServerStats (Float JetStream : Type 0) : Type 0 where
  pub start : ℕ
  pub mem : ℕ
  pub cores : ℕ
  pub cpu : Float
  pub connections : ℕ
  pub total_connections : ℕ
  pub num_subs : ℕ
  pub sent_msgs : ℕ
  pub sent_bytes : ℕ
  pub received_msgs : ℕ
  pub received_bytes : ℕ
  pub slow_consumers : ℕ
  pub routes : ℕ
  pub jet_stream : Option JetStream

-- `statszEntry`
pub record StatszEntry (Float JetStream : Type 0) : Type 0 where
  pub server : SysServerInfo
  pub stats : SysServerStats Float JetStream
  pub when : ℕ

-- What a `Varz` has besides the fields of `Collector.Varz`; the gateway is a type of the caller's.
pub record SysVarz (Float JetStream Gateway : Type 0) : Type 0 where
  pub server_name : String
  pub host : String
  pub version : String
  pub connections : ℕ
  pub total_connections : ℕ
  pub routes : ℕ
  pub mem : ℕ
  pub cpu : Float
  pub cores : ℕ
  pub subscriptions : ℕ
  pub slow_consumers : ℕ
  pub start : ℕ
  pub cluster_name : String
  pub uptime : Uptime
  pub jet_stream : Option JetStream
  pub leafs : ℕ
  pub port : ℕ
  pub max_conn : ℕ
  pub go_version : String
  pub gateway : Option Gateway

abbrev pub default_statsz_ttl : ℕ
default_statsz_ttl = 30_000_000_000

module _ (p : Payloads) (JetStream Gateway : Type 0) where
  -- The caller's payloads, with that `Varz`.
  abbrev pub sys_payloads : Payloads
  sys_payloads = record p { VarzRest = SysVarz p.Float JetStream Gateway }

  abbrev pub Entry : Type 0
  Entry = StatszEntry p.Float JetStream

  -- `SYSCollector`: `nc` is the connection, if there is one, and whether it is up.
  pub record SysCollector : Type 0 where
    pub nc : Option Bool
    pub statsz : Map Entry
    pub ttl : ℕ

  abbrev pub new_sys_collector : SysCollector
  new_sys_collector = record { nc = none; statsz = []; ttl = default_statsz_ttl }

  abbrev pub cache_len : SysCollector → ℕ
  cache_len sc = length sc.statsz

  abbrev pub is_up : Option Bool → Bool
  is_up none = false
  is_up (some up) = up

  abbrev pub connected : SysCollector → Bool
  connected sc = is_up sc.nc

  -- The handler of `run`, with the message that the payload is read as, or nothing.
  abbrev pub handle_statsz :
      ℕ → Option (SysServerInfo × SysServerStats p.Float JetStream) → SysCollector → SysCollector
  handle_statsz now none sc = sc
  handle_statsz now (some (server, stats)) sc = if str_eq server.id "" then sc else record sc {
    statsz = insert server.id (record { server = server; stats = stats; when = now }) sc.statsz;
  }

  -- `sweepExpired`
  abbrev pub sweep_statsz : ℕ → SysCollector → SysCollector
  sweep_statsz now sc = record sc { statsz = filter (λ e. leb now (e.1.when + sc.ttl)) sc.statsz }

  -- `statszToVarz`; what JetStream reports is of a type of the caller's and carried as it is.
  unfoldable pub statsz_to_varz : Entry → Varz (SysVarz p.Float JetStream Gateway)
  unfolding format_uptime
  statsz_to_varz e = record {
    server_id = e.server.id;
    now = e.server.time;
    in_msgs = e.stats.received_msgs;
    out_msgs = e.stats.sent_msgs;
    in_bytes = e.stats.received_bytes;
    out_bytes = e.stats.sent_bytes;
    other = record {
      server_name = e.server.name;
      host = e.server.host;
      version = e.server.version;
      connections = e.stats.connections;
      total_connections = e.stats.total_connections;
      routes = e.stats.routes;
      mem = e.stats.mem;
      cpu = e.stats.cpu;
      cores = e.stats.cores;
      subscriptions = e.stats.num_subs;
      slow_consumers = e.stats.slow_consumers;
      start = e.stats.start;
      cluster_name = e.server.cluster;
      uptime = format_uptime e.stats.start e.server.time;
      jet_stream = e.stats.jet_stream;
      leafs = 0;
      port = 0;
      max_conn = 0;
      go_version = "";
      gateway = none;
    };
  }

  -- The fields that STATSZ does not carry, from the `Varz` of the last slow poll.
  abbrev pub carry_varz :
      Option (Varz (SysVarz p.Float JetStream Gateway))
      → Varz (SysVarz p.Float JetStream Gateway)
      → Varz (SysVarz p.Float JetStream Gateway)
  carry_varz none v = v
  carry_varz (some prev) v = record v {
    other = record v.other {
      leafs = prev.other.leafs;
      port = prev.other.port;
      max_conn = prev.other.max_conn;
      go_version = prev.other.go_version;
      gateway = prev.other.gateway;
    };
  }

  abbrev pub carried_of :
      Option (Snapshot sys_payloads) → String → Option (Varz (SysVarz p.Float JetStream Gateway))
  carried_of none id = none
  carried_of (some carry) id = lookup id carry.varz

  -- The loop over the cache.
  unfoldable pub fast_varz :
      Option (Snapshot sys_payloads)
      → Map Entry
      → Map (Varz (SysVarz p.Float JetStream Gateway))
      → Map (Varz (SysVarz p.Float JetStream Gateway))
  unfolding statsz_to_varz lookup insert
  fast_varz carry [] varz = varz
  fast_varz carry ((id, e) ∷ cache) varz =
      fast_varz carry cache (insert id (carry_varz (carried_of carry id) (statsz_to_varz e)) varz)

  abbrev pub carry_forward :
      Option (Snapshot sys_payloads) → Snapshot sys_payloads → Snapshot sys_payloads
  carry_forward none snap = snap
  carry_forward (some carry) snap = record snap {
    routez = carry.routez;
    gatewayz = carry.gatewayz;
    leafz = carry.leafz;
    health = carry.health;
    connz = carry.connz;
    subsz = carry.subsz;
    js_info = carry.js_info;
    accountz = carry.accountz;
    server_urls = carry.server_urls;
  }

  abbrev pub unless_empty :
      Snapshot sys_payloads → Option (Snapshot sys_payloads) → Option (Snapshot sys_payloads)
  unless_empty snap carry = if length snap.varz == 0 then none else some (carry_forward carry snap)

  abbrev pub fast_poll :
      ℕ → Map Entry → Option (Snapshot sys_payloads) → Option (Snapshot sys_payloads)
  fast_poll now cache carry =
      unless_empty
        (record (empty_snapshot {p = sys_payloads} (some now)) { varz = fast_varz carry cache [] })
        carry
