-- ===== src/Collector.antt =====
-- internal/collector: the poll loop of one cluster, from the servers' answers to the snapshot.
-- `Collector` is the state of collector.go that a poll reads or writes; `Snapshot` is that of
-- snapshot.go. The payloads of the monitoring endpoints are types of the model's caller; only of
-- `Varz` is anything read here. Times are in nanoseconds, and the zero `time.Time` is `none`.
pub mod Rates
pub mod Fetch
pub mod Poll
pub mod Fallback
pub mod Outage
pub mod Snapshots
pub mod Health
pub mod Sys
mod Tests
use machmqtt_dashboard.Prelude.{ℕ, List, String, Bool, Option, Map}

-- The counters are `int64`s of NATS, which never reports a negative one. `other` stands for the rest.
pub record Varz (Other : Type 0) : Type 0 where
  pub server_id : String
  pub now : ℕ
  pub in_msgs : ℕ
  pub out_msgs : ℕ
  pub in_bytes : ℕ
  pub out_bytes : ℕ
  pub other : Other

-- The types of the payloads, and of floating point numbers.
pub record Payloads : Type 1 where
  pub VarzRest : Type 0
  pub Routez : Type 0
  pub Gatewayz : Type 0
  pub Leafz : Type 0
  pub HealthStatus : Type 0
  pub Connz : Type 0
  pub Subsz : Type 0
  pub JsInfo : Type 0
  pub Accountz : Type 0
  pub Bridge : Type 0
  pub Float : Type 0

pub record ServerRates (Float : Type 0) : Type 0 where
  pub in_msgs_rate : Float
  pub out_msgs_rate : Float
  pub in_bytes_rate : Float
  pub out_bytes_rate : Float

pub record Snapshot (p : Payloads) : Type 0 where
  pub timestamp : Option ℕ
  pub varz : Map (Varz p.VarzRest)
  pub routez : Map p.Routez
  pub gatewayz : Map p.Gatewayz
  pub leafz : Map p.Leafz
  pub health : Map p.HealthStatus
  pub connz : Map p.Connz
  pub subsz : Map p.Subsz
  pub js_info : Map p.JsInfo
  pub accountz : Map p.Accountz
  pub rates : Map (ServerRates p.Float)
  pub server_urls : Map String

-- `has_sys` says whether the collector has a `SYSCollector`. The bridges are what the last connz scan
-- found; `discovering` is the guard that keeps one scan running at a time.
pub record Collector (p : Payloads) : Type 0 where
  pub servers : List String
  pub discovery_enabled : Bool
  pub has_sys : Bool
  pub snapshot : Snapshot p
  pub prev : Option (Snapshot p)
  pub mqtt_bridges : List p.Bridge
  pub discovering : Bool
  pub polls : ℕ
  pub partial_polls : ℕ
  pub discovery_skips : ℕ
  pub last_success : Option ℕ
  pub endpoint_failure : Map ℕ
  pub sys_first_fail : Option ℕ
  pub sys_fell_back : Bool
  pub sys_ever_healthy : Bool
