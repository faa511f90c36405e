-- ===== src/Collector/Sys/Tests.antt =====
-- Instances of the theorems on internal/collector/sys_collector.go. All payloads are numbers.
use machmqtt_dashboard.Prelude.{ℕ, ◌≡◌, refl, [], ◌∷◌, Bool, true, false, some, none, lookup}
use machmqtt_dashboard.Collector.{Payloads, Snapshot}
use machmqtt_dashboard.Collector.Poll.{empty_snapshot}
use machmqtt_dashboard.Collector.Sys.{SysCollector, Entry, sys_payloads}
use machmqtt_dashboard.Collector.Sys.Ping.{Pings, sys_poll}
use machmqtt_dashboard.Collector.Sys.Carried.{IsCarried, sys_poll-IsCarried}
use machmqtt_dashboard.Collector.Sys.Durations.{format_uptime, days}

abbrev numbers : Payloads
numbers = record {
  VarzRest = ℕ;
  Routez = ℕ;
  Gatewayz = ℕ;
  Leafz = ℕ;
  HealthStatus = ℕ;
  Connz = ℕ;
  Subsz = ℕ;
  JsInfo = ℕ;
  Accountz = ℕ;
  Bridge = ℕ;
  Float = ℕ;
}

abbrev entry : Entry numbers ℕ ℕ
entry = record {
  server = record { id = "A"; name = "a"; host = "h"; cluster = "c"; version = "2"; time = 90 };
  stats = record {
    start = 5;
    mem = 1;
    cores = 2;
    cpu = 3;
    connections = 4;
    total_connections = 5;
    num_subs = 6;
    sent_msgs = 7;
    sent_bytes = 8;
    received_msgs = 9;
    received_bytes = 10;
    slow_consumers = 0;
    routes = 1;
    jet_stream = none;
  };
  when = 91;
}

abbrev heard : SysCollector numbers ℕ ℕ
heard = record { nc = some true; statsz = ("A", entry) ∷ []; ttl = 30 }

abbrev silence : Bool → Pings numbers ℕ ℕ
silence slow = record {
  varz = [];
  connz = [];
  routez = [];
  gatewayz = [];
  leafz = [];
  subsz = [];
  jsz = [];
  accountz = [];
  healthz = [];
}

-- The last slow poll had routes.
abbrev slow_snapshot : Snapshot (sys_payloads numbers ℕ ℕ)
slow_snapshot = record (empty_snapshot {p = sys_payloads numbers ℕ ℕ} (some 60)) {
  routez = ("A", 3) ∷ [];
}

sys_poll-IsCarried_example :
    (snap : Snapshot (sys_payloads numbers ℕ ℕ)) × (sys_poll numbers ℕ ℕ 95 heard silence
        (some slow_snapshot)
        false
      ≡ some snap)
    × IsCarried numbers ℕ ℕ 95 heard.statsz slow_snapshot snap
unfolding lookup
sys_poll-IsCarried_example =
    sys_poll-IsCarried numbers ℕ ℕ 95 heard silence slow_snapshot true "A" entry refl (refl, tt)
      refl

a_day_and_more : format_uptime 0 100000000000000 ≡ days 1 3 46 40
unfolding format_uptime
a_day_and_more = refl
