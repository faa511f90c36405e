-- ===== src/Collector/Tests.antt =====
-- Rounds of a poll loop of internal/collector, and instances of the theorems on it.
use machmqtt_dashboard.Prelude.{
  ℕ, ◌≡◌, refl, [], ◌∷◌, String, true, false, some, none, lookup, insert, str_eq, if◌then◌else◌,
  arith,
}
use machmqtt_dashboard.Collector.{Varz, Payloads, Snapshot, Collector}
use machmqtt_dashboard.Collector.Health.{Links}
use machmqtt_dashboard.Collector.Rates.{
  Arithmetic, compute_rates, rate_entries, server_rates, non_neg_rate,
}
use machmqtt_dashboard.Collector.Fetch.{Answers, fetch_all, fetch_server}
use machmqtt_dashboard.Collector.Poll.{Round, run, new_collector, empty_snapshot, store_snapshot}
use machmqtt_dashboard.Collector.Fallback.{IsSilent}
use machmqtt_dashboard.Collector.Outage.{sys_fell_back-run}

program : Unit {0}
unfolding fetch_all fetch_server lookup insert compute_rates rate_entries server_rates non_neg_rate
    store_snapshot
program = tt

-- Payloads that are numbers, and rates that are pairs of a difference and a time.
abbrev plain : Payloads
plain = record {
  VarzRest = Unit {0};
  Routez = ℕ;
  Gatewayz = ℕ;
  Leafz = ℕ;
  HealthStatus = ℕ;
  Connz = ℕ;
  Subsz = ℕ;
  JsInfo = ℕ;
  Accountz = ℕ;
  Bridge = ℕ;
  Float = ℕ × ℕ;
}

abbrev pairs : Arithmetic (ℕ × ℕ)
pairs = record { zero_rate = (0, 1); per_second = λ delta nanoseconds. (delta, nanoseconds) }

abbrev reading : String → ℕ → ℕ → Varz (Unit {0})
reading id now n = record {
  server_id = id;
  now = now;
  in_msgs = n;
  out_msgs = n;
  in_bytes = n;
  out_bytes = n;
  other = tt;
}

abbrev nothing : Answers plain
nothing = record {
  hostname = none;
  varz = none;
  routez = none;
  gatewayz = none;
  leafz = none;
  health = none;
  connz = none;
  subsz = none;
  js_info = none;
  accountz = none;
}

abbrev answers : String → Answers plain
answers url =
    if str_eq url "http://a" then record nothing { varz = some (reading "A" 5 100) } else nothing

abbrev silent_round : ℕ → Round plain
silent_round now = record {
  now = now;
  slow = true;
  answers = answers;
  sys_poll = λ cur slow. none;
  cache_len = 0;
  bridge_count = none;
}

silent_round-IsSilent : (now : ℕ) → IsSilent plain pairs (silent_round now)
silent_round-IsSilent now = record { silent = λ cur slow. refl }

abbrev cold : Collector plain
cold = new_collector ("http://a" ∷ "http://b" ∷ []) true true

abbrev warm : Collector plain
warm = record cold { sys_ever_healthy = true }

sys_fell_back-run_example :
    (run plain pairs warm (
      silent_round 1
      ∷ silent_round 30_000_000_001
      ∷ silent_round 60_000_000_001
      ∷ [])).sys_fell_back
    ≡ true
sys_fell_back-run_example =
    sys_fell_back-run plain pairs warm (silent_round 1)
      (silent_round 30_000_000_001 ∷ silent_round 60_000_000_001 ∷ []) refl refl refl refl
      (silent_round-IsSilent 1)
      (
        omega arith,
        silent_round-IsSilent 30_000_000_001,
        (omega arith, silent_round-IsSilent 60_000_000_001, tt),
      )

abbrev seen : Snapshot plain
seen = record (empty_snapshot (some 9)) { varz = ("A", reading "A" 9 140) ∷ [] }

abbrev speaks : Round plain
speaks = record (silent_round 9) { sys_poll = λ cur slow. some seen; cache_len = 1 }

abbrev fallen : Collector plain
fallen = record warm { sys_fell_back = true; mqtt_bridges = 3 ∷ [] }

abbrev before : Snapshot plain
before = record (empty_snapshot (some 5)) { varz = ("A", reading "A" 5 100) ∷ [] }

abbrev offline : Links
offline = record {
  name = [];
  interval = 10;
  has_subscriber = true;
  sys_connected = false;
  subscriber_connected = false;
}
