-- ===== src/Collector/Poll.antt =====
-- internal/collector/collector.go, `poll`: one round of the poll loop, over $SYS or over HTTP.
-- `Round` is what the outside brings to it: the time (one reading of the clock for the round), the
-- answers of the servers, and what the $SYS collector and the push subscriber hold. How long a poll
-- took is not kept.
use machmqtt_dashboard.Prelude.{
  ℕ, ◌+◌, List, [], ◌∷◌, String, Bool, true, false, ◌&&◌, ◌||◌, not, Option, some, none, ltb,
  length, ◌==◌, if◌then◌else◌, add_u64,
}
use machmqtt_dashboard.Collector.{Payloads, Snapshot, Collector}
use machmqtt_dashboard.Collector.Rates.{Arithmetic, compute_rates}
use machmqtt_dashboard.Collector.Fetch.{Answers, fetch_all}

-- 60 seconds.
abbrev pub sys_fallback_grace : ℕ
sys_fallback_grace = 60_000_000_000

pub record Round (p : Payloads) : Type 0 where
  pub now : ℕ
  pub slow : Bool
  pub answers : String → Answers p
  -- `c.sys.poll`, and `c.sys.cacheLen()`.
  pub sys_poll : Snapshot p → Bool → Option (Snapshot p)
  pub cache_len : ℕ
  -- `c.subscriber.BridgeCount()`, `none` without a subscriber.
  pub bridge_count : Option ℕ

abbrev pub no_bridges : Option ℕ → Bool
no_bridges none = true
no_bridges (some n) = not (ltb 0 n)

-- Neither in the grace period nor without a first failure.
abbrev pub within_grace : Option ℕ → ℕ → Bool
within_grace none now = false
within_grace (some first) now = ltb now (first + sys_fallback_grace)

abbrev pub or_now : Option ℕ → ℕ → Option ℕ
or_now none now = some now
or_now (some t) now = some t

module _ {p : Payloads} where
  abbrev pub empty_snapshot : Option ℕ → Snapshot p
  empty_snapshot timestamp = record {
    timestamp = timestamp;
    varz = [];
    routez = [];
    gatewayz = [];
    leafz = [];
    health = [];
    connz = [];
    subsz = [];
    js_info = [];
    accountz = [];
    rates = [];
    server_urls = [];
  }

  -- `newCollector`.
  abbrev pub new_collector : List String → Bool → Bool → Collector p
  new_collector servers discovery_enabled has_sys = record {
    servers = servers;
    discovery_enabled = discovery_enabled;
    has_sys = has_sys;
    snapshot = empty_snapshot none;
    prev = none;
    mqtt_bridges = [];
    discovering = false;
    polls = 0;
    partial_polls = 0;
    discovery_skips = 0;
    last_success = none;
    endpoint_failure = [];
    sys_first_fail = none;
    sys_fell_back = false;
    sys_ever_healthy = false;
  }

  unfoldable pub should_connz_scan : Collector p → Round p → Bool
  should_connz_scan c r = if not c.discovery_enabled then false else no_bridges r.bridge_count

  -- `maybeDiscoverBridges`, as far as its caller runs: the scan itself ends in `end_discovery`.
  unfoldable pub maybe_discover_bridges : Collector p → Round p → Collector p
  unfolding should_connz_scan
  maybe_discover_bridges c r =
      if not (should_connz_scan c r)
      then c
      else if c.discovering
      then record c { discovery_skips = add_u64 c.discovery_skips 1 }
      else record c { discovering = true }

  -- The end of a scan: with the bridges it found, or by a panic.
  unfoldable pub end_discovery : Collector p → Option (List p.Bridge) → Collector p
  end_discovery c none = record c { discovering = false }
  end_discovery c (some bridges) = record c { discovering = false; mqtt_bridges = bridges }

  abbrev pub carry_slow : Bool → Snapshot p → Snapshot p → Snapshot p
  carry_slow slow cur snap = if slow then snap else record snap {
    subsz = cur.subsz;
    js_info = cur.js_info;
    accountz = cur.accountz;
    server_urls = cur.server_urls;
  }

  abbrev pub try_sys : Collector p → Round p → Bool
  try_sys c r = not c.sys_fell_back || ltb 0 r.cache_len

  -- `sysFirstFail` is set by the first attempt that brings nothing.
  abbrev pub note_fail : Bool → ℕ → Collector p → Collector p
  note_fail tried now c =
      if tried then record c { sys_first_fail = or_now c.sys_first_fail now } else c

  abbrev pub resume_sys : Collector p → Collector p
  resume_sys c = record c {
    mqtt_bridges = if c.sys_fell_back then [] else c.mqtt_bridges;
    sys_fell_back = false;
    sys_ever_healthy = true;
    sys_first_fail = none;
  }

module _ (p : Payloads) (fl : Arithmetic p.Float) where
  -- A new snapshot takes the place of the current one, which becomes the previous one.
  unfoldable pub store_snapshot : Collector p → Snapshot p → Collector p
  store_snapshot c snap = record c {
    prev = some c.snapshot;
    snapshot = record snap { rates = compute_rates p fl (some c.snapshot) snap };
  }

  -- `pollSYS`: `none` where $SYS brings no server.
  unfoldable pub poll_sys : Collector p → Round p → Option (Collector p)
  poll_sys c r = elim (r.sys_poll c.snapshot r.slow) [
    | none ↦ none
    | some snap ↦
        if length snap.varz == 0
        then none
        else some (record (store_snapshot c snap) { last_success = some r.now })
  ]

  -- The HTTP part of `poll`, up to the discovery of bridges.
  unfoldable pub collect_http : Collector p → Round p → Collector p
  unfolding store_snapshot
  collect_http c r =
      let fetched =
        fetch_all r.slow r.answers c.servers (empty_snapshot (some r.now), c.endpoint_failure) in
      let snap = fetched.0 in
      let c' = store_snapshot c (carry_slow r.slow c.snapshot snap) in
      record c' {
        endpoint_failure = fetched.1;
        last_success = if ltb 0 (length snap.varz) then some r.now else c.last_success;
        partial_polls =
            if ltb (length snap.varz) (length c.servers)
            then add_u64 c.partial_polls 1
            else c.partial_polls;
      }

  unfoldable pub poll_http : Collector p → Round p → Collector p
  poll_http c r = maybe_discover_bridges (collect_http c r) r

  -- After a round without $SYS data: the rest of the grace period, or the fallback.
  unfoldable pub poll_without_sys : Collector p → Round p → Collector p
  poll_without_sys c r =
      if c.sys_ever_healthy && (not c.sys_fell_back && within_grace c.sys_first_fail r.now)
      then maybe_discover_bridges c r
      else poll_http (record c { sys_fell_back = true }) r

  unfoldable pub poll_body : Collector p → Round p → Collector p
  poll_body c r =
      if not c.has_sys then poll_http c r else elim (if try_sys c r then poll_sys c r else none) [
        | some c' ↦ maybe_discover_bridges (resume_sys c') r
        | none ↦ poll_without_sys (note_fail (try_sys c r) r.now c) r
      ]

  unfoldable pub poll : Collector p → Round p → Collector p
  poll c r = let c' = poll_body c r in record c' { polls = add_u64 c'.polls 1 }

  unfoldable pub run : Collector p → List (Round p) → Collector p
  run c [] = c
  run c (r ∷ rs) = run (poll c r) rs
