-- ===== src/Collector/Fetch.antt =====
-- internal/collector/collector.go, `fetchServer`: what one server's answers add to a snapshot.
-- The workers of a poll run side by side, and each adds under a mutex; the list of servers stands in
-- the order in which they do.
use machmqtt_dashboard.Prelude.{
  ℕ, List, [], ◌∷◌, String, Bool, Option, some, none, Map, lookup, insert, if◌then◌else◌, add_u64,
}
use machmqtt_dashboard.Collector.{Varz, Payloads, Snapshot}

-- The endpoints of one server in one poll: `none` is an error of the request. `hostname` is what
-- `url.Parse` makes of the configured URL.
pub record Answers (p : Payloads) : Type 0 where
  pub hostname : Option String
  pub varz : Option (Varz p.VarzRest)
  pub routez : Option p.Routez
  pub gatewayz : Option p.Gatewayz
  pub leafz : Option p.Leafz
  pub health : Option p.HealthStatus
  pub connz : Option p.Connz
  pub subsz : Option p.Subsz
  pub js_info : Option p.JsInfo
  pub accountz : Option p.Accountz

module _ {V : Type 0} where
  abbrev pub put : String → Option V → Map V → Map V
  put id none m = m
  put id (some v) m = insert id v m

abbrev pub or_zero : Option ℕ → ℕ
or_zero none = 0
or_zero (some n) = n

-- `recordEndpointFailure`.
unfoldable pub record_endpoint_failure : String → Map ℕ → Map ℕ
record_endpoint_failure endpoint m = insert endpoint (add_u64 (or_zero (lookup endpoint m)) 1) m

-- `logFetchErr`: an error is counted under the endpoint's name.
unfoldable pub log_fetch_err : {V : Type 0} → String → Option V → Map ℕ → Map ℕ
unfolding record_endpoint_failure
log_fetch_err endpoint none m = record_endpoint_failure endpoint m
log_fetch_err endpoint (some v) m = m

module _ {p : Payloads} where
  -- The endpoints of every poll.
  abbrev pub add_fast : Snapshot p → Varz p.VarzRest → Answers p → Snapshot p
  add_fast snap v a = record snap {
    varz = insert v.server_id v snap.varz;
    routez = put v.server_id a.routez snap.routez;
    gatewayz = put v.server_id a.gatewayz snap.gatewayz;
    leafz = put v.server_id a.leafz snap.leafz;
    health = put v.server_id a.health snap.health;
    connz = put v.server_id a.connz snap.connz;
    server_urls = put v.server_id a.hostname snap.server_urls;
  }

  -- The endpoints of a slow poll.
  abbrev pub add_slow : Snapshot p → Varz p.VarzRest → Answers p → Snapshot p
  add_slow snap v a = record snap {
    subsz = put v.server_id a.subsz snap.subsz;
    js_info = put v.server_id a.js_info snap.js_info;
    accountz = put v.server_id a.accountz snap.accountz;
  }

  abbrev pub fast_failures : Answers p → Map ℕ → Map ℕ
  fast_failures a m = log_fetch_err "connz" a.connz (
      log_fetch_err "healthz" a.health (
        log_fetch_err "leafz" a.leafz
          (log_fetch_err "gatewayz" a.gatewayz (log_fetch_err "routez" a.routez m))))

  -- A server without JetStream is no failure.
  abbrev pub slow_failures : Answers p → Map ℕ → Map ℕ
  slow_failures a m = log_fetch_err "accountz" a.accountz (log_fetch_err "subsz" a.subsz m)

  unfoldable pub fetch_server : Bool → Answers p → Snapshot p × Map ℕ → Snapshot p × Map ℕ
  unfolding log_fetch_err
  fetch_server slow a (snap, failures) = elim a.varz [
    | none ↦ (snap, record_endpoint_failure "varz" failures)
    | some v ↦
        if slow
        then (add_slow (add_fast snap v a) v a, slow_failures a (fast_failures a failures))
        else (add_fast snap v a, fast_failures a failures)
  ]

  unfoldable pub fetch_all :
      Bool → (String → Answers p) → List String → Snapshot p × Map ℕ → Snapshot p × Map ℕ
  unfolding fetch_server
  fetch_all slow answers [] s = s
  fetch_all slow answers (url ∷ urls) s =
      fetch_all slow answers urls (fetch_server slow (answers url) s)
