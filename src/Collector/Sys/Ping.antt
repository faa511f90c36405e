-- ===== src/Collector/Sys/Ping.antt =====
-- internal/collector/sys_collector.go: the requests that every server answers, and `poll`.
use machmqtt_dashboard.Prelude.{
  ℕ, ◌&&◌, ◌||◌, ◌==◌, if◌then◌else◌, String, List, [], ◌∷◌, Bool, Option, none, some, Map, insert,
}
use machmqtt_dashboard.Collector.{Payloads, Varz, Snapshot}
use machmqtt_dashboard.Collector.Poll.{empty_snapshot}
use machmqtt_dashboard.Collector.Sys.{
  SysCollector, SysVarz, sys_payloads, cache_len, fast_poll, fast_varz,
}

-- `pingEnvelope`: the server, whether it answers with an error, and its data where there are some that decode.
pub record PingReply (A : Type 0) : Type 0 where
  pub id : String
  pub is_error : Bool
  pub decoded : Option A

abbrev pub fill_decoded : {A : Type 0} → String → Option A → Map A → Map A
fill_decoded id none m = m
fill_decoded id (some a) m = insert id a m

-- The replies to one request, in the order in which they come.
unfoldable pub fill_endpoint : {A : Type 0} → List (PingReply A) → Map A → Map A
unfolding insert
fill_endpoint [] m = m
fill_endpoint (r ∷ rs) m =
    fill_endpoint rs (if r.is_error then m else fill_decoded r.id r.decoded m)

module _ (p : Payloads) (JetStream Gateway : Type 0) where
  -- What `fanIn` collects for the nine requests, none of which it may be.
  pub record Pings : Type 0 where
    pub varz : List (PingReply (Varz (SysVarz p.Float JetStream Gateway)))
    pub connz : List (PingReply p.Connz)
    pub routez : List (PingReply p.Routez)
    pub gatewayz : List (PingReply p.Gatewayz)
    pub leafz : List (PingReply p.Leafz)
    pub subsz : List (PingReply p.Subsz)
    pub jsz : List (PingReply p.JsInfo)
    pub accountz : List (PingReply p.Accountz)
    pub healthz : List (PingReply p.HealthStatus)

  -- `fillFromPing`: the bodies ask for details on a slow poll.
  unfoldable pub fill_from_ping :
      (Bool → Pings)
      → Bool
      → Snapshot (sys_payloads p JetStream Gateway)
      → Snapshot (sys_payloads p JetStream Gateway)
  unfolding fill_endpoint
  fill_from_ping pings slow_detail snap =
      let replies = pings slow_detail in
      record snap {
        varz = fill_endpoint replies.varz snap.varz;
        connz = fill_endpoint replies.connz snap.connz;
        routez = fill_endpoint replies.routez snap.routez;
        gatewayz = fill_endpoint replies.gatewayz snap.gatewayz;
        leafz = fill_endpoint replies.leafz snap.leafz;
        subsz = fill_endpoint replies.subsz snap.subsz;
        js_info = fill_endpoint replies.jsz snap.js_info;
        accountz = fill_endpoint replies.accountz snap.accountz;
        health = fill_endpoint replies.healthz snap.health;
      }

  abbrev pub poll_connected :
      ℕ
      → SysCollector p JetStream Gateway
      → (Bool → Pings)
      → Option (Snapshot (sys_payloads p JetStream Gateway))
      → Bool
      → Bool
      → Option (Snapshot (sys_payloads p JetStream Gateway))
  poll_connected now sc pings carry slow up =
      if (cache_len p JetStream Gateway sc == 0 && up) || slow
      then some (
          fill_from_ping pings slow
            (empty_snapshot {p = sys_payloads p JetStream Gateway} (some now)))
      else fast_poll p JetStream Gateway now sc.statsz carry

  abbrev pub poll_conn :
      ℕ
      → SysCollector p JetStream Gateway
      → (Bool → Pings)
      → Option (Snapshot (sys_payloads p JetStream Gateway))
      → Bool
      → Option Bool
      → Option (Snapshot (sys_payloads p JetStream Gateway))
  poll_conn now sc pings carry slow none = none
  poll_conn now sc pings carry slow (some up) = poll_connected now sc pings carry slow up

  -- `poll` of the $SYS collector.
  unfoldable pub sys_poll :
      ℕ
      → SysCollector p JetStream Gateway
      → (Bool → Pings)
      → Option (Snapshot (sys_payloads p JetStream Gateway))
      → Bool
      → Option (Snapshot (sys_payloads p JetStream Gateway))
  unfolding fill_from_ping fast_varz
  sys_poll now sc pings carry slow = poll_conn now sc pings carry slow sc.nc
