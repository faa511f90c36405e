-- ===== src/Collector/Sys/Carried.antt =====
-- internal/collector/sys_collector.go, `poll`: what a fast poll shows.
use machmqtt_dashboard.Prelude.{
  ℕ, ◌-◌, ◌/◌, ◌==◌, ◌≡◌, refl, ◌∙◌, inl, inr, String, str_eq, [], ◌∷◌, Bool, false, Option, none,
  some, Map, Distinct, lookup, lookup-insert, eq_iff, length, arith, Bool-cases, eq_refl,
}
use machmqtt_dashboard.Collector.{Payloads, Varz, Snapshot}
use machmqtt_dashboard.Collector.Poll.{empty_snapshot}
use machmqtt_dashboard.Collector.Sys.{
  SysCollector, SysVarz, Entry, sys_payloads, fast_varz, carry_varz, carried_of, carry_forward,
  statsz_to_varz,
}
use machmqtt_dashboard.Collector.Sys.Durations.{Says, format_uptime-Says}
use machmqtt_dashboard.Collector.Sys.Ping.{Pings, sys_poll}

is_stocked :
    {V : Type 0} (id : String) (v : V) (m : Map V) → lookup id m ≡ some v → (length m == 0) ≡ false
unfolding lookup
is_stocked id v [] h = absurd (ground (arith, h))
is_stocked id v (e ∷ m) h = ground arith

module _ (p : Payloads) (JetStream Gateway : Type 0) where
  -- What a fast poll shows of a server, by its statistics and the last slow poll.
  abbrev pub shown :
      Option (Snapshot (sys_payloads p JetStream Gateway))
      → String
      → Option (Entry p JetStream Gateway)
      → Option (Varz (SysVarz p.Float JetStream Gateway))
  shown carry id none = none
  shown carry id (some e) = some (
      carry_varz p JetStream Gateway (carried_of p JetStream Gateway carry id)
        (statsz_to_varz p JetStream Gateway e))

  abbrev or_before :
      Option (Varz (SysVarz p.Float JetStream Gateway))
      → Option (Varz (SysVarz p.Float JetStream Gateway))
      → Option (Varz (SysVarz p.Float JetStream Gateway))
  or_before none before = before
  or_before (some v) before = some v

  or_before-none : (o : Option (Varz (SysVarz p.Float JetStream Gateway))) → or_before o none ≡ o
  or_before-none none = refl
  or_before-none (some v) = refl

  lookup-fast_varz :
      (carry : Option (Snapshot (sys_payloads p JetStream Gateway))) (id : String)
      (cache : Map (Entry p JetStream Gateway))
      (varz : Map (Varz (SysVarz p.Float JetStream Gateway)))
      → Distinct cache
      → lookup id (fast_varz p JetStream Gateway carry cache varz)
        ≡ or_before (shown carry id (lookup id cache)) (lookup id varz)
  unfolding fast_varz lookup
  lookup-fast_varz carry id [] varz d = refl
  lookup-fast_varz carry id ((j, e) ∷ cache) varz d = elim (Bool-cases (str_eq j id)) [
    | inl h ↦
        let same : j ≡ id = (eq_iff j id).0 h in
        rw (← same) (rw (lookup-fast_varz carry j cache _ d.1, d.0, lookup-insert, eq_refl) refl)
    | inr h ↦ rw (lookup-fast_varz carry id cache _ d.1, lookup-insert, h) refl
  ]

  -- A field that the last snapshot has of a server.
  abbrev pub last_or :
      {A : Type 0}
      → A
      → (SysVarz p.Float JetStream Gateway → A)
      → Option (Varz (SysVarz p.Float JetStream Gateway))
      → A
  last_or default field none = default
  last_or default field (some v) = field v.other

  -- What is shown of a server that published those statistics, with what the last snapshot has of it.
  pub record IsShown (prev : Option (Varz (SysVarz p.Float JetStream Gateway)))
      (e : Entry p JetStream Gateway) (v : Varz (SysVarz p.Float JetStream Gateway)) : Type 0 where
    pub server_id : v.server_id ≡ e.server.id
    pub now : v.now ≡ e.server.time
    pub in_msgs : v.in_msgs ≡ e.stats.received_msgs
    pub out_msgs : v.out_msgs ≡ e.stats.sent_msgs
    pub in_bytes : v.in_bytes ≡ e.stats.received_bytes
    pub out_bytes : v.out_bytes ≡ e.stats.sent_bytes
    pub server_name : v.other.server_name ≡ e.server.name
    pub host : v.other.host ≡ e.server.host
    pub version : v.other.version ≡ e.server.version
    pub connections : v.other.connections ≡ e.stats.connections
    pub total_connections : v.other.total_connections ≡ e.stats.total_connections
    pub routes : v.other.routes ≡ e.stats.routes
    pub mem : v.other.mem ≡ e.stats.mem
    pub cpu : v.other.cpu ≡ e.stats.cpu
    pub cores : v.other.cores ≡ e.stats.cores
    pub subscriptions : v.other.subscriptions ≡ e.stats.num_subs
    pub slow_consumers : v.other.slow_consumers ≡ e.stats.slow_consumers
    pub start : v.other.start ≡ e.stats.start
    pub cluster_name : v.other.cluster_name ≡ e.server.cluster
    pub uptime : Says v.other.uptime ((e.server.time - e.stats.start) / 1000000000)
    pub jet_stream : v.other.jet_stream ≡ e.stats.jet_stream
    pub leafs : v.other.leafs ≡ last_or 0 (λ o. o.leafs) prev
    pub port : v.other.port ≡ last_or 0 (λ o. o.port) prev
    pub max_conn : v.other.max_conn ≡ last_or 0 (λ o. o.max_conn) prev
    pub go_version : v.other.go_version ≡ last_or "" (λ o. o.go_version) prev
    pub gateway : v.other.gateway ≡ last_or none (λ o. o.gateway) prev

  carry_varz-IsShown :
      (prev : Option (Varz (SysVarz p.Float JetStream Gateway))) (e : Entry p JetStream Gateway)
      → IsShown prev e (carry_varz p JetStream Gateway prev (statsz_to_varz p JetStream Gateway e))
  unfolding statsz_to_varz
  carry_varz-IsShown none e = record {
    server_id = refl;
    now = refl;
    in_msgs = refl;
    out_msgs = refl;
    in_bytes = refl;
    out_bytes = refl;
    server_name = refl;
    host = refl;
    version = refl;
    connections = refl;
    total_connections = refl;
    routes = refl;
    mem = refl;
    cpu = refl;
    cores = refl;
    subscriptions = refl;
    slow_consumers = refl;
    start = refl;
    cluster_name = refl;
    uptime = format_uptime-Says e.stats.start e.server.time;
    jet_stream = refl;
    leafs = refl;
    port = refl;
    max_conn = refl;
    go_version = refl;
    gateway = refl;
  }
  carry_varz-IsShown (some prev) e = record {
    server_id = refl;
    now = refl;
    in_msgs = refl;
    out_msgs = refl;
    in_bytes = refl;
    out_bytes = refl;
    server_name = refl;
    host = refl;
    version = refl;
    connections = refl;
    total_connections = refl;
    routes = refl;
    mem = refl;
    cpu = refl;
    cores = refl;
    subscriptions = refl;
    slow_consumers = refl;
    start = refl;
    cluster_name = refl;
    uptime = format_uptime-Says e.stats.start e.server.time;
    jet_stream = refl;
    leafs = refl;
    port = refl;
    max_conn = refl;
    go_version = refl;
    gateway = refl;
  }

  -- A server of the cache is shown, and no other.
  abbrev pub Shows :
      Option (Varz (SysVarz p.Float JetStream Gateway))
      → Option (Entry p JetStream Gateway)
      → Option (Varz (SysVarz p.Float JetStream Gateway))
      → Type 0
  Shows prev none o = o ≡ none
  Shows prev (some e) o =
      (v : Varz (SysVarz p.Float JetStream Gateway)) × (o ≡ some v) × IsShown prev e v

  shown-Shows :
      (carry : Snapshot (sys_payloads p JetStream Gateway)) (id : String)
      (o : Option (Entry p JetStream Gateway))
      → Shows (lookup id carry.varz) o (shown (some carry) id o)
  shown-Shows carry id none = refl
  shown-Shows carry id (some e) = (
    carry_varz p JetStream Gateway (lookup id carry.varz) (statsz_to_varz p JetStream Gateway e),
    refl,
    carry_varz-IsShown (lookup id carry.varz) e,
  )

  -- What a poll gives that asks no server: a snapshot of the cache, with the last slow poll's answers.
  pub record IsCarried (now : ℕ) (cache : Map (Entry p JetStream Gateway))
      (carry snap : Snapshot (sys_payloads p JetStream Gateway)) : Type 0 where
    pub timestamp : snap.timestamp ≡ some now
    pub varz : (id : String) → Shows (lookup id carry.varz) (lookup id cache) (lookup id snap.varz)
    pub routez : snap.routez ≡ carry.routez
    pub gatewayz : snap.gatewayz ≡ carry.gatewayz
    pub leafz : snap.leafz ≡ carry.leafz
    pub health : snap.health ≡ carry.health
    pub connz : snap.connz ≡ carry.connz
    pub subsz : snap.subsz ≡ carry.subsz
    pub js_info : snap.js_info ≡ carry.js_info
    pub accountz : snap.accountz ≡ carry.accountz
    pub server_urls : snap.server_urls ≡ carry.server_urls

  -- A fast poll does not flicker: over a connection, with servers in the cache, it gives a snapshot in which each
  -- server of the cache, and no other, has the statistics it published last, with the leaf count, port, limit,
  -- Go version and gateway that the last snapshot has for it, and the answers of the last slow poll are kept.
  pub sys_poll-IsCarried :
      (now : ℕ) (sc : SysCollector p JetStream Gateway) (pings : Bool → Pings p JetStream Gateway)
      (carry : Snapshot (sys_payloads p JetStream Gateway)) (up : Bool) (id : String)
      (e : Entry p JetStream Gateway)
      → sc.nc ≡ some up
      → Distinct sc.statsz
      → lookup id sc.statsz ≡ some e
      → (snap : Snapshot (sys_payloads p JetStream Gateway)) × (sys_poll p JetStream Gateway now sc
            pings
            (some carry)
            false
          ≡ some snap)
        × IsCarried now sc.statsz carry snap
  unfolding sys_poll
  sys_poll-IsCarried now sc pings carry up id e conn d h =
      let varz = fast_varz p JetStream Gateway (some carry) sc.statsz [] in
      let shown_e =
        carry_varz p JetStream Gateway (carried_of p JetStream Gateway (some carry) id)
          (statsz_to_varz p JetStream Gateway e) in
      let shows : lookup id varz ≡ some shown_e =
        lookup-fast_varz (some carry) id sc.statsz [] d ∙ rw h refl in
      (
        carry_forward p JetStream Gateway (some carry)
            (record (empty_snapshot {p = sys_payloads p JetStream Gateway} (some now)) {
              varz = varz;
            }),
        rw conn (rw (is_stocked id e sc.statsz h, is_stocked id shown_e varz shows) refl),
        record {
          timestamp = refl;
          varz = λ j.
              rw
                (lookup-fast_varz (some carry) j sc.statsz [] d
                  ∙ or_before-none (shown (some carry) j (lookup j sc.statsz)))
                (shown-Shows carry j (lookup j sc.statsz));
          routez = refl;
          gatewayz = refl;
          leafz = refl;
          health = refl;
          connz = refl;
          subsz = refl;
          js_info = refl;
          accountz = refl;
          server_urls = refl;
        },
      )
