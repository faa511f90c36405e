-- ===== src/Collector/Health.antt =====
-- internal/collector/collector.go: the health of one cluster's collection, and the reason shown for it.
use machmqtt_dashboard.Prelude.{
  ℕ, ◌+◌, ◌-◌, ◌*◌, ◌≤◌, ◌≡◌, refl, inl, inr, ◌&&◌, ◌||◌, not, ltb, leb, if◌then◌else◌, [], ◌∷◌,
  ◌++◌, Bool, true, false, Option, none, some, Map, lookup, length, Bytes, codes, arith, Bool-cases,
}
use machmqtt_dashboard.Environments.{is_empty}
use machmqtt_dashboard.Collector.{Varz, Payloads, Collector}

-- What `Health` reads besides the state of a poll. An interval that is not positive is zero here.
pub record Links : Type 0 where
  pub name : Bytes
  pub interval : ℕ
  pub has_subscriber : Bool
  pub sys_connected : Bool
  pub subscriber_connected : Bool

-- `ClusterHealth`, with the age in nanoseconds.
pub record ClusterHealth : Type 0 where
  pub name : Bytes
  pub last_poll_age : ℕ
  pub servers : ℕ
  pub healthy_servers : ℕ
  pub collection_mode : Bytes
  pub sys_fallback_engaged : Bool
  pub nats_push_configured : Bool
  pub nats_push_connected : Bool
  pub stale : Bool

unfoldable pub degraded : ClusterHealth → Bool
degraded h =
    h.stale || (h.sys_fallback_engaged || (h.nats_push_configured && not h.nats_push_connected))

-- The argument is `%.0f` of the age in seconds.
unfoldable pub degraded_reason : (ℕ → Bytes) → ClusterHealth → Bytes
degraded_reason seconds h =
    if h.stale
    then codes "Data stale — last poll " ++ seconds h.last_poll_age ++ codes "s ago"
    else if h.sys_fallback_engaged
    then codes "Using HTTP fallback ($SYS unavailable)"
    else if h.nats_push_configured && not h.nats_push_connected
    then codes "NATS push metrics connection is down"
    else []

-- The interval that staleness is measured against.
abbrev pub poll_interval : ℕ → ℕ
poll_interval interval = if leb interval 0 then 30000000000 else interval

abbrev pub age_of : ℕ → Option ℕ → ℕ
age_of now none = 0
age_of now (some t) = now - t

abbrev pub is_stale_since : ℕ → ℕ → Option ℕ → Bool
is_stale_since interval now none = false
is_stale_since interval now (some t) = ltb (3 * poll_interval interval) (now - t)

abbrev pub mode_of : Bool → Bool → Bytes
mode_of true false = codes "sys"
mode_of true true = codes "sys-fallback"
mode_of false fell_back = codes "http"

degraded-reason :
    (seconds : ℕ → Bytes) (h : ClusterHealth)
    → degraded h ≡ not (is_empty (degraded_reason seconds h))
unfolding degraded degraded_reason
degraded-reason seconds h = elim (Bool-cases h.stale) [
  | inl e ↦ rw e refl
  | inr e ↦ elim (Bool-cases h.sys_fallback_engaged) [
    | inl f ↦ rw (e, f) refl
    | inr f ↦ elim (Bool-cases (h.nats_push_configured && not h.nats_push_connected)) [
      | inl g ↦ rw (e, f, g) refl
      | inr g ↦ rw (e, f, g) refl
    ]
  ]
]

module _ (p : Payloads) (is_ok : p.HealthStatus → Bool) where
  abbrev pub or_healthy : Option p.HealthStatus → Bool
  or_healthy none = true
  or_healthy (some s) = is_ok s

  -- A server without a health status counts as healthy.
  unfoldable pub healthy_count : Map p.HealthStatus → Map (Varz p.VarzRest) → ℕ
  unfolding lookup
  healthy_count statuses [] = 0
  healthy_count statuses ((id, v) ∷ rest) =
      let others = healthy_count statuses rest in
      if or_healthy (lookup id statuses) then others + 1 else others

  unfoldable pub health : ℕ → Links → Collector p → ClusterHealth
  unfolding healthy_count
  health now l c =
      let snap = c.snapshot in
      record {
        name = l.name;
        last_poll_age = age_of now snap.timestamp;
        servers = length snap.varz;
        healthy_servers = healthy_count snap.health snap.varz;
        collection_mode = mode_of c.has_sys c.sys_fell_back;
        sys_fallback_engaged = c.sys_fell_back;
        nats_push_configured = c.has_sys || l.has_subscriber;
        nats_push_connected =
            (c.has_sys && l.sys_connected) || (l.has_subscriber && l.subscriber_connected);
        stale = is_stale_since l.interval now snap.timestamp;
      }

  healthy_count-le :
      (statuses : Map p.HealthStatus) (varz : Map (Varz p.VarzRest))
      → healthy_count statuses varz ≤ length varz
  unfolding healthy_count
  healthy_count-le statuses [] = omega arith
  healthy_count-le statuses ((id, v) ∷ rest) =
      ground (arith, healthy_count-le statuses rest, Bool-cases (or_healthy (lookup id statuses)))

  -- The badge says why exactly when there is something to say: the health of a collector has a reason just
  -- when it is degraded, and it counts no more healthy servers than there are.
  pub health-degraded :
      (seconds : ℕ → Bytes) (now : ℕ) (l : Links) (c : Collector p)
      → (degraded (health now l c) ≡ not (is_empty (degraded_reason seconds (health now l c))))
        × ((health now l c).healthy_servers ≤ (health now l c).servers)
  unfolding health
  health-degraded seconds now l c =
      (degraded-reason seconds (health now l c), healthy_count-le c.snapshot.health c.snapshot.varz)
