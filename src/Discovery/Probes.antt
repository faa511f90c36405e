-- ===== src/Discovery/Probes.antt =====
-- internal/collector/mqtt_discovery.go: to whom the administrator's token goes.
use machmqtt_dashboard.Prelude.{
  ℕ, ◌≡◌, refl, inl, inr, ◌&&◌, ◌||◌, if◌then◌else◌, List, [], ◌∷◌, ◌++◌, Bool, true, Option, none,
  some, Bytes, codes, bytes_eq, ByteMap, All, Bool-cases,
}
use machmqtt_dashboard.Environments.{
  Environment, is_empty, lower, mqtt_discovery_ports, resolve_bridge_token, discovery_trusted_hosts,
}
use machmqtt_dashboard.Environments.Hosts.{is_named, discovery_trusted_hosts-named}
use machmqtt_dashboard.Discovery.{Scan, Group, groups}
use machmqtt_dashboard.Discovery.Probing.{
  Net, Probe, Instance, Outside, discovery_host_trusted, probe_ports, probe_token, probe_url,
  probe_groups, new_instance, discover_mqtt_bridges, discover_for, elapsed, prev_timestamp,
  prev_groups,
}

-- The probe has no token, or its host is trusted.
abbrev pub is_safe : Net → ByteMap Bool → Probe → Bool
is_safe net trusted p = is_empty p.token || discovery_host_trusted net p.host trusted

-- The probe has no token, or its host is the machine itself or one that the settings name.
abbrev pub is_within : Net → (Bytes → Option Bytes) → Environment → Probe → Bool
is_within net split_host_port env p =
    is_empty p.token
    || ((net.is_ip p.host && net.is_loopback p.host)
        || (bytes_eq (lower p.host) (codes "localhost")
            || is_named split_host_port env (lower p.host)))

All-append :
    (q : Probe → Bool) (xs ys : List Probe)
    → All (λ p. q p ≡ true) xs
    → All (λ p. q p ≡ true) ys
    → All (λ p. q p ≡ true) (xs ++ ys)
All-append q [] ys h k = k
All-append q (x ∷ xs) ys (h, hs) k = (h, All-append q xs ys hs k)

module _ {Float Status : Type 0} (net : Net) (o : Outside Float Status) where
  safe_token :
      (trusted : ByteMap Bool) (admin_token host : Bytes)
      → (is_empty (probe_token net o admin_token trusted host)
          || discovery_host_trusted net host trusted)
        ≡ true
  safe_token trusted [] host = refl
  safe_token trusted (c ∷ cs) host = elim (Bool-cases (discovery_host_trusted net host trusted)) [
    | inl e ↦ rw e refl
    | inr e ↦ rw e refl
  ]

  safe_ports :
      (trusted : ByteMap Bool) (token : Bytes) (ports : List ℕ) (inst : Instance Float Status)
      → (is_empty token || discovery_host_trusted net inst.group.ip trusted) ≡ true
      → All (λ p. is_safe net trusted p ≡ true) (probe_ports net o token ports inst).1
  unfolding probe_ports
  safe_ports trusted token [] inst h = tt
  safe_ports trusted token (port ∷ ports) inst h =
      elim (Bool-cases (
        o.has_error (
          o.fetch_status (record {
            host = inst.group.ip;
            url = probe_url net inst.group.ip port;
            token = token;
          })))) [ inl e ↦ rw e (h, safe_ports trusted token ports inst h) | inr e ↦ rw e (h, tt) ]

  safe_groups :
      (make : Group → Instance Float Status) (ports : List ℕ) (admin_token : Bytes)
      (trusted : ByteMap Bool) (gs : List Group)
      → ((g : Group) → (make g).group ≡ g)
      → All
          (λ p. is_safe net trusted p ≡ true)
          (probe_groups net o make ports admin_token trusted gs).1
  unfolding probe_groups
  safe_groups make ports admin_token trusted [] same = tt
  safe_groups make ports admin_token trusted (g ∷ gs) same =
      let rest = safe_groups make ports admin_token trusted gs same in
      elim (Bool-cases (o.is_cancelled g.server_id g.ip)) [
        | inl e ↦ rw e rest
        | inr e ↦ rw e (
            All-append (is_safe net trusted)
              (probe_ports net o (probe_token net o admin_token trusted g.ip) ports (make g)).1
              (probe_groups net o make ports admin_token trusted gs).1
              (safe_ports trusted (probe_token net o admin_token trusted g.ip) ports (make g)
                (rw (same g) (safe_token trusted admin_token g.ip)))
              rest)
      ]

  safe_discovery :
      (snap prev : Option Scan) (ports : List ℕ) (admin_token : Bytes) (trusted : ByteMap Bool)
      → All
          (λ p. is_safe net trusted p ≡ true)
          (discover_mqtt_bridges net o snap prev ports admin_token trusted).1
  unfolding discover_mqtt_bridges new_instance
  safe_discovery none prev ports admin_token trusted = tt
  safe_discovery (some s) prev ports admin_token trusted =
      safe_groups
        (new_instance net o s (elapsed s.timestamp (prev_timestamp net o prev))
          (prev_groups net o prev))
        (if is_empty ports then 8080 ∷ [] else ports) admin_token trusted (groups s) (λ g. refl)

  is_within-is_safe :
      (split_host_port : Bytes → Option Bytes) (env : Environment) (ps : List Probe)
      → All (λ p. is_safe net (discovery_trusted_hosts split_host_port env) p ≡ true) ps
      → All (λ p. is_within net split_host_port env p ≡ true) ps
  unfolding discovery_host_trusted
  is_within-is_safe split_host_port env [] h = tt
  is_within-is_safe split_host_port env (p ∷ ps) (h, hs) = (
    rw (discovery_trusted_hosts-named split_host_port env (lower p.host)) at h,
    is_within-is_safe split_host_port env ps hs,
  )

  -- The administrator's token never leaves for an unknown host: every probe that discovery sends, whatever
  -- connections the servers report and whatever the probes answer, is without a token, or goes to the
  -- machine itself, or to a host that the environment's settings name.
  pub discover_for-is_within :
      (split_host_port : Bytes → Option Bytes) (env : Environment) (snap prev : Option Scan)
      → All
          (λ p. is_within net split_host_port env p ≡ true)
          (discover_for net o split_host_port env snap prev).1
  unfolding discover_for
  discover_for-is_within split_host_port env snap prev =
      is_within-is_safe split_host_port env (discover_for net o split_host_port env snap prev).1 (
        safe_discovery snap prev (mqtt_discovery_ports env) (resolve_bridge_token env [])
          (discovery_trusted_hosts split_host_port env))
