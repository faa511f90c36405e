-- ===== src/Environments/Hosts.antt =====
-- internal/config/config.go: which hosts the administrator's token may be sent to.
use machmqtt_dashboard.Prelude.{
  ◌≡◌, refl, ◌∙◌, ap, ◌||◌, ◌&&◌, not, if◌then◌else◌, List, [], ◌∷◌, map, Bool, true, false, Option,
  none, some, Bytes, bytes_eq, ByteMap, get, get-put, put, arith, Bool-cases,
}
use machmqtt_dashboard.Environments.{
  Environment, is_empty, lower, host_from_url, add_hosts, conn_urls, configured_hosts,
  discovery_trusted_hosts,
}

-- The host is one of the list, in any letter case.
abbrev pub is_among : Bytes → List Bytes → Bool
is_among h [] = false
is_among h (x ∷ xs) = (not (is_empty x) && bytes_eq (lower x) h) || is_among h xs

-- The host is one that the settings name: in the URL of a server, of a bridge or of the NATS connection,
-- or among the trusted hosts.
abbrev pub is_named : (Bytes → Option Bytes) → Environment → Bytes → Bool
is_named split_host_port e h =
    is_among h (configured_hosts e.mqtt_discovery)
    || (is_among h (map (host_from_url split_host_port) (conn_urls e.nats_conn))
        || (is_among h (map (λ b. host_from_url split_host_port b.url) e.mqtt_bridges)
            || is_among h (map (λ s. host_from_url split_host_port s.url) e.servers)))

abbrev pub trusts : ByteMap Bool → Bytes → Bool
trusts hosts h = elim (get h hosts) [ none ↦ false | some b ↦ b ]

trusts-put :
    (x h : Bytes) (hosts : ByteMap Bool)
    → trusts (put x true hosts) h ≡ (bytes_eq x h || trusts hosts h)
trusts-put x h hosts = ground (arith, get-put x h true hosts, Bool-cases (bytes_eq x h))

or_false : (b : Bool) → (b || false) ≡ b
or_false true = refl
or_false false = refl

trusts-add_host :
    (x h : Bytes) (xs : List Bytes) (hosts : ByteMap Bool)
    → (is_among h xs || trusts (if is_empty x then hosts else put (lower x) true hosts) h)
      ≡ (is_among h (x ∷ xs) || trusts hosts h)
trusts-add_host [] h xs hosts = refl
trusts-add_host (c ∷ cs) h xs hosts = ground (
  arith,
  trusts-put (lower (c ∷ cs)) h hosts,
  Bool-cases (is_among h xs),
  Bool-cases (bytes_eq (lower (c ∷ cs)) h),
)

trusts-add_hosts :
    (xs : List Bytes) (h : Bytes) (hosts : ByteMap Bool)
    → trusts (add_hosts xs hosts) h ≡ (is_among h xs || trusts hosts h)
unfolding add_hosts
trusts-add_hosts [] h hosts = refl
trusts-add_hosts (x ∷ xs) h hosts =
    trusts-add_hosts xs h (if is_empty x then hosts else put (lower x) true hosts)
    ∙ trusts-add_host x h xs hosts

-- The administrator's token may be sent to the hosts that the settings of the environment name, and to
-- no other: whatever the split of hosts and ports, a host is in the set of trusted ones exactly when it
-- is the lower-case host of one of the URLs or an entry of the list of trusted hosts.
pub discovery_trusted_hosts-named :
    (split_host_port : Bytes → Option Bytes) (e : Environment) (h : Bytes)
    → trusts (discovery_trusted_hosts split_host_port e) h ≡ is_named split_host_port e h
unfolding discovery_trusted_hosts get
discovery_trusted_hosts-named split_host_port e h =
    let host = host_from_url split_host_port in
    let servers = map (λ s. host s.url) e.servers in
    let bridges = map (λ b. host b.url) e.mqtt_bridges in
    let conns = map host (conn_urls e.nats_conn) in
    let named = configured_hosts e.mqtt_discovery in
    trusts-add_hosts named h (add_hosts conns (add_hosts bridges (add_hosts servers [])))
    ∙ ap (λ b. is_among h named || b)
        (trusts-add_hosts conns h (add_hosts bridges (add_hosts servers []))
          ∙ ap (λ b. is_among h conns || b)
              (trusts-add_hosts bridges h (add_hosts servers [])
                ∙ ap (λ b. is_among h bridges || b)
                    (trusts-add_hosts servers h [] ∙ or_false (is_among h servers))))
