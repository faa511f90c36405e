-- ===== src/Discovery/Groups.antt =====
-- internal/collector/mqtt_discovery.go: every connection of a bridge is counted in one group.
use machmqtt_dashboard.Prelude.{
  ℕ, ◌+◌, ◌≡◌, refl, ◌∙◌, inl, inr, ◌&&◌, if◌then◌else◌, List, [], ◌∷◌, Bool, true, false, Bytes,
  bytes_eq, bytes_eq_iff, ByteMap, arith, Bool-cases,
}
use machmqtt_dashboard.Discovery.{
  Conn, Scan, Group, is_group, is_mqtt_bridge_conn, resolve_bridge_ip, add_to_group, group_conns,
  group_servers, groups, matching_of, matching_conns,
}

unfoldable pub pool_total : List Group → ℕ
pool_total [] = 0
pool_total (g ∷ gs) = g.pool_conns + pool_total gs

pool_total-add_to_group :
    (server_id ip : Bytes) (c : Conn) (gs : List Group)
    → pool_total (add_to_group server_id ip c gs) ≡ pool_total gs + 1
unfolding pool_total add_to_group
pool_total-add_to_group server_id ip c [] = omega arith
pool_total-add_to_group server_id ip c (g ∷ gs) = elim (Bool-cases (is_group server_id ip g)) [
  | inl e ↦ rw e (omega arith)
  | inr e ↦ rw e (omega (arith, pool_total-add_to_group server_id ip c gs))
]

pool_total-group_conns :
    (s : Scan) (server_id : Bytes) (cs : List Conn) (gs : List Group)
    → pool_total (group_conns s server_id cs gs) ≡ pool_total gs + matching_of cs
unfolding group_conns matching_of
pool_total-group_conns s server_id [] gs = omega arith
pool_total-group_conns s server_id (c ∷ cs) gs = elim (Bool-cases (is_mqtt_bridge_conn c.name)) [
  | inl e ↦
      let ip = resolve_bridge_ip server_id c.ip s in
      rw e (
        omega (
          arith,
          pool_total-group_conns s server_id cs (add_to_group server_id ip c gs),
          pool_total-add_to_group server_id ip c gs,
        ))
  | inr e ↦ rw e (pool_total-group_conns s server_id cs gs)
]

pool_total-group_servers :
    (s : Scan) (servers : ByteMap (List Conn)) (gs : List Group)
    → pool_total (group_servers s servers gs) ≡ pool_total gs + matching_conns servers
unfolding group_servers matching_conns
pool_total-group_servers s [] gs = omega arith
pool_total-group_servers s ((server_id, cs) ∷ rest) gs = omega (
  arith,
  pool_total-group_servers s rest (group_conns s server_id cs gs),
  pool_total-group_conns s server_id cs gs,
)

-- A group of that server and address is there.
unfoldable pub has_group : Bytes → Bytes → List Group → Bool
has_group server_id ip [] = false
has_group server_id ip (g ∷ gs) =
    if is_group server_id ip g then true else has_group server_id ip gs

-- No two groups have the same server and address.
unfoldable pub IsDistinct : List Group → Type 0
IsDistinct [] = Unit
IsDistinct (g ∷ gs) = (has_group g.server_id g.ip gs ≡ false) × IsDistinct gs

has_group-add_to_group :
    (server_id ip other_id other_ip : Bytes) (c : Conn) (gs : List Group)
    → has_group other_id other_ip (add_to_group server_id ip c gs) ≡ (
        if bytes_eq server_id other_id && bytes_eq ip other_ip
        then true
        else has_group other_id other_ip gs)
unfolding has_group add_to_group
has_group-add_to_group server_id ip other_id other_ip c [] = refl
has_group-add_to_group server_id ip other_id other_ip c (g ∷ gs) = ground (
  arith,
  has_group-add_to_group server_id ip other_id other_ip c gs,
  bytes_eq_iff g.server_id server_id,
  bytes_eq_iff g.ip ip,
  bytes_eq_iff g.server_id other_id,
  bytes_eq_iff g.ip other_ip,
  bytes_eq_iff server_id other_id,
  bytes_eq_iff ip other_ip,
)

add_to_group-IsDistinct :
    (server_id ip : Bytes) (c : Conn) (gs : List Group)
    → IsDistinct gs
    → IsDistinct (add_to_group server_id ip c gs)
unfolding IsDistinct add_to_group has_group
add_to_group-IsDistinct server_id ip c [] d = (refl, tt)
add_to_group-IsDistinct server_id ip c (g ∷ gs) d = elim (Bool-cases (is_group server_id ip g)) [
  | inl e ↦ rw e d
  | inr e ↦ rw e (
    ground (
      arith,
      d.0,
      has_group-add_to_group server_id ip g.server_id g.ip c gs,
      bytes_eq_iff g.server_id server_id,
      bytes_eq_iff g.ip ip,
      bytes_eq_iff server_id g.server_id,
      bytes_eq_iff ip g.ip,
    ),
    add_to_group-IsDistinct server_id ip c gs d.1,
  )
]

group_conns-IsDistinct :
    (s : Scan) (server_id : Bytes) (cs : List Conn) (gs : List Group)
    → IsDistinct gs
    → IsDistinct (group_conns s server_id cs gs)
unfolding group_conns
group_conns-IsDistinct s server_id [] gs d = d
group_conns-IsDistinct s server_id (c ∷ cs) gs d = elim (Bool-cases (is_mqtt_bridge_conn c.name)) [
  | inl e ↦
      let ip = resolve_bridge_ip server_id c.ip s in
      rw e (
        group_conns-IsDistinct s server_id cs (add_to_group server_id ip c gs)
          (add_to_group-IsDistinct server_id ip c gs d))
  | inr e ↦ rw e (group_conns-IsDistinct s server_id cs gs d)
]

group_servers-IsDistinct :
    (s : Scan) (servers : ByteMap (List Conn)) (gs : List Group)
    → IsDistinct gs
    → IsDistinct (group_servers s servers gs)
unfolding group_servers
group_servers-IsDistinct s [] gs d = d
group_servers-IsDistinct s ((server_id, cs) ∷ rest) gs d =
    group_servers-IsDistinct s rest (group_conns s server_id cs gs)
      (group_conns-IsDistinct s server_id cs gs d)

zero_add : (n : ℕ) → 0 + n ≡ n
zero_add n = omega arith

-- The groups of a scan count every connection of a bridge once: no two are of the same server and address,
-- and their connections are in sum those that the scan is logged with.
pub groups-matching_conns :
    (s : Scan) → IsDistinct (groups s) × (pool_total (groups s) ≡ matching_conns s.connz)
unfolding IsDistinct pool_total
groups-matching_conns s = (
  group_servers-IsDistinct s s.connz [] tt,
  pool_total-group_servers s s.connz [] ∙ zero_add (matching_conns s.connz),
)
