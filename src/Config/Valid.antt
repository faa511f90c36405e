-- ===== src/Config/Valid.antt =====
-- internal/config/config.go: what a settings file has to say of its clusters.
use machmqtt_dashboard.Prelude.{
  ℕ, ◌≤◌, ◌≡◌, ◌≢◌, ◌↔◌, ◌⊎◌, refl, not, List, [], ◌∷◌, map, true, false, Option, none, some, Bytes,
  bytes_eq_iff, codes, is_some, All, arith,
}
use machmqtt_dashboard.Environments.{
  Environment, Server, MqttBridge, TlsConfig, is_empty, mqtt_discovery_ports, resolve_ca_file,
}
use machmqtt_dashboard.Urls.{Url}
use machmqtt_dashboard.Manager.{new_fetcher}
use machmqtt_dashboard.Config.{Platform}
use machmqtt_dashboard.Config.Checks.{is_http, is_http_url, is_port, is_seen}
use machmqtt_dashboard.Config.Clusters.{nats_conn_tls}

abbrev pub AllDistinct : List Bytes → Type 0
AllDistinct [] = Unit
AllDistinct (k ∷ ks) = All (λ l. l ≢ k) ks × AllDistinct ks

-- A blank port, or one that is looked up.
abbrev pub IsPort : Option ℕ → Type 0
IsPort none = ⊥
IsPort (some n) = (1 ≤ n) × (n ≤ 65535)

-- An address of a server or a bridge, without credentials, path, query and fragment.
abbrev pub IsAddress : Platform → Option Url → Type 0
IsAddress h none = ⊥
IsAddress h (some u) =
    (u.host ≢ [])
    × ((u.scheme ≡ codes "http") ⊎ (u.scheme ≡ codes "https"))
    × (u.user ≡ none)
    × (u.raw_query ≡ [])
    × (u.fragment ≡ [])
    × ((u.path ≡ []) ⊎ (u.path ≡ codes "/"))
    × ((h.port u ≡ []) ⊎ IsPort (h.lookup_port (h.port u)))

-- A TLS block whose certificates can be loaded, and then used.
abbrev pub IsLoadable : Platform → Option TlsConfig → Type 0
IsLoadable h tls =
    (t : Option TlsConfig) × (resolve_ca_file h.disk tls ≡ some t)
    × (new_fetcher h.is_usable t ≡ true)

pub record IsValid (h : Platform) (e : Environment) : Type 0 where
  pub name : e.name ≢ []
  pub servers : e.servers ≢ []
  pub addresses : All (λ (s : Server). IsAddress h (h.parse s.url)) e.servers
  pub distinct_addresses : AllDistinct (map (λ (s : Server). s.url) e.servers)
  pub bridges : All (λ (b : MqttBridge). (b.name ≢ []) × IsAddress h (h.parse b.url)) e.mqtt_bridges
  pub distinct_bridges : AllDistinct (map (λ (b : MqttBridge). b.name) e.mqtt_bridges)
  pub ports : All (λ n. (1 ≤ n) × (n ≤ 65535)) (mqtt_discovery_ports e)
  pub tls : IsLoadable h e.tls
  pub conn_tls : IsLoadable h (nats_conn_tls e.nats_conn)

-- Environments that are valid, under names of their own.
abbrev pub AreValid : Platform → List Environment → Type 0
AreValid h es = All (IsValid h) es × AllDistinct (map (λ (e : Environment). e.name) es)

module _ {ℓ} {A : Type ℓ} where
  pub is_empty_iff : (s : List A) → (is_empty s ≡ true) ↔ (s ≡ [])
  is_empty_iff [] = ground arith
  is_empty_iff (c ∷ cs) = ground arith

  pub not-is_empty_iff : (s : List A) → (not (is_empty s) ≡ true) ↔ (s ≢ [])
  not-is_empty_iff [] = ground arith
  not-is_empty_iff (c ∷ cs) = ground arith

is_port_iff : (o : Option ℕ) → (is_port o ≡ true) ↔ IsPort o
is_port_iff none = ground arith
is_port_iff (some n) = ground arith

not-is_some_iff : {A : Type 0} (o : Option A) → (not (is_some o) ≡ true) ↔ (o ≡ none)
not-is_some_iff none = ground arith
not-is_some_iff (some n) = ground arith

is_http_iff : (h : Platform) (o : Option Url) → (is_http h o ≡ true) ↔ IsAddress h o
is_http_iff h none = ground arith
is_http_iff h (some u) = ground (
  arith,
  not-is_empty_iff u.host,
  bytes_eq_iff u.scheme (codes "http"),
  bytes_eq_iff u.scheme (codes "https"),
  not-is_some_iff u.user,
  is_empty_iff u.raw_query,
  is_empty_iff u.fragment,
  is_empty_iff u.path,
  bytes_eq_iff u.path (codes "/"),
  is_empty_iff (h.port u),
  is_port_iff (h.lookup_port (h.port u)),
)

pub is_http_url_iff :
    (h : Platform) (raw : Bytes) → (is_http_url h raw ≡ true) ↔ IsAddress h (h.parse raw)
unfolding is_http_url
is_http_url_iff h raw = is_http_iff h (h.parse raw)

-- The names are new, and distinct.
abbrev pub IsFresh : List Bytes → List Bytes → Type 0
IsFresh seen ks = All (λ k. is_seen k seen ≡ false) ks × AllDistinct ks

is_seen-cons_iff :
    (k l : Bytes) (seen : List Bytes)
    → (is_seen l (k ∷ seen) ≡ false) ↔ ((l ≢ k) × (is_seen l seen ≡ false))
unfolding is_seen
is_seen-cons_iff k l seen = ground (arith, bytes_eq_iff k l)

All-is_seen_iff :
    (k : Bytes) (seen ks : List Bytes)
    → All (λ l. is_seen l (k ∷ seen) ≡ false) ks
      ↔ (All (λ l. l ≢ k) ks × All (λ l. is_seen l seen ≡ false) ks)
All-is_seen_iff k seen [] = (λ _. (tt, tt), λ _. tt)
All-is_seen_iff k seen (l ∷ ks) =
    let i = is_seen-cons_iff k l seen in
    let r = All-is_seen_iff k seen ks in
    (
      λ (a, all). (((i.0 a).0, (r.0 all).0), ((i.0 a).1, (r.0 all).1)),
      λ ((a, all), (b, bs)). (i.1 (a, b), r.1 (all, bs)),
    )

-- One round of a loop that refuses a name seen before.
pub IsFresh-cons_iff :
    (k : Bytes) (seen ks : List Bytes)
    → ((not (is_seen k seen) ≡ true) × IsFresh (k ∷ seen) ks) ↔ IsFresh seen (k ∷ ks)
IsFresh-cons_iff k seen ks =
    let r = All-is_seen_iff k seen ks in
    (
      λ (a, (all, d)). ((ground (arith, a), (r.0 all).1), ((r.0 all).0, d)),
      λ ((a, all), (d, ds)). (ground (arith, a), (r.1 (d, all), ds)),
    )

none_seen : (ks : List Bytes) → All (λ k. is_seen k [] ≡ false) ks
unfolding is_seen
none_seen [] = tt
none_seen (k ∷ ks) = (refl, none_seen ks)

pub IsFresh-nil : (ks : List Bytes) → AllDistinct ks → IsFresh [] ks
IsFresh-nil ks d = (none_seen ks, d)
