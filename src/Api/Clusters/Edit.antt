-- ===== src/Api/Clusters/Edit.antt =====
-- internal/api/handlers_clusters.go: an edit sends back what the API showed, with blanks for the secrets.
use machmqtt_dashboard.Prelude.{
  ◌≡◌, ◌≢◌, refl, sym, inl, inr, ◌⊎◌, ◌∙◌, ap, List, [], ◌∷◌, map, Option, none, some, Bytes, arith,
  All, bytes_eq, bytes_eq_iff, bytes_eq_refl, get, put, get-put, ByteMap, Bool-cases, Option-cases,
}
use mathlib.Core.List.{map-map}
use machmqtt_dashboard.Urls.{Url, UrlLibrary}
use machmqtt_dashboard.Environments.{Server, MqttBridge, TlsConfig, NatsConnConfig, conn_urls}
use machmqtt_dashboard.Store.Clusters.{Cluster}
use machmqtt_dashboard.Api.Clusters.{
  ClusterRequest, ClusterView, NatsConnView, MqttBridgeView, redact_url_creds, restore_url_creds,
  graft, server_view, bridge_view, conn_view, to_cluster_view, sanitized_tls, sanitized_conn,
  sanitize_host_paths,
}
use machmqtt_dashboard.Api.Clusters.Handlers.{
  edited, merge_cluster_secrets, merge_conn, prev_tokens, with_token, with_tokens, or_blank,
  restored_server, restored_bridge,
}

-- What a client sends that changes nothing.
abbrev pub blank_bridge : MqttBridgeView → MqttBridge
blank_bridge v = record { name = v.name; url = v.url; bearer_token = [] }

abbrev pub blank_conn : Option NatsConnView → Option NatsConnConfig
blank_conn none = none
blank_conn (some v) = some (record {
  urls = v.urls;
  username = v.username;
  password = [];
  token = [];
  nkey = [];
  creds_file = [];
  subject_prefix = v.subject_prefix;
  sys_collection = v.sys_collection;
  tls = v.tls;
})

abbrev pub request_of : ClusterView → ClusterRequest
request_of v = record {
  name = v.name;
  servers = v.servers;
  mqtt_bridges = map blank_bridge v.mqtt_bridges;
  mqtt_discovery = v.mqtt_discovery;
  tls = v.tls;
  admin_token = [];
  nats_conn = blank_conn v.nats_conn;
}

map_of_All {ℓ} : {A : Type ℓ} (f : A → A) (xs : List A) → All (λ x. f x ≡ x) xs → map f xs ≡ xs
map_of_All f [] h = refl
map_of_All f (x ∷ xs) h = rw (h.0, map_of_All f xs h.1) refl

-- An element of a list.
abbrev Has : {A : Type 0} → A → List A → Type 0
Has a [] = ⊥
Has a (x ∷ xs) = (a ≡ x) ⊎ Has a xs

module _ (net : UrlLibrary) where
  -- The userinfo of a URL that parses.
  abbrev pub user_of : Option Url → Option Bytes
  user_of none = none
  user_of (some u) = u.user

  -- Two stored URLs of one host carry the same userinfo.
  abbrev pub SameCreds : Bytes → Bytes → Type 0
  SameCreds a b =
      (u v : Url) → net.parse a ≡ some u → net.parse b ≡ some v → u.host ≡ v.host → u.user ≡ v.user

  -- A stored URL, if it parses, is as it is printed, and can be read again without its userinfo.
  abbrev pub Canonical : Bytes → Type 0
  Canonical a =
      (u : Url)
      → net.parse a ≡ some u
      → (net.print u ≡ a)
        × (net.parse (net.print (record u { user = none })) ≡ some (record u { user = none }))

  pub record GoodUrls (urls : List Bytes) : Type 0 where
    pub canonical : All Canonical urls
    pub same_creds : All (λ a. All (SameCreds a) urls) urls

  graft-none :
      (incoming a : Bytes) (u : Url) (ps : List Bytes)
      → net.parse a ≡ some u
      → u.user ≡ none
      → All (SameCreds a) ps
      → graft net incoming u ps ≡ incoming
  unfolding graft
  graft-none incoming a u [] e n h = refl
  graft-none incoming a u (p ∷ ps) e n h = elim (Option-cases (net.parse p)) [
    | inl f ↦ rw f (graft-none incoming a u ps e n h.1)
    | inr (v, f) ↦ elim (Bool-cases (bytes_eq v.host u.host)) [
      | inl g ↦
          let same = h.0 u v e f (sym ((bytes_eq_iff v.host u.host).0 g)) in
          rw (f, g, ← same, n) (graft-none incoming a u ps e n h.1)
      | inr g ↦ rw (f, g) (graft-none incoming a u ps e n h.1)
    ]
  ]

  graft-some :
      (incoming a creds : Bytes) (u : Url) (ps : List Bytes)
      → net.parse a ≡ some u
      → u.user ≡ some creds
      → All (SameCreds a) ps
      → Has a ps
      → graft net incoming (record u { user = none }) ps ≡ net.print u
  unfolding graft
  graft-some incoming a creds u [] e n h m = elim m [ ]
  graft-some incoming a creds u (p ∷ ps) e n h m = elim (Option-cases (net.parse p)) [
    | inl f ↦ elim m [
      | inl same ↦ absurd (ground (arith, e, f, ap net.parse same))
      | inr rest ↦ rw f (graft-some incoming a creds u ps e n h.1 rest)
    ]
    | inr (v, f) ↦ elim (Bool-cases (bytes_eq v.host u.host)) [
      | inl g ↦
          let same = h.0 u v e f (sym ((bytes_eq_iff v.host u.host).0 g)) in
          rw (f, g, ← same, n) (ap net.print (ground (arith, n)))
      | inr g ↦ elim m [
        | inl same ↦ absurd (ground (arith, e, f, g, ap net.parse same, bytes_eq_refl u.host))
        | inr rest ↦ rw (f, g) (graft-some incoming a creds u ps e n h.1 rest)
      ]
    ]
  ]

  redact_none :
      (a : Bytes) (u : Url) → net.parse a ≡ some u → u.user ≡ none → redact_url_creds net a ≡ a
  unfolding redact_url_creds
  redact_none a u e n = ground arith

  redact_some :
      (a creds : Bytes) (u : Url)
      → net.parse a ≡ some u
      → u.user ≡ some creds
      → redact_url_creds net a ≡ net.print (record u { user = none })
  unfolding redact_url_creds
  redact_some a creds u e n = ground arith

  restore_none :
      (a : Bytes) (u : Url) (urls : List Bytes)
      → net.parse a ≡ some u
      → u.user ≡ none
      → restore_url_creds net a urls ≡ graft net a u urls
  unfolding restore_url_creds
  restore_none a u urls e n = ground arith

  restore-redact :
      (a : Bytes) (urls : List Bytes)
      → Canonical a
      → All (SameCreds a) urls
      → Has a urls
      → restore_url_creds net (redact_url_creds net a) urls ≡ a
  restore-redact a urls c h m = elim (Option-cases (net.parse a)) [
    | inl e ↦ unfold restore_url_creds redact_url_creds in ground (arith, e)
    | inr (u, e) ↦ elim (Option-cases u.user) [
      | inl n ↦ rw (redact_none a u e n, restore_none a u urls e n) (graft-none a a u urls e n h)
      | inr (creds, n) ↦
          let bare = net.print (record u { user = none }) in
          rw
            (
              redact_some a creds u e n,
              restore_none bare (record u { user = none }) urls (c u e).1 refl,
            )
            (graft-some bare a creds u urls e n h m ∙ (c u e).0)
    ]
  ]

All-Has : {A : Type 0} (P : A → Type 0) (a : A) (xs : List A) → All P xs → Has a xs → P a
All-Has P a [] h m = elim m [ ]
All-Has P a (x ∷ xs) h (inl e) = rw e h.0
All-Has P a (x ∷ xs) h (inr m) = All-Has P a xs h.1 m

all_of_Has : {A : Type 0} (P : A → Type 0) (xs : List A) → ((a : A) → Has a xs → P a) → All P xs
all_of_Has P [] h = tt
all_of_Has P (x ∷ xs) h = (h x (inl refl), all_of_Has P xs (λ a m. h a (inr m)))

Has-map : {A B : Type 0} (f : A → B) (a : A) (xs : List A) → Has a xs → Has (f a) (map f xs)
Has-map f a [] m = elim m [ ]
Has-map f a (x ∷ xs) (inl e) = inl (ap f e)
Has-map f a (x ∷ xs) (inr m) = inr (Has-map f a xs m)

-- Each bridge has a name of its own.
abbrev pub DistinctNames : List MqttBridge → Type 0
DistinctNames [] = Unit
DistinctNames (b ∷ bs) = All (λ c. c.name ≢ b.name) bs × DistinctNames bs

get-prev_tokens :
    (name : Bytes) (bs : List MqttBridge) (tokens : ByteMap Bytes)
    → All (λ c. c.name ≢ name) bs
    → get name (prev_tokens bs tokens) ≡ get name tokens
unfolding prev_tokens
get-prev_tokens name [] tokens h = refl
get-prev_tokens name (c ∷ bs) tokens h = ground (
  arith,
  get-prev_tokens name bs (put c.name c.bearer_token tokens) h.1,
  get-prev_tokens name bs tokens h.1,
  get-put c.name name c.bearer_token tokens,
  bytes_eq_iff c.name name,
  h.0,
)

token-prev_tokens :
    (b : MqttBridge) (bs : List MqttBridge) (tokens : ByteMap Bytes)
    → DistinctNames bs
    → Has b bs
    → get b.name tokens ≡ none
    → or_blank (get b.name (prev_tokens bs tokens)) ≡ b.bearer_token
unfolding prev_tokens
token-prev_tokens b [] tokens d m n = elim m [ ]
token-prev_tokens b (c ∷ bs) tokens d (inl e) n =
    let clear : get c.name tokens ≡ none = rw (← e) n in
    rw e (
      ground (
        arith,
        get-prev_tokens c.name bs (put c.name c.bearer_token tokens) d.0,
        get-prev_tokens c.name bs tokens d.0,
        get-put c.name c.name c.bearer_token tokens,
        bytes_eq_refl c.name,
      ))
token-prev_tokens b (c ∷ bs) tokens d (inr m) n =
    let other = All-Has (λ (x : MqttBridge). x.name ≢ c.name) b bs d.0 m in
    ground (
      arith,
      token-prev_tokens b bs (put c.name c.bearer_token tokens) d.1 m,
      token-prev_tokens b bs tokens d.1 m n,
      get-put c.name b.name c.bearer_token tokens,
      bytes_eq_iff c.name b.name,
    )

with_tokens_lem :
    (f : MqttBridge → MqttBridge) (bs : List MqttBridge)
    → with_tokens (map f bs) bs ≡ map (with_token (prev_tokens bs [])) (map f bs)
with_tokens_lem f [] = refl
with_tokens_lem f (b ∷ bs) = refl

module _ (net : UrlLibrary) where
  restore-redact_of :
      (urls : List Bytes) (a : Bytes)
      → GoodUrls net urls
      → Has a urls
      → restore_url_creds net (redact_url_creds net a) urls ≡ a
  restore-redact_of urls a g m =
      restore-redact net a urls (All-Has (Canonical net) a urls g.canonical m)
        (All-Has (λ b. All (SameCreds net b) urls) a urls g.same_creds m) m

  servers_back :
      (ss : List Server)
      → GoodUrls net (map (λ (s : Server). s.url) ss)
      → map (restored_server net ss) (map (server_view net) ss) ≡ ss
  servers_back ss g = rw map-map (
      map_of_All (λ (s : Server). restored_server net ss (server_view net s)) ss
        (all_of_Has _ ss λ s m.
          let back =
            restore-redact_of (map (λ (s : Server). s.url) ss) s.url g
              (Has-map (λ (s : Server). s.url) s ss m) in
          rw back refl))

  bridges_back :
      (bs : List MqttBridge)
      → GoodUrls net (map (λ (b : MqttBridge). b.url) bs)
      → DistinctNames bs
      → with_tokens (map (restored_bridge net bs) (map blank_bridge (map (bridge_view net) bs))) bs
        ≡ bs
  bridges_back bs g d =
      rw (map-map, map-map, with_tokens_lem, map-map)
        (map_of_All
          (λ (b : MqttBridge).
            with_token (prev_tokens bs [])
              (restored_bridge net bs (blank_bridge (bridge_view net b))))
          bs
          (all_of_Has _ bs λ b m.
            let back =
              restore-redact_of (map (λ (c : MqttBridge). c.url) bs) b.url g
                (Has-map (λ (c : MqttBridge). c.url) b bs m) in
            let token = token-prev_tokens b bs [] d m (unfold get in refl) in
            rw (back, token) refl))

  urls_back :
      (urls : List Bytes)
      → GoodUrls net urls
      → map (λ u. restore_url_creds net u urls) (map (redact_url_creds net) urls) ≡ urls
  urls_back urls g = rw map-map (
      map_of_All (λ (u : Bytes). restore_url_creds net (redact_url_creds net u) urls) urls
        (all_of_Has _ urls λ a m. restore-redact_of urls a g m))

  tls_back : (t : Option TlsConfig) → sanitized_tls t t ≡ some t
  unfolding sanitized_tls
  tls_back none = refl
  tls_back (some t) = ground (arith, bytes_eq_refl t.ca_file)

  conn_back :
      (n : Option NatsConnConfig)
      → GoodUrls net (conn_urls n)
      → (kept : Option NatsConnConfig) × (sanitized_conn (blank_conn (conn_view net n)) n
          ≡ some kept)
        × (merge_conn net kept n ≡ n)
  unfolding sanitized_conn
  conn_back none g = (none, refl, refl)
  conn_back (some n) g = (
    some (record n {
      urls = map (redact_url_creds net) n.urls;
      password = [];
      token = [];
      nkey = [];
    }),
    rw tls_back refl,
    rw (urls_back n.urls g) (ground arith),
  )

  -- Nothing is lost by an edit that changes nothing: a cluster is stored as it is, with all its secrets and
  -- files, when a client sends back what it was shown, with blanks for the secrets. For that, the stored URLs
  -- are printed as they were read, those of one host carry the same userinfo, and bridges have distinct names.
  pub edited-request_of :
      (c : Cluster)
      → GoodUrls net (map (λ (s : Server). s.url) c.servers)
      → GoodUrls net (map (λ (b : MqttBridge). b.url) c.mqtt_bridges)
      → DistinctNames c.mqtt_bridges
      → GoodUrls net (conn_urls c.nats_conn)
      → edited net c.id (some c) (request_of (to_cluster_view net c))
        ≡ some (record c { created_at = none })
  unfolding edited sanitize_host_paths merge_cluster_secrets to_cluster_view
  edited-request_of c gs gb d gn =
      let (kept, passes, back) = conn_back c.nats_conn gn in
      rw (tls_back c.tls, passes, servers_back c.servers gs, bridges_back c.mqtt_bridges gb d, back)
        refl
