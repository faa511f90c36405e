-- ===== src/Api/Clusters/Secrecy.antt =====
-- internal/api/handlers_clusters.go, `toClusterView`: secrets never leave the server.
use machmqtt_dashboard.Prelude.{
  ◌≡◌, refl, inl, inr, ◌⊎◌, List, [], ◌∷◌, map, Option, none, some, Bytes, ap,
}
use machmqtt_dashboard.Urls.{Url, UrlLibrary}
use machmqtt_dashboard.Environments.{Server, MqttBridge, NatsConnConfig, is_empty}
use machmqtt_dashboard.Store.Clusters.{Cluster}
use machmqtt_dashboard.Api.Clusters.{
  redact_url_creds, server_view, bridge_view, conn_view, to_cluster_view,
}

-- Two lists of one length, element by element.
abbrev pub Pointwise {ℓ} : {A : Type ℓ} → (A → A → Type 0) → List A → List A → Type 0
Pointwise R [] [] = Unit
Pointwise R [] (y ∷ ys) = ⊥
Pointwise R (x ∷ xs) [] = ⊥
Pointwise R (x ∷ xs) (y ∷ ys) = R x y × Pointwise R xs ys

map-Pointwise {ℓ κ} :
    {A : Type ℓ} {B : Type κ} (R : A → A → Type 0) (f : A → B)
    → ((x y : A) → R x y → f x ≡ f y)
    → (xs ys : List A) → Pointwise R xs ys
    → map f xs ≡ map f ys
map-Pointwise R f same [] [] h = refl
map-Pointwise R f same [] (y ∷ ys) h = elim h [ ]
map-Pointwise R f same (x ∷ xs) [] h = elim h [ ]
map-Pointwise R f same (x ∷ xs) (y ∷ ys) h =
    rw (same x y h.0, map-Pointwise R f same xs ys h.1) refl

-- A secret that is set or not set in both.
abbrev pub SecretAlike : Bytes → Bytes → Type 0
SecretAlike a b = is_empty a ≡ is_empty b

module _ (net : UrlLibrary) where
  -- Two URLs that differ in the userinfo alone.
  pub record DifferInCreds (a b : Bytes) : Type 0 where
    pub url : Url
    pub creds_a : Bytes
    pub creds_b : Bytes
    pub a_parses : net.parse a ≡ some (record url { user = some creds_a })
    pub b_parses : net.parse b ≡ some (record url { user = some creds_b })

  abbrev pub UrlAlike : Bytes → Bytes → Type 0
  UrlAlike a b = (a ≡ b) ⊎ DifferInCreds a b

  abbrev pub ServerAlike : Server → Server → Type 0
  ServerAlike a b = UrlAlike a.url b.url

  abbrev pub BridgeAlike : MqttBridge → MqttBridge → Type 0
  BridgeAlike a b =
      (a.name ≡ b.name) × UrlAlike a.url b.url × SecretAlike a.bearer_token b.bearer_token

  pub record ConnAlike (a b : NatsConnConfig) : Type 0 where
    pub urls : Pointwise UrlAlike a.urls b.urls
    pub username : a.username ≡ b.username
    pub subject_prefix : a.subject_prefix ≡ b.subject_prefix
    pub sys_collection : a.sys_collection ≡ b.sys_collection
    pub tls : a.tls ≡ b.tls
    pub password : SecretAlike a.password b.password
    pub token : SecretAlike a.token b.token
    pub nkey : SecretAlike a.nkey b.nkey
    pub creds_file : SecretAlike a.creds_file b.creds_file

  abbrev pub ConnsAlike : Option NatsConnConfig → Option NatsConnConfig → Type 0
  ConnsAlike none none = Unit
  ConnsAlike none (some b) = ⊥
  ConnsAlike (some a) none = ⊥
  ConnsAlike (some a) (some b) = ConnAlike a b

  -- Two clusters that differ in their secrets alone, and set the same ones.
  pub record ClusterAlike (c d : Cluster) : Type 0 where
    pub id : c.id ≡ d.id
    pub name : c.name ≡ d.name
    pub servers : Pointwise ServerAlike c.servers d.servers
    pub mqtt_bridges : Pointwise BridgeAlike c.mqtt_bridges d.mqtt_bridges
    pub mqtt_discovery : c.mqtt_discovery ≡ d.mqtt_discovery
    pub tls : c.tls ≡ d.tls
    pub admin_token : SecretAlike c.admin_token d.admin_token
    pub nats_conn : ConnsAlike c.nats_conn d.nats_conn
    pub created_at : c.created_at ≡ d.created_at

  redact_url_creds-alike :
      (a b : Bytes) → UrlAlike a b → redact_url_creds net a ≡ redact_url_creds net b
  unfolding redact_url_creds
  redact_url_creds-alike a b (inl e) = ap (redact_url_creds net) e
  redact_url_creds-alike a b (inr d) = rw (d.a_parses, d.b_parses) refl

  server_view-alike : (a b : Server) → ServerAlike a b → server_view net a ≡ server_view net b
  server_view-alike a b h = rw (redact_url_creds-alike a.url b.url h) refl

  bridge_view-alike : (a b : MqttBridge) → BridgeAlike a b → bridge_view net a ≡ bridge_view net b
  bridge_view-alike a b h = rw (redact_url_creds-alike a.url b.url h.1, h.0, h.2) refl

  conn_view-alike :
      (a b : Option NatsConnConfig) → ConnsAlike a b → conn_view net a ≡ conn_view net b
  conn_view-alike none none h = refl
  conn_view-alike none (some b) h = elim h [ ]
  conn_view-alike (some a) none h = elim h [ ]
  conn_view-alike (some a) (some b) h =
      let urls =
        map-Pointwise UrlAlike (redact_url_creds net) redact_url_creds-alike a.urls b.urls h.urls in
      cc (
        urls, h.username, h.subject_prefix, h.sys_collection, h.tls, h.password, h.token, h.nkey,
        h.creds_file,
      )

  -- Secrets never leave the server: what the API shows of a cluster is the same for any two clusters that
  -- differ only in the admin token, the bridges' tokens, the password, token, key and credentials file of the
  -- NATS connection, and the userinfo of URLs that parse with one, where both set the same of these.
  pub to_cluster_view-alike :
      (c d : Cluster) → ClusterAlike c d → to_cluster_view net c ≡ to_cluster_view net d
  unfolding to_cluster_view
  to_cluster_view-alike c d h =
      let servers =
        map-Pointwise ServerAlike (server_view net) server_view-alike c.servers d.servers
          h.servers in
      let bridges =
        map-Pointwise BridgeAlike (bridge_view net) bridge_view-alike c.mqtt_bridges d.mqtt_bridges
          h.mqtt_bridges in
      let conn = conn_view-alike c.nats_conn d.nats_conn h.nats_conn in
      cc
        (servers, bridges, conn, h.id, h.name, h.mqtt_discovery, h.tls, h.admin_token, h.created_at)
