-- ===== src/Config/Loops.antt =====
-- internal/config/config.go, `validateEnvironments`: its inner loops accept what is valid, and nothing else.
use machmqtt_dashboard.Prelude.{
  ℕ, ◌≤◌, ◌≡◌, ◌≢◌, ◌↔◌, refl, not, List, [], ◌∷◌, map, true, Option, none, some, Bytes, All, arith,
}
use machmqtt_dashboard.Environments.{
  Environment, Server, MqttBridge, TlsConfig, NatsConnConfig, is_empty, mqtt_discovery_ports,
  resolve_ca_file,
}
use machmqtt_dashboard.Manager.{new_fetcher}
use machmqtt_dashboard.Config.{Platform}
use machmqtt_dashboard.Config.Checks.{require, is_http_url, is_seen}
use machmqtt_dashboard.Config.Clusters.{
  validate_servers, validate_bridges, are_ports, validate_tls, nats_conn_tls, with_conn_tls,
  validate_environment,
}
use machmqtt_dashboard.Config.Post.{Post, returns, ◌⟫◌, weaken, require-Post, self-Post}
use machmqtt_dashboard.Config.Valid.{
  IsAddress, IsLoadable, IsValid, IsFresh, not-is_empty_iff, is_http_url_iff, IsFresh-cons_iff,
  IsFresh-nil,
}

module _ (h : Platform) where
  servers_sound :
      (urls : List Bytes) (ss : List Server)
      → Post
          (λ _.
            All (λ (s : Server). IsAddress h (h.parse s.url)) ss
            × IsFresh urls (map (λ (s : Server). s.url) ss))
          (validate_servers h urls ss)
  unfolding validate_servers
  servers_sound urls [] = returns (tt, (tt, tt))
  servers_sound urls (s ∷ ss) = require-Post (is_http_url h s.url) ⟫ λ _ a.
      require-Post (not (is_seen s.url urls)) ⟫ λ _ b.
      weaken
        (λ _ (c, d). (
          ((is_http_url_iff h s.url).0 a, c),
          (IsFresh-cons_iff s.url urls (map (λ (s : Server). s.url) ss)).0 (b, d),
        ))
        (servers_sound (s.url ∷ urls) ss)

  servers_complete :
      (urls : List Bytes) (ss : List Server)
      → All (λ (s : Server). IsAddress h (h.parse s.url)) ss
      → IsFresh urls (map (λ (s : Server). s.url) ss)
      → validate_servers h urls ss ≡ some tt
  unfolding validate_servers require
  servers_complete urls [] a f = refl
  servers_complete urls (s ∷ ss) a f =
      let k = (IsFresh-cons_iff s.url urls (map (λ (s : Server). s.url) ss)).1 f in
      rw ((is_http_url_iff h s.url).1 a.0, k.0, servers_complete (s.url ∷ urls) ss a.1 k.1) refl

  bridges_sound :
      (names : List Bytes) (bs : List MqttBridge)
      → Post
          (λ _.
            All (λ (b : MqttBridge). (b.name ≢ []) × IsAddress h (h.parse b.url)) bs
            × IsFresh names (map (λ (b : MqttBridge). b.name) bs))
          (validate_bridges h names bs)
  unfolding validate_bridges
  bridges_sound names [] = returns (tt, (tt, tt))
  bridges_sound names (b ∷ bs) = require-Post (not (is_empty b.name)) ⟫ λ _ n.
      require-Post (not (is_seen b.name names)) ⟫ λ _ f. require-Post (is_http_url h b.url) ⟫ λ _ a.
      weaken
        (λ _ (c, d). (
          (((not-is_empty_iff b.name).0 n, (is_http_url_iff h b.url).0 a), c),
          (IsFresh-cons_iff b.name names (map (λ (b : MqttBridge). b.name) bs)).0 (f, d),
        ))
        (bridges_sound (b.name ∷ names) bs)

  bridges_complete :
      (names : List Bytes) (bs : List MqttBridge)
      → All (λ (b : MqttBridge). (b.name ≢ []) × IsAddress h (h.parse b.url)) bs
      → IsFresh names (map (λ (b : MqttBridge). b.name) bs)
      → validate_bridges h names bs ≡ some tt
  unfolding validate_bridges require
  bridges_complete names [] a f = refl
  bridges_complete names (b ∷ bs) a f =
      let k = (IsFresh-cons_iff b.name names (map (λ (b : MqttBridge). b.name) bs)).1 f in
      rw
        (
          (not-is_empty_iff b.name).1 a.0.0,
          k.0,
          (is_http_url_iff h b.url).1 a.0.1,
          bridges_complete (b.name ∷ names) bs a.1 k.1,
        )
        refl

are_ports_iff : (ns : List ℕ) → (are_ports ns ≡ true) ↔ All (λ n. (1 ≤ n) × (n ≤ 65535)) ns
unfolding are_ports
are_ports_iff [] = (λ _. tt, λ _. refl)
are_ports_iff (n ∷ ns) = ground (arith, are_ports_iff ns)

module _ (h : Platform) where
  tls_sound :
      (tls : Option TlsConfig)
      → Post
          (λ t.
            ((resolve_ca_file h.disk tls ≡ some t) × (new_fetcher h.is_usable t ≡ true))
            × IsLoadable h tls)
          (validate_tls h tls)
  unfolding validate_tls
  tls_sound tls = self-Post (resolve_ca_file h.disk tls) ⟫ λ t e.
      require-Post (new_fetcher h.is_usable t) ⟫ λ _ u. returns ((e, u), (t, e, u))

  tls_complete :
      (tls : Option TlsConfig)
      → IsLoadable h tls
      → (t : Option TlsConfig) × (validate_tls h tls ≡ some t)
  unfolding validate_tls require
  tls_complete tls (t, e, u) = (t, rw (e, u) refl)

  -- A TLS block as it was, with its certificates loaded and usable.
  abbrev pub IsLoaded : Option TlsConfig → Option TlsConfig → Type 0
  IsLoaded tls loaded =
      (resolve_ca_file h.disk tls ≡ some loaded) × (new_fetcher h.is_usable loaded ≡ true)

  abbrev pub IsConnLoaded : Option NatsConnConfig → Option NatsConnConfig → Type 0
  IsConnLoaded none none = Unit
  IsConnLoaded (some n) (some m) = (m ≡ record n { tls = m.tls }) × IsLoaded n.tls m.tls
  IsConnLoaded _ _ = ⊥

  -- What an accepted environment becomes: as it was, with its certificates.
  abbrev pub IsRunnable : Environment → Environment → Type 0
  IsRunnable e valid =
      (valid ≡ record e { tls = valid.tls; nats_conn = valid.nats_conn })
      × IsLoaded e.tls valid.tls
      × IsConnLoaded e.nats_conn valid.nats_conn

  with_conn_tls-IsConnLoaded :
      (n : Option NatsConnConfig) (tls : Option TlsConfig)
      → IsLoaded (nats_conn_tls n) tls
      → IsConnLoaded n (with_conn_tls n tls)
  with_conn_tls-IsConnLoaded none tls l = tt
  with_conn_tls-IsConnLoaded (some n) tls l = (refl, l)

  pub environment_sound :
      (e : Environment)
      → e.name ≢ []
      → Post (λ valid. IsRunnable e valid × IsValid h e) (validate_environment h e)
  unfolding validate_environment
  environment_sound e n = require-Post (not (is_empty e.servers)) ⟫ λ _ some_servers.
      servers_sound h [] e.servers ⟫ λ _ s. bridges_sound h [] e.mqtt_bridges ⟫ λ _ b.
      require-Post (are_ports (mqtt_discovery_ports e)) ⟫ λ _ p. tls_sound e.tls ⟫ λ _ t.
      tls_sound (nats_conn_tls e.nats_conn) ⟫ λ conn c. returns (
        (refl, t.0, with_conn_tls-IsConnLoaded e.nats_conn conn c.0),
        record {
          name = n;
          servers = (not-is_empty_iff e.servers).0 some_servers;
          addresses = s.0;
          distinct_addresses = s.1.1;
          bridges = b.0;
          distinct_bridges = b.1.1;
          ports = (are_ports_iff (mqtt_discovery_ports e)).0 p;
          tls = t.1;
          conn_tls = c.1;
        },
      )

  pub environment_complete :
      (e : Environment)
      → IsValid h e
      → (valid : Environment) × (validate_environment h e ≡ some valid)
  unfolding validate_environment require
  environment_complete e v =
      let (tls, t) = tls_complete e.tls v.tls in
      let (conn, c) = tls_complete (nats_conn_tls e.nats_conn) v.conn_tls in
      (
        record e { tls = tls; nats_conn = with_conn_tls e.nats_conn conn },
        rw
            (
              (not-is_empty_iff e.servers).1 v.servers,
              servers_complete h [] e.servers v.addresses (IsFresh-nil _ v.distinct_addresses),
              bridges_complete h [] e.mqtt_bridges v.bridges (IsFresh-nil _ v.distinct_bridges),
              (are_ports_iff (mqtt_discovery_ports e)).1 v.ports,
              t,
              c,
            )
            refl,
      )
