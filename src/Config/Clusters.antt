-- ===== src/Config/Clusters.antt =====
-- internal/config/config.go, `validateEnvironments`: the clusters of the settings file, with their certificates
-- loaded. Of the order of the checks only the text of an error would tell. A port below zero stands as 0.
use machmqtt_dashboard.Prelude.{
  ℕ, ◌&&◌, not, leb, List, [], ◌∷◌, Bool, true, Option, none, some, Bytes, ◌>>=◌,
}
use machmqtt_dashboard.Environments.{
  Environment, Server, MqttBridge, TlsConfig, NatsConnConfig, is_empty, mqtt_discovery_ports,
  resolve_ca_file,
}
use machmqtt_dashboard.Manager.{new_fetcher}
use machmqtt_dashboard.Config.{Platform}
use machmqtt_dashboard.Config.Checks.{require, ◌>>◌, is_seen, is_http_url}

-- The loop over the servers, with the URLs seen before.
unfoldable pub validate_servers : Platform → List Bytes → List Server → Option (Unit {0})
unfolding require is_seen is_http_url
validate_servers h urls [] = some tt
validate_servers h urls (s ∷ ss) = do
  require (is_http_url h s.url)
  require (not (is_seen s.url urls))
  validate_servers h (s.url ∷ urls) ss

-- The loop over the bridges, with the names seen before.
unfoldable pub validate_bridges : Platform → List Bytes → List MqttBridge → Option (Unit {0})
unfolding require is_seen is_http_url
validate_bridges h names [] = some tt
validate_bridges h names (b ∷ bs) = do
  require (not (is_empty b.name))
  require (not (is_seen b.name names))
  require (is_http_url h b.url)
  validate_bridges h (b.name ∷ names) bs

unfoldable pub are_ports : List ℕ → Bool
are_ports [] = true
are_ports (n ∷ ns) = (leb 1 n && leb n 65535) && are_ports ns

-- `ResolveCAFile` and then `CertPool`.
unfoldable pub validate_tls : Platform → Option TlsConfig → Option (Option TlsConfig)
unfolding require resolve_ca_file
validate_tls h tls = do
  loaded ← resolve_ca_file h.disk tls
  require (new_fetcher h.is_usable loaded)
  some loaded

-- `natsConnTLS`
abbrev pub nats_conn_tls : Option NatsConnConfig → Option TlsConfig
nats_conn_tls none = none
nats_conn_tls (some n) = n.tls

abbrev pub with_conn_tls : Option NatsConnConfig → Option TlsConfig → Option NatsConnConfig
with_conn_tls none tls = none
with_conn_tls (some n) tls = some (record n { tls = tls })

-- What the loop does with an environment besides its name.
unfoldable pub validate_environment : Platform → Environment → Option Environment
unfolding require validate_servers validate_bridges are_ports validate_tls
validate_environment h e = do
  require (not (is_empty e.servers))
  validate_servers h [] e.servers
  validate_bridges h [] e.mqtt_bridges
  require (are_ports (mqtt_discovery_ports e))
  tls ← validate_tls h e.tls
  conn_tls ← validate_tls h (nats_conn_tls e.nats_conn)
  some (record e { tls = tls; nats_conn = with_conn_tls e.nats_conn conn_tls })

-- The loop over the environments, with the names seen before.
unfoldable pub validate_each : Platform → List Bytes → List Environment → Option (List Environment)
unfolding require is_seen validate_environment
validate_each h names [] = some []
validate_each h names (e ∷ es) = do
  require (not (is_empty e.name))
  require (not (is_seen e.name names))
  valid ← validate_environment h e
  rest ← validate_each h (e.name ∷ names) es
  some (valid ∷ rest)

-- `validateEnvironments`
abbrev pub validate_environments : Platform → List Environment → Option (List Environment)
validate_environments h = validate_each h []
