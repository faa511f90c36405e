-- ===== src/Environments/Tests.antt =====
-- Runs and instances of internal/config/config.go.
use machmqtt_dashboard.Prelude.{
  ◌≡◌, refl, [], ◌∷◌, true, false, Option, none, some, Bytes, bytes_eq, codes, cut, if◌then◌else◌,
}
use machmqtt_dashboard.Environments.{
  Environment, TlsConfig, File, lower, host_from_url, discovery_trusted_hosts,
}
use machmqtt_dashboard.Environments.Hosts.{trusts, is_named, discovery_trusted_hosts-named}

-- The host before a colon, in place of `net.SplitHostPort`.
unfoldable pub before_colon : Bytes → Option Bytes
unfolding cut
before_colon s = elim (cut b':' s) [ none ↦ none | some (h, port) ↦ some h ]

abbrev pub shop : Environment
shop = record {
  name = codes "shop";
  servers = record { url = codes "http://Nats.Example:8222/varz" } ∷ [];
  mqtt_bridges = record { name = codes "b"; url = codes "10.0.0.5"; bearer_token = [] } ∷ [];
  mqtt_discovery = none;
  admin_token = codes "secret";
  tls = none;
  nats_conn = none;
}

server_host :
    lower (host_from_url before_colon (codes "http://Nats.Example:8222/varz"))
    ≡ codes "nats.example"
unfolding host_from_url cut before_colon
server_host = refl

discovery_trusted_hosts-named_example :
    trusts (discovery_trusted_hosts before_colon shop) (codes "10.0.0.5")
    ≡ is_named before_colon shop (codes "10.0.0.5")
discovery_trusted_hosts-named_example =
    discovery_trusted_hosts-named before_colon shop (codes "10.0.0.5")

abbrev pinned : TlsConfig
pinned = record { ca_file = codes "/ca.pem"; ca_pem = []; insecure = false }

abbrev one_file : Bytes → Option File
one_file path =
    if bytes_eq path (codes "/ca.pem")
    then some (record { is_regular = true; contents = codes "PEM" })
    else none
