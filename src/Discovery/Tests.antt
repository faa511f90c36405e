-- ===== src/Discovery/Tests.antt =====
-- Runs and instances of internal/collector/mqtt_discovery.go.
use machmqtt_dashboard.Prelude.{
  ℕ, ◌≡◌, refl, [], ◌∷◌, map, true, false, none, some, Bytes, bytes_eq, codes, All, put,
}
use machmqtt_dashboard.Environments.Tests.{before_colon, shop}
use machmqtt_dashboard.Discovery.{Conn, Scan}
use machmqtt_dashboard.Discovery.Probing.{Net, Outside, discover_for, discovery_host_trusted}
use machmqtt_dashboard.Discovery.Probes.{is_within, discover_for-is_within}

abbrev conn_from : Bytes → Bytes → Conn
conn_from name ip = record {
  name = name;
  ip = ip;
  num_subs = 1;
  in_msgs = 2;
  out_msgs = 3;
  in_bytes = 4;
  out_bytes = 5;
}

-- Two bridges, one of them on the server's machine, and a client of another kind.
abbrev two_bridges : Scan
two_bridges = record {
  connz =
      (
        codes "S1",
        conn_from (codes "machmqtt-bridge") (codes "127.0.0.1")
            ∷ conn_from (codes "machmqtt-pool-1") (codes "6.6.6.6")
            ∷ conn_from (codes "machmqtt-pool-2") (codes "6.6.6.6")
            ∷ conn_from (codes "nats-cli") (codes "7.7.7.7")
            ∷ [],
      )
      ∷ [];
  varz = [];
  server_urls = (codes "S1", codes "Nats.Example") ∷ [];
  timestamp = some 10;
}

abbrev plain_net : Net
plain_net = record {
  is_ip = λ h. true;
  is_loopback = λ h. bytes_eq h (codes "127.0.0.1");
  format_url = λ h port. h;
}

-- No probe is answered.
abbrev silence : Outside ℕ (Unit {0})
silence = record {
  fetch_status = λ p. tt;
  has_error = λ s. true;
  zero_rate = 0;
  per_second = λ d t. d;
  is_cancelled = λ s ip. false;
}

sent_tokens :
    map (λ p. p.token) (discover_for plain_net silence before_colon shop (some two_bridges) none).1
    ≡ codes "secret" ∷ [] ∷ []
unfolding discover_for before_colon discovery_host_trusted put
sent_tokens = refl

discover_for-is_within_example :
    All
      (λ p. is_within plain_net before_colon shop p ≡ true)
      (discover_for plain_net silence before_colon shop (some two_bridges) none).1
discover_for-is_within_example =
    discover_for-is_within plain_net silence before_colon shop (some two_bridges) none
