-- ===== src/Store/Clusters/Tests.antt =====
-- Runs and instances of internal/store/clusters.go.
use machmqtt_dashboard.Prelude.{ℕ, ◌≡◌, refl, [], ◌∷◌, true, false, none, some, codes, arith}
use machmqtt_dashboard.Environments.{resolve_ca_file}
use machmqtt_dashboard.Environments.Tests.{shop}
use machmqtt_dashboard.Store.Clusters.{
  Cluster, ClusterDb, Codec, Outside, cluster_from_environment, done, scan_cluster,
}
use machmqtt_dashboard.Store.Clusters.Methods.{Draw, create_cluster, get_cluster, delete_cluster}
use machmqtt_dashboard.Store.Clusters.Listing.{seed_clusters}
use machmqtt_dashboard.Store.Clusters.Cascade.{Deleted, delete_cluster-Deleted}
use machmqtt_dashboard.Store.Clusters.Known.{names_of, all_known}
use machmqtt_dashboard.Store.Clusters.Seeding.{seed_clusters-again}
use machmqtt_dashboard.Store.Clusters.RoundTrip.{Reads, create_cluster-get}

-- JSON of one value only.
abbrev only : {A : Type 0} → A → Codec A
only a = record { marshal = λ b. some (codes "{}"); unmarshal = λ text. some a }

only-Reads : {A : Type 0} (a : A) → Reads (only a) a
only-Reads a text h = (refl, ground (arith, h))

abbrev pub machine : Outside
machine = record {
  servers = only shop.servers;
  bridges = only shop.mqtt_bridges;
  discovery = record { marshal = λ d. none; unmarshal = λ text. none };
  tls = record { marshal = λ t. none; unmarshal = λ text. none };
  nats_conn = record { marshal = λ n. none; unmarshal = λ text. none };
  disk = λ path. none;
  is_failing = λ table. false;
}

abbrev pub empty : ClusterDb
empty = record { clusters = []; data_of = λ table. record { env = "c1"; payload = 1 } ∷ [] }

abbrev pub draw : ℕ → Draw
draw n = record { id = some "c1"; now = 5 }

abbrev stored : Cluster
stored = record (cluster_from_environment shop) { id = "c1"; created_at = some 5 }

create_cluster-get_example :
    get_cluster machine "c1"
      (create_cluster machine (draw 0) (cluster_from_environment shop) empty).0
    ≡ done stored
unfolding create_cluster resolve_ca_file
create_cluster-get_example =
    create_cluster-get machine (draw 0) (cluster_from_environment shop) stored empty
      (record {
        servers = only-Reads shop.servers;
        bridges = only-Reads shop.mqtt_bridges;
        discovery = tt;
        tls = tt;
        nats_conn = tt;
        loaded = refl;
        conn_loaded = refl;
      })
      refl

abbrev with_shop : ClusterDb
unfolding create_cluster
with_shop = (create_cluster machine (draw 0) (cluster_from_environment shop) empty).0

delete_cluster-Deleted_example :
    Deleted "c1" with_shop (delete_cluster machine "c1" with_shop) "env_metrics"
delete_cluster-Deleted_example = delete_cluster-Deleted machine "c1" with_shop "env_metrics"

seed_clusters-again_example :
    (all_known (shop ∷ []) (names_of (seed_clusters machine draw (shop ∷ []) empty).0) ≡ true)
    × (seed_clusters machine draw (shop ∷ []) (seed_clusters machine draw (shop ∷ []) empty).0
        ≡ ((seed_clusters machine draw (shop ∷ []) empty).0, 0, none))
unfolding seed_clusters scan_cluster resolve_ca_file
seed_clusters-again_example =
    seed_clusters-again machine draw draw (shop ∷ []) empty (stored ∷ []) refl refl
