-- ===== src/Store/Clusters/Listing.antt =====
-- internal/store/clusters.go: `ListClusters` and `SeedClusters`.
use machmqtt_dashboard.Prelude.{
  ℕ, ◌+◌, ◌==◌, ltb, ◌&&◌, ◌||◌, if◌then◌else◌, List, [], ◌∷◌, map, Bool, true, false, Option, none,
  some, ◌>>=◌, Bytes, bytes_eq,
}
use machmqtt_dashboard.Environments.{Environment, is_empty}
use machmqtt_dashboard.Store.Clusters.{
  Cluster, ClusterDb, ClusterRow, ClusterResult, ClusterError, Outside, done, failed,
  statement_failed, scan_failed, scan_cluster, cluster_from_environment,
}
use machmqtt_dashboard.Store.Clusters.Methods.{Draw, create_cluster}

-- The order of texts in SQLite, byte by byte.
unfoldable pub leb_bytes : Bytes → Bytes → Bool
leb_bytes [] ys = true
leb_bytes (x ∷ xs) [] = false
leb_bytes (x ∷ xs) (y ∷ ys) = ltb x y || (x == y && leb_bytes xs ys)

-- `ORDER BY name`
unfoldable pub insert_by_name : ClusterRow → List ClusterRow → List ClusterRow
unfolding leb_bytes
insert_by_name r [] = r ∷ []
insert_by_name r (s ∷ ss) =
    let rest = insert_by_name r ss in if leb_bytes r.name s.name then r ∷ s ∷ ss else s ∷ rest

unfoldable pub order_by_name : List ClusterRow → List ClusterRow
unfolding insert_by_name
order_by_name [] = []
order_by_name (r ∷ rs) = insert_by_name r (order_by_name rs)

-- The loop over the rows, which ends at the first that cannot be read.
unfoldable pub scan_all : Outside → List ClusterRow → Option (List Cluster)
unfolding scan_cluster
scan_all o [] = some []
scan_all o (r ∷ rs) = do c ← scan_cluster o r; cs ← scan_all o rs; some (c ∷ cs)

abbrev pub listed : Option (List Cluster) → ClusterResult (List Cluster)
listed none = failed scan_failed
listed (some cs) = done cs

-- `ListClusters`
unfoldable pub list_clusters : Outside → ClusterDb → ClusterResult (List Cluster)
unfolding scan_all order_by_name
list_clusters o db =
    if o.is_failing "clusters"
    then failed statement_failed
    else listed (scan_all o (order_by_name db.clusters))

abbrev pub is_known : Bytes → List Bytes → Bool
is_known name [] = false
is_known name (n ∷ ns) = bytes_eq n name || is_known name ns

-- One environment: passed over, created, or the end of the loop.
abbrev pub Seeded : Type 0
Seeded = ClusterDb × ℕ × Option ClusterError

abbrev pub seed_step : Bool → ClusterResult Cluster → Seeded → Seeded → ClusterDb → ℕ → Seeded
seed_step true made skipped added db created = skipped
seed_step false (done c) skipped added db created = added
seed_step false (failed e) skipped added db created = (db, created, some e)

-- The loop of `SeedClusters`: the database, how many clusters were created, and an error. The draw of a
-- creation is that of its number.
unfoldable pub seed_loop :
    Outside
    → (ℕ → Draw)
    → List Environment
    → List Bytes
    → ℕ
    → ClusterDb
    → ClusterDb × ℕ × Option ClusterError
unfolding create_cluster
seed_loop o draws [] names created db = (db, created, none)
seed_loop o draws (env ∷ envs) names created db =
    let (db', made) = create_cluster o (draws created) (cluster_from_environment env) db in
    let skipped = seed_loop o draws envs names created db in
    let added = seed_loop o draws envs (env.name ∷ names) (created + 1) db' in
    seed_step (is_empty env.name || is_known env.name names) made skipped added db' created

abbrev pub seed_known :
    Outside
    → (ℕ → Draw)
    → List Environment
    → ClusterDb
    → ClusterResult (List Cluster)
    → ClusterDb × ℕ × Option ClusterError
unfolding seed_loop
seed_known o draws envs db (failed e) = (db, 0, some e)
seed_known o draws envs db (done cs) = seed_loop o draws envs (map (λ c. c.name) cs) 0 db

-- `SeedClusters`
unfoldable pub seed_clusters :
    Outside → (ℕ → Draw) → List Environment → ClusterDb → ClusterDb × ℕ × Option ClusterError
unfolding list_clusters seed_loop
seed_clusters o draws [] db = (db, 0, none)
seed_clusters o draws (env ∷ envs) db = seed_known o draws (env ∷ envs) db (list_clusters o db)
