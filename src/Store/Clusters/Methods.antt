-- ===== src/Store/Clusters/Methods.antt =====
-- internal/store/clusters.go: the methods of `Store` on one cluster.
use machmqtt_dashboard.Prelude.{
  ℕ, ◌||◌, not, if◌then◌else◌, String, str_eq, List, [], ◌∷◌, ◌++◌, map, filter, length, Bool, true,
  false, Option, none, some,
}
use machmqtt_dashboard.Environments.{is_empty}
use machmqtt_dashboard.Store.Clusters.{
  Cluster, ClusterDb, ClusterRow, ClusterResult, Columns, Datum, Outside, done, failed,
  cluster_not_found, name_required, servers_required, id_failed, marshal_failed, statement_failed,
  scan_failed, marshal_cluster_fields, scan_cluster,
}

-- What a new row gets: an id from `generateClusterID`, or an error, and the time.
pub record Draw : Type 0 where
  pub id : Option String
  pub now : ℕ

abbrev pub row_of : String → ℕ → Cluster → Columns → ClusterRow
row_of id now c columns = record {
  id = id;
  name = c.name;
  columns = columns;
  admin_token = c.admin_token;
  created_at = now;
}

abbrev pub has_cluster : String → List ClusterRow → Bool
has_cluster id [] = false
has_cluster id (r ∷ rs) = str_eq r.id id || has_cluster id rs

-- The INSERT, which a row of the same id refuses.
abbrev pub insert_cluster :
    Outside → String → ℕ → Cluster → Option Columns → ClusterDb → ClusterDb × ClusterResult Cluster
insert_cluster o id now c none db = (db, failed marshal_failed)
insert_cluster o id now c (some columns) db =
    if o.is_failing "clusters" || has_cluster id db.clusters
    then (db, failed statement_failed)
    else (
      record db { clusters = db.clusters ++ row_of id now c columns ∷ [] },
      done (record c { id = id; created_at = some now }),
    )

abbrev pub insert_drawn :
    Outside → Option String → ℕ → Cluster → ClusterDb → ClusterDb × ClusterResult Cluster
insert_drawn o none now c db = (db, failed id_failed)
insert_drawn o (some id) now c db =
    insert_cluster o id now c (marshal_cluster_fields o (record c { id = id })) db

-- `CreateCluster`
unfoldable pub create_cluster :
    Outside → Draw → Cluster → ClusterDb → ClusterDb × ClusterResult Cluster
unfolding marshal_cluster_fields
create_cluster o d c db =
    if is_empty c.name
    then (db, failed name_required)
    else if is_empty c.servers
    then (db, failed servers_required)
    else insert_drawn o d.id d.now c db

unfoldable pub find_row : String → List ClusterRow → Option ClusterRow
find_row id [] = none
find_row id (r ∷ rs) = if str_eq r.id id then some r else find_row id rs

abbrev pub or_scan_failed : Option Cluster → ClusterResult Cluster
or_scan_failed none = failed scan_failed
or_scan_failed (some c) = done c

abbrev pub scanned : Outside → Option ClusterRow → ClusterResult Cluster
scanned o none = failed cluster_not_found
scanned o (some r) = or_scan_failed (scan_cluster o r)

-- `GetCluster`
unfoldable pub get_cluster : Outside → String → ClusterDb → ClusterResult Cluster
unfolding find_row scan_cluster
get_cluster o id db =
    if o.is_failing "clusters" then failed statement_failed else scanned o (find_row id db.clusters)

-- The UPDATE of the rows of that id.
abbrev pub update_row : Cluster → Columns → ClusterRow → ClusterRow
update_row c columns r =
    if str_eq r.id c.id
    then record r { name = c.name; columns = columns; admin_token = c.admin_token }
    else r

abbrev pub update_rows :
    Outside → Cluster → Option Columns → ClusterDb → ClusterDb × ClusterResult Cluster
update_rows o c none db = (db, failed marshal_failed)
update_rows o c (some columns) db =
    if o.is_failing "clusters"
    then (db, failed statement_failed)
    else if has_cluster c.id db.clusters
    then (record db { clusters = map (update_row c columns) db.clusters }, done c)
    else (db, failed cluster_not_found)

-- `UpdateCluster`
unfoldable pub update_cluster : Outside → Cluster → ClusterDb → ClusterDb × ClusterResult Cluster
unfolding marshal_cluster_fields
update_cluster o c db =
    if is_empty c.name
    then (db, failed name_required)
    else if is_empty c.servers
    then (db, failed servers_required)
    else update_rows o c (marshal_cluster_fields o c) db

abbrev pub env_tables : List String
env_tables =
    "mqtt_bridges" ∷ "server_metrics" ∷ "env_metrics" ∷ "mqtt_bridge_metrics" ∷ "topology_positions"
    ∷ "topology_camera" ∷ []

-- `DELETE FROM table WHERE env = id`, for each table in turn; `none` is an error.
unfoldable pub cascade :
    Outside → String → List String → (String → List Datum) → Option (String → List Datum)
cascade o id [] tables = some tables
cascade o id (t ∷ ts) tables =
    let rest =
      cascade o id ts
        (λ u. if str_eq u t then filter (λ d. not (str_eq d.env id)) (tables u) else tables u) in
    if o.is_failing t then none else rest

-- `Commit`, which may fail, or the rollback of the transaction.
abbrev pub commit :
    Bool
    → ClusterDb
    → List ClusterRow
    → Option (String → List Datum)
    → ClusterDb × ClusterResult (Unit {0})
commit fails db rows none = (db, failed statement_failed)
commit true db rows (some tables) = (db, failed statement_failed)
commit false db rows (some tables) = (record { clusters = rows; data_of = tables }, done tt)

-- `DeleteCluster`
unfoldable pub delete_cluster : Outside → String → ClusterDb → ClusterDb × ClusterResult (Unit {0})
unfolding cascade
delete_cluster o id db =
    if o.is_failing "BEGIN" || o.is_failing "clusters"
    then (db, failed statement_failed)
    else if has_cluster id db.clusters
    then commit (o.is_failing "COMMIT") db (filter (λ r. not (str_eq r.id id)) db.clusters)
        (cascade o id env_tables db.data_of)
    else (db, failed cluster_not_found)

-- `ClusterCount`
abbrev pub cluster_count : Outside → ClusterDb → ClusterResult ℕ
cluster_count o db =
    if o.is_failing "clusters" then failed statement_failed else done (length db.clusters)
