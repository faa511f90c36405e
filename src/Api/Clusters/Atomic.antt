-- ===== src/Api/Clusters/Atomic.antt =====
-- internal/api/handlers_clusters.go, `handleCreateCluster`: the row and the collector come together.
use machmqtt_dashboard.Prelude.{
  ◌≡◌, ◌≢◌, refl, inl, inr, ◌⊎◌, ◌||◌, String, List, [], ◌∷◌, ◌++◌, Bool, true, false, Option, none,
  some, Bytes, arith, Bool-cases, Option-cases, lookup, lookup-insert_self, insert, Map, eq_refl,
}
use machmqtt_dashboard.Environments.{Environment, is_empty}
use machmqtt_dashboard.Store.Clusters.{
  Cluster, ClusterDb, ClusterRow, ClusterResult, ClusterError, Columns, Outside, done, failed,
  to_environment, cluster_not_found, name_required, servers_required, marshal_cluster_fields,
}
use machmqtt_dashboard.Store.Clusters.Methods.{
  Draw, create_cluster, insert_cluster, has_cluster, row_of,
}
use machmqtt_dashboard.Manager
use machmqtt_dashboard.Manager.{new_fetcher, add_cluster, add_untracked, track, launch}
use machmqtt_dashboard.Api.Clusters.{
  ClusterRequest, ClusterView, to_cluster_view, sanitize_host_paths,
}
use machmqtt_dashboard.Api.Clusters.Handlers.{
  ApiState, Services, Reply, bad_request, not_found, internal_error, created, handle_create_cluster,
  create_of, after_create, cluster_of, cluster_error,
}

has_cluster-append :
    (r : ClusterRow) (rs : List ClusterRow) → has_cluster r.id (rs ++ r ∷ []) ≡ true
has_cluster-append r [] = rw eq_refl refl
has_cluster-append r (s ∷ rs) = ground (arith, has_cluster-append r rs)

-- What a creation in the store gives: the cluster with its row, or nothing new.
abbrev Stored : Cluster → ClusterDb → ClusterDb × ClusterResult Cluster → Type 0
Stored c db (db', failed e) = db' ≡ db
Stored c db (db', done c') = (c'.tls ≡ c.tls) × (has_cluster c'.id db'.clusters ≡ true)

insert_cluster-Stored :
    (o : Outside) (d : Draw) (id : String) (c : Cluster) (columns : Option Columns) (db : ClusterDb)
    → Stored c db (insert_cluster o id d.now c columns db)
insert_cluster-Stored o d id c none db = refl
insert_cluster-Stored o d id c (some columns) db =
    elim (Bool-cases (o.is_failing "clusters" || has_cluster id db.clusters)) [
      | inl e ↦ rw e refl
      | inr e ↦ rw e (refl, has_cluster-append (row_of id d.now c columns) db.clusters)
    ]

create_cluster-Stored :
    (o : Outside) (d : Draw) (c : Cluster) (db : ClusterDb) → Stored c db (create_cluster o d c db)
unfolding create_cluster
create_cluster-Stored o d c db = elim (Bool-cases (is_empty c.name)) [
  | inl e ↦ rw e refl
  | inr e ↦ elim (Bool-cases (is_empty c.servers)) [
    | inl f ↦ rw (e, f) refl
    | inr f ↦ elim (Option-cases d.id) [
      | inl g ↦ rw (e, f, g) refl
      | inr (id, g) ↦
          rw (e, f, g)
            (insert_cluster-Stored o d id c (marshal_cluster_fields o (record c { id = id })) db)
    ]
  ]
]

-- A collector is tracked under that id.
abbrev pub IsTracked : String → Manager.Manager → Type 0
IsTracked id m = lookup id m.collectors ≢ none

insert-IsTracked : {V : Type 0} (id : String) (v : V) (m : Map V) → lookup id (insert id v m) ≢ none
insert-IsTracked id v m e = absurd (ground (arith, rw lookup-insert_self at e))

track-IsTracked :
    (id : String) (env : Environment) (m : Manager.Manager) → IsTracked id (track id env m)
unfolding track
track-IsTracked id env m = elim (Bool-cases m.started) [
  | inl e ↦ rw e (insert-IsTracked id _ m.collectors)
  | inr e ↦ rw e (insert-IsTracked id _ m.collectors)
]

-- With usable certificates a collector is added, or is there already.
pub add_cluster-IsTracked :
    (is_usable : Bytes → Bool) (id : String) (env : Environment) (m : Manager.Manager)
    → new_fetcher is_usable env.tls ≡ true
    → (m' : Manager.Manager) × (add_cluster is_usable id env m ≡ (m', true)) × IsTracked id m'
unfolding add_cluster
add_cluster-IsTracked is_usable id env m h = elim (Option-cases (lookup id m.collectors)) [
  | inl e ↦ (track id env m, rw (e, h) refl, track-IsTracked id env m)
  | inr (c, e) ↦ (m, rw e refl, λ n. absurd (ground (arith, e, n)))
]

-- A reply with an error's status.
abbrev pub is_error : Reply → Bool
is_error bad_request = true
is_error not_found = true
is_error internal_error = true
is_error _ = false

-- A reply with a cluster that has both its row and its collector, or an error and nothing changed.
abbrev pub Atomic : ApiState → ApiState × Reply → Type 0
Atomic s (s', r) =
    ((v : ClusterView) × (r ≡ created v)
      × (has_cluster v.id s'.db.clusters ≡ true)
      × (lookup v.id s'.manager.collectors ≢ none))
    ⊎ ((is_error r ≡ true) × (s' ≡ s))

cluster_error-is_error : (e : ClusterError) → is_error (cluster_error e) ≡ true
cluster_error-is_error cluster_not_found = refl
cluster_error-is_error name_required = refl
cluster_error-is_error servers_required = refl
cluster_error-is_error e = refl

module _ (o : Services) where
  after_create-Atomic :
      (s : ApiState) (c : Cluster) (r : ClusterDb × ClusterResult Cluster)
      → new_fetcher o.is_usable c.tls ≡ true
      → Stored c s.db r
      → Atomic s (after_create o s r)
  unfolding to_cluster_view
  after_create-Atomic s c (db, failed e) h k = inr (cluster_error-is_error e, rw k refl)
  after_create-Atomic s c (db, done c') h k =
      let (m, added, tracked) =
        add_cluster-IsTracked o.is_usable c'.id (to_environment c') s.manager (rw k.0 h) in
      rw added (inl (to_cluster_view o.net c', refl, k.1, tracked))

  create_of-Atomic :
      (d : Draw) (s : ApiState) (req : Option ClusterRequest) → Atomic s (create_of o d s req)
  create_of-Atomic d s none = inr (refl, refl)
  create_of-Atomic d s (some req) =
      let c = cluster_of o.net "" req in
      elim (Bool-cases (new_fetcher o.is_usable c.tls)) [
        | inl e ↦ rw e (
            after_create-Atomic s c (create_cluster o.store d c s.db) e
              (create_cluster-Stored o.store d c s.db))
        | inr e ↦ rw e (inr (refl, refl))
      ]

  -- The creation of a cluster is all or nothing: it is answered with the cluster, which then has its row in the
  -- store and its collector in the manager, or with an error, and then neither the rows nor the collectors
  -- have changed, whichever step fails.
  pub handle_create_cluster-Atomic :
      (d : Draw) (body : Option ClusterRequest) (s : ApiState)
      → Atomic s (handle_create_cluster o d body s)
  unfolding handle_create_cluster
  handle_create_cluster-Atomic d none s = inr (refl, refl)
  handle_create_cluster-Atomic d (some req) s = create_of-Atomic d s (sanitize_host_paths req none)
