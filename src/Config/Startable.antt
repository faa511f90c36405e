-- ===== src/Config/Startable.antt =====
-- internal/config/config.go, with internal/store/clusters.go and internal/collector/collector.go: the way of the
-- loaded environments through `SeedClusters` and `AddCluster`.
use machmqtt_dashboard.Prelude.{
  ℕ, ◌+◌, ◌≡◌, ◌≢◌, refl, inl, inr, ◌||◌, String, List, [], ◌∷◌, map, Bool, true, false, Option,
  none, some, Bytes, All, Bool-cases, Option-cases, lookup,
}
use machmqtt_dashboard.Environments.{Environment, is_empty}
use machmqtt_dashboard.Store.Clusters.{
  Cluster, ClusterDb, ClusterResult, ClusterError, Outside, done, failed, cluster_not_found,
  name_required, servers_required, cluster_from_environment, marshal_cluster_fields,
}
use machmqtt_dashboard.Store.Clusters.Methods.{Draw, create_cluster, insert_drawn, has_cluster}
use machmqtt_dashboard.Store.Clusters.Listing.{
  Seeded, seed_step, seed_loop, seed_known, seed_clusters, list_clusters, scan_all, order_by_name,
  is_known,
}
use machmqtt_dashboard.Manager
use machmqtt_dashboard.Manager.{new_fetcher, add_cluster}
use machmqtt_dashboard.Api.Clusters.Atomic.{add_cluster-IsTracked}
use machmqtt_dashboard.Config.{Config, Platform}
use machmqtt_dashboard.Config.Load.{load}
use machmqtt_dashboard.Config.Valid.{IsValid}
use machmqtt_dashboard.Config.Decides.{AreRunnable}
use machmqtt_dashboard.Config.Loaded.{load-IsSafe}

-- An error that the settings of the cluster are to blame for.
abbrev pub blames_settings : ClusterError → Bool
blames_settings cluster_not_found = true
blames_settings name_required = true
blames_settings servers_required = true
blames_settings _ = false

abbrev Blameless : {A : Type 0} → ClusterResult A → Type 0
Blameless (done a) = Unit
Blameless (failed e) = blames_settings e ≡ false

abbrev pub IsBlameless : Option ClusterError → Type 0
IsBlameless none = Unit
IsBlameless (some e) = blames_settings e ≡ false

-- What a collector needs.
abbrev pub IsStartable : (Bytes → Bool) → Environment → Type 0
IsStartable is_usable e = (e.name ≢ []) × (e.servers ≢ []) × (new_fetcher is_usable e.tls ≡ true)

AreRunnable-IsStartable :
    (h : Platform) (es vs : List Environment)
    → All (IsValid h) es
    → AreRunnable h es vs
    → All (IsStartable h.is_usable) vs
AreRunnable-IsStartable h [] [] v r = tt
AreRunnable-IsStartable h [] (w ∷ ws) v r = absurd r
AreRunnable-IsStartable h (e ∷ es) [] v r = absurd r
AreRunnable-IsStartable h (e ∷ es) (w ∷ ws) v ((same, (_, u), _), r) =
    (rw same (v.0.name, v.0.servers, u), AreRunnable-IsStartable h es ws v.1 r)

module _ (o : Outside) where
  insert_drawn-Blameless :
      (id : Option String) (now : ℕ) (c : Cluster) (db : ClusterDb)
      → Blameless (insert_drawn o id now c db).1
  insert_drawn-Blameless none now c db = refl
  insert_drawn-Blameless (some id) now c db =
      elim (Option-cases (marshal_cluster_fields o (record c { id = id }))) [
        | inl e ↦ rw e refl
        | inr (columns, e) ↦
            elim (Bool-cases (o.is_failing "clusters" || has_cluster id db.clusters)) [
              | inl f ↦ rw (e, f) refl
              | inr f ↦ rw (e, f) tt
            ]
      ]

  create_cluster-Blameless :
      (d : Draw) (c : Cluster) (db : ClusterDb)
      → c.name ≢ []
      → c.servers ≢ []
      → Blameless (create_cluster o d c db).1
  unfolding create_cluster
  create_cluster-Blameless d c db n s =
      rw (named c.name n, named c.servers s) (insert_drawn-Blameless d.id d.now c db)
    where
      named : {A : Type 0} (xs : List A) → xs ≢ [] → is_empty xs ≡ false
      named [] h = absurd (h refl)
      named (x ∷ xs) h = refl

  seed_step-IsBlameless :
      (b : Bool) (made : ClusterResult Cluster) (skipped added : Seeded) (db : ClusterDb) (n : ℕ)
      → Blameless made
      → IsBlameless skipped.2
      → IsBlameless added.2
      → IsBlameless (seed_step b made skipped added db n).2
  seed_step-IsBlameless true made skipped added db n m s a = s
  seed_step-IsBlameless false (done c) skipped added db n m s a = a
  seed_step-IsBlameless false (failed e) skipped added db n m s a = m

  module _ (is_usable : Bytes → Bool) (draws : ℕ → Draw) where
    seed_loop-IsBlameless :
        (envs : List Environment) (names : List Bytes) (created : ℕ) (db : ClusterDb)
        → All (IsStartable is_usable) envs
        → IsBlameless (seed_loop o draws envs names created db).2
    unfolding seed_loop
    seed_loop-IsBlameless [] names created db s = tt
    seed_loop-IsBlameless (env ∷ envs) names created db ((n, v, _), s) =
        let made = create_cluster o (draws created) (cluster_from_environment env) db in
        seed_step-IsBlameless (is_empty env.name || is_known env.name names) made.1 _ _ made.0
          created (create_cluster-Blameless (draws created) (cluster_from_environment env) db n v)
          (seed_loop-IsBlameless envs names created db s)
          (seed_loop-IsBlameless envs (env.name ∷ names) (created + 1) made.0 s)

    list_clusters-Blameless : (db : ClusterDb) → Blameless (list_clusters o db)
    unfolding list_clusters
    list_clusters-Blameless db = elim (Bool-cases (o.is_failing "clusters")) [
      | inl e ↦ rw e refl
      | inr e ↦ elim (Option-cases (scan_all o (order_by_name db.clusters))) [
        | inl f ↦ rw (e, f) refl
        | inr (cs, f) ↦ rw (e, f) tt
      ]
    ]

    seed_clusters-IsBlameless :
        (envs : List Environment) (db : ClusterDb)
        → All (IsStartable is_usable) envs
        → IsBlameless (seed_clusters o draws envs db).2
    unfolding seed_clusters
    seed_clusters-IsBlameless [] db s = tt
    seed_clusters-IsBlameless (env ∷ envs) db s =
        known (list_clusters o db) (list_clusters-Blameless db)
      where
        known :
            (r : ClusterResult (List Cluster))
            → Blameless r
            → IsBlameless (seed_known o draws (env ∷ envs) db r).2
        known (failed e) b = b
        known (done cs) b = seed_loop-IsBlameless (env ∷ envs) (map (λ c. c.name) cs) 0 db s

-- Whatever the manager has, it takes an environment of that name for a new cluster, and tracks it.
abbrev pub IsTaken : (Bytes → Bool) → Environment → Type 0
IsTaken is_usable env =
    (id : String) (m : Manager.Manager)
    → (m' : Manager.Manager) × (add_cluster is_usable id env m ≡ (m', true))
      × (lookup id m'.collectors ≢ none)

taken :
    (is_usable : Bytes → Bool) (envs : List Environment)
    → All (IsStartable is_usable) envs
    → All (IsTaken is_usable) envs
taken is_usable [] s = tt
taken is_usable (env ∷ envs) ((_, _, u), s) =
    (λ id m. add_cluster-IsTracked is_usable id env m u, taken is_usable envs s)

-- What `Load` accepts can be run: seeding the database with its environments fails for no reason that lies in
-- their settings, whatever is in the database and whichever statements fail, and the manager takes each of
-- them for a cluster, whatever it has already, and then tracks it.
pub load-startable :
    (h : Platform) (path : Bytes) (c : Config) (o : Outside) (draws : ℕ → Draw) (db : ClusterDb)
    → load h path ≡ some c
    → IsBlameless (seed_clusters o draws c.environments db).2
      × All (IsTaken h.is_usable) c.environments
load-startable h path c o draws db e =
    let (raw, _, safe) = load-IsSafe h path c e in
    let (v, r) = safe.environments in
    let s = AreRunnable-IsStartable h raw.environments c.environments v.0 r in
    (
      seed_clusters-IsBlameless o h.is_usable draws c.environments db s,
      taken h.is_usable c.environments s,
    )
