-- ===== src/Store/Clusters/Seeding.antt =====
-- internal/store/clusters.go: seeding the configured environments, again and again.
use machmqtt_dashboard.Prelude.{
  ℕ, ◌≡◌, refl, sym, ◌∙◌, ap, inl, inr, ◌&&◌, ◌||◌, List, [], ◌∷◌, map, true, Option, none, some,
  bind-some, Bytes, bytes_eq, arith, Bool-cases, Option-cases,
}
use machmqtt_dashboard.Environments.{Environment, is_empty, resolve_ca_file}
use machmqtt_dashboard.Store.Clusters.{
  Cluster, ClusterDb, ClusterRow, Outside, done, scan_cluster, unmarshal_nullable, resolve_conn,
}
use machmqtt_dashboard.Store.Clusters.Methods.{Draw}
use machmqtt_dashboard.Store.Clusters.Listing.{
  is_known, insert_by_name, order_by_name, leb_bytes, scan_all, list_clusters, seed_clusters,
}
use machmqtt_dashboard.Store.Clusters.Known.{
  names_of, all_known, ClusterResult-cases, seed_loop-again, seed_loop-known,
}

abbrev name_or : Bytes → Option Cluster → Bytes
name_or name none = name
name_or name (some c) = c.name

scan_cluster-name :
    (o : Outside) (r : ClusterRow) (c : Cluster) → scan_cluster o r ≡ some c → c.name ≡ r.name
unfolding scan_cluster
scan_cluster-name o r c h =
    let (servers, e1, h1) = bind-some (o.servers.unmarshal r.columns.servers) _ c h in
    let (bridges, e2, h2) = bind-some (o.bridges.unmarshal r.columns.bridges) _ c h1 in
    let (discovery, e3, h3) =
      bind-some (unmarshal_nullable o.discovery r.columns.discovery) _ c h2 in
    let (tls, e4, h4) = bind-some (unmarshal_nullable o.tls r.columns.tls) _ c h3 in
    let (conn, e5, h5) = bind-some (unmarshal_nullable o.nats_conn r.columns.nats_conn) _ c h4 in
    let (resolved, e6, h6) = bind-some (resolve_ca_file o.disk tls) _ c h5 in
    let (connected, e7, h7) = bind-some (resolve_conn o conn) _ c h6 in
    ap (λ d. name_or r.name d) (sym h7)

is_known-insert_by_name :
    (x : Bytes) (r : ClusterRow) (rs : List ClusterRow)
    → is_known x (map (λ s. s.name) (insert_by_name r rs))
      ≡ (bytes_eq r.name x || is_known x (map (λ s. s.name) rs))
unfolding insert_by_name
is_known-insert_by_name x r [] = refl
is_known-insert_by_name x r (s ∷ ss) = elim (Bool-cases (leb_bytes r.name s.name)) [
  | inl e ↦ rw e refl
  | inr e ↦ rw e (
      ground (
        arith,
        is_known-insert_by_name x r ss,
        Bool-cases (bytes_eq s.name x),
        Bool-cases (bytes_eq r.name x),
      ))
]

is_known-order_by_name :
    (x : Bytes) (rs : List ClusterRow)
    → is_known x (map (λ s. s.name) (order_by_name rs)) ≡ is_known x (map (λ s. s.name) rs)
unfolding order_by_name
is_known-order_by_name x [] = refl
is_known-order_by_name x (r ∷ rs) =
    is_known-insert_by_name x r (order_by_name rs)
    ∙ ap (λ b. bytes_eq r.name x || b) (is_known-order_by_name x rs)

scan_all-names :
    (o : Outside) (rs : List ClusterRow) (cs : List Cluster)
    → scan_all o rs ≡ some cs
    → map (λ c. c.name) cs ≡ map (λ r. r.name) rs
unfolding scan_all
scan_all-names o [] cs h = ground (arith, h)
scan_all-names o (r ∷ rs) cs h =
    let (c, e1, h1) = bind-some (scan_cluster o r) _ cs h in
    let (ds, e2, h2) = bind-some (scan_all o rs) _ cs h1 in
    ground (arith, h2, scan_cluster-name o r c e1, scan_all-names o rs ds e2)

listed-names :
    (o : Outside) (db : ClusterDb) (cs : List Cluster) (x : Bytes)
    → list_clusters o db ≡ done cs
    → is_known x (map (λ c. c.name) cs) ≡ is_known x (names_of db)
unfolding list_clusters
listed-names o db cs x h = elim (Bool-cases (o.is_failing "clusters")) [
  | inl e ↦ absurd (ground (arith, rw e at h))
  | inr e ↦ elim (Option-cases (scan_all o (order_by_name db.clusters))) [
    | inl f ↦ absurd (ground (arith, rw (e, f) at h))
    | inr (ds, f) ↦
        let same : ds ≡ cs = ground (arith, rw (e, f) at h) in
        ap (λ l. is_known x (map (λ c. c.name) l)) (sym same)
        ∙ ap (is_known x) (scan_all-names o (order_by_name db.clusters) ds f)
        ∙ is_known-order_by_name x db.clusters
  ]
]

all_known-same :
    (envs : List Environment) (xs ys : List Bytes)
    → ((x : Bytes) → is_known x xs ≡ is_known x ys)
    → all_known envs xs ≡ all_known envs ys
all_known-same [] xs ys h = refl
all_known-same (e ∷ es) xs ys h =
    ap (λ b. (is_empty e.name || b) && all_known es xs) (h e.name)
    ∙ ap (λ b. (is_empty e.name || is_known e.name ys) && b) (all_known-same es xs ys h)

seed_clusters-known :
    (o : Outside) (draws : ℕ → Draw) (envs : List Environment) (db : ClusterDb)
    → (seed_clusters o draws envs db).2 ≡ none
    → all_known envs (names_of (seed_clusters o draws envs db).0) ≡ true
unfolding seed_clusters
seed_clusters-known o draws [] db h = refl
seed_clusters-known o draws (e ∷ es) db h = elim (ClusterResult-cases (list_clusters o db)) [
  | inl (err, f) ↦ absurd (ground (arith, rw f at h))
  | inr (cs, f) ↦ rw f (
      seed_loop-known o draws (e ∷ es) (map (λ c. c.name) cs) 0 db
        (λ x k. sym (listed-names o db cs x f) ∙ k) (rw f at h))
]

seed_again :
    (o : Outside) (draws : ℕ → Draw) (envs : List Environment) (db : ClusterDb) (cs : List Cluster)
    → all_known envs (names_of db) ≡ true
    → list_clusters o db ≡ done cs
    → seed_clusters o draws envs db ≡ (db, 0, none)
unfolding seed_clusters
seed_again o draws [] db cs h l = refl
seed_again o draws (e ∷ es) db cs h l = rw l (
    seed_loop-again o draws (e ∷ es) (map (λ c. c.name) cs) 0 db (
      all_known-same (e ∷ es) (map (λ c. c.name) cs) (names_of db) (λ x. listed-names o db cs x l)
      ∙ h))

-- Seeding is safe at every start: once it has gone through without an error, each environment with a name
-- has a cluster of that name, and another run of it, when the clusters can be listed, creates none, has no
-- error and leaves the database as it is, whatever ids and times it would draw.
pub seed_clusters-again :
    (o : Outside) (draws others : ℕ → Draw) (envs : List Environment) (db : ClusterDb)
    (cs : List Cluster)
    → (seed_clusters o draws envs db).2 ≡ none
    → list_clusters o (seed_clusters o draws envs db).0 ≡ done cs
    → (all_known envs (names_of (seed_clusters o draws envs db).0) ≡ true)
      × (seed_clusters o others envs (seed_clusters o draws envs db).0
          ≡ ((seed_clusters o draws envs db).0, 0, none))
seed_clusters-again o draws others envs db cs h l =
    let after = (seed_clusters o draws envs db).0 in
    let known = seed_clusters-known o draws envs db h in
    (known, seed_again o others envs after cs known l)
