-- ===== src/Api/Clusters/Paths.antt =====
-- internal/api/handlers_clusters.go, `sanitizeHostPaths`: clients choose no file on the dashboard's host.
use machmqtt_dashboard.Prelude.{
  ◌≡◌, refl, inl, inr, ◌⊎◌, [], ◌∷◌, Option, none, some, Bytes, arith, bind-some, String, bytes_eq,
  ◌&&◌, not, Bool-cases, Option-cases,
}
use machmqtt_dashboard.Urls.{UrlLibrary}
use machmqtt_dashboard.Environments.{TlsConfig, NatsConnConfig, is_empty}
use machmqtt_dashboard.Store.Clusters.{Cluster}
use machmqtt_dashboard.Api.Clusters.{
  ClusterRequest, sanitized_tls, sanitized_conn, sanitize_host_paths, stored_path, tls_of, creds_of,
  prev_tls, prev_conn, keep_if_blank,
}
use machmqtt_dashboard.Api.Clusters.Handlers.{edited, merge_cluster_secrets, merge_conn, cluster_of}

-- No path, or the stored one.
abbrev pub Kept : Bytes → Bytes → Type 0
Kept stored path = (path ≡ []) ⊎ (path ≡ stored)

sanitized_tls-Kept :
    (t stored t' : Option TlsConfig)
    → sanitized_tls t stored ≡ some t'
    → Kept (stored_path stored) (stored_path t')
unfolding sanitized_tls
sanitized_tls-Kept none stored t' h = inl (ground (arith, h))
sanitized_tls-Kept (some t) stored t' h = inr (ground (arith, h))

-- What the paths of a cluster's settings are, against the stored ones.
pub record PathsKept (prev : Option Cluster) (tls : Option TlsConfig) (conn : Option NatsConnConfig)
    : Type 0 where
  pub ca_file : Kept (stored_path (prev_tls prev)) (stored_path tls)
  pub conn_ca_file : Kept (stored_path (tls_of (prev_conn prev))) (stored_path (tls_of conn))
  pub creds_file : Kept (creds_of (prev_conn prev)) (creds_of conn)

abbrev ConnKept : Option NatsConnConfig → Option NatsConnConfig → Type 0
ConnKept stored conn =
    Kept (stored_path (tls_of stored)) (stored_path (tls_of conn))
    × Kept (creds_of stored) (creds_of conn)

sanitized_conn-Kept :
    (n stored n' : Option NatsConnConfig) → sanitized_conn n stored ≡ some n' → ConnKept stored n'
unfolding sanitized_conn
sanitized_conn-Kept none stored n' h =
    let e : none ≡ n' = ground (arith, h) in rw (← e) (inl refl, inl refl)
sanitized_conn-Kept (some n) stored n' h =
    let (tls, parsed, rest) = bind-some (sanitized_tls n.tls (tls_of stored)) _ n' h in
    elim (Bool-cases
      (not (is_empty n.creds_file) && not (bytes_eq n.creds_file (creds_of stored)))) [
        | inl e ↦ absurd (ground (arith, rw e at rest))
        | inr e ↦
            let same : some (record n { tls = tls; creds_file = creds_of stored }) ≡ n' =
              ground (arith, rw e at rest) in
            rw (← same) (sanitized_tls-Kept n.tls (tls_of stored) tls parsed, inr refl)
      ]

sanitize_host_paths-Kept :
    (req r : ClusterRequest) (prev : Option Cluster)
    → sanitize_host_paths req prev ≡ some r
    → PathsKept prev r.tls r.nats_conn
unfolding sanitize_host_paths
sanitize_host_paths-Kept req r prev h =
    let (tls, tls_ok, after) = bind-some (sanitized_tls req.tls (prev_tls prev)) _ r h in
    let (conn, conn_ok, done) =
      bind-some (sanitized_conn req.nats_conn (prev_conn prev)) _ r after in
    let same : record req { tls = tls; nats_conn = conn } ≡ r = ground (arith, done) in
    let first = sanitized_tls-Kept req.tls (prev_tls prev) tls tls_ok in
    let second = sanitized_conn-Kept req.nats_conn (prev_conn prev) conn conn_ok in
    rw (← same) (record { ca_file = first; conn_ca_file = second.0; creds_file = second.1 })

keep_if_blank-Kept :
    (path stored : Bytes) → Kept stored path → Kept stored (keep_if_blank path stored)
keep_if_blank-Kept [] stored h = inr refl
keep_if_blank-Kept (c ∷ cs) stored h = h

merge_conn-Kept :
    (net : UrlLibrary) (stored conn : Option NatsConnConfig)
    → ConnKept stored conn
    → ConnKept stored (merge_conn net conn stored)
merge_conn-Kept net none none k = k
merge_conn-Kept net none (some n) k = k
merge_conn-Kept net (some p) none k = k
merge_conn-Kept net (some p) (some n) k = (k.0, keep_if_blank-Kept n.creds_file p.creds_file k.1)

merge_cluster_secrets-Kept :
    (net : UrlLibrary) (cl : Cluster) (prev : Option Cluster)
    → PathsKept prev cl.tls cl.nats_conn
    → PathsKept prev
        (merge_cluster_secrets net cl prev).tls
        (merge_cluster_secrets net cl prev).nats_conn
unfolding merge_cluster_secrets
merge_cluster_secrets-Kept net cl none k = k
merge_cluster_secrets-Kept net cl (some c) k =
    let conn = merge_conn-Kept net c.nats_conn cl.nats_conn (k.conn_ca_file, k.creds_file) in
    record { ca_file = k.ca_file; conn_ca_file = conn.0; creds_file = conn.1 }

-- No file on the dashboard's host is chosen by a client: in the cluster that an update hands to the store
-- and the collector, and so in one that a creation does (where nothing is stored), each certificate file and
-- credentials file is the stored cluster's, or none.
pub edited-PathsKept :
    (net : UrlLibrary) (id : String) (prev : Option Cluster) (req : ClusterRequest) (c : Cluster)
    → edited net id prev req ≡ some c
    → PathsKept prev c.tls c.nats_conn
unfolding edited
edited-PathsKept net id prev req c h = elim (Option-cases (sanitize_host_paths req prev)) [
  | inl e ↦ absurd (ground (arith, rw e at h))
  | inr (r, e) ↦
      let same : merge_cluster_secrets net (cluster_of net id r) prev ≡ c =
        ground (arith, rw e at h) in
      rw (← same) (
        merge_cluster_secrets-Kept net (cluster_of net id r) prev
          (sanitize_host_paths-Kept req r prev e))
]
