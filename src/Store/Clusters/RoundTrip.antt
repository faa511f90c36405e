-- ===== src/Store/Clusters/RoundTrip.antt =====
-- internal/store/clusters.go: what is read of a cluster that was stored.
use machmqtt_dashboard.Prelude.{
  ℕ, ◌≡◌, refl, sym, ◌∙◌, ap, inl, inr, ◌||◌, String, str_eq, eq_refl, List, [], ◌∷◌, ◌++◌, false,
  Option, none, some, bind-some, Bytes, bytes_eq, codes, arith, Bool-cases,
}
use machmqtt_dashboard.Environments.{is_empty, resolve_ca_file}
use machmqtt_dashboard.Store.Clusters.{
  Cluster, ClusterDb, ClusterRow, Columns, Codec, Outside, done, scan_cluster,
  marshal_cluster_fields, marshal_nullable, unmarshal_nullable, resolve_conn,
}
use machmqtt_dashboard.Store.Clusters.Methods.{
  Draw, row_of, has_cluster, insert_cluster, insert_drawn, create_cluster, find_row, get_cluster,
}

-- JSON gives a value back of what it made of it, and that is not the text of a null.
abbrev pub Reads : {A : Type 0} → Codec A → A → Type 0
Reads c a =
    (text : Bytes)
    → c.marshal a ≡ some text
    → (c.unmarshal text ≡ some a) × ((is_empty text || bytes_eq text (codes "null")) ≡ false)

abbrev pub ReadsOption : {A : Type 0} → Codec A → Option A → Type 0
ReadsOption c none = Unit
ReadsOption c (some a) = Reads c a

unmarshal-marshal :
    {A : Type 0} (c : Codec A) (o : Option A) (text : Option Bytes)
    → ReadsOption c o
    → marshal_nullable c o ≡ some text
    → unmarshal_nullable c text ≡ some o
unfolding marshal_nullable unmarshal_nullable
unmarshal-marshal c none text r h =
    let same : some (codes "null") ≡ text = ground (arith, h) in rw (sym same) refl
unmarshal-marshal c (some a) text r h =
    let (t, e, k) = bind-some (c.marshal a) _ text h in
    let same : some t ≡ text = ground (arith, k) in rw (sym same, (r t e).1, (r t e).0) refl

-- A cluster whose columns JSON reads back, and whose certificates are loaded.
pub record IsStorable (o : Outside) (c : Cluster) : Type 0 where
  pub servers : Reads o.servers c.servers
  pub bridges : Reads o.bridges c.mqtt_bridges
  pub discovery : ReadsOption o.discovery c.mqtt_discovery
  pub tls : ReadsOption o.tls c.tls
  pub nats_conn : ReadsOption o.nats_conn c.nats_conn
  pub loaded : resolve_ca_file o.disk c.tls ≡ some c.tls
  pub conn_loaded : resolve_conn o c.nats_conn ≡ some c.nats_conn

scan_cluster-row_of :
    (o : Outside) (id : String) (now : ℕ) (c : Cluster) (cols : Columns)
    → IsStorable o c
    → marshal_cluster_fields o c ≡ some cols
    → scan_cluster o (row_of id now c cols) ≡ some (record c { id = id; created_at = some now })
unfolding scan_cluster marshal_cluster_fields
scan_cluster-row_of o id now c cols s h =
    let (a, e1, h1) = bind-some (o.servers.marshal c.servers) _ cols h in
    let (b, e2, h2) = bind-some (o.bridges.marshal c.mqtt_bridges) _ cols h1 in
    let (d, e3, h3) = bind-some (marshal_nullable o.discovery c.mqtt_discovery) _ cols h2 in
    let (t, e4, h4) = bind-some (marshal_nullable o.tls c.tls) _ cols h3 in
    let (n, e5, h5) = bind-some (marshal_nullable o.nats_conn c.nats_conn) _ cols h4 in
    let same : record { servers = a; bridges = b; discovery = d; tls = t; nats_conn = n } ≡ cols =
      ground (arith, h5) in
    rw
      (
        sym same,
        (s.servers a e1).0,
        (s.bridges b e2).0,
        unmarshal-marshal o.discovery c.mqtt_discovery d s.discovery e3,
        unmarshal-marshal o.tls c.tls t s.tls e4,
        unmarshal-marshal o.nats_conn c.nats_conn n s.nats_conn e5,
        s.loaded,
        s.conn_loaded,
      )
      refl

find_row-new :
    (id : String) (rs : List ClusterRow) (r : ClusterRow)
    → has_cluster id rs ≡ false
    → r.id ≡ id
    → find_row id (rs ++ r ∷ []) ≡ some r
unfolding find_row
find_row-new id [] r h e = rw (e, eq_refl id) refl
find_row-new id (s ∷ rs) r h e =
    ground (arith, find_row-new id rs r, Bool-cases (str_eq s.id id), h, e)

inserted-get :
    (o : Outside) (id : String) (now : ℕ) (c d : Cluster) (cols : Option Columns) (db : ClusterDb)
    → IsStorable o c
    → marshal_cluster_fields o c ≡ cols
    → (insert_cluster o id now c cols db).1 ≡ done d
    → get_cluster o id (insert_cluster o id now c cols db).0 ≡ done d
unfolding get_cluster
inserted-get o id now c d none db s e h = absurd (ground (arith, h))
inserted-get o id now c d (some cols) db s e h =
    elim (Bool-cases (o.is_failing "clusters" || has_cluster id db.clusters)) [
      | inl f ↦ absurd (ground (arith, rw f at h))
      | inr f ↦
          let up : o.is_failing "clusters" ≡ false = ground (arith, f) in
          let free : has_cluster id db.clusters ≡ false = ground (arith, f) in
          let same : record c { id = id; created_at = some now } ≡ d = ground (arith, rw f at h) in
          rw
            (
              f,
              up,
              find_row-new id db.clusters (row_of id now c cols) free refl,
              scan_cluster-row_of o id now c cols s e,
              same,
            )
            refl
    ]

inserted-id :
    (o : Outside) (id : String) (now : ℕ) (c d : Cluster) (cols : Option Columns) (db : ClusterDb)
    → (insert_cluster o id now c cols db).1 ≡ done d
    → d.id ≡ id
inserted-id o id now c d none db h = absurd (ground (arith, h))
inserted-id o id now c d (some cols) db h =
    elim (Bool-cases (o.is_failing "clusters" || has_cluster id db.clusters)) [
      | inl f ↦ absurd (ground (arith, rw f at h))
      | inr f ↦
          let same : record c { id = id; created_at = some now } ≡ d = ground (arith, rw f at h) in
          ap (λ x. x.id) (sym same)
    ]

drawn-get :
    (o : Outside) (id : Option String) (now : ℕ) (c d : Cluster) (db : ClusterDb)
    → IsStorable o c
    → (insert_drawn o id now c db).1 ≡ done d
    → get_cluster o d.id (insert_drawn o id now c db).0 ≡ done d
drawn-get o none now c d db s h = absurd (ground (arith, h))
drawn-get o (some id) now c d db s h =
    let c' : Cluster = record c { id = id } in
    let storable : IsStorable o c' = record {
      servers = s.servers;
      bridges = s.bridges;
      discovery = s.discovery;
      tls = s.tls;
      nats_conn = s.nats_conn;
      loaded = s.loaded;
      conn_loaded = s.conn_loaded;
    } in
    let cols = marshal_cluster_fields o c' in
    ap (λ i. get_cluster o i (insert_cluster o id now c' cols db).0)
      (inserted-id o id now c' d cols db h)
    ∙ inserted-get o id now c' d cols db storable refl h

-- A cluster that was created is read back as it was given, with the id and the time it got, when JSON
-- reads back what it writes and the certificates that the cluster names are loaded.
pub create_cluster-get :
    (o : Outside) (draw : Draw) (c d : Cluster) (db : ClusterDb)
    → IsStorable o c
    → (create_cluster o draw c db).1 ≡ done d
    → get_cluster o d.id (create_cluster o draw c db).0 ≡ done d
unfolding create_cluster
create_cluster-get o draw c d db s h = elim (Bool-cases (is_empty c.name)) [
  | inl e ↦ absurd (ground (arith, rw e at h))
  | inr e ↦ elim (Bool-cases (is_empty c.servers)) [
    | inl f ↦ absurd (ground (arith, rw (e, f) at h))
    | inr f ↦ rw (e, f) (drawn-get o draw.id draw.now c d db s (rw (e, f) at h))
  ]
]
