-- ===== src/Store/Clusters/Known.antt =====
-- internal/store/clusters.go: the names that one run of seeding leaves.
use machmqtt_dashboard.Prelude.{
  ℕ, ◌+◌, ◌≡◌, refl, ◌∙◌, ap, ◌⊎◌, inl, inr, ◌&&◌, ◌||◌, String, List, [], ◌∷◌, ◌++◌, map, Bool,
  true, false, Option, none, some, Bytes, bytes_eq, bytes_eq_refl, arith, Bool-cases,
}
use machmqtt_dashboard.Environments.{Environment, is_empty}
use machmqtt_dashboard.Store.Clusters.{
  Cluster, ClusterDb, ClusterRow, ClusterResult, ClusterError, Columns, Outside, done, failed,
  marshal_cluster_fields, cluster_from_environment,
}
use machmqtt_dashboard.Store.Clusters.Methods.{
  Draw, row_of, has_cluster, insert_cluster, insert_drawn, create_cluster,
}
use machmqtt_dashboard.Store.Clusters.Listing.{is_known, Seeded, seed_step, seed_loop}

abbrev pub names_of : ClusterDb → List Bytes
names_of db = map (λ r. r.name) db.clusters

is_known-append :
    (x : Bytes) (rs : List ClusterRow) (r : ClusterRow)
    → is_known x (map (λ s. s.name) (rs ++ r ∷ []))
      ≡ (bytes_eq r.name x || is_known x (map (λ s. s.name) rs))
is_known-append x [] r = refl
is_known-append x (s ∷ rs) r =
    ground (
      arith,
      is_known-append x rs r,
      Bool-cases (bytes_eq s.name x),
      Bool-cases (bytes_eq r.name x),
    )

-- A creation adds its name, or changes nothing.
abbrev Grown : Bytes → Bytes → ClusterDb → ClusterDb × ClusterResult Cluster → Type 0
Grown x name db (after, failed e) = after ≡ db
Grown x name db (after, done c) =
    is_known x (names_of after) ≡ (bytes_eq name x || is_known x (names_of db))

insert_cluster-Grown :
    (x : Bytes) (o : Outside) (id : String) (now : ℕ) (c : Cluster) (cols : Option Columns)
    (db : ClusterDb)
    → Grown x c.name db (insert_cluster o id now c cols db)
insert_cluster-Grown x o id now c none db = refl
insert_cluster-Grown x o id now c (some cols) db =
    elim (Bool-cases (o.is_failing "clusters" || has_cluster id db.clusters)) [
      | inl e ↦ rw e refl
      | inr e ↦ rw e (is_known-append x db.clusters (row_of id now c cols))
    ]

insert_drawn-Grown :
    (x : Bytes) (o : Outside) (id : Option String) (now : ℕ) (c : Cluster) (db : ClusterDb)
    → Grown x c.name db (insert_drawn o id now c db)
insert_drawn-Grown x o none now c db = refl
insert_drawn-Grown x o (some id) now c db =
    insert_cluster-Grown x o id now c (marshal_cluster_fields o (record c { id = id })) db

create_cluster-Grown :
    (x : Bytes) (o : Outside) (d : Draw) (c : Cluster) (db : ClusterDb)
    → Grown x c.name db (create_cluster o d c db)
unfolding create_cluster
create_cluster-Grown x o d c db = elim (Bool-cases (is_empty c.name)) [
  | inl e ↦ rw e refl
  | inr e ↦ elim (Bool-cases (is_empty c.servers)) [
    | inl f ↦ rw (e, f) refl
    | inr f ↦ rw (e, f) (insert_drawn-Grown x o d.id d.now c db)
  ]
]

-- Every environment has a name that is known, or none.
abbrev pub all_known : List Environment → List Bytes → Bool
all_known [] names = true
all_known (e ∷ es) names = (is_empty e.name || is_known e.name names) && all_known es names

pub seed_loop-again :
    (o : Outside) (draws : ℕ → Draw) (envs : List Environment) (names : List Bytes) (n : ℕ)
    (db : ClusterDb)
    → all_known envs names ≡ true
    → seed_loop o draws envs names n db ≡ (db, n, none)
unfolding seed_loop
seed_loop-again o draws [] names n db h = refl
seed_loop-again o draws (e ∷ es) names n db h =
    let known : (is_empty e.name || is_known e.name names) ≡ true = ground (arith, h) in
    rw known (seed_loop-again o draws es names n db (ground (arith, h)))

pub ClusterResult-cases :
    {A : Type 0} (r : ClusterResult A)
    → ((e : ClusterError) × (r ≡ failed e)) ⊎ ((a : A) × (r ≡ done a))
ClusterResult-cases (failed e) = inl (e, refl)
ClusterResult-cases (done a) = inr (a, refl)

Grown-done :
    (x name : Bytes) (db : ClusterDb) (p : ClusterDb × ClusterResult Cluster) (c : Cluster)
    → Grown x name db p
    → p.1 ≡ done c
    → is_known x (names_of p.0) ≡ (bytes_eq name x || is_known x (names_of db))
Grown-done x name db (after, failed e) c g h = absurd (ground (arith, h))
Grown-done x name db (after, done d) c g h = g

Grown-kept :
    (x name : Bytes) (db : ClusterDb) (p : ClusterDb × ClusterResult Cluster)
    → Grown x name db p
    → is_known x (names_of db) ≡ true
    → is_known x (names_of p.0) ≡ true
Grown-kept x name db (after, failed e) g h = ap (λ d. is_known x (names_of d)) g ∙ h
Grown-kept x name db (after, done d) g h = g ∙ ground (arith, h, Bool-cases (bytes_eq name x))

both : {a b : Bool} → a ≡ true → b ≡ true → (a && b) ≡ true
both h k = ground (arith, h, k)

known_later :
    (empty before after : Bool)
    → (empty || before) ≡ true
    → (before ≡ true → after ≡ true)
    → (empty || after) ≡ true
known_later true before after h f = refl
known_later false true after h f = f refl
known_later false false after h f = absurd (ground (arith, h))

or_true : (b : Bool) → (b || true) ≡ true
or_true true = refl
or_true false = refl

or_later :
    (b before after : Bool)
    → (b || before) ≡ true
    → (before ≡ true → after ≡ true)
    → (b || after) ≡ true
or_later = known_later

module _ (o : Outside) (draws : ℕ → Draw) where
  abbrev seeded : List Environment → List Bytes → ℕ → ClusterDb → ClusterDb
  seeded envs names n db = (seed_loop o draws envs names n db).0

  abbrev made_of : Environment → ℕ → ClusterDb → ClusterDb × ClusterResult Cluster
  made_of env n db = create_cluster o (draws n) (cluster_from_environment env) db

  grown :
      (x : Bytes) (env : Environment) (n : ℕ) (db : ClusterDb)
      → Grown x env.name db (made_of env n db)
  grown x env n db = create_cluster-Grown x o (draws n) (cluster_from_environment env) db

  step-keeps :
      (x : Bytes) (b : Bool) (made : ClusterResult Cluster) (skipped added : Seeded)
      (db : ClusterDb) (n : ℕ)
      → is_known x (names_of skipped.0) ≡ true
      → is_known x (names_of added.0) ≡ true
      → is_known x (names_of db) ≡ true
      → is_known x (names_of (seed_step b made skipped added db n).0) ≡ true
  step-keeps x true made skipped added db n h k l = h
  step-keeps x false (done c) skipped added db n h k l = k
  step-keeps x false (failed e) skipped added db n h k l = l

  seed_loop-keeps :
      (x : Bytes) (envs : List Environment) (names : List Bytes) (n : ℕ) (db : ClusterDb)
      → is_known x (names_of db) ≡ true
      → is_known x (names_of (seeded envs names n db)) ≡ true
  unfolding seed_loop
  seed_loop-keeps x [] names n db h = h
  seed_loop-keeps x (e ∷ es) names n db h =
      let made = made_of e n db in
      let later = Grown-kept x e.name db made (grown x e n db) h in
      step-keeps x (is_empty e.name || is_known e.name names) made.1
        (seed_loop o draws es names n db) (seed_loop o draws es (e.name ∷ names) (n + 1) made.0)
        made.0 n (seed_loop-keeps x es names n db h)
        (seed_loop-keeps x es (e.name ∷ names) (n + 1) made.0 later) later

  step-known :
      (es : List Environment) (b : Bool) (made : ClusterResult Cluster) (skipped added : Seeded)
      (db : ClusterDb) (n : ℕ)
      → (b ≡ true → skipped.2 ≡ none → all_known es (names_of skipped.0) ≡ true)
      → ((c : Cluster) → made ≡ done c → added.2 ≡ none → all_known es (names_of added.0) ≡ true)
      → (seed_step b made skipped added db n).2 ≡ none
      → all_known es (names_of (seed_step b made skipped added db n).0) ≡ true
  step-known es true made skipped added db n f g h = f refl h
  step-known es false (done c) skipped added db n f g h = g c refl h
  step-known es false (failed e) skipped added db n f g h = absurd (ground (arith, h))

  pub seed_loop-known :
      (envs : List Environment) (names : List Bytes) (n : ℕ) (db : ClusterDb)
      → ((x : Bytes) → is_known x names ≡ true → is_known x (names_of db) ≡ true)
      → (seed_loop o draws envs names n db).2 ≡ none
      → all_known envs (names_of (seeded envs names n db)) ≡ true
  unfolding seed_loop
  seed_loop-known [] names n db sub h = refl
  seed_loop-known (e ∷ es) names n db sub h =
      let made = made_of e n db in
      let more = e.name ∷ names in
      step-known (e ∷ es) (is_empty e.name || is_known e.name names) made.1
        (seed_loop o draws es names n db) (seed_loop o draws es more (n + 1) made.0) made.0 n
        (λ k j.
          both
            (known_later (is_empty e.name) (is_known e.name names)
              (is_known e.name (names_of (seeded es names n db))) k
              (λ i. seed_loop-keeps e.name es names n db (sub e.name i)))
            (seed_loop-known es names n db sub j))
        (λ c f j.
          let named : (x : Bytes)
              → is_known x (names_of made.0) ≡ (bytes_eq e.name x || is_known x (names_of db)) =
            λ x. Grown-done x e.name db made c (grown x e n db) f in
          let here : is_known e.name (names_of made.0) ≡ true =
            named e.name ∙ ground (arith, bytes_eq_refl e.name) in
          both
            (known_later (is_empty e.name) true
              (is_known e.name (names_of (seeded es more (n + 1) made.0)))
              (or_true (is_empty e.name)) (λ i. seed_loop-keeps e.name es more (n + 1) made.0 here))
            (seed_loop-known es more (n + 1) made.0
              (λ x i.
                named x
                ∙ or_later (bytes_eq e.name x) (is_known x names) (is_known x (names_of db)) i
                    (sub x))
              j))
        h
