-- ===== src/Store/Clusters/Cascade.antt =====
-- internal/store/clusters.go: what a deletion leaves.
use machmqtt_dashboard.Prelude.{
  ◌≡◌, refl, sym, ◌∙◌, ap, inl, inr, ◌||◌, not, if◌then◌else◌, String, str_eq, List, [], ◌∷◌,
  filter, Bool, true, false, Option, none, some, arith, Bool-cases,
}
use machmqtt_dashboard.Store.Clusters.{ClusterDb, ClusterResult, Datum, Outside, done, failed}
use machmqtt_dashboard.Store.Clusters.Methods.{
  has_cluster, cascade, commit, delete_cluster, env_tables,
}

abbrev pub is_among : String → List String → Bool
is_among t [] = false
is_among t (u ∷ us) = str_eq t u || is_among t us

-- The rows of the other clusters.
abbrev pub without : String → List Datum → List Datum
without id ds = filter (λ d. not (str_eq d.env id)) ds

without-twice : (id : String) (ds : List Datum) → without id (without id ds) ≡ without id ds
without-twice id [] = refl
without-twice id (d ∷ ds) = elim (Bool-cases (str_eq d.env id)) [
  | inl e ↦ rw e (without-twice id ds)
  | inr e ↦ rw (e, e) (ap (◌∷◌ d) (without-twice id ds))
]

abbrev tables_or : Option (String → List Datum) → String → List Datum
tables_or none u = []
tables_or (some tables) u = tables u

with_table :
    (here there : Bool) (id : String) (ds later : List Datum)
    → later ≡ (
        if there
        then without id (if here then without id ds else ds)
        else (if here then without id ds else ds))
    → later ≡ (if here || there then without id ds else ds)
with_table true true id ds later h = h ∙ without-twice id ds
with_table true false id ds later h = h
with_table false true id ds later h = h
with_table false false id ds later h = h

cascade-without :
    (o : Outside) (id : String) (ts : List String) (tables later : String → List Datum) (u : String)
    → cascade o id ts tables ≡ some later
    → later u ≡ (if is_among u ts then without id (tables u) else tables u)
unfolding cascade
cascade-without o id [] tables later u h = sym (ap (λ x. tables_or x u) h)
cascade-without o id (t ∷ ts) tables later u h = elim (Bool-cases (o.is_failing t)) [
  | inl e ↦ absurd (ground (arith, rw e at h))
  | inr e ↦ with_table (str_eq u t) (is_among u ts) id (tables u) (later u) (
      cascade-without o id ts (λ v. if str_eq v t then without id (tables v) else tables v) later u
        (rw e at h))
]

-- The six tables whose rows belong to a cluster.
abbrev pub keyed_tables : List String
keyed_tables =
    "mqtt_bridges" ∷ "server_metrics" ∷ "env_metrics" ∷ "mqtt_bridge_metrics" ∷ "topology_positions"
    ∷ "topology_camera" ∷ []

-- What the deletion of a cluster leaves: either everything as it was, with an error, or no row of it in the
-- table of clusters and in the six tables that key on it, with all other rows and tables as they were.
abbrev pub Deleted : String → ClusterDb → ClusterDb × ClusterResult (Unit {0}) → String → Type 0
Deleted id db (after, failed e) table = after ≡ db
Deleted id db (after, done u) table =
    (after.clusters ≡ filter (λ r. not (str_eq r.id id)) db.clusters)
    × (after.data_of table
        ≡ (if is_among table keyed_tables then without id (db.data_of table) else db.data_of table))

Deleted-commit :
    (o : Outside) (id : String) (fails : Bool) (db : ClusterDb)
    (made : Option (String → List Datum)) (table : String)
    → cascade o id env_tables db.data_of ≡ made
    → Deleted id db (commit fails db (filter (λ r. not (str_eq r.id id)) db.clusters) made) table
Deleted-commit o id fails db none table h = refl
Deleted-commit o id true db (some later) table h = refl
Deleted-commit o id false db (some later) table h =
    (refl, cascade-without o id env_tables db.data_of later table h)

-- The deletion of a cluster is all or nothing, whichever statement of the transaction fails, its beginning
-- and its end included: with an error the database is as it was, and without one there is no row of the
-- cluster left in the table of clusters and in the six tables that key on it, while all other rows and
-- tables are as they were.
pub delete_cluster-Deleted :
    (o : Outside) (id : String) (db : ClusterDb) (table : String)
    → Deleted id db (delete_cluster o id db) table
unfolding delete_cluster
delete_cluster-Deleted o id db table =
    elim (Bool-cases (o.is_failing "BEGIN" || o.is_failing "clusters")) [
      | inl e ↦ rw e refl
      | inr e ↦ elim (Bool-cases (has_cluster id db.clusters)) [
        | inl f ↦
            rw (e, f)
              (Deleted-commit o id (o.is_failing "COMMIT") db (cascade o id env_tables db.data_of)
                table refl)
        | inr f ↦ rw (e, f) refl
      ]
    ]
