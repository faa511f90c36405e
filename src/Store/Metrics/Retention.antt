-- ===== src/Store/Metrics/Retention.antt =====
-- internal/store/metrics.go, `deleteOld`: what a prune takes from a table.
use machmqtt_dashboard.Prelude.{
  ℕ, zero, suc, ◌-◌, ◌≡◌, refl, ap, inl, inr, ◌+◌, ◌*◌, leb, ltb, not, if◌then◌else◌, List, [], ◌∷◌,
  filter, count, Bool, true, false, Bytes, arith, Bool-cases, codes,
}
use machmqtt_dashboard.Store.Metrics.{
  MetricRow, MetricsDb, cutoff_at, delete_rows, prune_batch, prune_table, delete_old,
}

-- The second of the row has passed, and the retention after it.
abbrev pub is_old : {A : Type 0} → ℕ → ℕ → MetricRow A → Bool
is_old now retention r = leb ((r.ts + 1) * 1_000_000_000 + retention) now

-- Of a table before and after: the rows within the retention are kept, in order, and of the older ones a
-- batch is gone.
abbrev pub Pruned : {A : Type 0} → ℕ → ℕ → ℕ → List (MetricRow A) → List (MetricRow A) → Type 0
Pruned limit now retention rows left =
    (filter (λ r. not (is_old now retention r)) left
      ≡ filter (λ r. not (is_old now retention r)) rows)
    × (count (is_old now retention) left ≡ count (is_old now retention) rows - limit)

is_old-cutoff_at :
    (now retention ts : ℕ)
    → leb ((ts + 1) * 1_000_000_000 + retention) now ≡ ltb ts (cutoff_at now retention)
is_old-cutoff_at now retention ts = elim (Bool-cases (ltb ts (cutoff_at now retention))) [
  | inl e ↦ rw e (ground (arith, e))
  | inr e ↦ rw e (ground (arith, e))
]

delete_rows-Pruned :
    {A : Type 0} (limit now retention : ℕ) (rows : List (MetricRow A))
    → Pruned limit now retention rows (delete_rows limit (cutoff_at now retention) rows).0
unfolding delete_rows
delete_rows-Pruned limit now retention [] = (refl, omega arith)
delete_rows-Pruned zero now retention (r ∷ rs) = (refl, omega arith)
delete_rows-Pruned (suc limit) now retention (r ∷ rs) =
    let k = is_old-cutoff_at now retention r.ts in
    elim (Bool-cases (ltb r.ts (cutoff_at now retention))) [
      | inl e ↦
          let ih = delete_rows-Pruned limit now retention rs in
          rw (k, e) (ih.0, omega (arith, ih.1))
      | inr e ↦
          let ih = delete_rows-Pruned (suc limit) now retention rs in
          rw (k, e, k, e) (ap (◌∷◌ r) ih.0, ih.1)
    ]

abbrev pub batch : Bool → ℕ
batch fails = if fails then 0 else 10_000

prune_table-Pruned :
    {A : Type 0} (fails : Bool) (now retention : ℕ) (rows : List (MetricRow A))
    → Pruned (batch fails) now retention rows (prune_table fails (cutoff_at now retention) rows).0
prune_table-Pruned true now retention rows = (refl, omega arith)
prune_table-Pruned false now retention rows = delete_rows-Pruned prune_batch now retention rows

-- A prune never takes a row that is within the retention, which is one whose second, with the retention
-- after it, is not over; and of the older ones of each table whose statement does not fail it takes 10000,
-- or all if there are fewer.
pub delete_old-Pruned :
    {Float : Type 0} (fails : Bytes → Bool) (now retention : ℕ) (db : MetricsDb Float)
    → Pruned
        (batch (fails (codes "server_metrics")))
        now
        retention
        db.server_metrics
        (delete_old fails now retention db).0.server_metrics
      × Pruned
          (batch (fails (codes "env_metrics")))
          now
          retention
          db.env_metrics
          (delete_old fails now retention db).0.env_metrics
      × Pruned
          (batch (fails (codes "mqtt_bridge_metrics")))
          now
          retention
          db.mqtt_bridge_metrics
          (delete_old fails now retention db).0.mqtt_bridge_metrics
unfolding delete_old
delete_old-Pruned fails now retention db = (
  prune_table-Pruned (fails (codes "server_metrics")) now retention db.server_metrics,
  prune_table-Pruned (fails (codes "env_metrics")) now retention db.env_metrics,
  prune_table-Pruned (fails (codes "mqtt_bridge_metrics")) now retention db.mqtt_bridge_metrics,
)
