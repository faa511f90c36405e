-- ===== src/Store/Metrics/Transaction.antt =====
-- internal/store/metrics.go, `writeSample`: the rows of a sample are written together or not at all.
use machmqtt_dashboard.Prelude.{◌≡◌, List, [], ◌∷◌, ◌++◌, map, Option, none, some, Bytes}
use machmqtt_dashboard.Store.Metrics.{
  MetricSample, MetricsDb, Statement, Faults, wrote, broke, stamp, Attempt,
}

module _ (faults : Faults) where
  -- A part of a transaction ends with a value that is right, or with the error of a statement.
  abbrev Ends : {A : Type 0} → (A → Type 0) → Attempt A → Type 0
  Ends P (wrote a) = P a
  Ends P (broke statement message) = faults statement ≡ some message

-- The tables with all rows of a sample.
abbrev pub with_sample :
    {Float : Type 0} → Faults → MetricSample Float → MetricsDb Float → MetricsDb Float
with_sample faults s db = record {
  env_metrics = db.env_metrics ++ stamp faults s s.totals ∷ [];
  server_metrics = db.server_metrics ++ map (stamp faults s) s.servers;
  mqtt_bridge_metrics = db.mqtt_bridge_metrics ++ map (stamp faults s) s.mqtt_bridges;
}

-- What a transaction leaves: the tables with all rows of the sample, and no error, or the tables as they were,
-- and the error of a statement.
abbrev pub Transacted :
    {Float : Type 0}
    → Faults
    → MetricSample Float
    → MetricsDb Float
    → MetricsDb Float × Option (Statement × Bytes)
    → Type 0
Transacted faults s db (db', none) = db' ≡ with_sample faults s db
Transacted faults s db (db', some (statement, message)) =
    (db' ≡ db) × (faults statement ≡ some message)
