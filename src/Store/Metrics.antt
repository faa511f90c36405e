-- ===== src/Store/Metrics.antt =====
-- internal/store/metrics.go: the samples of a poll, their tables, and the transaction that writes one. Floats
-- are a parameter; integers are what Go's `int64` holds. SQLite is the tables and, for each statement, the
-- error that it gives, if it does.
pub mod Writer
pub mod Conserved
pub mod Transaction
pub mod Retention
pub mod Queries
pub mod Bounds
pub mod Tests
pub mod Parameters
use machmqtt_dashboard.Prelude.{
  ℕ, ◌-◌, ◌/◌, zero, suc, ltb, ◌||◌, if◌then◌else◌, List, [], ◌∷◌, ◌++◌, Bool, true, false, Option,
  none, some, Bytes, codes, Int64,
}

-- `ServerMetricSample`; the table has `healthy` as 0 or 1.
pub record ServerSample (Float : Type 0) : Type 0 where
  pub server_id : Bytes
  pub connections : Int64
  pub in_msgs : Int64
  pub out_msgs : Int64
  pub in_bytes : Int64
  pub out_bytes : Int64
  pub cpu : Float
  pub mem : Int64
  pub subscriptions : Int64
  pub slow_consumers : Int64
  pub routes : Int64
  pub leaf_nodes : Int64
  pub in_msgs_rate : Float
  pub out_msgs_rate : Float
  pub in_bytes_rate : Float
  pub out_bytes_rate : Float
  pub healthy : Bool

-- `MQTTBridgeMetricSample`; no pending messages are NULL in the table.
pub record BridgeSample (Float : Type 0) : Type 0 where
  pub bridge_id : Bytes
  pub connections_active : Int64
  pub in_msgs_rate : Float
  pub out_msgs_rate : Float
  pub in_bytes_rate : Float
  pub out_bytes_rate : Float
  pub msgs_recv_qos0 : Int64
  pub msgs_recv_qos1 : Int64
  pub msgs_sent_qos0 : Int64
  pub msgs_sent_qos1 : Int64
  pub msgs_recv_qos2 : Int64
  pub msgs_sent_qos2 : Int64
  pub session_write_behind_depth : Int64
  pub consumer_pending_messages : Option Int64
  pub stalled_consumers : Int64
  pub sockets_open : Int64
  pub inflight_out_messages : Int64
  pub op_queue_depth : Int64
  pub op_suspended_conns : Int64
  pub worker_pool_queue_depth : Int64
  pub pool_slot_connected : Int64
  pub retained_messages : Int64
  pub subscriptions_active : Int64
  pub go_heap_inuse_bytes : Int64
  pub go_goroutines : Int64
  pub scram_sessions_active : Int64

-- The environment's own columns of `MetricSample`.
pub record EnvSample (Float : Type 0) : Type 0 where
  pub server_count : Int64
  pub healthy_count : Int64
  pub connection_count : Int64
  pub in_msgs_rate : Float
  pub out_msgs_rate : Float
  pub in_bytes_rate : Float
  pub out_bytes_rate : Float
  pub subscriptions : Int64

-- `MetricSample`, with the time in Unix seconds.
pub record MetricSample (Float : Type 0) : Type 0 where
  pub timestamp : ℕ
  pub env : Bytes
  pub totals : EnvSample Float
  pub servers : List (ServerSample Float)
  pub mqtt_bridges : List (BridgeSample Float)

-- A row of one of the three tables: `ts`, `env` and the columns of a sample.
pub record MetricRow (A : Type 0) : Type 0 where
  pub ts : ℕ
  pub env : Bytes
  pub columns : A

pub record MetricsDb (Float : Type 0) : Type 0 where
  pub env_metrics : List (MetricRow (EnvSample Float))
  pub server_metrics : List (MetricRow (ServerSample Float))
  pub mqtt_bridge_metrics : List (MetricRow (BridgeSample Float))

-- The statements of one transaction, and its error with the text that wraps the driver's.
pub data Statement : Type 0 where
  begin insert_environment prepare_server prepare_mqtt commit : Statement
  insert_server insert_mqtt : Bytes → Statement

abbrev pub Faults : Type 0
Faults = Statement → Option Bytes

-- What a part of the transaction gives: a value, or the statement that failed and the driver's error.
pub data Attempt {ℓ} (A : Type ℓ) : Type ℓ where
  wrote : A → Attempt A
  broke : Statement → Bytes → Attempt A

infixl 1 ◌>>=◌
abbrev pub ◌>>=◌ {ℓ κ} : {A : Type ℓ} {B : Type κ} → Attempt A → (A → Attempt B) → Attempt B
wrote a >>= f = f a
broke statement message >>= f = broke statement message

infixl 1 ◌>>◌
abbrev pub ◌>>◌ {ℓ} : {B : Type ℓ} → Attempt (Unit {0}) → Attempt B → Attempt B
m >> k = m >>= λ _. k

module _ (faults : Faults) where
  abbrev pub checked {ℓ} : {B : Type ℓ} → Statement → Option Bytes → Attempt B → Attempt B
  checked statement none next = next
  checked statement (some message) next = broke statement message

  abbrev pub exec : Statement → Attempt (Unit {0})
  exec statement = checked statement (faults statement) (wrote tt)

  -- The loop over the servers or the bridges, one INSERT for each.
  unfoldable pub insert_rows :
      {A : Type 0}
      → (A → Statement)
      → (A → MetricRow A)
      → List A
      → List (MetricRow A)
      → Attempt (List (MetricRow A))
  insert_rows insert row [] rows = wrote rows
  insert_rows insert row (a ∷ as') rows =
      let rest = insert_rows insert row as' (rows ++ row a ∷ []) in
      checked (insert a) (faults (insert a)) rest

module _ {Float : Type 0} (faults : Faults) where
  abbrev pub stamp : {A : Type 0} → MetricSample Float → A → MetricRow A
  stamp s columns = record { ts = s.timestamp; env = s.env; columns = columns }

  -- The body of the transaction.
  unfoldable pub write_rows : MetricSample Float → MetricsDb Float → Attempt (MetricsDb Float)
  unfolding insert_rows
  write_rows s db = do
    exec faults begin
    exec faults insert_environment
    exec faults prepare_server
    servers ←
        insert_rows faults (λ v. insert_server v.server_id) (stamp s) s.servers db.server_metrics
    exec faults prepare_mqtt
    bridges ←
        insert_rows faults (λ b. insert_mqtt b.bridge_id) (stamp s) s.mqtt_bridges
          db.mqtt_bridge_metrics
    exec faults commit
    wrote (record {
      env_metrics = db.env_metrics ++ stamp s s.totals ∷ [];
      server_metrics = servers;
      mqtt_bridge_metrics = bridges;
    })

  -- The deferred `Rollback`.
  abbrev pub settle :
      MetricsDb Float → Attempt (MetricsDb Float) → MetricsDb Float × Option (Statement × Bytes)
  settle db (wrote db') = (db', none)
  settle db (broke statement message) = (db, some (statement, message))

  -- `writeSample`
  unfoldable pub write_sample :
      MetricSample Float → MetricsDb Float → MetricsDb Float × Option (Statement × Bytes)
  unfolding write_rows
  write_sample s db = settle db (write_rows s db)

-- `time.Now().Add(-w.retention).Unix()`, and 0 before 1970.
abbrev pub cutoff_at : ℕ → ℕ → ℕ
cutoff_at now retention = (now - retention) / 1_000_000_000

abbrev pub prune_batch : ℕ
prune_batch = 10000

-- The rows that are left by `DELETE` of at most so many of those before the cutoff, and whether one went.
unfoldable pub delete_rows : {A : Type 0} → ℕ → ℕ → List (MetricRow A) → List (MetricRow A) × Bool
delete_rows limit cutoff [] = ([], false)
delete_rows zero cutoff (r ∷ rs) = (r ∷ rs, false)
delete_rows (suc limit) cutoff (r ∷ rs) =
    let fewer = delete_rows limit cutoff rs in
    let rest = delete_rows (suc limit) cutoff rs in
    if ltb r.ts cutoff then (fewer.0, true) else (r ∷ rest.0, rest.1)

-- One table of `deleteOld`: an error of the statement leaves it as it is.
abbrev pub prune_table : {A : Type 0} → Bool → ℕ → List (MetricRow A) → List (MetricRow A) × Bool
prune_table fails cutoff rows = if fails then (rows, false) else delete_rows prune_batch cutoff rows

-- `deleteOld` at a time, under a retention, and whether pages are to be given back.
unfoldable pub delete_old :
    {Float : Type 0} → (Bytes → Bool) → ℕ → ℕ → MetricsDb Float → MetricsDb Float × Bool
unfolding delete_rows
delete_old fails now retention db =
    let cutoff = cutoff_at now retention in
    let servers = prune_table (fails (codes "server_metrics")) cutoff db.server_metrics in
    let envs = prune_table (fails (codes "env_metrics")) cutoff db.env_metrics in
    let bridges = prune_table (fails (codes "mqtt_bridge_metrics")) cutoff db.mqtt_bridge_metrics in
    (
      record { env_metrics = envs.0; server_metrics = servers.0; mqtt_bridge_metrics = bridges.0 },
      servers.1 || (envs.1 || bridges.1),
    )
