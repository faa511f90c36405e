-- ===== src/Store/Metrics/Writer.antt =====
-- internal/store/metrics.go: `MetricsWriter`, as a machine of which each step is one operation of a collector,
-- of the loop of `Run`, or of a pruning goroutine. Times are in nanoseconds.
use machmqtt_dashboard.Prelude.{
  ℕ, ◌+◌, ◌-◌, ◌*◌, ◌==◌, ◌||◌, ltb, if◌then◌else◌, add_u64, List, [], ◌∷◌, ◌++◌, length, Bool,
  true, false, Option, none, some, Bytes, codes, cut_prefix, is_some,
}
use machmqtt_dashboard.Environments.{lower}
use machmqtt_dashboard.Store.Metrics.{
  MetricSample, MetricsDb, Statement, Faults, write_sample, delete_old,
}

-- Where the loop of `Run` is: not called yet, before or after `ctx.Done()`, or returned.
pub data Phase : Type 0 where
  idle running draining finished : Phase

pub record MetricsWriter (Float : Type 0) : Type 0 where
  pub db : MetricsDb Float
  pub ch : List (MetricSample Float)
  pub retention : ℕ
  pub dropped : ℕ
  pub dropped_total : ℕ
  pub pruning : Bool
  pub written : ℕ
  pub failed : ℕ
  pub busy : ℕ
  pub query_errs : ℕ
  pub write_ns : ℕ
  pub query_ns : ℕ
  pub cleanup_ns : ℕ
  pub batch_rows : ℕ
  pub oldest_ns : ℕ
  pub stopped : Bool
  pub phase : Phase

abbrev pub queue_capacity : ℕ
queue_capacity = 256

abbrev pub hour : ℕ
hour = 3600000000000

-- A retention that is not positive is zero here.
abbrev pub keep_for : Option ℕ → ℕ
keep_for none = 24 * hour
keep_for (some d) = if d == 0 then 24 * hour else d

unfoldable pub new_metrics_writer :
    {Float : Type 0} → MetricsDb Float → Option ℕ → MetricsWriter Float
new_metrics_writer db retention = record {
  db = db;
  ch = [];
  retention = keep_for retention;
  dropped = 0;
  dropped_total = 0;
  pruning = false;
  written = 0;
  failed = 0;
  busy = 0;
  query_errs = 0;
  write_ns = 0;
  query_ns = 0;
  cleanup_ns = 0;
  batch_rows = 0;
  oldest_ns = 0;
  stopped = false;
  phase = idle;
}

-- `MetricsWriterStats`
pub record MetricsWriterStats : Type 0 where
  pub queue_depth : ℕ
  pub queue_capacity : ℕ
  pub dropped : ℕ
  pub written : ℕ
  pub failed : ℕ
  pub busy : ℕ
  pub query_errors : ℕ
  pub last_write_nanos : ℕ
  pub query_nanos : ℕ
  pub cleanup_nanos : ℕ
  pub last_batch_rows : ℕ
  pub oldest_queue_age : ℕ

-- `strings.Contains`
unfoldable pub contains_text : Bytes → Bytes → Bool
unfolding cut_prefix
contains_text text [] = is_some (cut_prefix text [])
contains_text text (c ∷ cs) = is_some (cut_prefix text (c ∷ cs)) || contains_text text cs

abbrev pub is_busy : Bytes → Bool
is_busy text =
    contains_text (codes "busy") (lower text) || contains_text (codes "locked") (lower text)

-- The first argument wraps a driver's error, as `fmt.Errorf` does.
module _ {Float : Type 0} (message : Statement × Bytes → Bytes) where
  abbrev pub oldest_age : ℕ → MetricsWriter Float → ℕ
  oldest_age now w =
      if ltb 0 (length w.ch) then (if ltb 0 w.oldest_ns then now - w.oldest_ns else 0) else 0

  -- `Stats`
  unfoldable pub writer_stats : ℕ → MetricsWriter Float → MetricsWriterStats
  writer_stats now w = record {
    queue_depth = length w.ch;
    queue_capacity = queue_capacity;
    dropped = w.dropped_total;
    written = w.written;
    failed = w.failed;
    busy = w.busy;
    query_errors = w.query_errs;
    last_write_nanos = w.write_ns;
    query_nanos = w.query_ns;
    cleanup_nanos = w.cleanup_ns;
    last_batch_rows = w.batch_rows;
    oldest_queue_age = oldest_age now w;
  }

  abbrev pub reject : MetricsWriter Float → MetricsWriter Float
  reject w = record w { dropped = add_u64 w.dropped 1; dropped_total = add_u64 w.dropped_total 1 }

  -- `Submit`
  unfoldable pub submit : ℕ → MetricSample Float → MetricsWriter Float → MetricsWriter Float × Bool
  submit now s w =
      if w.stopped
      then (reject w, false)
      else if ltb (length w.ch) queue_capacity
      then (
        record w { ch = w.ch ++ s ∷ []; oldest_ns = if w.oldest_ns == 0 then now else w.oldest_ns },
        true,
      )
      else (reject w, false)

  -- `recordBusy`, of an error.
  abbrev pub record_busy : Bytes → MetricsWriter Float → MetricsWriter Float
  record_busy text w = if is_busy text then record w { busy = add_u64 w.busy 1 } else w

  -- `observeQuery`
  unfoldable pub observe_query : ℕ → Option Bytes → MetricsWriter Float → MetricsWriter Float
  unfolding contains_text
  observe_query took none w = record w { query_ns = w.query_ns + took }
  observe_query took (some text) w =
      record_busy text
        (record w { query_ns = w.query_ns + took; query_errs = add_u64 w.query_errs 1 })

  abbrev pub account :
      MetricsDb Float × Option (Statement × Bytes) → MetricsWriter Float → MetricsWriter Float
  account (db, none) w = record w { db = db; written = add_u64 w.written 1 }
  account (db, some e) w =
      record_busy (message e) (record w { db = db; failed = add_u64 w.failed 1 })

  -- `persist`
  unfoldable pub persist :
      Faults → ℕ → MetricSample Float → MetricsWriter Float → MetricsWriter Float
  unfolding write_sample contains_text
  persist faults took s w =
      account (write_sample faults s w.db)
        (record w { batch_rows = 1 + length s.servers + length s.mqtt_bridges; write_ns = took })

  -- The loop of `Run` with a sample, or an empty channel; the channel has been received from.
  abbrev pub after_receive : MetricsWriter Float → MetricsWriter Float
  after_receive w = if length w.ch == 0 then record w { oldest_ns = 0 } else w

  abbrev pub receive :
      Faults → ℕ → Phase → List (MetricSample Float) → MetricsWriter Float → MetricsWriter Float
  receive faults took running (s ∷ rest) w =
      after_receive (persist faults took s (record w { ch = rest }))
  receive faults took draining (s ∷ rest) w = persist faults took s (record w { ch = rest })
  receive faults took draining [] w = record w { phase = finished }
  receive faults took phase ch w = w

  abbrev pub cancel_in : Phase → MetricsWriter Float → MetricsWriter Float
  cancel_in running w = record w { stopped = true; phase = draining }
  cancel_in phase w = w

  -- A tick of `cleanup`: the goroutine starts unless one runs, and the drops are reported.
  abbrev pub tick_in : Phase → MetricsWriter Float → MetricsWriter Float
  tick_in running w = record w { pruning = true; dropped = 0 }
  tick_in phase w = w

  abbrev pub start_in : Phase → MetricsWriter Float → MetricsWriter Float
  start_in idle w = record w { phase = running }
  start_in phase w = w

  -- The goroutine that a tick started: `deleteOld`.
  abbrev pub prune : (Bytes → Bool) → ℕ → ℕ → MetricsWriter Float → MetricsWriter Float
  prune fails now took w =
      if w.pruning
      then record w {
        db = (delete_old fails now w.retention w.db).0;
        cleanup_ns = took;
        pruning = false;
      }
      else w

-- What happens to a writer.
pub data WriterEvent (Float : Type 0) : Type 0 where
  run cancel tick : WriterEvent Float
  submitted : ℕ → MetricSample Float → WriterEvent Float
  received : Faults → ℕ → WriterEvent Float
  pruned : (Bytes → Bool) → ℕ → ℕ → WriterEvent Float
  queried : ℕ → Option Bytes → WriterEvent Float

module _ {Float : Type 0} (message : Statement × Bytes → Bytes) where
  unfoldable pub step : WriterEvent Float → MetricsWriter Float → MetricsWriter Float
  unfolding submit persist observe_query
  step run w = start_in message w.phase w
  step cancel w = cancel_in message w.phase w
  step tick w = tick_in message w.phase w
  step (submitted now s) w = (submit message now s w).0
  step (received faults took) w = receive message faults took w.phase w.ch w
  step (pruned fails now took) w = prune message fails now took w
  step (queried took e) w = observe_query message took e w

  -- The number of submissions that were taken and of those that were rejected, over a run of events.
  abbrev pub tally : WriterEvent Float → MetricsWriter Float → ℕ × ℕ → ℕ × ℕ
  tally (submitted now s) w (taken, rejected) =
      if (submit message now s w).1 then (taken + 1, rejected) else (taken, rejected + 1)
  tally e w counts = counts

  unfoldable pub run_all :
      List (WriterEvent Float) → MetricsWriter Float × ℕ × ℕ → MetricsWriter Float × ℕ × ℕ
  unfolding step
  run_all [] state = state
  run_all (e ∷ es) (w, taken, rejected) =
      let counts = tally e w (taken, rejected) in run_all es (step e w, counts.0, counts.1)
