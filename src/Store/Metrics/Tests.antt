-- ===== src/Store/Metrics/Tests.antt =====
-- Runs of internal/store/metrics.go, and instances of the theorems on it. Floats are numbers here.
use machmqtt_dashboard.Prelude.{
  ℕ, ◌≡◌, refl, List, [], ◌∷◌, Bool, false, none, some, Bytes, codes, length,
}
use machmqtt_dashboard.Store.Metrics.{
  MetricSample, MetricsDb, Statement, Faults, commit, delete_old,
}
use machmqtt_dashboard.Store.Metrics.Writer.{
  MetricsWriter, WriterEvent, run, cancel, submitted, received, new_metrics_writer, run_all,
}
use machmqtt_dashboard.Store.Metrics.Conserved.{IsConserved, run_all-IsConserved}
use machmqtt_dashboard.Store.Metrics.Retention.{Pruned, delete_old-Pruned}
use machmqtt_dashboard.Store.Metrics.Queries.{parse_time_range, mqtt_metrics_query}
use machmqtt_dashboard.Store.Metrics.Bounds.{buckets, IsWithin, parse_time_range-IsWithin}
use machmqtt_dashboard.Store.Metrics.Parameters.{marks, mqtt_metrics_query-bound}

abbrev sample : ℕ → MetricSample ℕ
sample t = record {
  timestamp = t;
  env = codes "c1";
  totals = record {
    server_count = 1;
    healthy_count = 1;
    connection_count = 7;
    in_msgs_rate = 0;
    out_msgs_rate = 0;
    in_bytes_rate = 0;
    out_bytes_rate = 0;
    subscriptions = 3;
  };
  servers = [];
  mqtt_bridges = [];
}

abbrev clean : MetricsDb ℕ
clean = record { env_metrics = []; server_metrics = []; mqtt_bridge_metrics = [] }

abbrev no_faults : Faults
no_faults statement = none

abbrev full_disk : Faults
full_disk commit = some (codes "database is locked")
full_disk statement = none

abbrev driver : Statement × Bytes → Bytes
driver e = e.1

abbrev day : List (WriterEvent ℕ)
day =
    run
    ∷ submitted 1 (sample 1)
    ∷ submitted 2 (sample 2)
    ∷ received no_faults 9
    ∷ received full_disk 9
    ∷ submitted 3 (sample 3)
    ∷ cancel
    ∷ submitted 4 (sample 4)
    ∷ received no_faults 9
    ∷ received no_faults 9
    ∷ []

abbrev after : MetricsWriter ℕ × ℕ × ℕ
unfolding run_all new_metrics_writer
after = run_all driver day (new_metrics_writer clean none, 0, 0)

-- Two are written, one failed, one came after the stop.
after_day :
    ((after.0.written ≡ 2) × (after.0.failed ≡ 1) × (after.0.busy ≡ 1))
    × (after.1 ≡ 3)
    × (after.2 ≡ 1)
    × (length after.0.db.env_metrics ≡ 2)
unfolding after run_all new_metrics_writer
after_day = ((refl, refl, refl), refl, refl, refl)

run_all-IsConserved_example : IsConserved after.0 after.1 after.2
unfolding after
run_all-IsConserved_example = run_all-IsConserved driver day clean none

abbrev two_days : MetricsDb ℕ
two_days = record clean {
  env_metrics =
      record { ts = 5; env = codes "c1"; columns = (sample 5).totals }
      ∷ record { ts = 90; env = codes "c1"; columns = (sample 90).totals }
      ∷ [];
}

abbrev never : Bytes → Bool
never table = false

delete_old-Pruned_example :
    Pruned 10000 60_000_000_000 10_000_000_000 two_days.server_metrics
      (delete_old never 60_000_000_000 10_000_000_000 two_days).0.server_metrics
    × Pruned 10000 60_000_000_000 10_000_000_000 two_days.env_metrics
        (delete_old never 60_000_000_000 10_000_000_000 two_days).0.env_metrics
    × Pruned 10000 60_000_000_000 10_000_000_000 two_days.mqtt_bridge_metrics
        (delete_old never 60_000_000_000 10_000_000_000 two_days).0.mqtt_bridge_metrics
delete_old-Pruned_example = delete_old-Pruned never 60_000_000_000 10_000_000_000 two_days

parse_time_range-IsWithin_example :
    IsWithin 3000000000 (parse_time_range 3000000000 (some 2999990001) none (some 1))
parse_time_range-IsWithin_example =
    parse_time_range-IsWithin 3000000000 (some 2999990001) none (some 1)

-- A range of 9999 seconds at a step of one has 10000 points, twice the documented bound.
points_twice :
    let r = parse_time_range 3000000000 (some 2999990001) none (some 1) in
    (r.step ≡ 1) × (buckets r.from r.to r.step ≡ 10000)
unfolding parse_time_range
points_twice = (refl, refl)

mqtt_metrics_query-bound_example :
    ((mqtt_metrics_query (codes "c1") (codes "b1") 1 2 5).0
      ≡ (mqtt_metrics_query (codes "c2") (codes "'; --") 3 4 9).0)
    × (marks (mqtt_metrics_query (codes "c1") (codes "b1") 1 2 5).0
        ≡ length (mqtt_metrics_query (codes "c1") (codes "b1") 1 2 5).1)
mqtt_metrics_query-bound_example =
    mqtt_metrics_query-bound (codes "c1") (codes "c2") (codes "b1") (codes "'; --") 1 2 5 3 4 9 refl
