-- ===== src/Store/Metrics/Queries.antt =====
-- internal/store/metrics.go and internal/api/handlers_metrics.go: the queries of the time series. Times and steps
-- are in seconds after 1970; what `ParseInt` gives is a number, or nothing, which also stands for a negative
-- number: all three parameters refuse those alike.
use machmqtt_dashboard.Prelude.{
  ℕ, ◌+◌, ◌-◌, ◌*◌, ◌/◌, ◌==◌, ◌&&◌, not, ltb, leb, if◌then◌else◌, List, [], ◌∷◌, ◌++◌, map, Bool,
  true, false, Option, none, some, Bytes, codes,
}
use machmqtt_dashboard.Environments.{is_empty}

-- A bound argument of a statement.
pub data Arg : Type 0 where
  number : ℕ → Arg
  text : Bytes → Arg

-- `q += " AND " + idCol + " = ?"`, and the like.
abbrev pub if_set : Bytes → Bytes → Bytes
if_set col part = if is_empty col then [] else part

abbrev pub has_filter : Bytes → Bytes → Bool
has_filter col id = not (is_empty col) && not (is_empty id)

-- `buildMetricsQuery`
unfoldable pub build_metrics_query :
    Bytes → Bytes → Bytes → Bytes → Bytes → ℕ → ℕ → ℕ → Bytes × List Arg
build_metrics_query table id_col agg_cols env id from to step = (
  codes "SELECT (ts / ? ) * ? AS bucket"
      ++ (if_set id_col (codes ", " ++ id_col)
          ++ (codes ", "
              ++ (agg_cols
                  ++ (codes " FROM "
                      ++ (table
                          ++ (codes " WHERE env = ? AND ts >= ? AND ts <= ?"
                              ++ ((if has_filter id_col id
                                    then codes " AND " ++ (id_col ++ codes " = ?")
                                    else [])
                                  ++ (codes " GROUP BY bucket"
                                      ++ (if_set id_col (codes ", " ++ id_col)
                                          ++ codes " ORDER BY bucket"))))))))),
  number step
      ∷ number step
      ∷ text env
      ∷ number from
      ∷ number to
      ∷ (if has_filter id_col id then text id ∷ [] else []),
)

abbrev pub mqtt_metric_cols : List Bytes
mqtt_metric_cols =
    codes "connections_active"
    ∷ codes "in_msgs_rate"
    ∷ codes "out_msgs_rate"
    ∷ codes "in_bytes_rate"
    ∷ codes "out_bytes_rate"
    ∷ codes "msgs_recv_qos0"
    ∷ codes "msgs_recv_qos1"
    ∷ codes "msgs_sent_qos0"
    ∷ codes "msgs_sent_qos1"
    ∷ codes "msgs_recv_qos2"
    ∷ codes "msgs_sent_qos2"
    ∷ codes "session_write_behind_depth"
    ∷ codes "consumer_pending_messages"
    ∷ codes "stalled_consumers"
    ∷ codes "sockets_open"
    ∷ codes "inflight_out_messages"
    ∷ codes "op_queue_depth"
    ∷ codes "op_suspended_conns"
    ∷ codes "worker_pool_queue_depth"
    ∷ codes "pool_slot_connected"
    ∷ codes "retained_messages"
    ∷ codes "subscriptions_active"
    ∷ codes "go_heap_inuse_bytes"
    ∷ codes "go_goroutines"
    ∷ codes "scram_sessions_active"
    ∷ []

-- `strings.Join(parts, ", ")`
unfoldable pub join_commas : List Bytes → Bytes
join_commas [] = []
join_commas (p ∷ ps) = p ++ (if is_empty ps then [] else codes ", " ++ join_commas ps)

-- `aggList`
unfoldable pub agg_list : Bytes → List Bytes → Bool → Bytes
unfolding join_commas
agg_list fn cols alias = join_commas (
    map (λ c. fn ++ (codes "(" ++ (c ++ (codes ")" ++ (if alias then codes " AS " ++ c else [])))))
      cols)

-- The query of `QueryMQTTMetrics`, for one bridge or, without a name, summed over the fleet.
unfoldable pub mqtt_metrics_query : Bytes → Bytes → ℕ → ℕ → ℕ → Bytes × List Arg
unfolding build_metrics_query agg_list
mqtt_metrics_query env bridge_id from to step =
    let inner =
      build_metrics_query (codes "mqtt_bridge_metrics") (codes "bridge_id")
        (agg_list (codes "AVG") mqtt_metric_cols true) env bridge_id from to step in
    (
      if is_empty bridge_id
          then codes "SELECT bucket, "
            ++ (agg_list (codes "SUM") mqtt_metric_cols false
                ++ (codes " FROM (" ++ (inner.0 ++ codes ") GROUP BY bucket ORDER BY bucket")))
          else inner.0,
      inner.1,
    )

-- `autoStep`
unfoldable pub auto_step : ℕ → ℕ → ℕ → ℕ
auto_step from to target_points =
    if leb (to - from) 0
    then 5
    else if ltb ((to - from) / target_points) 5
    then 5
    else (to - from) / target_points

-- The step of the three queries.
abbrev pub step_or_auto : ℕ → ℕ → ℕ → ℕ
step_or_auto from to step = if step == 0 then auto_step from to 200 else step

abbrev pub max_metric_points : ℕ
max_metric_points = 5000

abbrev pub within : ℕ → ℕ → ℕ → Option ℕ → ℕ
within low high otherwise none = otherwise
within low high otherwise (some n) = if leb low n && leb n high then n else otherwise

abbrev pub clamp_step : ℕ → ℕ → ℕ → ℕ
clamp_step from to step =
    if ltb 0 step && ltb step ((to - from) / max_metric_points)
    then (to - from) / max_metric_points
    else step

pub record TimeRange : Type 0 where
  pub from : ℕ
  pub to : ℕ
  pub step : ℕ

-- `parseTimeRange`, at a time, of the parameters `from`, `to` and `step`.
unfoldable pub parse_time_range : ℕ → Option ℕ → Option ℕ → Option ℕ → TimeRange
parse_time_range now from_param to_param step_param =
    let from = within (now - 30 * 24 * 3600) now (now - 3600) from_param in
    let to = within from (now + 60) now to_param in
    record { from = from; to = to; step = clamp_step from to (within 1 86400 0 step_param) }
