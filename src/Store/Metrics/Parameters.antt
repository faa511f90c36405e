-- ===== src/Store/Metrics/Parameters.antt =====
-- internal/store/metrics.go, `buildMetricsQuery`: what comes from a request is bound, never part of the text.
use machmqtt_dashboard.Prelude.{
  ℕ, ◌+◌, ◌≡◌, refl, inl, inr, ◌==◌, if◌then◌else◌, List, [], ◌∷◌, ◌++◌, true, false, Bytes, codes,
  arith, length, Bool-cases, if_elim, ◌∙◌,
}
use machmqtt_dashboard.Environments.{is_empty}
use machmqtt_dashboard.Store.Metrics.Queries.{
  Arg, build_metrics_query, mqtt_metrics_query, agg_list, mqtt_metric_cols,
}

-- The placeholders of a text.
unfoldable pub marks : Bytes → ℕ
marks [] = 0
marks (c ∷ cs) = (if c == b'?' then 1 else 0) + marks cs

marks-append : (xs ys : Bytes) → marks (xs ++ ys) ≡ marks xs + marks ys
unfolding marks
marks-append [] ys = omega arith
marks-append (x ∷ xs) ys = ground (arith, marks-append xs ys)

-- One placeholder for each bound argument.
pub build_metrics_query-marks :
    (table id_col agg_cols env id : Bytes) (from to step : ℕ)
    → marks table ≡ 0
    → marks id_col ≡ 0
    → marks agg_cols ≡ 0
    → marks (build_metrics_query table id_col agg_cols env id from to step).0
      ≡ length (build_metrics_query table id_col agg_cols env id from to step).1
unfolding build_metrics_query marks
build_metrics_query-marks table id_col agg_cols env id from to step t c a =
    elim (Bool-cases (is_empty id_col)) [
      | inl e ↦ rw e (simp (marks-append, t, c, a) (omega arith))
      | inr e ↦ elim (Bool-cases (is_empty id)) [
        | inl f ↦ rw (e, f) (simp (marks-append, t, c, a) (omega arith))
        | inr f ↦ rw (e, f) (simp (marks-append, t, c, a) (omega arith))
      ]
    ]

-- The columns of the series hold no placeholder.
marks-agg_list :
    (marks (agg_list (codes "AVG") mqtt_metric_cols true) ≡ 0)
    × (marks (agg_list (codes "SUM") mqtt_metric_cols false) ≡ 0)
unfolding agg_list marks
marks-agg_list = (refl, refl)

marks-wrap :
    (sums inner : Bytes)
    → marks sums ≡ 0
    → marks (
        codes "SELECT bucket, "
        ++ (sums ++ (codes " FROM (" ++ (inner ++ codes ") GROUP BY bucket ORDER BY bucket"))))
      ≡ marks inner
unfolding marks
marks-wrap sums inner h = simp (marks-append, h) (omega arith)

abbrev inner : Bytes → Bytes → ℕ → ℕ → ℕ → Bytes × List Arg
inner env id from to step =
    build_metrics_query (codes "mqtt_bridge_metrics") (codes "bridge_id")
      (agg_list (codes "AVG") mqtt_metric_cols true) env id from to step

inner-marks :
    (env id : Bytes) (from to step : ℕ)
    → marks (inner env id from to step).0 ≡ length (inner env id from to step).1
inner-marks env id from to step =
    build_metrics_query-marks (codes "mqtt_bridge_metrics") (codes "bridge_id")
      (agg_list (codes "AVG") mqtt_metric_cols true) env id from to step (unfold marks in refl)
      (unfold marks in refl) marks-agg_list.0

-- What a request says cannot change the statement that runs: of the query of a bridge's or the fleet's
-- series each placeholder has its argument, and its text is the same for all clusters, ranges and steps,
-- and for all bridges that are named.
pub mqtt_metrics_query-bound :
    (env env' id id' : Bytes) (from to step from' to' step' : ℕ)
    → is_empty id ≡ is_empty id'
    → ((mqtt_metrics_query env id from to step).0 ≡ (mqtt_metrics_query env' id' from' to' step').0)
      × (marks (mqtt_metrics_query env id from to step).0
          ≡ length (mqtt_metrics_query env id from to step).1)
unfolding mqtt_metrics_query
mqtt_metrics_query-bound env env' id id' from to step from' to' step' h = (
  unfold build_metrics_query in rw h refl,
  if_elim (λ (t : Bytes). marks t ≡ length (inner env id from to step).1) (is_empty id) _ _
      (λ e.
        marks-wrap (agg_list (codes "SUM") mqtt_metric_cols false) (inner env id from to step).0
          marks-agg_list.1
        ∙ inner-marks env id from to step)
      (λ e. inner-marks env id from to step),
)
