-- ===== src/Exposition/Tests.antt =====
-- Runs and instances of internal/collector/mqtt_metrics_parser.go.
use machmqtt_dashboard.Prelude.{
  ℕ, ◌+◌, ◌-◌, ◌*◌, ◌≡◌, refl, inl, inr, arith, split, trim_space, cut, cut_prefix, leb, ◌==◌,
  if◌then◌else◌, String, List, [], ◌∷◌, ◌++◌, Bool, true, false, ◌&&◌, Bytes, codes, lookup, get,
  some, is_some, map, insert, fields,
}
use machmqtt_dashboard.Exposition.Metrics.{Floats, int_field}
use machmqtt_dashboard.Exposition.Rules.{rules}
use machmqtt_dashboard.Exposition.Names.{find_rule, cut_suffix}
use machmqtt_dashboard.Exposition.Labels.{value_of}
use machmqtt_dashboard.Exposition.Samples.{sample, parse_metric_line-sample}
use machmqtt_dashboard.Exposition.Termination.{find_label-is_some}
use machmqtt_dashboard.Exposition.Buckets.{
  buckets_cumulative_to_raw, sum, buckets_cumulative_to_raw-Scraped,
}
use machmqtt_dashboard.Exposition.Captured.{series, captured-parse_prometheus_metrics}
use machmqtt_dashboard.Exposition.Families.{TotalsAre, total-parse_prometheus_metrics}
use machmqtt_dashboard.Exposition.Samples.{label_text}
use machmqtt_dashboard.Exposition.Labels.{escape, block}
use machmqtt_dashboard.Exposition.Metrics.{series_key}
use machmqtt_dashboard.Exposition.{extract_label, parse_metric_line, find_label}
use machmqtt_dashboard.Exposition.Parse.{parse_prometheus_metrics, hist_bucket_index}

-- Decimal numbers in place of the floats.
abbrev digits : ℕ → Bytes → ℕ × Bool
digits n [] = (n, false)
digits n (c ∷ cs) =
    let rest = digits (n * 10 + (c - 48)) cs in if leb 48 c && leb c 57 then rest else (0, true)

abbrev decimal : Floats ℕ
decimal = record {
  parse_float = digits 0;
  is_nan = λ _. false;
  is_inf = λ _. false;
  at_least_max = λ _. false;
  at_most_min = λ _. false;
  truncate = λ n. n;
  equal = λ a b. a == b;
}

abbrev lines_of : List String → Bytes
lines_of [] = []
lines_of (s ∷ ss) = codes s ++ b'\n' ∷ lines_of ss

abbrev scrape : Bytes
scrape = lines_of (
    "# HELP machmqtt_drained Whether it is drained." ∷ "machmqtt_connections_active 17"
    ∷ "machmqtt_auth_failure_total{reason=\"locked\"} 3"
    ∷ "machmqtt_auth_failure_total{reason=\"brand_new\"} 4"
    ∷ "machmqtt_auth_duration_seconds_bucket{le=\"1\"} 9"
    ∷ "machmqtt_shiny_total{a=\"}\"} 5 1700000000" ∷ [])

scrape_ints :
    map
      (λ f. int_field f (parse_prometheus_metrics decimal scrape))
      ("ConnectionsActive" ∷ "AuthFailure" ∷ "AuthFailLocked" ∷ "ConsumerPendingMessages" ∷ [])
    ≡ 17 ∷ 7 ∷ 3 ∷ 18446744073709551615 ∷ []
unfolding parse_prometheus_metrics lookup hist_bucket_index extract_label insert fields
scrape_ints = refl

abbrev tricky : List (Bytes × Bytes)
tricky = (codes "a", codes "}\"x") ∷ (codes "reason", codes "lock,ed") ∷ []

parse_metric_line-sample_example :
    (parse_metric_line (sample (codes "machmqtt_x") tricky (codes "12") (codes " 99"))
      ≡ (codes "machmqtt_x", codes "12"))
    × (extract_label
          (sample (codes "machmqtt_x") tricky (codes "12") (codes " 99"))
          (codes "reason")
        ≡ value_of (codes "reason") tricky)
parse_metric_line-sample_example =
    parse_metric_line-sample (codes "machmqtt_x") tricky (codes "reason") b'1' (codes "2")
      (codes " 99")
      (refl, (refl, (refl, (refl, (refl, (refl, (refl, (refl, (refl, (refl, tt))))))))))
      ((refl, tt), ((refl, (refl, (refl, (refl, (refl, (refl, tt)))))), tt)) (refl, (refl, tt)) refl

find_label-is_some_example : is_some (find_label 20 (codes "b") (codes "a=\"1\",b")) ≡ true
find_label-is_some_example = find_label-is_some 20 (codes "b") (codes "a=\"1\",b") (omega arith)

buckets_cumulative_to_raw-Scraped_example :
    buckets_cumulative_to_raw (2 ∷ 5 ∷ 0 ∷ 9 ∷ []) ≡ 2 ∷ 3 ∷ 0 ∷ 4 ∷ []
unfolding sum
buckets_cumulative_to_raw-Scraped_example =
    buckets_cumulative_to_raw-Scraped (2 ∷ 3 ∷ 0 ∷ 4 ∷ []) (2 ∷ 5 ∷ 0 ∷ 9 ∷ []) (omega arith)
      (inl refl, (inl refl, (inr (refl, omega arith), (inl refl, tt))))

abbrev shiny : Bytes
shiny = codes "machmqtt_shiny_total{a=\"}\"} 5 1700000000"

abbrev shiny_labels : List (Bytes × Bytes)
shiny_labels = (codes "a", codes "}") ∷ []

captured-parse_prometheus_metrics_example :
    get
      (series (codes "machmqtt_shiny_total") shiny_labels)
      (parse_prometheus_metrics decimal scrape).uncurated
    ≡ some 5
unfolding split trim_space cut_prefix parse_metric_line find_rule rules cut_suffix cut label_text
    escape block series_key fields
captured-parse_prometheus_metrics_example =
    captured-parse_prometheus_metrics decimal scrape
      (codes "# HELP machmqtt_drained Whether it is drained."
        ∷ codes "machmqtt_connections_active 17"
        ∷ codes "machmqtt_auth_failure_total{reason=\"locked\"} 3"
        ∷ codes "machmqtt_auth_failure_total{reason=\"brand_new\"} 4"
        ∷ codes "machmqtt_auth_duration_seconds_bucket{le=\"1\"} 9"
        ∷ [])
      shiny ([] ∷ []) (codes "machmqtt_shiny_total") shiny_labels b'5' [] (codes " 1700000000") refl
      refl
      (
        refl,
        (
          refl,
          (
            refl,
            (
              refl,
              (
                refl,
                (
                  refl,
                  (
                    refl,
                    (
                      refl,
                      (
                        refl,
                        (
                          refl,
                          (
                            refl,
                            (
                              refl,
                              (refl, (refl, (refl, (refl, (refl, (refl, (refl, (refl, tt)))))))),
                            ),
                          ),
                        ),
                      ),
                    ),
                  ),
                ),
              ),
            ),
          ),
        ),
      )
      ((refl, tt), tt) (refl, tt) refl refl refl (refl, tt)

total-parse_prometheus_metrics_example : TotalsAre decimal scrape
total-parse_prometheus_metrics_example = total-parse_prometheus_metrics decimal scrape
