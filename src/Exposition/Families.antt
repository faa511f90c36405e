-- ===== src/Exposition/Families.antt =====
-- internal/collector/mqtt_metrics_parser.go: the fields of the families that are summed, by the
-- names of the families.
use machmqtt_dashboard.Prelude.{
  ℕ, ◌+◌, ◌%◌, ◌^◌, ◌≡◌, refl, ◌∙◌, ap, if◌then◌else◌, String, List, [], ◌∷◌, Bool, false, ◌&&◌,
  Bytes, bytes_eq, codes, split, trim_space, arith,
}
use machmqtt_dashboard.Exposition.{parse_metric_line}
use machmqtt_dashboard.Exposition.Rules.{rules}
use machmqtt_dashboard.Exposition.Names.{find_rule}
use machmqtt_dashboard.Exposition.Metrics.{Floats, int_field, initial_int}
use machmqtt_dashboard.Exposition.Parse.{parse_prometheus_metrics}
use machmqtt_dashboard.Exposition.Kept.{is_sample}
use machmqtt_dashboard.Exposition.Fields.{total_of}
use machmqtt_dashboard.Exposition.Touched.{IsTouched, names-family}
use machmqtt_dashboard.Exposition.Totals.{sets, value_of_line, sum_of, int_field-sum}

-- A sample of the family, by its name.
abbrev pub is_of : String → Bytes → Bool
is_of family line = is_sample line && bytes_eq (parse_metric_line line).0 (codes family)

module _ {F : Type 0} (fl : Floats F) where
  -- The sum of the values of the family's samples.
  unfoldable pub family_sum : String → List Bytes → ℕ
  family_sum family [] = 0
  family_sum family (l ∷ ls) =
      let line = trim_space l in
      (if is_of family line then value_of_line fl line else 0) + family_sum family ls

  sum_of-family :
      (field family : String) (lines : List Bytes)
      → IsTouched total_of field (codes family)
      → sum_of fl field lines ≡ family_sum family lines
  unfolding sum_of family_sum
  sum_of-family field family [] t = refl
  sum_of-family field family (l ∷ ls) t =
      rw
        (
          names-family total_of field (codes family) (parse_metric_line (trim_space l)).0 t,
          sum_of-family field family ls t,
        )
        refl

  total-family :
      (field family : String) (body : Bytes)
      → initial_int field ≡ 0
      → sets field rules ≡ false
      → IsTouched total_of field (codes family)
      → int_field field (parse_prometheus_metrics fl body) % 2 ^ 64
        ≡ family_sum family (split b'\n' body) % 2 ^ 64
  total-family field family body z h t =
      int_field-sum fl field body h
      ∙ rw (z, sum_of-family field family (split b'\n' body) t) (ap (λ n. n % 2 ^ 64) (omega arith))

  -- What a total holds is the sum of the samples of the family.
  abbrev TotalIs : Bytes → String → String → Type 0
  TotalIs body family field =
      int_field field (parse_prometheus_metrics fl body) % 2 ^ 64
      ≡ family_sum family (split b'\n' body) % 2 ^ 64

  -- The families of the three totals.
  abbrev pub TotalsAre : Bytes → Type 0
  TotalsAre body =
      TotalIs body "machmqtt_auth_failure_total" "AuthFailure"
      × TotalIs body "machmqtt_op_queue_dropped_total" "OpQueueDropped"
      × TotalIs body "machmqtt_publish_rejected_state_total" "PublishRejectedState"

  -- Each of the three totals is the sum of all samples of its family, by the names that `TotalsAre` lists, those
  -- with an unknown label included, and of no others, modulo 2 ^ 64.
  pub total-parse_prometheus_metrics : (body : Bytes) → TotalsAre body
  unfolding rules find_rule
  total-parse_prometheus_metrics body = (
    total-family "AuthFailure" "machmqtt_auth_failure_total" body refl refl (refl, refl, refl),
    total-family "OpQueueDropped" "machmqtt_op_queue_dropped_total" body refl refl
        (refl, refl, refl),
    total-family "PublishRejectedState" "machmqtt_publish_rejected_state_total" body refl refl
        (refl, refl, refl),
  )
