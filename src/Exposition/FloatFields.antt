-- ===== src/Exposition/FloatFields.antt =====
-- internal/collector/mqtt_metrics_parser.go: the float fields after a line has been read.
use machmqtt_dashboard.Prelude.{
  ℕ, Int64, ◌≡◌, refl, inl, inr, if◌then◌else◌, String, List, [], ◌∷◌, Bool, true, false, ◌&&◌,
  Option, none, some, lookup, lookup-insert, Bytes, codes, cut, cut_prefix, is_some, Bool-cases,
  Option-cases,
}
use machmqtt_dashboard.Exposition.{extract_label, parse_metric_line}
use machmqtt_dashboard.Exposition.Actions.{
  Action, set_int, set_case, add_case, set_reason, set_slot, add_hmac_failure, set_float,
  set_instance,
}
use machmqtt_dashboard.Exposition.Names.{find_case, cut_suffix, hist_buckets}
use machmqtt_dashboard.Exposition.Metrics.{Floats, Metrics, with_int, add_int, capture}
use machmqtt_dashboard.Exposition.Parse.{
  act, act_found, bucket_or_capture, read_sample, read_line, is_comment, add_help, add_bucket,
  set_bucket, set_case_field, add_reason, add_source, hist_bucket_index, parse_int,
}
use machmqtt_dashboard.Exposition.Kept.{is_sample}
use machmqtt_dashboard.Exposition.Fields.{names, rule_of}

-- The float field that a sample sets.
abbrev pub float_of : Option Action → Option String
float_of (some (set_float field)) = some field
float_of _ = none

module _ {F : Type 0} (fl : Floats F) where
  abbrev float : String → Metrics F → Option F
  float field m = lookup field m.floats

  abbrev float_after : String → Option Action → Bytes → Metrics F → Option F
  float_after field o value m =
      if names (float_of o) field then some (fl.parse_float value).0 else float field m

  float-set_case_field :
      (o : Option String) (field : String) (flags : List String) (name line value : Bytes)
      (m : Metrics F)
      → float field (set_case_field fl o flags name line value m) ≡ float field m
  unfolding capture with_int
  float-set_case_field none field flags name line value m = refl
  float-set_case_field (some f) field flags name line value m = refl

  float-add_reason :
      (f : String) (label value : Bytes) (field : String) (m : Metrics F)
      → float field (add_reason fl f label value m) ≡ float field m
  float-add_reason f [] value field m = refl
  float-add_reason f (c ∷ cs) value field m = refl

  float-add_source :
      (label value : Bytes) (field : String) (m : Metrics F)
      → float field (add_source fl label value m) ≡ float field m
  float-add_source [] value field m = refl
  float-add_source (c ∷ cs) value field m = refl

  float-act :
      (a : Action) (field : String) (name line value : Bytes) (m : Metrics F)
      → float field (act fl a name line value m) ≡ float_after field (some a) value m
  unfolding act with_int
  float-act (set_int f flags) field name line value m = refl
  float-act (set_case key cases flags) field name line value m =
      float-set_case_field (find_case (extract_label line (codes key)) cases) field flags name line
        value m
  float-act (add_case total key cases) field name line value m =
      float-set_case_field (find_case (extract_label line (codes key)) cases) field [] name line
        value (add_int total (parse_int fl value) m)
  float-act (set_reason f) field name line value m =
      float-add_reason f (extract_label line (codes "reason")) value field m
  float-act (set_slot f) field name line value m = refl
  float-act add_hmac_failure field name line value m =
      float-add_source (extract_label line (codes "source_instance_id")) value field m
  float-act (set_float f) field name line value m =
      lookup-insert f field (fl.parse_float value).0 m.floats
  float-act set_instance field name line value m = refl

  float-set_bucket :
      (f : String) (i : Option ℕ) (n : Int64) (field : String) (m : Metrics F)
      → float field (set_bucket fl f i n m) ≡ float field m
  float-set_bucket f none n field m = refl
  float-set_bucket f (some i) n field m = refl

  float-add_bucket :
      (o : Option String) (line value : Bytes) (field : String) (m : Metrics F)
      → float field (add_bucket fl o line value m) ≡ float field m
  float-add_bucket none line value field m = refl
  float-add_bucket (some f) line value field m =
      float-set_bucket f (hist_bucket_index fl (extract_label line (codes "le")))
        (parse_int fl value) field m

  float-bucket_or_capture :
      (o : Option Bytes) (ours : Bool) (field : String) (name line value : Bytes) (m : Metrics F)
      → float field (bucket_or_capture fl o ours name line value m) ≡ float field m
  unfolding capture
  float-bucket_or_capture (some family) ours field name line value m =
      float-add_bucket (hist_buckets family) line value field m
  float-bucket_or_capture none true field name line value m = refl
  float-bucket_or_capture none false field name line value m = refl

  float-act_found :
      (o : Option Action) (field : String) (name line value : Bytes) (m : Metrics F)
      → float field (act_found fl o name line value m) ≡ float_after field o value m
  unfolding act_found
  float-act_found (some a) field name line value m = float-act a field name line value m
  float-act_found none field name line value m =
      float-bucket_or_capture (cut_suffix (codes "_bucket") name)
        (is_some (cut_prefix (codes "machmqtt_") name)) field name line value m

  float-add_help :
      (o : Option (Bytes × Bytes)) (field : String) (m : Metrics F)
      → float field (add_help fl o m) ≡ float field m
  float-add_help none field m = refl
  float-add_help (some (family, text)) field m = refl

  pub float-read_line :
      (line : Bytes) (field : String) (m : Metrics F)
      → lookup field (read_line fl line m).floats ≡ (
          if is_sample line && names (float_of (rule_of line)) field
          then some (fl.parse_float (parse_metric_line line).1).0
          else lookup field m.floats)
  unfolding read_line read_sample
  float-read_line line field m = elim (Option-cases (cut_prefix (codes "# HELP ") line)) [
    | inr (t, e) ↦ rw e (float-add_help (cut b' ' t) field m)
    | inl e ↦ elim (Bool-cases (is_comment line)) [
      | inl f ↦ rw (e, f) refl
      | inr f ↦
          rw (e, f)
            (float-act_found (rule_of line) field (parse_metric_line line).0 line
              (parse_metric_line line).1 m)
    ]
  ]
