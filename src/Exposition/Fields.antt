-- ===== src/Exposition/Fields.antt =====
-- internal/collector/mqtt_metrics_parser.go: the numeric fields after a body has been read.
use machmqtt_dashboard.Prelude.{
  ℕ, ◌≡◌, refl, inl, inr, if◌then◌else◌, String, str_eq, eq_iff, List, [], ◌∷◌, Bool, true, false,
  Option, none, some, lookup-insert, Bytes, codes, cut, cut_prefix, is_some, arith, Int64, add_i64,
  Bool-cases, Option-cases,
}
use machmqtt_dashboard.Exposition.{extract_label, parse_metric_line}
use machmqtt_dashboard.Exposition.Actions.{
  Action, set_int, set_case, add_case, set_reason, set_slot, add_hmac_failure, set_float,
  set_instance,
}
use machmqtt_dashboard.Exposition.Rules.{rules}
use machmqtt_dashboard.Exposition.Names.{find_rule, find_case, cut_suffix, hist_buckets}
use machmqtt_dashboard.Exposition.Metrics.{Floats, Metrics, int_field, with_int, add_int, capture}
use machmqtt_dashboard.Exposition.Parse.{
  act, act_found, bucket_or_capture, read_sample, read_line, is_comment, add_help, add_bucket,
  set_bucket, set_case_field, add_reason, add_source, hist_bucket_index, parse_int,
}
use machmqtt_dashboard.Exposition.Kept.{is_sample}

-- The field a sample sets: that of its family, or that of its label's value.
abbrev pub target_of : Option Action → Bytes → Option String
target_of (some (set_int field flags)) line = some field
target_of (some (set_case key cases flags)) line = find_case (extract_label line (codes key)) cases
target_of (some (add_case total key cases)) line = find_case (extract_label line (codes key)) cases
target_of _ line = none

-- The total a sample is added to.
abbrev pub total_of : Option Action → Option String
total_of (some (add_case total key cases)) = some total
total_of _ = none

abbrev pub names : Option String → String → Bool
names none field = false
names (some f) field = str_eq f field

abbrev pub rule_of : Bytes → Option Action
rule_of line = find_rule (parse_metric_line line).0 rules

abbrev pub after_sample : String → Option Action → Bytes → Int64 → Int64 → Int64
after_sample field o line n old =
    if names (target_of o line) field
    then n
    else if names (total_of o) field
    then add_i64 old n
    else old

module _ {F : Type 0} (fl : Floats F) where
  int_field-with_int :
      (field asked : String) (n : Int64) (flags : List String) (m : Metrics F)
      → int_field asked (with_int field n flags m)
        ≡ (if str_eq field asked then n else int_field asked m)
  unfolding with_int
  int_field-with_int field asked n flags m =
      ground (arith, lookup-insert field asked n m.ints, Bool-cases (str_eq field asked))

  int_field-set_case_field :
      (o : Option String) (field : String) (flags : List String) (name line value : Bytes)
      (m : Metrics F)
      → int_field field (set_case_field fl o flags name line value m)
        ≡ (if names o field then parse_int fl value else int_field field m)
  unfolding capture
  int_field-set_case_field none field flags name line value m = refl
  int_field-set_case_field (some f) field flags name line value m =
      int_field-with_int f field (parse_int fl value) flags m

  int_field-add_reason :
      (field : String) (label value : Bytes) (asked : String) (m : Metrics F)
      → int_field asked (add_reason fl field label value m) ≡ int_field asked m
  int_field-add_reason field [] value asked m = refl
  int_field-add_reason field (c ∷ cs) value asked m = refl

  int_field-add_source :
      (label value : Bytes) (asked : String) (m : Metrics F)
      → int_field asked (add_source fl label value m) ≡ int_field asked m
  int_field-add_source [] value asked m = refl
  int_field-add_source (c ∷ cs) value asked m = refl

  int_field-act :
      (a : Action) (field : String) (name line value : Bytes) (m : Metrics F)
      → int_field field (act fl a name line value m)
        ≡ after_sample field (some a) line (parse_int fl value) (int_field field m)
  unfolding act
  int_field-act (set_int f flags) field name line value m =
      int_field-with_int f field (parse_int fl value) flags m
  int_field-act (set_case key cases flags) field name line value m =
      int_field-set_case_field (find_case (extract_label line (codes key)) cases) field flags name
        line value m
  int_field-act (add_case total key cases) field name line value m = ground (
    arith,
    int_field-set_case_field (find_case (extract_label line (codes key)) cases) field [] name line
        value (add_int total (parse_int fl value) m),
    int_field-with_int total field (add_i64 (int_field total m) (parse_int fl value)) [] m,
    eq_iff total field,
  )
  int_field-act (set_reason f) field name line value m =
      int_field-add_reason f (extract_label line (codes "reason")) value field m
  int_field-act (set_slot f) field name line value m = refl
  int_field-act add_hmac_failure field name line value m =
      int_field-add_source (extract_label line (codes "source_instance_id")) value field m
  int_field-act (set_float f) field name line value m = refl
  int_field-act set_instance field name line value m = refl

  int_field-set_bucket :
      (f : String) (i : Option ℕ) (n : Int64) (field : String) (m : Metrics F)
      → int_field field (set_bucket fl f i n m) ≡ int_field field m
  int_field-set_bucket f none n field m = refl
  int_field-set_bucket f (some i) n field m = refl

  int_field-add_bucket :
      (o : Option String) (line value : Bytes) (field : String) (m : Metrics F)
      → int_field field (add_bucket fl o line value m) ≡ int_field field m
  int_field-add_bucket none line value field m = refl
  int_field-add_bucket (some f) line value field m =
      int_field-set_bucket f (hist_bucket_index fl (extract_label line (codes "le")))
        (parse_int fl value) field m

  int_field-bucket_or_capture :
      (o : Option Bytes) (ours : Bool) (field : String) (name line value : Bytes) (m : Metrics F)
      → int_field field (bucket_or_capture fl o ours name line value m) ≡ int_field field m
  unfolding capture
  int_field-bucket_or_capture (some family) ours field name line value m =
      int_field-add_bucket (hist_buckets family) line value field m
  int_field-bucket_or_capture none true field name line value m = refl
  int_field-bucket_or_capture none false field name line value m = refl

  int_field-act_found :
      (o : Option Action) (field : String) (name line value : Bytes) (m : Metrics F)
      → int_field field (act_found fl o name line value m)
        ≡ after_sample field o line (parse_int fl value) (int_field field m)
  unfolding act_found
  int_field-act_found (some a) field name line value m = int_field-act a field name line value m
  int_field-act_found none field name line value m =
      int_field-bucket_or_capture (cut_suffix (codes "_bucket") name)
        (is_some (cut_prefix (codes "machmqtt_") name)) field name line value m

  int_field-add_help :
      (o : Option (Bytes × Bytes)) (field : String) (m : Metrics F)
      → int_field field (add_help fl o m) ≡ int_field field m
  int_field-add_help none field m = refl
  int_field-add_help (some (family, text)) field m = refl

  abbrev pub after_line : String → Bytes → Int64 → Int64
  after_line field line old =
      if is_sample line
      then after_sample field (rule_of line) line (parse_int fl (parse_metric_line line).1) old
      else old

  pub int_field-read_line :
      (line : Bytes) (field : String) (m : Metrics F)
      → int_field field (read_line fl line m) ≡ after_line field line (int_field field m)
  unfolding read_line read_sample
  int_field-read_line line field m = elim (Option-cases (cut_prefix (codes "# HELP ") line)) [
    | inr (t, e) ↦ rw e (int_field-add_help (cut b' ' t) field m)
    | inl e ↦ elim (Bool-cases (is_comment line)) [
      | inl f ↦ rw (e, f) refl
      | inr f ↦
          rw (e, f)
            (int_field-act_found (rule_of line) field (parse_metric_line line).0 line
              (parse_metric_line line).1 m)
    ]
  ]
