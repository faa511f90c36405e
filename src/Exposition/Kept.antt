-- ===== src/Exposition/Kept.antt =====
-- internal/collector/mqtt_metrics_parser.go: the uncurated series after a line has been read.
use machmqtt_dashboard.Prelude.{
  ℕ, Int64, ◌≡◌, refl, inl, inr, if◌then◌else◌, String, List, [], ◌∷◌, Bool, true, false, ◌&&◌, not,
  Option, none, some, get, Bytes, bytes_eq, get-put, codes, cut, cut_prefix, is_some, Bool-cases,
  Option-cases,
}
use machmqtt_dashboard.Exposition.{extract_label, parse_metric_line}
use machmqtt_dashboard.Exposition.Actions.{
  Action, set_int, set_case, add_case, set_reason, set_slot, add_hmac_failure, set_float,
  set_instance,
}
use machmqtt_dashboard.Exposition.Rules.{rules}
use machmqtt_dashboard.Exposition.Names.{find_rule, find_case, cut_suffix, hist_buckets}
use machmqtt_dashboard.Exposition.Metrics.{Floats, Metrics, with_int, add_int, capture, series_key}
use machmqtt_dashboard.Exposition.Parse.{
  act, act_found, bucket_or_capture, read_sample, read_line, is_comment, add_help, add_bucket,
  set_bucket, set_case_field, add_reason, add_source, hist_bucket_index, parse_int, read_float,
}

-- The dashboard has no field for the sample: its family is unknown and no bucket series, or the label that
-- its family is told apart by has an unknown value.
abbrev pub is_unknown_for : Option Action → Bytes → Bytes → Bool
is_unknown_for (some (set_case key cases flags)) name line =
    not (is_some (find_case (extract_label line (codes key)) cases))
is_unknown_for (some (add_case total key cases)) name line =
    not (is_some (find_case (extract_label line (codes key)) cases))
is_unknown_for (some a) name line = false
is_unknown_for none name line =
    not (is_some (cut_suffix (codes "_bucket") name))
    && is_some (cut_prefix (codes "machmqtt_") name)

abbrev pub is_unknown : Bytes → Bool
is_unknown line =
    is_unknown_for (find_rule (parse_metric_line line).0 rules) (parse_metric_line line).0 line

abbrev pub is_sample : Bytes → Bool
is_sample line = not (is_some (cut_prefix (codes "# HELP ") line)) && not (is_comment line)

-- The line is a sample without a field, and is of that series.
abbrev pub is_captured_as : Bytes → Bytes → Bool
is_captured_as key line =
    is_sample line && is_unknown line && bytes_eq (series_key (parse_metric_line line).0 line) key

module _ {F : Type 0} (fl : Floats F) where
  abbrev kept : Bytes → Metrics F → Option F
  kept key m = get key m.uncurated

  kept-set_case_field :
      (o : Option String) (flags : List String) (key name line value : Bytes) (m : Metrics F)
      → kept key (set_case_field fl o flags name line value m) ≡ (
          if not (is_some o) && bytes_eq (series_key name line) key
          then some (read_float fl value)
          else kept key m)
  unfolding with_int capture
  kept-set_case_field none flags key name line value m =
      get-put (series_key name line) key (read_float fl value) m.uncurated
  kept-set_case_field (some f) flags key name line value m = refl

  kept-add_reason :
      (field : String) (label key value : Bytes) (m : Metrics F)
      → kept key (add_reason fl field label value m) ≡ kept key m
  kept-add_reason field [] key value m = refl
  kept-add_reason field (c ∷ cs) key value m = refl

  kept-add_source :
      (label key value : Bytes) (m : Metrics F)
      → kept key (add_source fl label value m) ≡ kept key m
  kept-add_source [] key value m = refl
  kept-add_source (c ∷ cs) key value m = refl

  kept-set_bucket :
      (field : String) (i : Option ℕ) (key : Bytes) (n : Int64) (m : Metrics F)
      → kept key (set_bucket fl field i n m) ≡ kept key m
  kept-set_bucket field none key n m = refl
  kept-set_bucket field (some i) key n m = refl

  abbrev kept_after : Bytes → Option Action → Bytes → Bytes → Bytes → Metrics F → Option F
  kept_after key o name line value m =
      if is_unknown_for o name line && bytes_eq (series_key name line) key
      then some (read_float fl value)
      else kept key m

  kept-act :
      (a : Action) (key name line value : Bytes) (m : Metrics F)
      → kept key (act fl a name line value m) ≡ kept_after key (some a) name line value m
  unfolding act with_int
  kept-act (set_int field flags) key name line value m = refl
  kept-act (set_case k cases flags) key name line value m =
      kept-set_case_field (find_case (extract_label line (codes k)) cases) flags key name line value
        m
  kept-act (add_case total k cases) key name line value m =
      kept-set_case_field (find_case (extract_label line (codes k)) cases) [] key name line value
        (add_int total (parse_int fl value) m)
  kept-act (set_reason field) key name line value m =
      kept-add_reason field (extract_label line (codes "reason")) key value m
  kept-act (set_slot field) key name line value m = refl
  kept-act add_hmac_failure key name line value m =
      kept-add_source (extract_label line (codes "source_instance_id")) key value m
  kept-act (set_float field) key name line value m = refl
  kept-act set_instance key name line value m = refl

  kept-add_bucket :
      (o : Option String) (key line value : Bytes) (m : Metrics F)
      → kept key (add_bucket fl o line value m) ≡ kept key m
  kept-add_bucket none key line value m = refl
  kept-add_bucket (some f) key line value m =
      kept-set_bucket f (hist_bucket_index fl (extract_label line (codes "le"))) key
        (parse_int fl value) m

  kept-bucket_or_capture :
      (o : Option Bytes) (ours : Bool) (key name line value : Bytes) (m : Metrics F)
      → kept key (bucket_or_capture fl o ours name line value m) ≡ (
          if not (is_some o) && ours && bytes_eq (series_key name line) key
          then some (read_float fl value)
          else kept key m)
  unfolding capture
  kept-bucket_or_capture (some family) ours key name line value m =
      kept-add_bucket (hist_buckets family) key line value m
  kept-bucket_or_capture none true key name line value m =
      get-put (series_key name line) key (read_float fl value) m.uncurated
  kept-bucket_or_capture none false key name line value m = refl

  kept-act_found :
      (o : Option Action) (key name line value : Bytes) (m : Metrics F)
      → kept key (act_found fl o name line value m) ≡ kept_after key o name line value m
  unfolding act_found
  kept-act_found (some a) key name line value m = kept-act a key name line value m
  kept-act_found none key name line value m =
      kept-bucket_or_capture (cut_suffix (codes "_bucket") name)
        (is_some (cut_prefix (codes "machmqtt_") name)) key name line value m

  kept-add_help :
      (o : Option (Bytes × Bytes)) (key : Bytes) (m : Metrics F)
      → kept key (add_help fl o m) ≡ kept key m
  kept-add_help none key m = refl
  kept-add_help (some (family, text)) key m = refl

  -- A line changes a series when it is a sample without a field and of that series, and no other.
  pub get-read_line :
      (key line : Bytes) (m : Metrics F)
      → get key (read_line fl line m).uncurated ≡ (
          if is_captured_as key line
          then some (read_float fl (parse_metric_line line).1)
          else get key m.uncurated)
  unfolding read_line read_sample
  get-read_line key line m = elim (Option-cases (cut_prefix (codes "# HELP ") line)) [
    | inr (t, e) ↦ rw e (kept-add_help (cut b' ' t) key m)
    | inl e ↦ elim (Bool-cases (is_comment line)) [
      | inl f ↦ rw (e, f) refl
      | inr f ↦
          rw (e, f)
            (kept-act_found (find_rule (parse_metric_line line).0 rules) key
              (parse_metric_line line).0 line (parse_metric_line line).1 m)
    ]
  ]
