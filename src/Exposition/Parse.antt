-- ===== src/Exposition/Parse.antt =====
-- internal/collector/mqtt_metrics_parser.go: `parsePrometheusMetrics`.
use machmqtt_dashboard.Prelude.{
  ℕ, ◌==◌, if◌then◌else◌, String, List, [], ◌∷◌, ◌++◌, Bool, true, false, ◌||◌, Option, none, some,
  map, replicate, set, lookup, insert, put, Bytes, codes, cut, cut_prefix, is_some, split,
  trim_space, Int64, max_int64, min_int64,
}
use machmqtt_dashboard.Exposition.{extract_label, parse_metric_line}
use machmqtt_dashboard.Exposition.Actions.{
  Action, set_int, set_case, add_case, set_reason, set_slot, add_hmac_failure, set_float,
  set_instance,
}
use machmqtt_dashboard.Exposition.Rules.{rules}
use machmqtt_dashboard.Exposition.Names.{
  find_rule, find_case, cut_suffix, hist_buckets, histogram_bounds, index_of, sort_slots,
}
use machmqtt_dashboard.Exposition.Buckets.{buckets_cumulative_to_raw}
use machmqtt_dashboard.Exposition.Metrics.{
  Floats, Metrics, or_default, with_int, add_int, at_slot, set_flags, capture,
  mqtt_histogram_bucket_count,
}

-- An empty line is passed over as well.
abbrev pub is_comment : Bytes → Bool
is_comment [] = true
is_comment (c ∷ cs) = c == b'#'

module _ {F : Type 0} (fl : Floats F) where
  unfoldable pub parse_int : Bytes → Int64
  parse_int s =
      let (f, failed) = fl.parse_float s in
      if failed || fl.is_nan f
      then 0
      else if fl.at_least_max f
      then max_int64
      else if fl.at_most_min f
      then min_int64
      else fl.truncate f

  abbrev pub read_float : Bytes → F
  read_float s = (fl.parse_float s).0

  unfoldable pub hist_bucket_index : Bytes → Option ℕ
  unfolding index_of
  hist_bucket_index le =
      let (b, failed) = fl.parse_float le in
      if failed || (fl.is_inf b || fl.is_nan b)
      then none
      else index_of (λ bound. fl.equal (read_float (codes bound)) b) histogram_bounds

  abbrev pub empty_buckets : List Int64
  empty_buckets = replicate mqtt_histogram_bucket_count 0

  -- `arr[i] = n` for the bucket array of a field.
  abbrev pub set_bucket : String → Option ℕ → Int64 → Metrics F → Metrics F
  set_bucket field none n m = m
  set_bucket field (some i) n m = record m {
    buckets = insert field (set (or_default empty_buckets (lookup field m.buckets)) i n) m.buckets;
  }

  abbrev pub add_bucket : Option String → Bytes → Bytes → Metrics F → Metrics F
  add_bucket none line value m = m
  add_bucket (some field) line value m =
      set_bucket field (hist_bucket_index (extract_label line (codes "le"))) (parse_int value) m

  abbrev pub set_case_field :
      Option String → List String → Bytes → Bytes → Bytes → Metrics F → Metrics F
  set_case_field none flags name line value m =
      let captured = capture name line (read_float value) m in
      record captured { flags = set_flags flags captured.flags }
  set_case_field (some field) flags name line value m = with_int field (parse_int value) flags m

  abbrev pub add_reason : String → Bytes → Bytes → Metrics F → Metrics F
  add_reason field [] value m = m
  add_reason field (c ∷ cs) value m = record m {
    reasons =
        insert field (put (c ∷ cs) (parse_int value) (or_default [] (lookup field m.reasons)))
          m.reasons;
  }

  abbrev pub add_source : Bytes → Bytes → Metrics F → Metrics F
  add_source [] value m = m
  add_source (c ∷ cs) value m = record m {
    hmac_failures = m.hmac_failures ++ (c ∷ cs, parse_int value) ∷ [];
    flags = set_flags ("ClusterEnabled" ∷ []) m.flags;
  }

  -- One case of the switch.
  unfoldable pub act : Action → Bytes → Bytes → Bytes → Metrics F → Metrics F
  unfolding find_case parse_int with_int capture at_slot
  act (set_int field flags) name line value m = with_int field (parse_int value) flags m
  act (set_case key cases flags) name line value m =
      set_case_field (find_case (extract_label line (codes key)) cases) flags name line value m
  act (add_case total key cases) name line value m =
      set_case_field (find_case (extract_label line (codes key)) cases) [] name line value
        (add_int total (parse_int value) m)
  act (set_reason field) name line value m =
      add_reason field (extract_label line (codes "reason")) value m
  act (set_slot field) name line value m = record m {
    slots = at_slot (parse_int (extract_label line (codes "slot"))) field (parse_int value) m.slots;
    flags = set_flags ("Pool" ∷ []) m.flags;
  }
  act add_hmac_failure name line value m =
      add_source (extract_label line (codes "source_instance_id")) value m
  act (set_float field) name line value m = record m {
    floats = insert field (read_float value) m.floats;
  }
  act set_instance name line value m = record m {
    instance_id = extract_label line (codes "instance_id");
  }

  -- What follows the named cases: the bucket series, and what has no field.
  abbrev pub bucket_or_capture : Option Bytes → Bool → Bytes → Bytes → Bytes → Metrics F → Metrics F
  bucket_or_capture (some family) ours name line value m =
      add_bucket (hist_buckets family) line value m
  bucket_or_capture none true name line value m = capture name line (read_float value) m
  bucket_or_capture none false name line value m = m

  unfoldable pub act_found : Option Action → Bytes → Bytes → Bytes → Metrics F → Metrics F
  unfolding cut_suffix find_case cut_prefix act
  act_found (some a) name line value m = act a name line value m
  act_found none name line value m =
      bucket_or_capture (cut_suffix (codes "_bucket") name)
        (is_some (cut_prefix (codes "machmqtt_") name)) name line value m

  -- A line that is a sample.
  unfoldable pub read_sample : Bytes → Metrics F → Metrics F
  unfolding parse_metric_line find_rule rules act_found
  read_sample line m =
      let (name, value) = parse_metric_line line in
      act_found (find_rule name rules) name line value m

  abbrev pub add_help : Option (Bytes × Bytes) → Metrics F → Metrics F
  add_help none m = m
  add_help (some (family, text)) m = record m { help = put family text m.help }

  -- One line, trimmed.
  unfoldable pub read_line : Bytes → Metrics F → Metrics F
  unfolding cut_prefix cut read_sample
  read_line line m = elim (cut_prefix (codes "# HELP ") line) [
    | some h ↦ add_help (cut b' ' h) m
    | none ↦ if is_comment line then m else read_sample line m
  ]

  abbrev pub no_metrics : Metrics F
  no_metrics = record {
    ints = [];
    floats = [];
    flags = [];
    reasons = [];
    hmac_failures = [];
    slots = [];
    buckets = [];
    instance_id = [];
    uncurated = [];
    uncurated_help = [];
    help = [];
  }

  unfoldable pub read_lines : List Bytes → Metrics F → Metrics F
  unfolding read_line trim_space
  read_lines [] m = m
  read_lines (line ∷ lines) m = read_lines lines (read_line (trim_space line) m)

  -- The buckets made raw and the slots of the pool sorted, when the whole body is read.
  unfoldable pub finish : Metrics F → Metrics F
  unfolding buckets_cumulative_to_raw sort_slots
  finish m = record m {
    buckets = map (λ (field, counts). (field, buckets_cumulative_to_raw counts)) m.buckets;
    slots = sort_slots m.slots;
  }

  unfoldable pub parse_prometheus_metrics : Bytes → Metrics F
  unfolding split read_lines finish
  parse_prometheus_metrics body = finish (read_lines (split b'\n' body) no_metrics)
