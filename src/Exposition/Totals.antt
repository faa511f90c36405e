-- ===== src/Exposition/Totals.antt =====
-- internal/collector/mqtt_metrics_parser.go: what the numeric fields hold after a body has been read.
use machmqtt_dashboard.Prelude.{
  ℕ, ◌+◌, ◌%◌, ◌^◌, ◌≡◌, refl, ◌∙◌, ap, if◌then◌else◌, String, str_eq, List, [], ◌∷◌, Bool, true,
  false, ◌&&◌, ◌||◌, some, lookup, Bytes, bytes_eq, codes, split, trim_space, arith, Int64, add_i64,
  Bool-cases,
}
use machmqtt_dashboard.Exposition.{extract_label, parse_metric_line}
use machmqtt_dashboard.Exposition.Actions.{
  Action, Rule, set_int, set_case, add_case, set_reason, set_slot, add_hmac_failure, set_float,
  set_instance,
}
use machmqtt_dashboard.Exposition.Rules.{rules}
use machmqtt_dashboard.Exposition.Names.{find_rule, find_case}
use machmqtt_dashboard.Exposition.Metrics.{Floats, Metrics, int_field, initial_int}
use machmqtt_dashboard.Exposition.Parse.{
  read_line, read_lines, finish, parse_prometheus_metrics, no_metrics, parse_int,
}
use machmqtt_dashboard.Exposition.Kept.{is_sample}
use machmqtt_dashboard.Exposition.Fields.{
  target_of, total_of, names, rule_of, after_line, int_field-read_line,
}

abbrev pub adds_to : String → List Rule → Bool
adds_to field [] = false
adds_to field ((n, a) ∷ rs) = names (total_of (some a)) field || adds_to field rs

adds_to-find_rule :
    (name : Bytes) (field : String) (rs : List Rule)
    → adds_to field rs ≡ false
    → names (total_of (find_rule name rs)) field ≡ false
unfolding find_rule
adds_to-find_rule name field [] h = refl
adds_to-find_rule name field ((n, a) ∷ rs) h =
    ground (arith, adds_to-find_rule name field rs, Bool-cases (bytes_eq (codes n) name))

abbrev pub has_case_field : List (String × String) → String → Bool
has_case_field [] field = false
has_case_field ((l, f) ∷ cases) field = str_eq f field || has_case_field cases field

abbrev pub may_set : Action → String → Bool
may_set (set_int f flags) field = str_eq f field
may_set (set_case key cases flags) field = has_case_field cases field
may_set (add_case total key cases) field = has_case_field cases field
may_set _ field = false

abbrev pub sets : String → List Rule → Bool
sets field [] = false
sets field ((n, a) ∷ rs) = may_set a field || sets field rs

has_case_field-find_case :
    (label : Bytes) (field : String) (cases : List (String × String))
    → names (find_case label cases) field ≡ true
    → has_case_field cases field ≡ true
unfolding find_case
has_case_field-find_case label field [] h = h
has_case_field-find_case label field ((l, f) ∷ cases) h =
    ground
      (arith, has_case_field-find_case label field cases, Bool-cases (bytes_eq (codes l) label))

pub may_set-target_of :
    (a : Action) (line : Bytes) (field : String)
    → names (target_of (some a) line) field ≡ true
    → may_set a field ≡ true
may_set-target_of (set_int f flags) line field h = h
may_set-target_of (set_case key cases flags) line field h =
    has_case_field-find_case (extract_label line (codes key)) field cases h
may_set-target_of (add_case total key cases) line field h =
    has_case_field-find_case (extract_label line (codes key)) field cases h
may_set-target_of (set_reason f) line field h = h
may_set-target_of (set_slot f) line field h = h
may_set-target_of add_hmac_failure line field h = h
may_set-target_of (set_float f) line field h = h
may_set-target_of set_instance line field h = h

sets-target_of :
    (name line : Bytes) (field : String) (rs : List Rule)
    → sets field rs ≡ false
    → names (target_of (find_rule name rs) line) field ≡ false
unfolding find_rule
sets-target_of name line field [] h = refl
sets-target_of name line field ((n, a) ∷ rs) h = ground (
  arith,
  sets-target_of name line field rs,
  may_set-target_of a line field,
  Bool-cases (bytes_eq (codes n) name),
  Bool-cases (names (target_of (some a) line) field),
)

add-sample :
    (b : Bool) (later now old n s : ℕ)
    → later % 2 ^ 64 ≡ (now + s) % 2 ^ 64
    → now ≡ (if b then add_i64 old n else old)
    → later % 2 ^ 64 ≡ (old + ((if b then n else 0) + s)) % 2 ^ 64
add-sample true later now old n s h e = omega arith
add-sample false later now old n s h e = omega arith

module _ {F : Type 0} (fl : Floats F) where
  abbrev pub value_of_line : Bytes → Int64
  value_of_line line = parse_int fl (parse_metric_line line).1

  -- The value of the last of the lines that is a sample of the field.
  unfoldable pub last_value : String → List Bytes → Int64 → Int64
  last_value field [] start = start
  last_value field (l ∷ ls) start =
      let line = trim_space l in
      last_value field ls (
        if is_sample line && names (target_of (rule_of line) line) field
        then value_of_line line
        else start)

  -- The values of all lines that are samples of the total.
  unfoldable pub sum_of : String → List Bytes → ℕ
  sum_of field [] = 0
  sum_of field (l ∷ ls) =
      let line = trim_space l in
      (if is_sample line && names (total_of (rule_of line)) field then value_of_line line else 0)
      + sum_of field ls

  after_line-last :
      (field : String) (line : Bytes) (old : Int64)
      → adds_to field rules ≡ false
      → after_line fl field line old ≡ (
          if is_sample line && names (target_of (rule_of line) line) field
          then value_of_line line
          else old)
  after_line-last field line old h = ground (
    arith,
    adds_to-find_rule (parse_metric_line line).0 field rules h,
    Bool-cases (is_sample line),
    Bool-cases (names (target_of (rule_of line) line) field),
  )

  after_line-sum :
      (field : String) (line : Bytes) (old : Int64)
      → sets field rules ≡ false
      → after_line fl field line old ≡ (
          if is_sample line && names (total_of (rule_of line)) field
          then add_i64 old (value_of_line line)
          else old)
  after_line-sum field line old h = ground (
    arith,
    sets-target_of (parse_metric_line line).0 line field rules h,
    Bool-cases (is_sample line),
    Bool-cases (names (total_of (rule_of line)) field),
  )

  int_field-last_value :
      (field : String) (lines : List Bytes) (m : Metrics F)
      → adds_to field rules ≡ false
      → int_field field (read_lines fl lines m) ≡ last_value field lines (int_field field m)
  unfolding read_lines last_value
  int_field-last_value field [] m h = refl
  int_field-last_value field (l ∷ ls) m h =
      int_field-last_value field ls (read_line fl (trim_space l) m) h
      ∙ ap (last_value field ls) (
          int_field-read_line fl (trim_space l) field m
          ∙ after_line-last field (trim_space l) (int_field field m) h)

  int_field-sum_of :
      (field : String) (lines : List Bytes) (m : Metrics F)
      → sets field rules ≡ false
      → int_field field (read_lines fl lines m) % 2 ^ 64
        ≡ (int_field field m + sum_of field lines) % 2 ^ 64
  unfolding read_lines sum_of
  int_field-sum_of field [] m h = omega arith
  int_field-sum_of field (l ∷ ls) m h =
      let line = trim_space l in
      add-sample (is_sample line && names (total_of (rule_of line)) field)
        (int_field field (read_lines fl ls (read_line fl line m)))
        (int_field field (read_line fl line m)) (int_field field m) (value_of_line line)
        (sum_of field ls) (int_field-sum_of field ls (read_line fl line m) h)
        (int_field-read_line fl line field m ∙ after_line-sum field line (int_field field m) h)

  pub int_field-last :
      (field : String) (body : Bytes)
      → adds_to field rules ≡ false
      → int_field field (parse_prometheus_metrics fl body)
        ≡ last_value field (split b'\n' body) (initial_int field)
  unfolding parse_prometheus_metrics finish lookup
  int_field-last field body h = int_field-last_value field (split b'\n' body) (no_metrics fl) h

  pub int_field-sum :
      (field : String) (body : Bytes)
      → sets field rules ≡ false
      → int_field field (parse_prometheus_metrics fl body) % 2 ^ 64
        ≡ (initial_int field + sum_of field (split b'\n' body)) % 2 ^ 64
  unfolding parse_prometheus_metrics finish lookup
  int_field-sum field body h = int_field-sum_of field (split b'\n' body) (no_metrics fl) h
