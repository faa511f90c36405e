-- ===== src/Exposition.antt =====
-- internal/collector/mqtt_metrics_parser.go: the text in which a bridge exposes its metrics.
-- A line is its bytes; an index into it is the part of the line from there on. White space is that of
-- ASCII. `strconv.ParseFloat` is a parameter.
pub mod Labels
pub mod Samples
pub mod Termination
pub mod Actions
pub mod Rules
pub mod Metrics
pub mod Names
pub mod Parse
pub mod Kept
pub mod Captured
pub mod Fields
pub mod FloatFields
pub mod Totals
pub mod Touched
pub mod Families
pub mod Numbers
pub mod Owners
pub mod Tests
pub mod Buckets
pub mod Layout
use machmqtt_dashboard.Prelude.{
  ℕ, zero, suc, List, [], ◌∷◌, ◌++◌, Bool, true, false, ◌&&◌, ◌||◌, not, Option, some, none, ◌==◌,
  if◌then◌else◌, length, Bytes, bytes_eq, codes, trim_space, cut, fields,
}

abbrev pub quote : ℕ
quote = b'"'

abbrev pub backslash : ℕ
backslash = b'\\'

-- The byte after a backslash. Any other than these stands for itself, with the backslash kept.
abbrev pub unescape : ℕ → Bytes
unescape c =
    if c == b'n'
    then b'\n' ∷ []
    else if c == backslash
    then backslash ∷ []
    else if c == quote
    then quote ∷ []
    else backslash ∷ c ∷ []

abbrev pub before_value : Bytes → Option (Bytes × Bytes) → Option (Bytes × Bytes)
before_value cs none = none
before_value cs (some (value, rest)) = some (cs ++ value, rest)

-- `scanLabelValue`: the value, and the line past the closing quote. The flag says whether the byte
-- before was a backslash.
unfoldable pub scan : Bool → Bytes → Option (Bytes × Bytes)
scan escaped [] = none
scan true (c ∷ cs) = before_value (unescape c) (scan false cs)
scan false (c ∷ cs) =
    let rest = scan (c == backslash) cs in
    if c == quote
    then some ([], cs)
    else if c == backslash
    then rest
    else before_value (c ∷ []) rest

abbrev pub scan_label_value : Bytes → Option (Bytes × Bytes)
scan_label_value = scan false

-- `labelBlockEnd`: the block up to the brace that closes it, and the line past that. The flags say
-- whether the byte before is inside quotes, and whether it was a backslash there.
unfoldable pub block_end : Bool → Bool → Bytes → Option (Bytes × Bytes)
block_end in_quote escaped [] = none
block_end in_quote escaped (c ∷ cs) =
    let plain = not escaped in
    let rest =
      block_end (if plain && c == quote then not in_quote else in_quote)
        (plain && (c == backslash && in_quote)) cs in
    if plain && (c == b'}' && not in_quote) then some ([], cs) else before_value (c ∷ []) rest

abbrev pub label_block_end : Bytes → Option (Bytes × Bytes)
label_block_end = block_end false false

abbrev pub is_separator : ℕ → Bool
is_separator c = c == b',' || c == b' '

unfoldable pub skip_separators : Bytes → Bytes
skip_separators [] = []
skip_separators (c ∷ cs) = if is_separator c then skip_separators cs else c ∷ cs

-- The value of a label that follows its name and `=`: it must be quoted.
abbrev pub quoted_value : Bytes → Option (Bytes × Bytes)
quoted_value [] = none
quoted_value (c ∷ cs) = if c == quote then scan_label_value cs else none

-- One round of the loop of `extractLabel`: the label's name and value, and the line behind.
unfoldable pub next_label : Bytes → Option (Bytes × Bytes × Bytes)
unfolding scan
next_label line = elim (cut b'=' line) [
  | none ↦ none
  | some (name, after) ↦ elim (quoted_value after) [
    | none ↦ none
    | some (value, rest) ↦ some (trim_space name, value, skip_separators rest)
  ]
]

abbrev pub at_end : Bytes → Bool
at_end [] = true
at_end (c ∷ cs) = c == b'}'

-- The loop of `extractLabel` on fuel, of which every round takes one and more than one byte of the
-- line; `none` means that the fuel ran out.
unfoldable pub find_label : ℕ → Bytes → Bytes → Option Bytes
unfolding next_label skip_separators
find_label zero key line = none
find_label (suc fuel) key line = if at_end line then some [] else elim (next_label line) [
  | none ↦ some []
  | some (name, value, rest) ↦ elim (bytes_eq name key) [
    | true ↦ some value
    | false ↦ find_label fuel key rest
  ]
]

abbrev pub or_empty_bytes : Option Bytes → Bytes
or_empty_bytes none = []
or_empty_bytes (some s) = s

-- `extractLabel`, with fuel for the whole line.
unfoldable pub extract_label : Bytes → Bytes → Bytes
unfolding find_label
extract_label line key = elim (cut b'{' line) [
  | none ↦ []
  | some (name, block) ↦ or_empty_bytes (find_label (suc (length block)) key block)
]

abbrev pub first_field : List Bytes → Bytes
first_field [] = []
first_field (w ∷ ws) = w

abbrev pub first_two : List Bytes → Bytes × Bytes
first_two (name ∷ value ∷ ws) = (name, value)
first_two _ = ([], [])

abbrev pub value_after : Option (Bytes × Bytes) → Bytes
value_after none = []
value_after (some (block, rest)) = first_field (fields rest)

-- `parseMetricLine`.
unfoldable pub parse_metric_line : Bytes → Bytes × Bytes
unfolding block_end
parse_metric_line line = elim (cut b'{' line) [
  | some (name, after) ↦ (name, value_after (label_block_end after))
  | none ↦ first_two (fields line)
]
