-- ===== src/Exposition/Metrics.antt =====
-- internal/collector/mqtt_metrics_parser.go and mqtt_types.go: the metrics of one bridge, and the changes
-- that a sample makes to them. The numeric fields are kept by their names; one that is not written reads
-- as its initial value. `strconv.ParseFloat` and the float64 operations are parameters.
use machmqtt_dashboard.Prelude.{
  ℕ, ◌==◌, if◌then◌else◌, str_eq, String, List, [], ◌∷◌, ◌++◌, Bool, true, Option, none, some, Map,
  lookup, insert, ByteMap, get, put, Bytes, cut, Int64, add_i64, minus_one,
}
use machmqtt_dashboard.Exposition.{label_block_end}

pub record Floats (F : Type 0) : Type 0 where
  -- the number, and whether there was an error; a number that is too large is infinite, with an error,
  -- and a text that is no number is zero, with an error
  pub parse_float : Bytes → F × Bool
  pub is_nan : F → Bool
  pub is_inf : F → Bool
  -- `f >= math.MaxInt64`, `f <= math.MinInt64` and `int64(f)`
  pub at_least_max : F → Bool
  pub at_most_min : F → Bool
  pub truncate : F → Int64
  pub equal : F → F → Bool

-- `MQTTMetricsPoolSlot`
pub record Slot : Type 0 where
  pub slot : Int64
  pub numbers : Map Int64

-- `MQTTMetrics`, with the HELP texts that `parsePrometheusMetrics` collects.
pub record Metrics (F : Type 0) : Type 0 where
  pub ints : Map Int64
  pub floats : Map F
  pub flags : Map Bool
  pub reasons : Map (ByteMap Int64)
  pub hmac_failures : List (Bytes × Int64)
  pub slots : List Slot
  pub buckets : Map (List Int64)
  pub instance_id : Bytes
  pub uncurated : ByteMap F
  pub uncurated_help : ByteMap Bytes
  pub help : ByteMap Bytes

abbrev pub or_default {ℓ} : {A : Type ℓ} → A → Option A → A
or_default a none = a
or_default a (some b) = b

-- The value of a field before a sample of it has been read.
abbrev pub initial_int : String → Int64
initial_int field = if str_eq field "ConsumerPendingMessages" then minus_one else 0

abbrev pub int_field : {F : Type 0} → String → Metrics F → Int64
int_field field m = or_default (initial_int field) (lookup field m.ints)

abbrev pub mqtt_histogram_bucket_count : ℕ
mqtt_histogram_bucket_count = 10

abbrev pub set_flags : List String → Map Bool → Map Bool
set_flags [] flags = flags
set_flags (f ∷ fs) flags = set_flags fs (insert f true flags)

-- `m.Field = n`, and the flags of the case.
unfoldable pub with_int : {F : Type 0} → String → Int64 → List String → Metrics F → Metrics F
with_int field n flags m = record m {
  ints = insert field n m.ints;
  flags = set_flags flags m.flags;
}

-- `m.Field += n`
abbrev pub add_int : {F : Type 0} → String → Int64 → Metrics F → Metrics F
unfolding with_int
add_int field n m = with_int field (add_i64 (int_field field m) n) [] m

-- `poolSlot`: the slot's accumulator, made at the end when it is the first sample of the slot. The index
-- that the code keeps in `slotIdx` is the place of the slot in the list.
unfoldable pub at_slot : Int64 → String → Int64 → List Slot → List Slot
at_slot slot field n [] = record { slot = slot; numbers = (field, n) ∷ [] } ∷ []
at_slot slot field n (s ∷ ss) =
    if s.slot == slot
    then record s { numbers = insert field n s.numbers } ∷ ss
    else s ∷ at_slot slot field n ss

-- `captureUncurated`
abbrev pub series_block : Option (Bytes × Bytes) → Bytes
series_block none = []
series_block (some (block, rest)) = b'{' ∷ block ++ b'}' ∷ []

abbrev pub series_labels : Option (Bytes × Bytes) → Bytes
series_labels none = []
series_labels (some (before, after)) = series_block (label_block_end after)

unfoldable pub series_key : Bytes → Bytes → Bytes
series_key name line = name ++ series_labels (cut b'{' line)

abbrev pub copy_help : Bytes → Option Bytes → ByteMap Bytes → ByteMap Bytes
copy_help name none helps = helps
copy_help name (some text) helps = put name text helps

unfoldable pub capture : {F : Type 0} → Bytes → Bytes → F → Metrics F → Metrics F
unfolding series_key
capture name line v m = record m {
  uncurated = put (series_key name line) v m.uncurated;
  uncurated_help = copy_help name (get name m.help) m.uncurated_help;
}
