-- ===== src/Exposition/Names.antt =====
-- internal/collector/mqtt_metrics_parser.go: how the switch finds its case, and what the names, labels and
-- bounds of its cases are.
use machmqtt_dashboard.Prelude.{
  ℕ, suc, if◌then◌else◌, String, List, [], ◌∷◌, Bool, Option, none, some, Bytes, bytes_eq, codes,
  leb_i64,
}
use machmqtt_dashboard.Exposition.Actions.{Action, Rule}
use machmqtt_dashboard.Exposition.Metrics.{Slot}

-- The switch: the first case of that name.
unfoldable pub find_rule : Bytes → List Rule → Option Action
find_rule name [] = none
find_rule name ((n, a) ∷ rs) = if bytes_eq (codes n) name then some a else find_rule name rs

unfoldable pub find_case : Bytes → List (String × String) → Option String
find_case label [] = none
find_case label ((l, field) ∷ cases) =
    if bytes_eq (codes l) label then some field else find_case label cases

-- `strings.HasSuffix` and `strings.TrimSuffix`: what stands before the suffix.
unfoldable pub cut_suffix : Bytes → Bytes → Option Bytes
cut_suffix suffix [] = if bytes_eq [] suffix then some [] else none
cut_suffix suffix (c ∷ cs) =
    let rest = cut_suffix suffix cs in
    if bytes_eq (c ∷ cs) suffix
    then some []
    else elim rest [ none ↦ none | some before ↦ some (c ∷ before) ]

-- `histogramFamilies`, with the fields that `histBuckets` gives for them.
abbrev pub histogram_families : List (String × String)
histogram_families =
    ("machmqtt_publish_latency_seconds", "PublishLatencyBuckets")
    ∷ ("machmqtt_auth_duration_seconds", "AuthDurationBuckets")
    ∷ ("machmqtt_auth_webhook_duration_seconds", "AuthWebhookDurationBuckets")
    ∷ ("machmqtt_jetstream_publish_duration_seconds", "JSPublishDurationBuckets")
    ∷ ("machmqtt_qos2_sync_persist_duration_seconds", "QoS2SyncPersistDurationBuckets")
    ∷ ("machmqtt_subscribe_duration_seconds", "SubscribeDurationBuckets")
    ∷ ("machmqtt_dispatch_wait_seconds", "DispatchWaitBuckets")
    ∷ ("machmqtt_tls_handshake_duration_seconds", "TLSHandshakeDurationBuckets")
    ∷ []

abbrev pub hist_buckets : Bytes → Option String
unfolding find_case
hist_buckets family = find_case family histogram_families

-- `MQTTHistogramBounds`, as they are written.
abbrev pub histogram_bounds : List String
histogram_bounds =
    "0.0005" ∷ "0.001" ∷ "0.005" ∷ "0.01" ∷ "0.025" ∷ "0.05" ∷ "0.1" ∷ "0.5" ∷ "1" ∷ "5" ∷ []

-- `slices.Index`
unfoldable pub index_of {ℓ} : {A : Type ℓ} → (A → Bool) → List A → Option ℕ
index_of p [] = none
index_of p (x ∷ xs) =
    let rest = index_of p xs in
    if p x then some 0 else elim rest [ none ↦ none | some i ↦ some (suc i) ]

-- `slices.SortFunc` by the slot's number.
unfoldable pub insert_slot : Slot → List Slot → List Slot
insert_slot s [] = s ∷ []
insert_slot s (t ∷ ts) = if leb_i64 s.slot t.slot then s ∷ t ∷ ts else t ∷ insert_slot s ts

unfoldable pub sort_slots : List Slot → List Slot
unfolding insert_slot
sort_slots [] = []
sort_slots (s ∷ ss) = insert_slot s (sort_slots ss)
