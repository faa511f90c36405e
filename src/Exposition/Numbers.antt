-- ===== src/Exposition/Numbers.antt =====
-- internal/collector/mqtt_metrics_parser.go: the fields that hold one sample, integers and floats.
use machmqtt_dashboard.Prelude.{
  ◌≡◌, if◌then◌else◌, String, List, [], ◌∷◌, Option, none, some, lookup, Bytes, split, Int64,
  trim_space,
}
use machmqtt_dashboard.Exposition.{parse_metric_line}
use machmqtt_dashboard.Exposition.Metrics.{Floats, Metrics, int_field, initial_int}
use machmqtt_dashboard.Exposition.Parse.{parse_prometheus_metrics}
use machmqtt_dashboard.Exposition.Totals.{value_of_line}
use machmqtt_dashboard.Exposition.Families.{is_of}

module _ {F : Type 0} (fl : Floats F) where
  -- The value of the last of the family's samples.
  unfoldable pub family_last : String → List Bytes → Option F → Option F
  family_last family [] start = start
  family_last family (l ∷ ls) start =
      let line = trim_space l in
      family_last family ls
        (if is_of family line then some (fl.parse_float (parse_metric_line line).1).0 else start)

  -- The integer of the last of the family's samples.
  unfoldable pub int_last : String → List Bytes → Int64 → Int64
  int_last family [] start = start
  int_last family (l ∷ ls) start =
      let line = trim_space l in
      int_last family ls (if is_of family line then value_of_line fl line else start)

  -- What an integer field holds is the value of the last sample of the family.
  abbrev IntIs : Bytes → String → String → Type 0
  IntIs body family field =
      int_field field (parse_prometheus_metrics fl body)
      ≡ int_last family (split b'\n' body) (initial_int field)

  -- The families of the gauges that the history of a bridge keeps.
  abbrev pub GaugesAre : Bytes → Type 0
  GaugesAre body =
      IntIs body "machmqtt_connections_active" "ConnectionsActive"
      × IntIs body "machmqtt_session_write_behind_depth" "SessionWriteBehindDepth"
      × IntIs body "machmqtt_stalled_consumers" "StalledConsumers"
      × IntIs body "machmqtt_consumer_pending_messages" "ConsumerPendingMessages"

  -- What a float field holds is the value of the last sample of the family.
  abbrev FloatIs : Bytes → String → String → Type 0
  FloatIs body family field =
      lookup field (parse_prometheus_metrics fl body).floats
      ≡ family_last family (split b'\n' body) none

  -- The families of the eight float fields.
  abbrev pub FloatsAre : Bytes → Type 0
  FloatsAre body =
      FloatIs body "machmqtt_publish_latency_seconds_sum" "PublishLatencySumSeconds"
      × FloatIs body "machmqtt_auth_duration_seconds_sum" "AuthDurationSumSeconds"
      × FloatIs body "machmqtt_auth_webhook_duration_seconds_sum" "AuthWebhookDurationSumSeconds"
      × FloatIs body "machmqtt_jetstream_publish_duration_seconds_sum" "JSPublishDurationSumSeconds"
      × FloatIs body "machmqtt_qos2_sync_persist_duration_seconds_sum"
          "QoS2SyncPersistDurationSumSeconds"
      × FloatIs body "machmqtt_subscribe_duration_seconds_sum" "SubscribeDurationSumSeconds"
      × FloatIs body "machmqtt_dispatch_wait_seconds_sum" "DispatchWaitSumSeconds"
      × FloatIs body "machmqtt_tls_handshake_duration_seconds_sum" "TLSHandshakeDurationSumSeconds"
