-- ===== src/Exposition/Rules/Messages.antt =====
-- internal/collector/mqtt_metrics_parser.go: the cases of `parsePrometheusMetrics`, lines 267 to 388.
use machmqtt_dashboard.Prelude.{List, [], ◌∷◌}
use machmqtt_dashboard.Exposition.Actions.{Rule, set_int, set_case}

abbrev pub client_message_rules : List Rule
client_message_rules =
    (
      "machmqtt_client_messages_received_total",
      set_case "qos" (("0", "MsgsRecvQoS0") ∷ ("1", "MsgsRecvQoS1") ∷ ("2", "MsgsRecvQoS2") ∷ [])
          [],
    )
    ∷ (
      "machmqtt_client_messages_sent_total",
      set_case "qos" (("0", "MsgsSentQoS0") ∷ ("1", "MsgsSentQoS1") ∷ ("2", "MsgsSentQoS2") ∷ [])
          [],
    )
    ∷ ("machmqtt_client_messages_redelivered_total", set_int "MsgsRedelivered" [])
    ∷ []

abbrev pub server_message_rules : List Rule
server_message_rules =
    (
      "machmqtt_server_messages_published_total",
      set_case "qos"
          (("0", "ServerPublishedQoS0")
            ∷ ("1", "ServerPublishedQoS1")
            ∷ ("2", "ServerPublishedQoS2")
            ∷ [])
          [],
    )
    ∷ (
      "machmqtt_server_messages_consumed_total",
      set_case "qos"
          (("0", "ServerConsumedQoS0")
            ∷ ("1", "ServerConsumedQoS1")
            ∷ ("2", "ServerConsumedQoS2")
            ∷ [])
          [],
    )
    ∷ []

abbrev pub will_rules : List Rule
will_rules =
    ("machmqtt_will_published_total", set_int "WillPublished" [])
    ∷ (
      "machmqtt_will_dropped_total",
      set_case "reason"
          (("queue_full", "WillDroppedQueueFull")
            ∷ ("publish_error", "WillDroppedPublishError")
            ∷ ("invalid_topic", "WillDroppedInvalidTopic")
            ∷ ("shutdown", "WillDroppedShutdown")
            ∷ [])
          [],
    )
    ∷ (
      "machmqtt_will_suppressed_total",
      set_case "reason"
          (("reconnected", "WillSuppressedReconnect") ∷ ("shutdown", "WillSuppressedShutdown") ∷ [])
          [],
    )
    ∷ ("machmqtt_will_pending", set_int "WillPending" [])
    ∷ ("machmqtt_will_retry_pending", set_int "WillRetryPending" [])
    ∷ (
      "machmqtt_client_messages_redelivery_suppressed_total",
      set_int "MsgsRedeliverySuppressed" [],
    )
    ∷ ("machmqtt_retained_delivery_truncated_total", set_int "RetainedDeliveryTruncated" [])
    ∷ ("machmqtt_max_connections", set_int "MaxConnections" [])
    ∷ (
      "machmqtt_will_persist_failed_total",
      set_case "reason"
          (("write_failed", "WillPersistFailedWrite")
            ∷ ("queue_full", "WillPersistFailedQueueFull")
            ∷ [])
          [],
    )
    ∷ (
      "machmqtt_retain_persist_failed_total",
      set_case "op"
          (("put", "RetainPersistFailedPut") ∷ ("delete", "RetainPersistFailedDelete") ∷ []) [],
    )
    ∷ []

abbrev pub protocol_rules : List Rule
protocol_rules =
    ("machmqtt_subscriptions_total", set_int "Subscribes" [])
    ∷ ("machmqtt_unsubscriptions_total", set_int "Unsubscribes" [])
    ∷ ("machmqtt_keepalive_timeouts_total", set_int "KeepaliveTimeouts" [])
    ∷ ("machmqtt_pingreq_rate_limited_total", set_int "PingreqRateLimited" [])
    ∷ ("machmqtt_nats_disconnects_total", set_int "NATSDisconnects" [])
    ∷ ("machmqtt_nats_reconnects_total", set_int "NATSReconnects" [])
    ∷ ("machmqtt_nats_slow_consumer_total", set_int "NATSSlowConsumer" [])
    ∷ []
