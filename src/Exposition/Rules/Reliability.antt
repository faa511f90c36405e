-- ===== src/Exposition/Rules/Reliability.antt =====
-- internal/collector/mqtt_metrics_parser.go: the cases of `parsePrometheusMetrics`, lines 389 to 588.
use machmqtt_dashboard.Prelude.{List, [], ◌∷◌}
use machmqtt_dashboard.Exposition.Actions.{Rule, set_int, set_case, add_case}

abbrev pub reliability_rules : List Rule
reliability_rules =
    ("machmqtt_panics_recovered_total", set_int "PanicsRecovered" [])
    ∷ ("machmqtt_hook_panics_total", set_int "HookPanics" [])
    ∷ ("machmqtt_subscribe_consumer_failures_total", set_int "SubscribeConsumerFailures" [])
    ∷ ("machmqtt_subscribe_consumer_retries_total", set_int "SubscribeConsumerRetries" [])
    ∷ ("machmqtt_consumers_awaiting_reattach", set_int "ConsumersAwaitingReattach" [])
    ∷ ("machmqtt_reattach_sweep_duration_ms", set_int "ReattachSweepDurationMs" [])
    ∷ ("machmqtt_nats_connected", set_int "NATSConnected" [])
    ∷ ("machmqtt_jetstream_degraded", set_int "JetStreamDegraded" [])
    ∷ ("machmqtt_jetstream_available", set_int "JetStreamAvailable" [])
    ∷ ("machmqtt_jetstream_transitions_total", set_int "JetStreamTransitions" [])
    ∷ (
      "machmqtt_will_stale_clear_total",
      set_case "outcome"
          (("issued", "WillStaleClearAttempted") ∷ ("skipped", "WillStaleClearSkipped") ∷ []) [],
    )
    ∷ ("machmqtt_shared_consumer_recreated_total", set_int "SharedConsumerRecreated" [])
    ∷ ("machmqtt_consumer_deleted_under_consume_total", set_int "ConsumerDeletedUnderConsume" [])
    ∷ ("machmqtt_hook_vetoes_total", set_int "HookVetoes" [])
    ∷ ("machmqtt_sys_tree_published_total", set_int "SysTreePublished" [])
    ∷ ("machmqtt_sys_publish_blocked_total", set_int "SysPublishBlocked" [])
    ∷ ("machmqtt_publish_refused_topic_total", set_int "PublishRefusedTopic" [])
    ∷ ("machmqtt_topic_levels_exceeded_total", set_int "TopicLevelsExceeded" [])
    ∷ (
      "machmqtt_publish_rejected_state_total",
      add_case "PublishRejectedState" "state" (
          ("connecting", "PublishRejectedStateConnecting")
          ∷ ("authenticating", "PublishRejectedStateAuthenticating")
          ∷ ("disconnecting", "PublishRejectedStateDisconnecting")
          ∷ ("closed", "PublishRejectedStateClosed")
          ∷ ("other", "PublishRejectedStateOther")
          ∷ []),
    )
    ∷ (
      "machmqtt_publish_rejected_qos_total",
      set_case "qos"
          (("0", "PublishRejectedQoS0")
            ∷ ("1", "PublishRejectedQoS1")
            ∷ ("2", "PublishRejectedQoS2")
            ∷ ("3", "PublishRejectedQoS3")
            ∷ [])
          [],
    )
    ∷ ("machmqtt_tls_handshake_failures_total", set_int "TLSHandshakeFailures" [])
    ∷ ("machmqtt_proxy_protocol_errors_total", set_int "ProxyProtocolErrors" [])
    ∷ ("machmqtt_ws_upgrade_failures_total", set_int "WSUpgradeFailures" [])
    ∷ ("machmqtt_ws_protocol_violations_total", set_int "WSProtocolViolations" [])
    ∷ ("machmqtt_flowcontrol_overflow_total", set_int "FlowcontrolOverflow" [])
    ∷ ("machmqtt_credential_expiry_disconnects_total", set_int "CredentialExpiryDisconnects" [])
    ∷ (
      "machmqtt_mtls_identity_fallback_total",
      set_case "reason"
          (("license", "MTLSIdentityFallbackLicense")
            ∷ ("no_match", "MTLSIdentityFallbackNoMatch")
            ∷ ("no_cert", "MTLSIdentityFallbackNoCert")
            ∷ [])
          [],
    )
    ∷ ("machmqtt_otel_histogram_skew_clamped_total", set_int "OTelHistogramSkewClamped" [])
    ∷ []

abbrev pub durability_rules : List Rule
durability_rules =
    ("machmqtt_qos2_server_publish_failed_total", set_int "QoS2ServerPublishFailed" [])
    ∷ ("machmqtt_qos1_client_send_failed_total", set_int "QoS1ClientSendFailed" [])
    ∷ ("machmqtt_qos2_client_send_failed_total", set_int "QoS2ClientSendFailed" [])
    ∷ ("machmqtt_qos2_sync_persist_failed_total", set_int "QoS2SyncPersistFailed" [])
    ∷ ("machmqtt_qos2_await_rel_expired_total", set_int "QoS2AwaitRelExpired" [])
    ∷ (
      "machmqtt_server_publish_failed_total",
      set_case "qos"
          (("0", "ServerPublishFailedQoS0")
            ∷ ("1", "ServerPublishFailedQoS1")
            ∷ ("2", "ServerPublishFailedQoS2")
            ∷ [])
          [],
    )
    ∷ ("machmqtt_qos0_messages_shed_total", set_int "QoS0MessagesShed" [])
    ∷ ("machmqtt_oversized_dropped_total", set_int "OversizedDropped" [])
    ∷ ("machmqtt_publish_outage_disconnects_total", set_int "PublishOutageDisconnects" [])
    ∷ ("machmqtt_server_publish_dropped_total", set_int "ServerPublishDropped" [])
    ∷ ("machmqtt_messages_dead_lettered_total", set_int "MessagesDeadLettered" [])
    ∷ ("machmqtt_poison_messages_terminated_total", set_int "PoisonMessagesTerminated" [])
    ∷ ("machmqtt_dead_letter_write_failed_total", set_int "DeadLetterWriteFailed" [])
    ∷ ("machmqtt_outbound_queue_dropped_total", set_int "OutboundQueueDropped" [])
    ∷ ("machmqtt_outbound_evictions_total", set_int "OutboundEvictions" [])
    ∷ ("machmqtt_outbound_stall_evictions_total", set_int "OutboundStallEvictions" [])
    ∷ ("machmqtt_outbound_over_ceiling_sweeps_total", set_int "OutboundOverCeilingSweeps" [])
    ∷ (
      "machmqtt_outbound_evict_no_candidate_sweeps_total",
      set_int "OutboundEvictNoCandidateSweeps" [],
    )
    ∷ ("machmqtt_outbound_stalled_connections", set_int "OutboundStalledConns" [])
    ∷ ("machmqtt_outbound_bytes", set_int "OutboundBytes" [])
    ∷ ("machmqtt_bytes_received_total", set_int "InboundBytes" [])
    ∷ ("machmqtt_bytes_sent_total", set_int "BytesSent" [])
    ∷ ("machmqtt_retained_verify_failures_total", set_int "RetainVerifyFailures" ("BridgeUp" ∷ []))
    ∷ ("machmqtt_will_verify_failures_total", set_int "WillVerifyFailures" ("BridgeUp" ∷ []))
    ∷ ("machmqtt_session_verify_failures_total", set_int "SessionVerifyFailures" ("BridgeUp" ∷ []))
    ∷ (
      "machmqtt_session_unsigned_accepted_total",
      set_int "SessionUnsignedAccepted" ("BridgeUp" ∷ []),
    )
    ∷ ("machmqtt_session_signing_key_present", set_int "SessionSigningKeyPresent" ("BridgeUp" ∷ []))
    ∷ ("machmqtt_session_signing_required", set_int "SessionSigningRequired" ("BridgeUp" ∷ []))
    ∷ (
      "machmqtt_subscribe_flush_failures_total",
      set_int "SubscribeFlushFailures" ("BridgeUp" ∷ []),
    )
    ∷ []

abbrev pub capacity_rules : List Rule
capacity_rules =
    ("machmqtt_retained_messages", set_int "RetainedMessages" [])
    ∷ ("machmqtt_inflight_out_messages", set_int "InflightOutMessages" [])
    ∷ ("machmqtt_subscriptions_active", set_int "SubscriptionsActive" [])
    ∷ ("machmqtt_pool_slot_connected", set_int "PoolSlotConnected" [])
    ∷ ("machmqtt_pool_slot_rebuilds_total", set_int "PoolSlotRebuilds" [])
    ∷ []
