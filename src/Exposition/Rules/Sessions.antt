-- ===== src/Exposition/Rules/Sessions.antt =====
-- internal/collector/mqtt_metrics_parser.go: the cases of `parsePrometheusMetrics`, lines 787 to 984.
use machmqtt_dashboard.Prelude.{List, [], ◌∷◌}
use machmqtt_dashboard.Exposition.Actions.{Rule, set_int, set_case, set_float, set_instance}

abbrev pub persistence_rules : List Rule
persistence_rules =
    ("machmqtt_consumer_seq_map_entries", set_int "ConsumerSeqMapEntries" ("BridgeUp" ∷ []))
    ∷ (
      "machmqtt_consumer_deletes_dropped_total",
      set_int "ConsumerDeletesDropped" ("BridgeUp" ∷ []),
    )
    ∷ ("machmqtt_consumer_delete_races_total", set_int "ConsumerDeleteRaces" ("BridgeUp" ∷ []))
    ∷ ("machmqtt_legacy_named_consumers", set_int "LegacyNamedConsumers" ("BridgeUp" ∷ []))
    ∷ ("machmqtt_jetstream_api_errors", set_int "JetStreamAPIErrors" ("BridgeUp" ∷ []))
    ∷ ("machmqtt_jetstream_api_requests", set_int "JetStreamAPIRequests" ("BridgeUp" ∷ []))
    ∷ (
      "machmqtt_jetstream_health_probe_failures_total",
      set_int "JetStreamHealthProbeFailures" ("BridgeUp" ∷ []),
    )
    ∷ ("machmqtt_stream_ensure_retries_total", set_int "StreamEnsureRetries" ("BridgeUp" ∷ []))
    ∷ ("machmqtt_stream_ensure_stalls_total", set_int "StreamEnsureStalls" ("BridgeUp" ∷ []))
    ∷ (
      "machmqtt_session_qos2_purge_failures_total",
      set_case "path"
          (("sync_connect", "SessionQoS2PurgeFailuresSyncConnect")
            ∷ ("async_death", "SessionQoS2PurgeFailuresAsyncDeath")
            ∷ [])
          ("BridgeUp" ∷ []),
    )
    ∷ ("machmqtt_session_deletes_dropped_total", set_int "SessionDeletesDropped" ("BridgeUp" ∷ []))
    ∷ (
      "machmqtt_session_persist_failed_total",
      set_case "reason"
          (("write_failed", "SessionPersistFailedWriteFailed")
            ∷ ("queue_full", "SessionPersistFailedQueueFull")
            ∷ ("panic", "SessionPersistPanics")
            ∷ [])
          ("SessionsUp" ∷ []),
    )
    ∷ []

abbrev pub license_rules : List Rule
license_rules =
    ("machmqtt_tls_cert_reload_failures_total", set_int "TLSCertReloadFailures" [])
    ∷ ("machmqtt_oauth2_jwks_fetch_failures_total", set_int "OAuth2JWKSFetchFailures" [])
    ∷ ("machmqtt_oauth2_token_cache_evictions_total", set_int "OAuth2TokenCacheEvictions" [])
    ∷ ("machmqtt_audit_write_failures_total", set_int "AuditWriteFailures" [])
    ∷ ("machmqtt_license_valid", set_int "License.Valid" ("License" ∷ []))
    ∷ ("machmqtt_license_status", set_int "License.Status" ("License" ∷ []))
    ∷ (
      "machmqtt_license_expires_timestamp",
      set_int "License.ExpiresTimestamp" ("License.HasExpiry" ∷ "License" ∷ []),
    )
    ∷ ("machmqtt_license_connections_limit", set_int "License.ConnectionsLimit" ("License" ∷ []))
    ∷ ("machmqtt_license_connections_global", set_int "License.ConnectionsGlobal" ("License" ∷ []))
    ∷ ("machmqtt_license_max_qos", set_int "License.MaxQoS" ("License" ∷ []))
    ∷ ("machmqtt_license_instances", set_int "License.Instances" ("License" ∷ []))
    ∷ ("machmqtt_license_degraded", set_int "License.Degraded" ("License" ∷ []))
    ∷ ("machmqtt_license_block_confirmed", set_int "License.BlockConfirmed" ("License" ∷ []))
    ∷ ("machmqtt_license_capacity_clamped", set_int "License.CapacityClamped" ("License" ∷ []))
    ∷ ("machmqtt_license_clamp_floor", set_int "License.ClampFloor" ("License" ∷ []))
    ∷ ("machmqtt_license_peer_discrepancy", set_int "License.PeerDiscrepancy" ("License" ∷ []))
    ∷ (
      "machmqtt_license_permission_violations_total",
      set_int "License.PermissionViolations" ("License" ∷ []),
    )
    ∷ (
      "machmqtt_license_heartbeat_publish_failures_total",
      set_int "License.HeartbeatPublishFailures" ("License" ∷ []),
    )
    ∷ []

abbrev pub gauge_rules : List Rule
gauge_rules =
    ("machmqtt_session_write_behind_depth", set_int "SessionWriteBehindDepth" [])
    ∷ ("machmqtt_consumer_pending_messages", set_int "ConsumerPendingMessages" [])
    ∷ ("machmqtt_stalled_consumers", set_int "StalledConsumers" [])
    ∷ []

abbrev pub histogram_rules : List Rule
histogram_rules =
    ("machmqtt_publish_latency_seconds_count", set_int "PublishLatencyCount" [])
    ∷ ("machmqtt_publish_latency_seconds_sum", set_float "PublishLatencySumSeconds")
    ∷ ("machmqtt_auth_duration_seconds_count", set_int "AuthDurationCount" [])
    ∷ ("machmqtt_auth_duration_seconds_sum", set_float "AuthDurationSumSeconds")
    ∷ ("machmqtt_auth_webhook_duration_seconds_count", set_int "AuthWebhookDurationCount" [])
    ∷ ("machmqtt_auth_webhook_duration_seconds_sum", set_float "AuthWebhookDurationSumSeconds")
    ∷ ("machmqtt_jetstream_publish_duration_seconds_count", set_int "JSPublishDurationCount" [])
    ∷ ("machmqtt_jetstream_publish_duration_seconds_sum", set_float "JSPublishDurationSumSeconds")
    ∷ (
      "machmqtt_qos2_sync_persist_duration_seconds_count",
      set_int "QoS2SyncPersistDurationCount" [],
    )
    ∷ (
      "machmqtt_qos2_sync_persist_duration_seconds_sum",
      set_float "QoS2SyncPersistDurationSumSeconds",
    )
    ∷ ("machmqtt_subscribe_duration_seconds_count", set_int "SubscribeDurationCount" [])
    ∷ ("machmqtt_subscribe_duration_seconds_sum", set_float "SubscribeDurationSumSeconds")
    ∷ ("machmqtt_dispatch_wait_seconds_count", set_int "DispatchWaitCount" [])
    ∷ ("machmqtt_dispatch_wait_seconds_sum", set_float "DispatchWaitSumSeconds")
    ∷ ("machmqtt_tls_handshake_duration_seconds_count", set_int "TLSHandshakeDurationCount" [])
    ∷ ("machmqtt_tls_handshake_duration_seconds_sum", set_float "TLSHandshakeDurationSumSeconds")
    ∷ []

abbrev pub process_rules : List Rule
process_rules =
    ("machmqtt_process_open_fds", set_int "ProcessOpenFDs" [])
    ∷ ("machmqtt_process_max_fds", set_int "ProcessMaxFDs" [])
    ∷ ("machmqtt_go_goroutines", set_int "GoGoroutines" [])
    ∷ ("machmqtt_go_heap_inuse_bytes", set_int "GoHeapInuseBytes" [])
    ∷ ("machmqtt_go_alloc_bytes_total", set_int "GoAllocBytesTotal" [])
    ∷ ("machmqtt_go_gc_cycles_total", set_int "GoGCCycles" [])
    ∷ ("machmqtt_go_gc_pause_ns_total", set_int "GoGCPauseNsTotal" [])
    ∷ ("machmqtt_instance_info", set_instance)
    ∷ ("machmqtt_drained", set_int "Drained" [])
    ∷ []
