-- ===== src/Exposition/Rules/Clusters.antt =====
-- internal/collector/mqtt_metrics_parser.go: the cases of `parsePrometheusMetrics`, lines 681 to 786.
use machmqtt_dashboard.Prelude.{List, [], ◌∷◌}
use machmqtt_dashboard.Exposition.Actions.{Rule, set_int, add_case, add_hmac_failure}

abbrev pub cluster_rules : List Rule
cluster_rules =
    (
      "machmqtt_cluster_inspect_timeouts_total",
      set_int "ClusterInspectTimeouts" ("ClusterEnabled" ∷ []),
    )
    ∷ (
      "machmqtt_cluster_takeover_dropped_total",
      set_int "ClusterTakeoverDropped" ("ClusterEnabled" ∷ []),
    )
    ∷ (
      "machmqtt_cluster_takeover_order_skew_total",
      set_int "ClusterTakeoverOrderSkew" ("ClusterEnabled" ∷ []),
    )
    ∷ (
      "machmqtt_cluster_heartbeat_publish_failures_total",
      set_int "ClusterHeartbeatPublishFailures" ("ClusterEnabled" ∷ []),
    )
    ∷ ("machmqtt_cluster_hmac_failures_total", add_hmac_failure)
    ∷ []

abbrev pub lease_rules : List Rule
lease_rules =
    (
      "machmqtt_cluster_lease_acquired_total",
      set_int "ClusterLeaseAcquired" ("ClusterEnabled" ∷ []),
    )
    ∷ (
      "machmqtt_cluster_lease_transferred_total",
      set_int "ClusterLeaseTransferred" ("ClusterEnabled" ∷ []),
    )
    ∷ (
      "machmqtt_cluster_lease_reclaimed_total",
      set_int "ClusterLeaseReclaimed" ("ClusterEnabled" ∷ []),
    )
    ∷ (
      "machmqtt_cluster_lease_conflicts_total",
      set_int "ClusterLeaseConflicts" ("ClusterEnabled" ∷ []),
    )
    ∷ (
      "machmqtt_cluster_lease_watcher_kicks_total",
      set_int "ClusterLeaseWatcherKicks" ("ClusterEnabled" ∷ []),
    )
    ∷ (
      "machmqtt_cluster_lease_revision_regressions_total",
      set_int "ClusterLeaseRevisionRegressions" ("ClusterEnabled" ∷ []),
    )
    ∷ (
      "machmqtt_cluster_lease_release_failed_total",
      set_int "ClusterLeaseReleaseFailed" ("ClusterEnabled" ∷ []),
    )
    ∷ ("machmqtt_cluster_owned_leases", set_int "ClusterOwnedLeases" ("ClusterEnabled" ∷ []))
    ∷ (
      "machmqtt_session_fencing_rejected_total",
      set_int "SessionFencingRejected" ("SessionsUp" ∷ []),
    )
    ∷ []

abbrev pub queue_rules : List Rule
queue_rules =
    ("machmqtt_worker_pool_queue_depth", set_int "WorkerPoolQueueDepth" [])
    ∷ ("machmqtt_op_queue_depth", set_int "OpQueueDepth" [])
    ∷ ("machmqtt_op_queue_bytes", set_int "OpQueueBytes" [])
    ∷ ("machmqtt_op_suspended_conns", set_int "OpSuspendedConns" [])
    ∷ ("machmqtt_op_shed_qos0_per_conn_bytes_total", set_int "OpShedQoS0PerConnBytes" [])
    ∷ ("machmqtt_op_shed_qos0_total_bytes_total", set_int "OpShedQoS0TotalBytes" [])
    ∷ ("machmqtt_op_shed_qos0_depth_total", set_int "OpShedQoS0Depth" [])
    ∷ ("machmqtt_op_dispatch_batches_total", set_int "OpDispatchBatches" [])
    ∷ ("machmqtt_op_dispatch_messages_total", set_int "OpDispatchMessages" [])
    ∷ ("machmqtt_op_suspend_events_total", set_int "OpSuspendEvents" [])
    ∷ ("machmqtt_op_pool_queue_depth", set_int "OpPoolQueueDepth" [])
    ∷ ("machmqtt_op_pool_rejected_total", set_int "OpPoolRejected" [])
    ∷ (
      "machmqtt_op_queue_dropped_total",
      add_case "OpQueueDropped" "reason" (
          ("pool_full", "OpQueueDroppedPoolFull")
          ∷ ("handler_error", "OpQueueDroppedHandlerError")
          ∷ ("slot_closed", "OpQueueDroppedSlotClosed")
          ∷ ("close_race", "OpQueueDroppedCloseRace")
          ∷ ("worker_abort", "OpQueueDroppedWorkerAbort")
          ∷ ("other", "OpQueueDroppedOther")
          ∷ []),
    )
    ∷ ("machmqtt_drain_ack_unwritable_total", set_int "DrainAckUnwritable" [])
    ∷ []
