-- ===== src/Exposition/Rules/Pools.antt =====
-- internal/collector/mqtt_metrics_parser.go: the cases of `parsePrometheusMetrics`, lines 589 to 680.
use machmqtt_dashboard.Prelude.{List, [], ◌∷◌}
use machmqtt_dashboard.Exposition.Actions.{Rule, set_int, set_case, set_slot}

abbrev pub pool_rules : List Rule
pool_rules =
    ("machmqtt_pool_size", set_int "Pool.Size" ("Pool" ∷ []))
    ∷ ("machmqtt_pool_buffered_bytes", set_int "Pool.BufferedBytes" ("Pool" ∷ []))
    ∷ ("machmqtt_pool_buffered_bytes_max", set_int "Pool.BufferedBytesMax" ("Pool" ∷ []))
    ∷ ("machmqtt_pool_slot_buffered_bytes", set_slot "BufferedBytes")
    ∷ ("machmqtt_pool_slot_out_msgs_total", set_slot "OutMsgs")
    ∷ ("machmqtt_pool_slot_in_msgs_total", set_slot "InMsgs")
    ∷ []

abbrev pub reactor_rules : List Rule
reactor_rules =
    ("machmqtt_reactor_task_queue_depth", set_int "Reactor.TaskQueueDepth" ("Reactor" ∷ []))
    ∷ (
      "machmqtt_reactor_task_queue_depth_max",
      set_int "Reactor.TaskQueueDepthMax" ("Reactor" ∷ []),
    )
    ∷ ("machmqtt_reactor_loop_panics_total", set_int "Reactor.LoopPanics" ("Reactor" ∷ []))
    ∷ (
      "machmqtt_reactor_read_continuations_total",
      set_int "Reactor.ReadContinuations" ("Reactor" ∷ []),
    )
    ∷ (
      "machmqtt_reactor_write_backpressure_total",
      set_int "Reactor.WriteBackpressure" ("Reactor" ∷ []),
    )
    ∷ (
      "machmqtt_reactor_feed_write_overflows_total",
      set_int "Reactor.FeedWriteOverflows" ("Reactor" ∷ []),
    )
    ∷ (
      "machmqtt_reactor_feed_read_overflows_total",
      set_int "Reactor.FeedReadOverflows" ("Reactor" ∷ []),
    )
    ∷ ("machmqtt_reactor_loop_deaths_total", set_int "Reactor.LoopDeaths" ("Reactor" ∷ []))
    ∷ ("machmqtt_reactor_registered_slots", set_int "Reactor.RegisteredSlots" ("Reactor" ∷ []))
    ∷ ("machmqtt_reactor_stale_events_total", set_int "Reactor.StaleEvents" ("Reactor" ∷ []))
    ∷ ("machmqtt_bridge_primary_rebuilds_total", set_int "BridgePrimaryRebuilds" [])
    ∷ ("machmqtt_bridge_rebuilds_degraded_total", set_int "BridgeRebuildsDegraded" [])
    ∷ (
      "machmqtt_bridge_consumer_reattach_total",
      set_case "result"
          (("reattached", "BridgeConsumerReattached")
            ∷ ("force_disconnected", "BridgeConsumerForceDisconnected")
            ∷ ("push_force_disconnected", "BridgeConsumerPushForceDisconnected")
            ∷ [])
          [],
    )
    ∷ []

abbrev pub throttling_rules : List Rule
throttling_rules =
    ("machmqtt_aggregate_publish_limit_msgs_per_sec", set_int "AggregatePublishLimit" [])
    ∷ (
      "machmqtt_publish_throttled_total",
      set_case "scope"
          (("per_client", "PublishThrottledPerClient")
            ∷ ("aggregate", "PublishThrottledAggregate")
            ∷ [])
          [],
    )
    ∷ (
      "machmqtt_acl_denied_total",
      set_case "action" (("publish", "ACLDeniedPublish") ∷ ("subscribe", "ACLDeniedSubscribe") ∷ [])
          [],
    )
    ∷ []
