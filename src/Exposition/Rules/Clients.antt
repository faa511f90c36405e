-- ===== src/Exposition/Rules/Clients.antt =====
-- internal/collector/mqtt_metrics_parser.go: the cases of `parsePrometheusMetrics`, lines 107 to 266.
use machmqtt_dashboard.Prelude.{List, [], ◌∷◌}
use machmqtt_dashboard.Exposition.Actions.{Rule, set_int, set_case, add_case, set_reason}

abbrev pub connection_rules : List Rule
connection_rules =
    ("machmqtt_connections_active", set_int "ConnectionsActive" [])
    ∷ ("machmqtt_connections_total", set_int "ConnectionsTotal" [])
    ∷ ("machmqtt_connections_max", set_int "ConnectionsMax" [])
    ∷ ("machmqtt_connections_rejected_total", set_int "ConnectionsRejected" [])
    ∷ ("machmqtt_ws_connections_active", set_int "WSConnectionsActive" [])
    ∷ ("machmqtt_ws_connections_total", set_int "WSConnectionsTotal" [])
    ∷ ("machmqtt_sockets_open", set_int "SocketsOpen" [])
    ∷ ("machmqtt_sockets_accepted_total", set_int "SocketsAccepted" [])
    ∷ ("machmqtt_ws_sockets_open", set_int "WSSocketsOpen" [])
    ∷ ("machmqtt_ws_sockets_accepted_total", set_int "WSSocketsAccepted" [])
    ∷ (
      "machmqtt_connections_rejected_by_reason_total",
      set_case "reason"
          (("max_conns", "RejectedMaxConns")
            ∷ ("mem_budget", "RejectedMemBudget")
            ∷ ("license", "RejectedLicense")
            ∷ ("per_ip_conns", "RejectedPerIPConns")
            ∷ ("per_ip_accept", "RejectedPerIPAccept")
            ∷ ("pool_full", "RejectedPoolFull")
            ∷ ("connect_timeout", "RejectedConnectTimeout")
            ∷ ("auth_timeout", "RejectedAuthTimeout")
            ∷ ("worker_pool", "RejectedWorkerPool")
            ∷ [])
          [],
    )
    ∷ ("machmqtt_connack_rejected_by_reason_total", set_reason "ConnackRejectedByReason")
    ∷ ("machmqtt_suback_rejected_by_reason_total", set_reason "SubackRejectedByReason")
    ∷ ("machmqtt_disconnects_sent_by_reason_total", set_reason "DisconnectsSentByReason")
    ∷ (
      "machmqtt_dispatch_slots_active",
      set_case "pool" (("tls", "DispatchSlotsTLS") ∷ ("websocket", "DispatchSlotsWS") ∷ []) [],
    )
    ∷ []

abbrev pub authentication_rules : List Rule
authentication_rules =
    ("machmqtt_auth_success_total", set_int "AuthSuccess" [])
    ∷ (
      "machmqtt_auth_failure_total",
      add_case "AuthFailure" "reason" (
          ("bad_credentials", "AuthFailBadCreds")
          ∷ ("enhanced", "AuthFailEnhanced")
          ∷ ("locked", "AuthFailLocked")
          ∷ ("other", "AuthFailOther")
          ∷ ("license", "AuthFailLicense")
          ∷ ("token_expired", "AuthFailTokenExpired")
          ∷ ("bad_signature", "AuthFailBadSignature")
          ∷ ("claim_mismatch", "AuthFailClaimMismatch")
          ∷ ("jwks_unavailable", "AuthFailJWKSUnavailable")
          ∷ ("webhook_denied", "AuthFailWebhookDenied")
          ∷ ("webhook_unavailable", "AuthFailWebhookUnavailable")
          ∷ []),
    )
    ∷ ("machmqtt_scram_sessions_active", set_int "ScramSessionsActive" [])
    ∷ ("machmqtt_auth_failure_tracker_entries", set_int "AuthFailureTrackerEntries" [])
    ∷ []

abbrev pub auth_webhook_rules : List Rule
auth_webhook_rules =
    (
      "machmqtt_auth_webhook_requests_total",
      set_int "AuthWebhookRequests" ("AuthWebhookActive" ∷ []),
    )
    ∷ (
      "machmqtt_auth_webhook_transport_failures_total",
      set_int "AuthWebhookTransportFailures" ("AuthWebhookActive" ∷ []),
    )
    ∷ (
      "machmqtt_auth_webhook_inflight_rejected_total",
      set_int "AuthWebhookInflightRejected" ("AuthWebhookActive" ∷ []),
    )
    ∷ ("machmqtt_nats_enforcement_fallback_total", set_int "NATSEnforcementFallback" [])
    ∷ ("machmqtt_nats_enforcement_denied_total", set_int "NATSEnforcementDenied" [])
    ∷ []

abbrev pub license_gate_rules : List Rule
license_gate_rules =
    (
      "machmqtt_license_feature_rejected_total",
      set_case "feature"
          (("auth_method", "LicenseRejectedAuthMethod")
            ∷ ("retain", "LicenseRejectedRetain")
            ∷ ("proxy_protocol", "LicenseRejectedProxyProtocol")
            ∷ [])
          [],
    )
    ∷ []
