-- ===== src/Exposition/Rules.antt =====
-- internal/collector/mqtt_metrics_parser.go: all cases of `parsePrometheusMetrics` by the name of a family.
mod Clients
mod Messages
mod Reliability
mod Pools
mod Clusters
mod Sessions
use machmqtt_dashboard.Prelude.{List, ◌++◌}
use machmqtt_dashboard.Exposition.Actions.{Rule}
use machmqtt_dashboard.Exposition.Rules.Clients.{
  connection_rules, authentication_rules, auth_webhook_rules, license_gate_rules,
}
use machmqtt_dashboard.Exposition.Rules.Messages.{
  client_message_rules, server_message_rules, will_rules, protocol_rules,
}
use machmqtt_dashboard.Exposition.Rules.Reliability.{
  reliability_rules, durability_rules, capacity_rules,
}
use machmqtt_dashboard.Exposition.Rules.Pools.{pool_rules, reactor_rules, throttling_rules}
use machmqtt_dashboard.Exposition.Rules.Clusters.{cluster_rules, lease_rules, queue_rules}
use machmqtt_dashboard.Exposition.Rules.Sessions.{
  persistence_rules, license_rules, gauge_rules, histogram_rules, process_rules,
}

unfoldable pub rules : List Rule
rules =
    connection_rules ++ authentication_rules ++ auth_webhook_rules ++ license_gate_rules
    ++ client_message_rules ++ server_message_rules ++ will_rules ++ protocol_rules
    ++ reliability_rules ++ durability_rules ++ capacity_rules ++ pool_rules ++ reactor_rules
    ++ throttling_rules ++ cluster_rules ++ lease_rules ++ queue_rules ++ persistence_rules
    ++ license_rules ++ gauge_rules ++ histogram_rules ++ process_rules
