-- ===== src/Push/Instances.antt =====
-- internal/collector/mqtt_subscriber.go: the instances that the cache is shown as; `ReadyzState` is of
-- mqtt_fetcher.go.
use machmqtt_dashboard.Prelude.{
  ℕ, ◌==◌, ◌≡◌, refl, ap, ◌&&◌, ◌||◌, not, if◌then◌else◌, List, [], ◌∷◌, map, Bool, true, false,
  Option, none, some, Bytes, bytes_eq, codes, Int64, arith, Bool-cases,
}
use machmqtt_dashboard.Environments.{is_empty}
use machmqtt_dashboard.Push.{
  PushMetrics, PoolSlot, Message, Cached, Subscriber, Numbers, bridge_metrics, fill_metrics,
  metrics_or_new, normalize_bridge_msg,
}

-- The three states: ready, draining, and JetStream degraded.
abbrev pub readyz_state : Bytes → Bool × Bool × Bool
readyz_state status = (
  bytes_eq status (codes "ready"),
  bytes_eq status (codes "draining"),
  bytes_eq status (codes "jetstream-degraded"),
)

-- `MQTTBridgeInstance` with its `MQTTBridgeStatus`, of which the copied diagnostics are in `slots` and `rest`.
pub record PushInstance (Rest Float : Type 0) : Type 0 where
  pub name : Bytes
  pub server_id : Bytes
  pub server_name : Bytes
  pub reachable : Bool
  pub ready : Bool
  pub draining : Bool
  pub jetstream_degraded : Bool
  pub connections : Int64
  pub nats_connected : Bool
  pub slots : List (PoolSlot Rest)
  pub metrics : PushMetrics Rest
  pub rest : Rest
  pub in_msgs_rate : Float
  pub out_msgs_rate : Float
  pub in_bytes_rate : Float
  pub out_bytes_rate : Float
  pub last_seen : Option ℕ

module _ {Rest Float : Type 0} (num : Numbers Rest Float) where
  abbrev pub is_draining : Message Rest → Bool
  is_draining m = m.drained || not ((bridge_metrics num m).drained == 0)

  -- The state that the broker names, or the one derived for a broker that names none.
  abbrev pub states : Message Rest → Bool × Bool × Bool
  states m =
      if is_empty m.ready_state
      then (m.nats_connected && not (is_draining m), false, false)
      else readyz_state m.ready_state

  -- `bridgeMsgToInstance`
  unfoldable pub bridge_msg_to_instance : Bytes → Message Rest → PushInstance Rest Float
  bridge_msg_to_instance name m =
      let (ready, draining, degraded) = states m in
      record {
        name = name;
        server_id = m.server_id;
        server_name = m.server_name;
        reachable = true;
        ready = ready;
        draining = is_draining m || draining;
        jetstream_degraded = degraded;
        connections = (bridge_metrics num m).connections_active;
        nats_connected = m.nats_connected;
        slots = m.slots;
        metrics = bridge_metrics num m;
        rest = m.rest;
        in_msgs_rate = num.zero_rate;
        out_msgs_rate = num.zero_rate;
        in_bytes_rate = num.zero_rate;
        out_bytes_rate = num.zero_rate;
        last_seen = none;
      }

  abbrev pub instance_of : Bytes × Cached Rest Float → PushInstance Rest Float
  unfolding bridge_msg_to_instance
  instance_of e = record (bridge_msg_to_instance e.0 e.1.msg) {
    in_msgs_rate = e.1.in_rate;
    out_msgs_rate = e.1.out_rate;
    in_bytes_rate = e.1.in_bytes_rate;
    out_bytes_rate = e.1.out_bytes_rate;
    last_seen = some e.1.received_at;
  }

  -- `Bridges`
  unfoldable pub bridges : Subscriber Rest Float → List (PushInstance Rest Float)
  unfolding bridge_msg_to_instance
  bridges s = map instance_of s.bridges

  abbrev pub or_scanned :
      List (PushInstance Rest Float)
      → List (PushInstance Rest Float)
      → List (PushInstance Rest Float)
  or_scanned [] scanned = scanned
  or_scanned (b ∷ bs) scanned = b ∷ bs

  -- `MQTTBridges` of collector.go: what the bridges push, or what the last scan found.
  abbrev pub mqtt_bridges :
      Option (Subscriber Rest Float)
      → List (PushInstance Rest Float)
      → List (PushInstance Rest Float)
  unfolding bridges
  mqtt_bridges none scanned = scanned
  mqtt_bridges (some s) scanned = or_scanned (bridges s) scanned

  draining_same :
      (m : Message Rest) (o : Option (PushMetrics Rest))
      → (m.drained || not ((fill_metrics num m o).drained == 0))
        ≡ (m.drained || not ((metrics_or_new num m o).drained == 0))
  draining_same m none = refl
  draining_same m (some metrics) =
      ground (arith, Bool-cases m.drained, Bool-cases (metrics.drained == 0))

  -- Filling in the metrics of a message from its envelope changes neither of the states shown for it.
  pub states-normalize_bridge_msg :
      (m : Message Rest)
      → (is_draining (normalize_bridge_msg num m) ≡ is_draining m)
        × (states (normalize_bridge_msg num m) ≡ states m)
  states-normalize_bridge_msg m =
      let same = draining_same m m.metrics in
      (
        same,
        ap
            (λ b.
              if is_empty m.ready_state
              then (m.nats_connected && not b, false, false)
              else readyz_state m.ready_state)
            same,
      )
