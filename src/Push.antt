-- ===== src/Push.antt =====
-- internal/collector/mqtt_subscriber.go: the cache of the metrics that bridges publish. Of a message and its
-- metrics the fields are modelled that are read here; the others are `rest`. JSON is a parameter: what the
-- handler is given is the message, or nothing where it cannot be read. Times are in nanoseconds.
pub mod Cache
pub mod Instances
pub mod Tests
use machmqtt_dashboard.Prelude.{
  ℕ, ◌+◌, ◌-◌, ◌==◌, ◌&&◌, ◌||◌, not, ltb, leb, if◌then◌else◌, List, [], ◌∷◌, Bool, true, false,
  Option, none, some, Bytes, bytes_eq, codes, ByteMap, get, put, Int64, add_i64, sub_i64, leb_i64,
  minus_one, filter, length,
}
use machmqtt_dashboard.Environments.{is_empty}

-- `MQTTMetrics`
pub record PushMetrics (Rest : Type 0) : Type 0 where
  pub instance_id : Bytes
  pub drained : Int64
  pub connections_active : Int64
  pub server_published_qos0 : Int64
  pub server_published_qos1 : Int64
  pub server_published_qos2 : Int64
  pub server_consumed_qos0 : Int64
  pub server_consumed_qos1 : Int64
  pub server_consumed_qos2 : Int64
  pub consumer_pending_messages : Int64
  pub rest : Rest

-- `BridgePoolSlot`
pub record PoolSlot (Rest : Type 0) : Type 0 where
  pub out_bytes : Int64
  pub in_bytes : Int64
  pub rest : Rest

-- `BridgeMetricsMsg`
pub record Message (Rest : Type 0) : Type 0 where
  pub v : Int64
  pub instance_id : Bytes
  pub instance_name : Bytes
  pub drained : Bool
  pub ready_state : Bytes
  pub metrics : Option (PushMetrics Rest)
  pub nats_connected : Bool
  pub server_id : Bytes
  pub server_name : Bytes
  pub slots : List (PoolSlot Rest)
  pub rest : Rest

-- `cachedBridge`
pub record Cached (Rest Float : Type 0) : Type 0 where
  pub msg : Message Rest
  pub received_at : ℕ
  pub in_rate : Float
  pub out_rate : Float
  pub in_bytes_rate : Float
  pub out_bytes_rate : Float

-- `MQTTSubscriber`, and how many messages were received.
pub record Subscriber (Rest Float : Type 0) : Type 0 where
  pub bridges : ByteMap (Cached Rest Float)
  pub received : ℕ
  pub ttl : ℕ

-- What is outside: floating point, and the metrics of a fresh struct besides the fields above.
pub record Numbers (Rest Float : Type 0) : Type 0 where
  pub zero_rate : Float
  pub per_second : Int64 → ℕ → Float
  pub no_rest : Rest

abbrev pub default_bridge_ttl : ℕ
default_bridge_ttl = 45000000000

abbrev pub bridge_metrics_schema_v : Int64
bridge_metrics_schema_v = 1

abbrev pub new_subscriber : {Rest Float : Type 0} → Subscriber Rest Float
new_subscriber = record { bridges = []; received = 0; ttl = default_bridge_ttl }

abbrev pub bool_to_int64 : Bool → Int64
bool_to_int64 true = 1
bool_to_int64 false = 0

module _ {Rest Float : Type 0} (num : Numbers Rest Float) where
  abbrev pub nats_in_total : PushMetrics Rest → Int64
  nats_in_total m =
      add_i64 (add_i64 m.server_published_qos0 m.server_published_qos1) m.server_published_qos2

  abbrev pub nats_out_total : PushMetrics Rest → Int64
  nats_out_total m =
      add_i64 (add_i64 m.server_consumed_qos0 m.server_consumed_qos1) m.server_consumed_qos2

  -- `natsByteTotals`, with the sums so far.
  unfoldable pub nats_byte_totals : List (PoolSlot Rest) → Int64 → Int64 → Int64 × Int64
  nats_byte_totals [] to_nats from_nats = (to_nats, from_nats)
  nats_byte_totals (s ∷ ss) to_nats from_nats =
      nats_byte_totals ss (add_i64 to_nats s.out_bytes) (add_i64 from_nats s.in_bytes)

  abbrev pub push_rate : Int64 → Int64 → ℕ → Float
  push_rate cur prev dt =
      if leb dt 0 || not (leb_i64 prev cur)
      then num.zero_rate
      else num.per_second (sub_i64 cur prev) dt

  -- `bridgeMetrics`
  abbrev pub metrics_or_new : Message Rest → Option (PushMetrics Rest) → PushMetrics Rest
  metrics_or_new m (some metrics) = metrics
  metrics_or_new m none = record {
    instance_id = m.instance_id;
    drained = bool_to_int64 m.drained;
    connections_active = 0;
    server_published_qos0 = 0;
    server_published_qos1 = 0;
    server_published_qos2 = 0;
    server_consumed_qos0 = 0;
    server_consumed_qos1 = 0;
    server_consumed_qos2 = 0;
    consumer_pending_messages = minus_one;
    rest = num.no_rest;
  }

  abbrev pub bridge_metrics : Message Rest → PushMetrics Rest
  bridge_metrics m = metrics_or_new m m.metrics

  -- `normalizeBridgeMsg`
  abbrev pub fill_metrics : Message Rest → Option (PushMetrics Rest) → PushMetrics Rest
  fill_metrics m none = metrics_or_new m none
  fill_metrics m (some metrics) = record metrics {
    instance_id = if is_empty metrics.instance_id then m.instance_id else metrics.instance_id;
    drained = if metrics.drained == 0 then bool_to_int64 m.drained else metrics.drained;
  }

  abbrev pub normalize_bridge_msg : Message Rest → Message Rest
  normalize_bridge_msg m = record m { metrics = some (fill_metrics m m.metrics) }

  -- The rates against the message before, of which the counters may be missing.
  abbrev pub counter_rate :
      (PushMetrics Rest → Int64) → Option (PushMetrics Rest) → Option (PushMetrics Rest) → ℕ → Float
  counter_rate total (some cur) (some prev) dt = push_rate (total cur) (total prev) dt
  counter_rate total _ _ dt = num.zero_rate

  -- A new entry, by the entry before and the time since it; a clock that did not go on leaves the rates.
  unfoldable pub with_rates : ℕ → Message Rest → Option (Cached Rest Float) → Cached Rest Float
  unfolding nats_byte_totals
  with_rates now m none = record {
    msg = normalize_bridge_msg m;
    received_at = now;
    in_rate = num.zero_rate;
    out_rate = num.zero_rate;
    in_bytes_rate = num.zero_rate;
    out_bytes_rate = num.zero_rate;
  }
  with_rates now m (some prev) =
      let dt = now - prev.received_at in
      let cur_bytes = nats_byte_totals m.slots 0 0 in
      let prev_bytes = nats_byte_totals prev.msg.slots 0 0 in
      if ltb 0 dt
      then record {
        msg = normalize_bridge_msg m;
        received_at = now;
        in_rate = counter_rate nats_in_total m.metrics prev.msg.metrics dt;
        out_rate = counter_rate nats_out_total m.metrics prev.msg.metrics dt;
        in_bytes_rate = push_rate cur_bytes.0 prev_bytes.0 dt;
        out_bytes_rate = push_rate cur_bytes.1 prev_bytes.1 dt;
      }
      else record prev { msg = normalize_bridge_msg m; received_at = now }

  -- A message without a name is ignored, and one of a newer schema.
  abbrev pub is_accepted : Message Rest → Bool
  is_accepted m = not (is_empty m.instance_name) && leb_i64 m.v bridge_metrics_schema_v

  abbrev pub store_message : ℕ → Message Rest → Subscriber Rest Float → Subscriber Rest Float
  store_message now m s = record s {
    bridges = put m.instance_name (with_rates now m (get m.instance_name s.bridges)) s.bridges;
    received = s.received + 1;
  }

  -- The handler of `run`, with the message that the payload is read as.
  unfoldable pub handle_message :
      ℕ → Option (Message Rest) → Subscriber Rest Float → Subscriber Rest Float
  unfolding with_rates get put
  handle_message now none s = s
  handle_message now (some m) s = if is_accepted m then store_message now m s else s

  abbrev pub is_live : ℕ → ℕ → Bytes × Cached Rest Float → Bool
  is_live ttl now e = leb now (e.1.received_at + ttl)

  -- `sweepExpired`
  unfoldable pub sweep_expired : ℕ → Subscriber Rest Float → Subscriber Rest Float
  sweep_expired now s = record s { bridges = filter (is_live s.ttl now) s.bridges }

  abbrev pub bridge_count : Subscriber Rest Float → ℕ
  bridge_count s = length s.bridges

-- What happens to the cache: the subscription's handler runs, or the ticker's sweep.
pub data Event (Rest : Type 0) : Type 0 where
  publish : ℕ → Option (Message Rest) → Event Rest
  sweep : ℕ → Event Rest

module _ {Rest Float : Type 0} (num : Numbers Rest Float) where
  abbrev pub time_of : Event Rest → ℕ
  time_of (publish now m) = now
  time_of (sweep now) = now

  unfoldable pub step : Event Rest → Subscriber Rest Float → Subscriber Rest Float
  unfolding handle_message sweep_expired
  step (publish now m) s = handle_message num now m s
  step (sweep now) s = sweep_expired num now s

  unfoldable pub run : List (Event Rest) → Subscriber Rest Float → Subscriber Rest Float
  unfolding step
  run [] s = s
  run (e ∷ es) s = run es (step e s)
