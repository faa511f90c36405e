-- ===== src/Exposition/Actions.antt =====
-- internal/collector/mqtt_metrics_parser.go: what a case of the switch in `parsePrometheusMetrics` does with
-- a sample. A field of `MQTTMetrics` goes by its Go name, one of its sub-objects with the object's name
-- first. A flag is a Boolean field that the case sets, or a sub-object that it makes present.
use machmqtt_dashboard.Prelude.{String, List}

pub data Action : Type 0 where
  -- field = parseInt(value), and the flags
  set_int : String → List String → Action
  -- the field by the value of a label, and the flags; `captureUncurated` for any other value
  set_case : String → List (String × String) → List String → Action
  -- the same, with the number added to a total first
  add_case : String → String → List (String × String) → Action
  -- the entry of a map for the value of the label `reason`, unless that is empty
  set_reason : String → Action
  -- the field of the pool's slot that the label `slot` names
  set_slot : String → Action
  -- one entry more for the source that the label `source_instance_id` names, unless that is empty
  add_hmac_failure : Action
  -- field = parseFloat(value)
  set_float : String → Action
  -- the label `instance_id`
  set_instance : Action

abbrev pub Rule : Type 0
Rule = String × Action
