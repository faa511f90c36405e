-- ===== src/Push/Tests.antt =====
-- Runs and instances of internal/collector/mqtt_subscriber.go.
use machmqtt_dashboard.Prelude.{ℕ, ◌≡◌, refl, List, [], ◌∷◌, true, none, some, codes, get, arith}
use machmqtt_dashboard.Push.{
  Message, Numbers, Subscriber, Event, publish, sweep, new_subscriber, handle_message, run,
}
use machmqtt_dashboard.Push.Cache.{is_since, run-keeps}

abbrev whole : Numbers (Unit {0}) ℕ
whole = record { zero_rate = 0; per_second = λ d t. d; no_rest = tt }

abbrev report : Message (Unit {0})
report = record {
  v = 1;
  instance_id = codes "x1";
  instance_name = codes "bridge-1";
  drained = true;
  ready_state = [];
  metrics = none;
  nats_connected = true;
  server_id = codes "S1";
  server_name = codes "one";
  slots = [];
  rest = tt;
}

abbrev heard : Subscriber (Unit {0}) ℕ
unfolding handle_message
heard = handle_message whole 100 (some report) new_subscriber

abbrev events : List (Event (Unit {0}))
events = sweep 15000000100 ∷ publish 16000000000 none ∷ sweep 45000000100 ∷ []

run-keeps_example :
    is_since whole 100 (get (codes "bridge-1") (run whole events heard).bridges) ≡ true
unfolding handle_message
run-keeps_example =
    run-keeps whole (codes "bridge-1") 100 events heard
      ((omega arith, omega arith), ((omega arith, omega arith), ((omega arith, omega arith), tt)))
      refl
