-- ===== src/Ws/Tests.antt =====
-- Runs and instances of the theorems on the hub of internal/ws.
use machmqtt_dashboard.Prelude.{
  ℕ, ◌≡◌, refl, List, [], ◌∷◌, String, true, Option, some, none, replicate,
}
use machmqtt_dashboard.Ws.{
  Client, Hub, new_hub, new_client, drop_of, deliver, deliver_all, broadcast, get_client, at_client,
  mark_dropped, send_to, send_all, stats, Stats,
}
use machmqtt_dashboard.Ws.Pumps.{
  subscribe, read_error, takes_frame, Event, connects, reads, writes, broadcasts, sends, run, step,
  read_round, write_round,
}
use machmqtt_dashboard.Ws.Delivery.{broadcast_each}
use machmqtt_dashboard.Ws.Invariant.{IsValid}
use machmqtt_dashboard.Ws.Invariant.Run.{run-IsValid}

program : Unit {0}
unfolding run step get_client broadcast broadcast_each deliver_all stats send_all send_to deliver
    at_client mark_dropped read_round write_round drop_of
program = tt

abbrev snapshot : String → List (Option ℕ)
snapshot env = some 7 ∷ none ∷ []

abbrev day : List (Event ℕ)
day =
    connects
    ∷ connects
    ∷ reads 0 (subscribe "prod")
    ∷ reads 1 (subscribe "")
    ∷ broadcasts "prod" (some 8)
    ∷ writes 0 (takes_frame true)
    ∷ reads 1 read_error
    ∷ sends 1 (some 9)
    ∷ []

abbrev day_stats : Stats
day_stats = record {
  connected = 1;
  dropped = 0;
  subscriptions = 1;
  disconnects = 1;
  write_failures = 0;
  send_queue_depth = 1;
}

stats_of_day : stats (run snapshot new_hub day) ≡ day_stats
unfolding program
stats_of_day = refl

run-IsValid_example : IsValid (run snapshot new_hub day)
run-IsValid_example = run-IsValid snapshot day

-- A browser that stopped reading 127 frames ago.
abbrev stuck : Client ℕ
stuck = record (new_client 0) { env = "prod"; send = replicate 64 1; consecutive_drops = 127 }

abbrev slow : Hub ℕ
slow = record new_hub { clients = stuck ∷ new_client 1 ∷ [] }
