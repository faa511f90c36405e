-- ===== src/Manager/Tests.antt =====
-- Runs and instances of the manager in internal/collector/collector.go.
use machmqtt_dashboard.Prelude.{
  ◌≡◌, ◌↔◌, refl, List, [], ◌∷◌, map, true, none, some, Map, codes, lookup, lookup-nil, insert,
  delete, is_some,
}
use machmqtt_dashboard.Environments.{Environment}
use machmqtt_dashboard.Environments.Tests.{shop}
use machmqtt_dashboard.Manager.{
  Tracked, servers_same, new_collector, new_manager, start, start_all, update_cluster, add_cluster,
  remove_cluster,
}
use machmqtt_dashboard.Manager.Started.{Op, add, update, remove, run, run-polled}
use machmqtt_dashboard.Manager.Connections.{IsInEffect, update_cluster-IsInEffect}

-- The shop with another server.
abbrev moved : Environment
moved = record shop { servers = record { url = codes "http://other:8222" } ∷ [] }

abbrev tracked : Map Tracked
tracked = ("a", new_collector shop) ∷ []

abbrev calls : List Op
calls = update "a" moved ∷ add "b" shop ∷ remove "a" ∷ []

contexts :
    map (run (λ pem. true) calls (start (new_manager tracked))).running (0 ∷ 1 ∷ 2 ∷ [])
    ≡ none ∷ none ∷ some "b" ∷ []
unfolding run start_all update_cluster add_cluster remove_cluster insert servers_same delete
contexts = refl

run-polled_example :
    (is_some (lookup "b" (run (λ pem. true) calls (start (new_manager tracked))).cancels)
      ≡ is_some (lookup "b" (run (λ pem. true) calls (start (new_manager tracked))).collectors))
    × (((run (λ pem. true) calls (start (new_manager tracked))).running 2 ≡ some "b")
        ↔ (lookup "b" (run (λ pem. true) calls (start (new_manager tracked))).cancels ≡ some 2))
run-polled_example = run-polled (λ pem. true) tracked calls "b" 2 (lookup-nil "a", tt)

update_cluster-IsInEffect_example :
    IsInEffect true moved (
      lookup "a"
        (update_cluster (λ pem. true) "a" moved (start (new_manager tracked))).0.collectors)
unfolding start_all update_cluster lookup insert servers_same delete
update_cluster-IsInEffect_example =
    update_cluster-IsInEffect (λ pem. true) "a" moved (start (new_manager tracked))
      (refl, (refl, refl)) refl
