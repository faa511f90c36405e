-- ===== src/Manager/Started.antt =====
-- internal/collector/collector.go: the manager from its start on.
use machmqtt_dashboard.Prelude.{
  ℕ, ◌≡◌, ◌↔◌, refl, ◌||◌, if◌then◌else◌, String, str_eq, eq_iff, List, [], ◌∷◌, Bool, true, none,
  some, Map, Distinct, lookup, lookup-insert, lookup-nil, is_some, Bytes, arith,
}
use machmqtt_dashboard.Environments.{Environment}
use machmqtt_dashboard.Manager.{
  Manager, Tracked, launch, remove_cluster, add_cluster, update_cluster, start_collector, start_all,
  start, new_manager,
}
use machmqtt_dashboard.Manager.Polling.{
  IsPolled, IsSound, launch-IsPolled, add_cluster-IsSound, update_cluster-IsSound,
  remove_cluster-IsSound,
}

cancels-launch :
    (id i : String) (c : Tracked) (m : Manager)
    → lookup i (launch id c m).cancels ≡ (if str_eq id i then some m.next else lookup i m.cancels)
unfolding launch
cancels-launch id i c m = lookup-insert id i m.next m.cancels

collectors-launch :
    (id i : String) (c : Tracked) (m : Manager)
    → lookup i (launch id c m).collectors
      ≡ (if str_eq id i then some (start_collector c.env c) else lookup i m.collectors)
unfolding launch
collectors-launch id i c m = lookup-insert id i (start_collector c.env c) m.collectors

lookup-cons :
    (id i : String) (c : Tracked) (rest : Map Tracked)
    → lookup i ((id, c) ∷ rest) ≡ (if str_eq id i then some c else lookup i rest)
unfolding lookup
lookup-cons id i c rest = refl

-- `Start` makes contexts for the collectors it goes through, and for no other.
start_all-IsPolled :
    (cs : Map Tracked) (m : Manager)
    → Distinct cs
    → ((id : String) → is_some (lookup id cs) ≡ true → lookup id m.cancels ≡ none)
    → IsPolled m
    → IsPolled (start_all cs m)
unfolding start_all
start_all-IsPolled [] m d free p = p
start_all-IsPolled ((id, c) ∷ rest) m d free p =
    let at_id : is_some (lookup id ((id, c) ∷ rest)) ≡ true =
      ground (arith, lookup-cons id id c rest, eq_iff id id) in
    start_all-IsPolled rest (launch id c m) d.1
      (λ i k.
        ground
          (arith, cancels-launch id i c m, lookup-cons id i c rest, eq_iff id i, d.0, free i, k))
      (launch-IsPolled id c m (free id at_id) p)

start_all-tracked :
    (cs : Map Tracked) (m : Manager) (i : String)
    → (is_some (lookup i (start_all cs m).cancels)
        ≡ (is_some (lookup i cs) || is_some (lookup i m.cancels)))
      × (is_some (lookup i (start_all cs m).collectors)
          ≡ (is_some (lookup i cs) || is_some (lookup i m.collectors)))
unfolding start_all
start_all-tracked [] m i =
    let nil = lookup-nil {V = Tracked} i in (ground (arith, nil), ground (arith, nil))
start_all-tracked ((id, c) ∷ rest) m i =
    let later = start_all-tracked rest (launch id c m) i in
    (
      ground (arith, later.0, cancels-launch id i c m, lookup-cons id i c rest),
      ground (arith, later.1, collectors-launch id i c m, lookup-cons id i c rest),
    )

start_all-started : (cs : Map Tracked) (m : Manager) → (start_all cs m).started ≡ m.started
unfolding start_all launch
start_all-started [] m = refl
start_all-started ((id, c) ∷ rest) m = start_all-started rest (launch id c m)

start-IsSound : (cs : Map Tracked) → Distinct cs → IsSound (start (new_manager cs))
start-IsSound cs d =
    let m : Manager = record (new_manager cs) { started = true } in
    let at : (i : String) → lookup i m.cancels ≡ none = λ i. lookup-nil i in
    record {
      started = start_all-started cs m;
      polled =
          start_all-IsPolled cs m d (λ i k. at i)
            (record {
              held = λ i g e. absurd (ground (arith, at i, e));
              owned = λ i g e. absurd (ground (arith, e));
              fresh = λ g e. refl;
            });
      tracked = λ i. ground (arith, start_all-tracked cs m i, at i);
    }

-- A call of the manager by a handler.
pub data Op : Type 0 where
  add : String → Environment → Op
  update : String → Environment → Op
  remove : String → Op

abbrev pub step : (Bytes → Bool) → Op → Manager → Manager
step is_usable (add id env) m = (add_cluster is_usable id env m).0
step is_usable (update id env) m = (update_cluster is_usable id env m).0
step is_usable (remove id) m = remove_cluster id m

unfoldable pub run : (Bytes → Bool) → List Op → Manager → Manager
run is_usable [] m = m
run is_usable (op ∷ ops) m = run is_usable ops (step is_usable op m)

step-IsSound :
    (is_usable : Bytes → Bool) (op : Op) (m : Manager) → IsSound m → IsSound (step is_usable op m)
step-IsSound is_usable (add id env) m s = add_cluster-IsSound is_usable id env m s
step-IsSound is_usable (update id env) m s = update_cluster-IsSound is_usable id env m s
step-IsSound is_usable (remove id) m s = (remove_cluster-IsSound id m s).0

run-IsSound :
    (is_usable : Bytes → Bool) (ops : List Op) (m : Manager)
    → IsSound m
    → IsSound (run is_usable ops m)
unfolding run
run-IsSound is_usable [] m s = s
run-IsSound is_usable (op ∷ ops) m s =
    run-IsSound is_usable ops (step is_usable op m) (step-IsSound is_usable op m s)

-- However clusters are added, updated and removed after `Start`, with or without errors, exactly the
-- tracked clusters have a context in the manager's table, and the goroutines that live for a cluster are
-- those under that one context: each tracked cluster is polled once, and no other is polled.
pub run-polled :
    (is_usable : Bytes → Bool) (cs : Map Tracked) (ops : List Op) (id : String) (g : ℕ)
    → Distinct cs
    → (is_some (lookup id (run is_usable ops (start (new_manager cs))).cancels)
        ≡ is_some (lookup id (run is_usable ops (start (new_manager cs))).collectors))
      × (((run is_usable ops (start (new_manager cs))).running g ≡ some id)
          ↔ (lookup id (run is_usable ops (start (new_manager cs))).cancels ≡ some g))
run-polled is_usable cs ops id g d =
    let s = run-IsSound is_usable ops (start (new_manager cs)) (start-IsSound cs d) in
    (s.tracked id, (s.polled.owned id g, s.polled.held id g))
