-- ===== src/Manager/Polling.antt =====
-- internal/collector/collector.go: every tracked cluster is polled, and by one collector.
use machmqtt_dashboard.Prelude.{
  ℕ, ◌≤◌, ==_iff, ◌≡◌, refl, ◌∙◌, ap, inl, inr, if◌then◌else◌, String, str_eq, eq_iff, Bool, true,
  false, Option, none, some, lookup, insert, lookup-insert, lookup-delete, is_some, Bytes, arith,
  Bool-cases, Option-cases,
}
use machmqtt_dashboard.Environments.{Environment}
use machmqtt_dashboard.Manager.{
  Manager, Tracked, launch, cancel, remove_cluster, track, add_untracked, add_cluster,
  update_tracked, update_cluster, new_collector, new_fetcher, start_collector, is_name_only,
}

-- The contexts that live are those of the table, each for its own cluster.
pub record IsPolled (m : Manager) : Type 0 where
  pub held : (id : String) (g : ℕ) → lookup id m.cancels ≡ some g → m.running g ≡ some id
  pub owned : (id : String) (g : ℕ) → m.running g ≡ some id → lookup id m.cancels ≡ some g
  pub fresh : (g : ℕ) → m.next ≤ g → m.running g ≡ none

-- After `Start`, a cluster has a context exactly when it has a collector.
pub record IsSound (m : Manager) : Type 0 where
  pub started : m.started ≡ true
  pub polled : IsPolled m
  pub tracked : (id : String) → is_some (lookup id m.cancels) ≡ is_some (lookup id m.collectors)

pub launch-IsPolled :
    (id : String) (c : Tracked) (m : Manager)
    → lookup id m.cancels ≡ none
    → IsPolled m
    → IsPolled (launch id c m)
unfolding launch
launch-IsPolled id c m h p = record {
  held = λ i g e. ground (
    arith,
    lookup-insert id i m.next m.cancels,
    eq_iff id i,
    p.held i g,
    p.fresh g,
    ==_iff g m.next,
  );
  owned = λ i g e.
      ground
        (arith, lookup-insert id i m.next m.cancels, eq_iff id i, p.owned i g, ==_iff g m.next);
  fresh = λ g e. ground (arith, p.fresh g, ==_iff g m.next);
}

cancelled-IsPolled :
    (id : String) (g : ℕ) (m : Manager)
    → lookup id m.cancels ≡ some g
    → IsPolled m
    → IsPolled (cancel id (some g) m)
unfolding cancel
cancelled-IsPolled id g m e p = record {
  held = λ i h k.
      ground
        (arith, lookup-delete id i m.cancels, eq_iff id i, p.held i h, p.held id g e, ==_iff h g);
  owned = λ i h k.
      ground (arith, lookup-delete id i m.cancels, eq_iff id i, p.owned i h, e, ==_iff h g);
  fresh = λ h k. ground (arith, p.fresh h, ==_iff h g);
}

cancel-IsPolled :
    (id : String) (m : Manager) → IsPolled m → IsPolled (cancel id (lookup id m.cancels) m)
unfolding cancel
cancel-IsPolled id m p = elim (Option-cases (lookup id m.cancels)) [
  | inl e ↦ rw e p
  | inr (g, e) ↦ rw e (cancelled-IsPolled id g m e p)
]

cancels-cancel :
    (id i : String) (m : Manager)
    → lookup i (cancel id (lookup id m.cancels) m).cancels
      ≡ (if str_eq id i then none else lookup i m.cancels)
unfolding cancel
cancels-cancel id i m = elim (Option-cases (lookup id m.cancels)) [
  | inl e ↦ rw e (ground (arith, e, eq_iff id i))
  | inr (g, e) ↦ rw e (lookup-delete id i m.cancels)
]

pub collectors-cancel :
    (id : String) (o : Option ℕ) (m : Manager)
    → ((cancel id o m).collectors ≡ m.collectors) × ((cancel id o m).started ≡ m.started)
unfolding cancel
collectors-cancel id none m = (refl, refl)
collectors-cancel id (some g) m = (refl, refl)

pub remove_cluster-IsSound :
    (id : String) (m : Manager)
    → IsSound m
    → IsSound (remove_cluster id m)
      × ((i : String)
          → lookup i (remove_cluster id m).collectors
            ≡ (if str_eq id i then none else lookup i m.collectors))
unfolding remove_cluster
remove_cluster-IsSound id m s =
    let stopped = cancel id (lookup id m.cancels) m in
    let q = cancel-IsPolled id m s.polled in
    let kept = collectors-cancel id (lookup id m.cancels) m in
    (
      record {
        started = kept.1 ∙ s.started;
        polled = record { held = q.held; owned = q.owned; fresh = q.fresh };
        tracked = λ i. ground (
          arith,
          cancels-cancel id i m,
          lookup-delete id i stopped.collectors,
          kept.0,
          s.tracked i,
        );
      },
      λ i.
          lookup-delete id i stopped.collectors
          ∙ ap (λ cs. if str_eq id i then none else lookup i cs) kept.0,
    )

launched-tracked :
    (id i : String) (c : Tracked) (m : Manager)
    → is_some (lookup i m.cancels) ≡ is_some (lookup i m.collectors)
    → is_some (lookup i (launch id c m).cancels) ≡ is_some (lookup i (launch id c m).collectors)
unfolding launch
launched-tracked id i c m h = ground (
  arith,
  lookup-insert id i m.next m.cancels,
  lookup-insert id i (start_collector c.env c) m.collectors,
  h,
)

launch-IsSound :
    (id : String) (c : Tracked) (m : Manager)
    → lookup id m.collectors ≡ none
    → IsSound m
    → IsSound (launch id c m)
unfolding launch
launch-IsSound id c m h s = record {
  started = s.started;
  polled =
      launch-IsPolled id c m (ground (arith, s.tracked id, Option-cases (lookup id m.cancels), h))
        s.polled;
  tracked = λ i. launched-tracked id i c m (s.tracked i);
}

started-IsSound : (b : Bool) (x y : Manager) → b ≡ true → IsSound x → IsSound (if b then x else y)
started-IsSound true x y h s = s
started-IsSound false x y h s = absurd (ground arith)

add_untracked-IsSound :
    (is_usable : Bytes → Bool) (id : String) (env : Environment) (m : Manager) (o : Option Tracked)
    → lookup id m.collectors ≡ o
    → IsSound m
    → IsSound (add_untracked is_usable id env m o).0
unfolding add_untracked track
add_untracked-IsSound is_usable id env m (some c) e s = s
add_untracked-IsSound is_usable id env m none e s =
    elim (Bool-cases (new_fetcher is_usable env.tls)) [
      | inr f ↦ rw f s
      | inl f ↦ rw f (
          started-IsSound m.started (launch id (new_collector env) m)
            (record m { collectors = insert id (new_collector env) m.collectors }) s.started
            (launch-IsSound id (new_collector env) m e s))
    ]

pub add_cluster-IsSound :
    (is_usable : Bytes → Bool) (id : String) (env : Environment) (m : Manager)
    → IsSound m
    → IsSound (add_cluster is_usable id env m).0
unfolding add_cluster
add_cluster-IsSound is_usable id env m s =
    add_untracked-IsSound is_usable id env m (lookup id m.collectors) refl s

renamed-IsSound :
    (id : String) (c d : Tracked) (m : Manager)
    → lookup id m.collectors ≡ some c
    → IsSound m
    → IsSound (record m { collectors = insert id d m.collectors })
renamed-IsSound id c d m e s = record {
  started = s.started;
  polled = record { held = s.polled.held; owned = s.polled.owned; fresh = s.polled.fresh };
  tracked = λ i. ground (arith, lookup-insert id i d m.collectors, eq_iff id i, s.tracked i, e);
}

update_tracked-IsSound :
    (is_usable : Bytes → Bool) (id : String) (env : Environment) (m : Manager) (o : Option Tracked)
    → lookup id m.collectors ≡ o
    → IsSound m
    → IsSound (update_tracked is_usable id env m o).0
unfolding update_tracked
update_tracked-IsSound is_usable id env m none e s = add_cluster-IsSound is_usable id env m s
update_tracked-IsSound is_usable id env m (some c) e s =
    elim (Bool-cases (is_name_only c.env env)) [
      | inl f ↦ rw f (renamed-IsSound id c (record c { env = env }) m e s)
      | inr f ↦ rw f (
          add_cluster-IsSound is_usable id env (remove_cluster id m)
            (remove_cluster-IsSound id m s).0)
    ]

pub update_cluster-IsSound :
    (is_usable : Bytes → Bool) (id : String) (env : Environment) (m : Manager)
    → IsSound m
    → IsSound (update_cluster is_usable id env m).0
unfolding update_cluster
update_cluster-IsSound is_usable id env m s =
    update_tracked-IsSound is_usable id env m (lookup id m.collectors) refl s
