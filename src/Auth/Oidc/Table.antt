-- ===== src/Auth/Oidc/Table.antt =====
-- internal/auth/oidc.go: the table of flows stays within its bound, and a flow is used once.
use machmqtt_dashboard.Prelude.{
  ℕ, ◌≤◌, ◌<◌, ◌≡◌, refl, ◌∙◌, ◌⊎◌, inl, inr, [], ◌∷◌, String, Bool, true, false, ◌||◌, not, some,
  none, Map, lookup, delete, length, length-filter-le, length-insert-le, length-delete, Distinct,
  insert-Distinct, delete-Distinct, filter-Distinct, lookup-delete, lookup-insert,
  lookup-filter-none, eq_refl, str_eq, eq_iff, ltb, leb, if◌then◌else◌, arith, Bool-cases,
}
use machmqtt_dashboard.Auth.Oidc.{
  Flow, Flows, sweep, oldest, evict_oldest, store_flow, consume_flow, is_expired_flow,
  oidc_max_flows, sweep_due,
}

pub record IsValid (p : Flows) : Type 0 where
  pub distinct : Distinct p.flows
  pub bounded : length p.flows ≤ oidc_max_flows

-- The loop ends with a key of the table, or with the one that it started from.
oldest-present :
    (key : String) (at : ℕ) (m : Map Flow)
    → (oldest key at m ≡ key) ⊎ ((f : Flow) × (lookup (oldest key at m) m ≡ some f))
unfolding oldest lookup
oldest-present key at [] = inl refl
oldest-present key at ((k, f) ∷ rest) = elim (Bool-cases (str_eq key "" || ltb f.created at)) [
  | inl older ↦ elim (oldest-present k f.created rest) [
    | inl e ↦ inr (f, ground (arith, older, e, eq_iff k (oldest k f.created rest)))
    | inr (g, e) ↦ elim (Bool-cases (str_eq k (oldest k f.created rest))) [
      | inl same ↦ inr (f, ground (arith, older, same))
      | inr apart ↦ inr (g, ground (arith, older, apart, e))
    ]
  ]
  | inr newer ↦ elim (oldest-present key at rest) [
    | inl e ↦ inl (ground (arith, newer, e))
    | inr (g, e) ↦ elim (Bool-cases (str_eq k (oldest key at rest))) [
      | inl same ↦ inr (f, ground (arith, newer, same))
      | inr apart ↦ inr (g, ground (arith, newer, apart, e))
    ]
  ]
]

sweep-IsValid : (p : Flows) (now : ℕ) → IsValid p → IsValid (sweep p now)
unfolding sweep
sweep-IsValid p now v = record {
  distinct = filter-Distinct (λ e. not (is_expired_flow now e.1)) p.flows v.distinct;
  bounded =
      omega (arith, v.bounded, length-filter-le {0} (λ e. not (is_expired_flow now e.1)) p.flows);
}

oldest-found :
    (k : String) (f : Flow) (rest : Map Flow)
    → (g : Flow) × (lookup (oldest "" 0 ((k, f) ∷ rest)) ((k, f) ∷ rest) ≡ some g)
unfolding oldest lookup
oldest-found k f rest = elim (oldest-present k f.created rest) [
  | inl e ↦ (f, ground (arith, e, eq_iff k (oldest k f.created rest)))
  | inr (g, e) ↦ elim (Bool-cases (str_eq k (oldest k f.created rest))) [
    | inl same ↦ (f, ground (arith, same))
    | inr apart ↦ (g, ground (arith, apart, e))
  ]
]

-- The oldest flow of a table is there, so its deletion makes room.
length-delete-oldest :
    (m : Map Flow)
    → Distinct m
    → length m ≤ oidc_max_flows
    → 0 < length m
    → length (delete (oldest "" 0 m) m) < oidc_max_flows
length-delete-oldest [] d le h = absurd (omega arith)
length-delete-oldest ((k, f) ∷ rest) d le h =
    let found = oldest-found k f rest in
    omega (arith, length-delete {0} (oldest "" 0 ((k, f) ∷ rest)) found.0 ((k, f) ∷ rest) d found.1)

-- The table after `store_flow` has made room.
record HasRoom (p : Flows) : Type 0 where
  distinct : Distinct p.flows
  room : length p.flows < oidc_max_flows

evict_oldest-HasRoom :
    (p : Flows) → IsValid p → leb oidc_max_flows (length p.flows) ≡ true → HasRoom (evict_oldest p)
unfolding evict_oldest
evict_oldest-HasRoom p v full = record {
  distinct = delete-Distinct (oldest "" 0 p.flows) p.flows v.distinct;
  room = length-delete-oldest p.flows v.distinct v.bounded (ground (arith, full));
}

evict_if_full-HasRoom :
    (p : Flows)
    → IsValid p
    → HasRoom (if leb oidc_max_flows (length p.flows) then evict_oldest p else p)
evict_if_full-HasRoom p v = elim (Bool-cases (leb oidc_max_flows (length p.flows))) [
  | inl full ↦ rw full (evict_oldest-HasRoom p v full)
  | inr free ↦ rw free (record { distinct = v.distinct; room = ground (arith, free) })
]

sweep_if-IsValid :
    (b : Bool) (p : Flows) (now : ℕ) → IsValid p → IsValid (if b then sweep p now else p)
sweep_if-IsValid true p now v = sweep-IsValid p now v
sweep_if-IsValid false p now v = v

-- A table of at most 10000 flows, one for each state, is one after the next flow is stored, however
-- full it was, and that flow is in it.
pub store_flow-IsValid :
    (p : Flows) (now : ℕ) (state : String) (flow : Flow)
    → IsValid p
    → IsValid (store_flow p now state flow)
      × (lookup state (store_flow p now state flow).flows ≡ some flow)
unfolding store_flow
store_flow-IsValid p now state flow v =
    let due = sweep_due p.last_sweep now || leb oidc_max_flows (length p.flows) in
    let swept = if due then sweep p now else p in
    let room = if leb oidc_max_flows (length swept.flows) then evict_oldest swept else swept in
    let h : HasRoom room = evict_if_full-HasRoom swept (sweep_if-IsValid due p now v) in
    (
      record {
        distinct = insert-Distinct state flow room.flows h.distinct;
        bounded = omega (arith, h.room, length-insert-le {0} state flow room.flows);
      },
      lookup-insert state state flow room.flows ∙ ground (arith, eq_refl state),
    )

lookup-sweep_if :
    (b : Bool) (p : Flows) (now : ℕ) (asked : String)
    → lookup asked p.flows ≡ none
    → lookup asked (if b then sweep p now else p).flows ≡ none
unfolding sweep
lookup-sweep_if true p now asked h =
    lookup-filter-none (λ e. not (is_expired_flow now e.1)) asked p.flows h
lookup-sweep_if false p now asked h = h

lookup-evict_if :
    (b : Bool) (p : Flows) (asked : String)
    → lookup asked p.flows ≡ none
    → lookup asked (if b then evict_oldest p else p).flows ≡ none
unfolding evict_oldest
lookup-evict_if true p asked h =
    lookup-delete (oldest "" 0 p.flows) asked p.flows ∙ ground (arith, h)
lookup-evict_if false p asked h = h

-- Storing a flow never brings another state back.
pub lookup-store_flow :
    (p : Flows) (now : ℕ) (state asked : String) (flow : Flow)
    → lookup asked p.flows ≡ none
    → str_eq state asked ≡ false
    → lookup asked (store_flow p now state flow).flows ≡ none
unfolding store_flow
lookup-store_flow p now state asked flow absent apart =
    let due = sweep_due p.last_sweep now || leb oidc_max_flows (length p.flows) in
    let swept = if due then sweep p now else p in
    let room = if leb oidc_max_flows (length swept.flows) then evict_oldest swept else swept in
    let after_sweep : lookup asked swept.flows ≡ none = lookup-sweep_if due p now asked absent in
    let after : lookup asked room.flows ≡ none =
      lookup-evict_if (leb oidc_max_flows (length swept.flows)) swept asked after_sweep in
    lookup-insert state asked flow room.flows ∙ ground (arith, apart, after)

-- A state that has been consumed is not in the table any more.
pub consume_flow-once :
    (p : Flows) (now : ℕ) (state : String) → lookup state (consume_flow p now state).0.flows ≡ none
unfolding consume_flow
consume_flow-once p now state = lookup-delete state state p.flows ∙ ground (arith, eq_refl state)
