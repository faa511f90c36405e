-- ===== src/Manager/Connections.antt =====
-- internal/collector/collector.go: the settings that the collectors connect with.
use machmqtt_dashboard.Prelude.{
  ℕ, List, [], ◌∷◌, ◌≡◌, refl, sym, ◌∙◌, ap, inl, inr, String, Bool, true, false, Option, none,
  some, lookup, lookup-insert_self, lookup-delete, eq_refl, Bytes, bytes_eq_iff, arith, Bool-cases,
}
use machmqtt_dashboard.Environments.{Environment, TlsConfig, NatsConnConfig}
use machmqtt_dashboard.Manager.{
  Manager, Tracked, launch, cancel, remove_cluster, track, add_untracked, add_cluster,
  update_tracked, update_cluster, new_collector, new_fetcher, start_collector, is_name_only,
  tls_same, bool_eq, urls_same, nats_conn_same, wants_sys,
}

bool_eq-eq : (a b : Bool) → bool_eq a b ≡ true → a ≡ b
bool_eq-eq true b h = sym h
bool_eq-eq false true h = ground arith
bool_eq-eq false false h = refl

tls_same-eq : (a b : Option TlsConfig) → tls_same a b ≡ true → a ≡ b
unfolding tls_same
tls_same-eq none none h = refl
tls_same-eq none (some b) h = ground arith
tls_same-eq (some a) none h = ground arith
tls_same-eq (some a) (some b) h = ground (
  arith,
  bytes_eq_iff a.ca_file b.ca_file,
  bytes_eq_iff a.ca_pem b.ca_pem,
  bool_eq-eq a.insecure b.insecure,
)

urls_same-eq : (a b : List Bytes) → urls_same a b ≡ true → a ≡ b
urls_same-eq [] [] h = refl
urls_same-eq [] (b ∷ bs) h = ground arith
urls_same-eq (a ∷ rest) [] h = ground arith
urls_same-eq (a ∷ rest) (b ∷ bs) h = ground (arith, bytes_eq_iff a b, urls_same-eq rest bs)

-- The settings of a NATS connection besides its TLS block.
abbrev pub without_tls : Option NatsConnConfig → Option NatsConnConfig
without_tls none = none
without_tls (some n) = some (record n { tls = none })

nats_conn_same-eq :
    (a b : Option NatsConnConfig) → nats_conn_same a b ≡ true → without_tls a ≡ without_tls b
unfolding nats_conn_same
nats_conn_same-eq none none h = refl
nats_conn_same-eq none (some b) h = ground arith
nats_conn_same-eq (some a) none h = ground arith
nats_conn_same-eq (some a) (some b) h = ground (
  arith,
  urls_same-eq a.urls b.urls,
  bytes_eq_iff a.username b.username,
  bytes_eq_iff a.password b.password,
  bytes_eq_iff a.token b.token,
  bytes_eq_iff a.nkey b.nkey,
  bytes_eq_iff a.creds_file b.creds_file,
  bytes_eq_iff a.subject_prefix b.subject_prefix,
  bool_eq-eq a.sys_collection b.sys_collection,
)

-- Whether $SYS is collected depends on the settings besides the TLS block.
abbrev pub is_sys : Option NatsConnConfig → Bool
is_sys none = false
is_sys (some n) = n.sys_collection

is_sys-without_tls : (n : Option NatsConnConfig) → is_sys (without_tls n) ≡ is_sys n
is_sys-without_tls none = refl
is_sys-without_tls (some n) = refl

-- A collector connects as its settings say: its fetcher with their TLS block, its subscriber with their NATS
-- connection, but for the TLS block of that, and from $SYS if they say so. Before the start nothing
-- is subscribed to.
abbrev pub IsServed : Bool → Tracked → Type 0
IsServed false c = (c.subscriber ≡ none) × (c.sys ≡ false)
IsServed true c =
    (without_tls c.subscriber ≡ without_tls c.env.nats_conn) × (c.sys ≡ is_sys c.env.nats_conn)

abbrev pub IsCurrent : Bool → Option Tracked → Type 0
IsCurrent started none = Unit
IsCurrent started (some c) = (c.fetcher_tls ≡ c.env.tls) × IsServed started c

-- The cluster is tracked with the settings, and connects as they say.
abbrev pub IsInEffect : Bool → Environment → Option Tracked → Type 0
IsInEffect started env o = (c : Tracked) × (o ≡ some c) × (c.env ≡ env) × IsCurrent started (some c)

started_sys : (n : Option NatsConnConfig) → wants_sys n ≡ is_sys n
started_sys none = refl
started_sys (some n) = refl

IsInEffect-moved :
    (env : Environment) (was now : Bool) (o : Option Tracked)
    → was ≡ now
    → IsInEffect was env o
    → IsInEffect now env o
IsInEffect-moved env was now o e h = rw e at h

track-IsInEffect :
    (id : String) (env : Environment) (m : Manager)
    → IsInEffect m.started env (lookup id (track id env m).collectors)
unfolding track launch
track-IsInEffect id env m = elim (Bool-cases m.started) [
  | inl e ↦ rw e (
    start_collector env (new_collector env),
    lookup-insert_self id (start_collector env (new_collector env)) m.collectors,
    refl,
    (refl, (refl, started_sys env.nats_conn)),
  )
  | inr e ↦ rw e (
    new_collector env,
    lookup-insert_self id (new_collector env) m.collectors,
    refl,
    (refl, (refl, refl)),
  )
]

add_untracked-IsInEffect :
    (is_usable : Bytes → Bool) (id : String) (env : Environment) (m : Manager) (o : Option Tracked)
    → o ≡ none
    → (add_untracked is_usable id env m o).1 ≡ true
    → IsInEffect m.started env (lookup id (add_untracked is_usable id env m o).0.collectors)
unfolding add_untracked
add_untracked-IsInEffect is_usable id env m (some c) e h = absurd (ground (arith, e))
add_untracked-IsInEffect is_usable id env m none e h =
    elim (Bool-cases (new_fetcher is_usable env.tls)) [
      | inl f ↦ rw f (track-IsInEffect id env m)
      | inr f ↦ absurd (ground (arith, rw f at h))
    ]

remove_cluster-lookup :
    (id : String) (m : Manager) → lookup id (remove_cluster id m).collectors ≡ none
unfolding remove_cluster
remove_cluster-lookup id m =
    ground (arith, lookup-delete id id (cancel id (lookup id m.cancels) m).collectors, eq_refl id)

cancel-started : (id : String) (o : Option ℕ) (m : Manager) → (cancel id o m).started ≡ m.started
unfolding cancel
cancel-started id none m = refl
cancel-started id (some g) m = refl

remove_cluster-started : (id : String) (m : Manager) → (remove_cluster id m).started ≡ m.started
unfolding remove_cluster
remove_cluster-started id m = cancel-started id (lookup id m.cancels) m

-- A collector that is kept connects as before, and its new settings ask for the same.
IsServed-kept :
    (started : Bool) (c : Tracked) (env : Environment)
    → nats_conn_same c.env.nats_conn env.nats_conn ≡ true
    → IsServed started c
    → IsServed started (record c { env = env })
IsServed-kept false c env h s = s
IsServed-kept true c env h s =
    let same = nats_conn_same-eq c.env.nats_conn env.nats_conn h in
    (
      s.0 ∙ same,
      s.1
          ∙ sym (is_sys-without_tls c.env.nats_conn)
          ∙ ap is_sys same
          ∙ is_sys-without_tls env.nats_conn,
    )

update_tracked-IsInEffect :
    (is_usable : Bytes → Bool) (id : String) (env : Environment) (m : Manager) (o : Option Tracked)
    → lookup id m.collectors ≡ o
    → IsCurrent m.started o
    → (update_tracked is_usable id env m o).1 ≡ true
    → IsInEffect m.started env (lookup id (update_tracked is_usable id env m o).0.collectors)
unfolding update_tracked add_cluster
update_tracked-IsInEffect is_usable id env m none e k h =
    add_untracked-IsInEffect is_usable id env m (lookup id m.collectors) e h
update_tracked-IsInEffect is_usable id env m (some c) e k h =
    elim (Bool-cases (is_name_only c.env env)) [
      | inl f ↦ rw f (
        record c { env = env },
        lookup-insert_self id (record c { env = env }) m.collectors,
        refl,
        (
          k.0 ∙ tls_same-eq c.env.tls env.tls (ground (arith, f)),
          IsServed-kept m.started c env (ground (arith, f)) k.1,
        ),
      )
      | inr f ↦
          let removed = remove_cluster id m in
          rw f (
            IsInEffect-moved env removed.started m.started
              (lookup id
                (add_untracked is_usable id env removed
                  (lookup id removed.collectors)).0.collectors)
              (remove_cluster-started id m)
              (add_untracked-IsInEffect is_usable id env removed (lookup id removed.collectors)
                (remove_cluster-lookup id m) (rw f at h)))
    ]

-- An update that gives no error is in effect at once, but for the TLS block of the NATS connection: whether
-- the collector is kept, rebuilt or new, the cluster is tracked with the new settings, its fetcher is one
-- that was built with their TLS block, and once the manager has started, its subscriber is one that was
-- started with their NATS connection, except that the TLS block of that may be an older one, and $SYS is
-- collected as they say; when that was so of the old settings.
pub update_cluster-IsInEffect :
    (is_usable : Bytes → Bool) (id : String) (env : Environment) (m : Manager)
    → IsCurrent m.started (lookup id m.collectors)
    → (update_cluster is_usable id env m).1 ≡ true
    → IsInEffect m.started env (lookup id (update_cluster is_usable id env m).0.collectors)
unfolding update_cluster
update_cluster-IsInEffect is_usable id env m k h =
    update_tracked-IsInEffect is_usable id env m (lookup id m.collectors) refl k h
