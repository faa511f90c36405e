-- ===== src/Manager.antt =====
-- internal/collector/collector.go: the manager of the collectors, one for each cluster by its id. A context
-- is a number, and `running` says which cluster's goroutines live under it; a cancelled context has none.
-- `AppendCertsFromPEM` is a parameter. A method that locks the mutex is one step.
pub mod Polling
pub mod Started
pub mod Connections
pub mod Tests
use machmqtt_dashboard.Prelude.{
  ℕ, ◌+◌, ◌==◌, ◌&&◌, ◌||◌, not, if◌then◌else◌, String, List, [], ◌∷◌, Bool, true, false, Option,
  none, some, Map, lookup, insert, delete, Bytes, bytes_eq,
}
use machmqtt_dashboard.Environments.{Environment, Server, TlsConfig, NatsConnConfig, is_empty}

-- `serversSame`
unfoldable pub servers_same : List Server → List Server → Bool
servers_same [] [] = true
servers_same [] (b ∷ bs) = false
servers_same (a ∷ rest) [] = false
servers_same (a ∷ rest) (b ∷ bs) = bytes_eq a.url b.url && servers_same rest bs

abbrev pub bool_eq : Bool → Bool → Bool
bool_eq true b = b
bool_eq false b = not b

-- `tlsSame`
unfoldable pub tls_same : Option TlsConfig → Option TlsConfig → Bool
tls_same none none = true
tls_same none (some b) = false
tls_same (some a) none = false
tls_same (some a) (some b) =
    bytes_eq a.ca_file b.ca_file && (bytes_eq a.ca_pem b.ca_pem && bool_eq a.insecure b.insecure)

abbrev pub urls_same : List Bytes → List Bytes → Bool
urls_same [] [] = true
urls_same [] (b ∷ bs) = false
urls_same (a ∷ rest) [] = false
urls_same (a ∷ rest) (b ∷ bs) = bytes_eq a b && urls_same rest bs

-- `natsConnSame`
unfoldable pub nats_conn_same : Option NatsConnConfig → Option NatsConnConfig → Bool
nats_conn_same none none = true
nats_conn_same none (some b) = false
nats_conn_same (some a) none = false
nats_conn_same (some a) (some b) =
    urls_same a.urls b.urls
    && (bytes_eq a.username b.username
        && (bytes_eq a.password b.password
            && (bytes_eq a.token b.token
                && (bytes_eq a.nkey b.nkey
                    && (bytes_eq a.creds_file b.creds_file
                        && (bytes_eq a.subject_prefix b.subject_prefix
                            && bool_eq a.sys_collection b.sys_collection))))))

-- A `Collector`, as the manager sees it: its settings, those its fetcher was built with, and those its
-- subscriber was started with.
pub record Tracked : Type 0 where
  pub env : Environment
  pub fetcher_tls : Option TlsConfig
  pub subscriber : Option NatsConnConfig
  pub sys : Bool

pub record Manager : Type 0 where
  pub collectors : Map Tracked
  pub cancels : Map ℕ
  pub running : ℕ → Option String
  pub next : ℕ
  pub started : Bool

-- `CertPool` and `NewFetcher`: whether there is no error.
abbrev pub new_fetcher : (Bytes → Bool) → Option TlsConfig → Bool
new_fetcher is_usable none = true
new_fetcher is_usable (some t) =
    if is_empty t.ca_pem then is_empty t.ca_file else is_usable t.ca_pem

abbrev pub new_collector : Environment → Tracked
new_collector env = record { env = env; fetcher_tls = env.tls; subscriber = none; sys = false }

-- `startCollector`, without its goroutines.
abbrev pub wants_sys : Option NatsConnConfig → Bool
wants_sys none = false
wants_sys (some n) = n.sys_collection

abbrev pub start_collector : Environment → Tracked → Tracked
start_collector env c = record c { subscriber = env.nats_conn; sys = wants_sys env.nats_conn }

-- A new context for a cluster, with the goroutines of its collector.
unfoldable pub launch : String → Tracked → Manager → Manager
launch id c m = record m {
  collectors = insert id (start_collector c.env c) m.collectors;
  cancels = insert id m.next m.cancels;
  running = λ g. if g == m.next then some id else m.running g;
  next = m.next + 1;
}

-- `cancel` of the cluster's context, with its entry.
unfoldable pub cancel : String → Option ℕ → Manager → Manager
cancel id none m = m
cancel id (some g) m = record m {
  cancels = delete id m.cancels;
  running = λ h. if h == g then none else m.running h;
}

-- `RemoveCluster`
unfoldable pub remove_cluster : String → Manager → Manager
unfolding cancel
remove_cluster id m =
    let stopped = cancel id (lookup id m.cancels) m in
    record stopped { collectors = delete id stopped.collectors }

unfoldable pub track : String → Environment → Manager → Manager
unfolding launch
track id env m =
    if m.started
    then launch id (new_collector env) m
    else record m { collectors = insert id (new_collector env) m.collectors }

-- `addClusterLocked`; `false` is an error.
unfoldable pub add_untracked :
    (Bytes → Bool) → String → Environment → Manager → Option Tracked → Manager × Bool
unfolding track
add_untracked is_usable id env m (some c) = (m, true)
add_untracked is_usable id env m none =
    if new_fetcher is_usable env.tls then (track id env m, true) else (m, false)

unfoldable pub add_cluster : (Bytes → Bool) → String → Environment → Manager → Manager × Bool
unfolding add_untracked lookup
add_cluster is_usable id env m = add_untracked is_usable id env m (lookup id m.collectors)

abbrev pub is_name_only : Environment → Environment → Bool
is_name_only a b =
    servers_same a.servers b.servers
    && (tls_same a.tls b.tls && nats_conn_same a.nats_conn b.nats_conn)

-- `UpdateCluster`
unfoldable pub update_tracked :
    (Bytes → Bool) → String → Environment → Manager → Option Tracked → Manager × Bool
unfolding add_cluster remove_cluster
update_tracked is_usable id env m none = add_cluster is_usable id env m
update_tracked is_usable id env m (some c) =
    if is_name_only c.env env
    then (record m { collectors = insert id (record c { env = env }) m.collectors }, true)
    else add_cluster is_usable id env (remove_cluster id m)

unfoldable pub update_cluster : (Bytes → Bool) → String → Environment → Manager → Manager × Bool
unfolding update_tracked lookup
update_cluster is_usable id env m = update_tracked is_usable id env m (lookup id m.collectors)

-- `NewManager`: the first cluster whose fetcher cannot be built is an error.
unfoldable pub load :
    (Bytes → Bool) → List (String × Environment) → Map Tracked → Option (Map Tracked)
load is_usable [] cs = some cs
load is_usable ((id, env) ∷ rest) cs =
    let others = load is_usable rest (insert id (new_collector env) cs) in
    if new_fetcher is_usable env.tls then others else none

abbrev pub new_manager : Map Tracked → Manager
new_manager cs = record {
  collectors = cs;
  cancels = [];
  running = λ g. none;
  next = 0;
  started = false;
}

-- `Start`, over the collectors in one of their orders.
unfoldable pub start_all : Map Tracked → Manager → Manager
unfolding launch
start_all [] m = m
start_all ((id, c) ∷ rest) m = start_all rest (launch id c m)

abbrev pub start : Manager → Manager
start m = start_all m.collectors (record m { started = true })
