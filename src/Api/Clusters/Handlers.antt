-- ===== src/Api/Clusters/Handlers.antt =====
-- internal/api/handlers_clusters.go: the secrets that an edit keeps, and the four handlers.
use machmqtt_dashboard.Prelude.{
  ◌||◌, if◌then◌else◌, String, List, [], ◌∷◌, map, Bool, true, false, Option, none, some, Bytes,
  ByteMap, get, put,
}
use machmqtt_dashboard.Urls.{UrlLibrary}
use machmqtt_dashboard.Environments.{Server, MqttBridge, NatsConnConfig, is_empty}
use machmqtt_dashboard.Store.Clusters.{
  Cluster, ClusterDb, ClusterError, ClusterResult, Outside, done, failed, cluster_not_found,
  name_required, servers_required, to_environment,
}
use machmqtt_dashboard.Store.Clusters.Methods as Store
use machmqtt_dashboard.Store.Clusters.Methods.{Draw}
use machmqtt_dashboard.Store.Clusters.Listing.{list_clusters}
use machmqtt_dashboard.Manager
use machmqtt_dashboard.Manager.{new_fetcher}
use machmqtt_dashboard.Api.Clusters.{
  ClusterRequest, ClusterView, keep_if_blank, restore_url_creds, sanitize_host_paths,
  to_cluster_view,
}

-- `prevTokens`: of two bridges with one name the last.
unfoldable pub prev_tokens : List MqttBridge → ByteMap Bytes → ByteMap Bytes
prev_tokens [] tokens = tokens
prev_tokens (b ∷ bs) tokens =
    prev_tokens bs (if is_empty b.bearer_token then tokens else put b.name b.bearer_token tokens)

abbrev pub or_blank : Option Bytes → Bytes
or_blank none = []
or_blank (some token) = token

abbrev pub with_token : ByteMap Bytes → MqttBridge → MqttBridge
with_token tokens b = record b {
  bearer_token = keep_if_blank b.bearer_token (or_blank (get b.name tokens));
}

abbrev pub with_tokens : List MqttBridge → List MqttBridge → List MqttBridge
with_tokens bridges prev =
    if is_empty bridges || is_empty prev
    then bridges
    else map (with_token (prev_tokens prev [])) bridges

module _ (net : UrlLibrary) where
  abbrev pub merge_conn : Option NatsConnConfig → Option NatsConnConfig → Option NatsConnConfig
  merge_conn none prev = none
  merge_conn (some n) none = some n
  merge_conn (some n) (some p) = some (record n {
    urls = map (λ u. restore_url_creds net u p.urls) n.urls;
    password = keep_if_blank n.password p.password;
    token = keep_if_blank n.token p.token;
    nkey = keep_if_blank n.nkey p.nkey;
    creds_file = keep_if_blank n.creds_file p.creds_file;
  })

  abbrev pub restored_server : List Server → Server → Server
  restored_server prev s = record s {
    url = restore_url_creds net s.url (map (λ (p : Server). p.url) prev);
  }

  abbrev pub restored_bridge : List MqttBridge → MqttBridge → MqttBridge
  restored_bridge prev b = record b {
    url = restore_url_creds net b.url (map (λ (p : MqttBridge). p.url) prev);
  }

  -- `mergeClusterSecrets`
  unfoldable pub merge_cluster_secrets : Cluster → Option Cluster → Cluster
  unfolding prev_tokens restore_url_creds get put
  merge_cluster_secrets cl none = cl
  merge_cluster_secrets cl (some prev) = record cl {
    admin_token = keep_if_blank cl.admin_token prev.admin_token;
    servers = map (restored_server prev.servers) cl.servers;
    mqtt_bridges =
        with_tokens (map (restored_bridge prev.mqtt_bridges) cl.mqtt_bridges) prev.mqtt_bridges;
    nats_conn = merge_conn cl.nats_conn prev.nats_conn;
  }

  abbrev pub cluster_of : String → ClusterRequest → Cluster
  cluster_of id req = record {
    id = id;
    name = req.name;
    servers = req.servers;
    mqtt_bridges = req.mqtt_bridges;
    mqtt_discovery = req.mqtt_discovery;
    tls = req.tls;
    admin_token = req.admin_token;
    nats_conn = req.nats_conn;
    created_at = none;
  }

  abbrev pub merged : String → Option Cluster → Option ClusterRequest → Option Cluster
  merged id prev none = none
  merged id prev (some req) = some (merge_cluster_secrets (cluster_of id req) prev)

  -- What `handleUpdateCluster` makes of a request and the stored cluster, before it validates and stores it.
  unfoldable pub edited : String → Option Cluster → ClusterRequest → Option Cluster
  unfolding merge_cluster_secrets sanitize_host_paths
  edited id prev req = merged id prev (sanitize_host_paths req prev)

-- What the handlers share: the rows and the collectors.
pub record ApiState : Type 0 where
  pub db : ClusterDb
  pub manager : Manager.Manager

-- The store's surroundings, and which certificates `AppendCertsFromPEM` takes.
pub record Services : Type 0 where
  pub net : UrlLibrary
  pub store : Outside
  pub is_usable : Bytes → Bool

pub data Reply : Type 0 where
  bad_request not_found internal_error deleted : Reply
  created shown : ClusterView → Reply
  listed : List ClusterView → Reply

-- `writeClusterError`
abbrev pub cluster_error : ClusterError → Reply
cluster_error cluster_not_found = not_found
cluster_error name_required = bad_request
cluster_error servers_required = bad_request
cluster_error _ = internal_error

module _ (o : Services) where
  abbrev pub views : ClusterResult (List Cluster) → Reply
  views (failed e) = internal_error
  views (done cs) = listed (map (to_cluster_view o.net) cs)

  -- `handleListClusters`
  abbrev pub handle_list_clusters : ApiState → Reply
  handle_list_clusters s = views (list_clusters o.store s.db)

  -- The collector of a new row is added, or the row is taken back.
  abbrev pub start_created : ClusterDb → Cluster → Manager.Manager × Bool → ApiState × Reply
  start_created db c (m, true) =
      (record { db = db; manager = m }, created (to_cluster_view o.net c))
  start_created db c (m, false) =
      (record { db = (Store.delete_cluster o.store c.id db).0; manager = m }, internal_error)

  abbrev pub after_create : ApiState → ClusterDb × ClusterResult Cluster → ApiState × Reply
  after_create s (db, failed e) = (record s { db = db }, cluster_error e)
  after_create s (db, done c) =
      start_created db c (Manager.add_cluster o.is_usable c.id (to_environment c) s.manager)

  abbrev pub create_of : Draw → ApiState → Option ClusterRequest → ApiState × Reply
  create_of draw s none = (s, bad_request)
  create_of draw s (some req) =
      let c = cluster_of o.net "" req in
      if new_fetcher o.is_usable c.tls
      then after_create s (Store.create_cluster o.store draw c s.db)
      else (s, bad_request)

  -- `handleCreateCluster`
  unfoldable pub handle_create_cluster : Draw → Option ClusterRequest → ApiState → ApiState × Reply
  unfolding sanitize_host_paths
  handle_create_cluster draw none s = (s, bad_request)
  handle_create_cluster draw (some req) s = create_of draw s (sanitize_host_paths req none)

  abbrev pub stored : ClusterResult Cluster → Option Cluster
  stored (failed e) = none
  stored (done c) = some c

  -- An error of the collector's update is only logged.
  abbrev pub after_update : ApiState → ClusterDb × ClusterResult Cluster → ApiState × Reply
  after_update s (db, failed e) = (record s { db = db }, cluster_error e)
  after_update s (db, done c) = (
    record {
      db = db;
      manager = (Manager.update_cluster o.is_usable c.id (to_environment c) s.manager).0;
    },
    shown (to_cluster_view o.net c),
  )

  abbrev pub update_of : ApiState → Option Cluster → ApiState × Reply
  update_of s none = (s, bad_request)
  update_of s (some c) =
      if new_fetcher o.is_usable c.tls
      then after_update s (Store.update_cluster o.store c s.db)
      else (s, bad_request)

  -- `handleUpdateCluster`
  unfoldable pub handle_update_cluster :
      String → Option ClusterRequest → ApiState → ApiState × Reply
  unfolding edited
  handle_update_cluster id none s = (s, bad_request)
  handle_update_cluster id (some req) s =
      update_of s (edited o.net id (stored (Store.get_cluster o.store id s.db)) req)

  abbrev pub after_delete :
      Manager.Manager → ClusterDb × ClusterResult (Unit {0}) → ApiState × Reply
  after_delete m (db, failed e) = (record { db = db; manager = m }, cluster_error e)
  after_delete m (db, done _) = (record { db = db; manager = m }, deleted)

  -- `handleDeleteCluster`: the collector goes first.
  unfoldable pub handle_delete_cluster : String → ApiState → ApiState × Reply
  handle_delete_cluster id s =
      after_delete (Manager.remove_cluster id s.manager) (Store.delete_cluster o.store id s.db)
