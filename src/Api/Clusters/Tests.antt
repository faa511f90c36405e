-- ===== src/Api/Clusters/Tests.antt =====
-- Instances of the theorems on internal/api/handlers_clusters.go.
use machmqtt_dashboard.Prelude.{
  ◌≡◌, refl, inl, inr, [], ◌∷◌, ◌++◌, true, false, Option, none, some, Bytes, codes, cut,
}
use machmqtt_dashboard.Urls.{Url, UrlLibrary}
use machmqtt_dashboard.Store.Clusters.{Cluster}
use machmqtt_dashboard.Store.Clusters.Tests.{machine, draw, empty}
use machmqtt_dashboard.Api.Clusters.{to_cluster_view}
use machmqtt_dashboard.Api.Clusters.Secrecy.{to_cluster_view-alike}
use machmqtt_dashboard.Api.Clusters.Paths.{PathsKept, edited-PathsKept}
use machmqtt_dashboard.Api.Clusters.Edit.{SameCreds, Canonical, request_of, edited-request_of}
use machmqtt_dashboard.Api.Clusters.Atomic.{Atomic, handle_create_cluster-Atomic}
use machmqtt_dashboard.Api.Clusters.Handlers.{ApiState, Services, edited, handle_create_cluster}
use machmqtt_dashboard.Manager.{new_manager}

-- A URL is a host, with a userinfo before an `@`.
abbrev url_of : Option Bytes → Bytes → Url
url_of user host = record {
  scheme = [];
  user = user;
  host = host;
  path = [];
  raw_query = [];
  fragment = [];
  rest = [];
}

abbrev parsed : Bytes → Option (Bytes × Bytes) → Option Url
parsed raw none = some (url_of none raw)
parsed raw (some (user, host)) = some (url_of (some user) host)

abbrev printed : Bytes → Option Bytes → Bytes
printed host none = host
printed host (some user) = user ++ b'@' ∷ host

abbrev net : UrlLibrary
unfolding cut
net = record { parse = λ raw. parsed raw (cut b'@' raw); print = λ u. printed u.host u.user }

abbrev with_secrets : Bytes → Bytes → Cluster
with_secrets token url = record {
  id = "c1";
  name = codes "shop";
  servers = record { url = url } ∷ [];
  mqtt_bridges = record { name = codes "b"; url = codes "b:80"; bearer_token = token } ∷ [];
  mqtt_discovery = none;
  tls = some (record { ca_file = codes "/ca.pem"; ca_pem = codes "PEM"; insecure = false });
  admin_token = token;
  nats_conn = none;
  created_at = some 5;
}

abbrev secret : Cluster
secret = with_secrets (codes "t1") (codes "me:pw@n1")

abbrev other : Cluster
other = with_secrets (codes "t2") (codes "you:xy@n1")

to_cluster_view-alike_example : to_cluster_view net secret ≡ to_cluster_view net other
unfolding net
to_cluster_view-alike_example = to_cluster_view-alike net secret other (record {
  id = refl;
  name = refl;
  servers = (
    inr (record {
      url = url_of none (codes "n1");
      creds_a = codes "me:pw";
      creds_b = codes "you:xy";
      a_parses = refl;
      b_parses = refl;
    }),
    tt,
  );
  mqtt_bridges = ((refl, inl refl, refl), tt);
  mqtt_discovery = refl;
  tls = refl;
  admin_token = refl;
  nats_conn = tt;
  created_at = refl;
})

same_creds : (raw : Bytes) → SameCreds net raw raw
same_creds raw u v e f h = cc

me-Canonical : Canonical net (codes "me:pw@n1")
unfolding net cut
me-Canonical u e =
    let same : url_of (some (codes "me:pw")) (codes "n1") ≡ u = cc in rw (← same) (refl, refl)

bridge-Canonical : Canonical net (codes "b:80")
unfolding net cut
bridge-Canonical u e = let same : url_of none (codes "b:80") ≡ u = cc in rw (← same) (refl, refl)

edited-request_of_example :
    edited net "c1" (some secret) (request_of (to_cluster_view net secret))
    ≡ some (record secret { created_at = none })
edited-request_of_example =
    edited-request_of net secret
      (record { canonical = (me-Canonical, tt); same_creds = ((same_creds _, tt), tt) })
      (record { canonical = (bridge-Canonical, tt); same_creds = ((same_creds _, tt), tt) })
      (tt, tt) (record { canonical = tt; same_creds = tt })

edited-PathsKept_example : PathsKept (some secret) secret.tls none
edited-PathsKept_example =
    edited-PathsKept net "c1" (some secret) (request_of (to_cluster_view net secret))
      (record secret { created_at = none }) edited-request_of_example

abbrev services : Services
services = record { net = net; store = machine; is_usable = λ pem. true }

abbrev fresh : ApiState
fresh = record { db = empty; manager = new_manager [] }

handle_create_cluster-Atomic_example :
    Atomic fresh (
      handle_create_cluster services
        (draw 0)
        (some (request_of (to_cluster_view net secret)))
        fresh)
handle_create_cluster-Atomic_example =
    handle_create_cluster-Atomic services (draw 0) (some (request_of (to_cluster_view net secret)))
      fresh
