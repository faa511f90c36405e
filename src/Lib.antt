-- ===== src/Lib.antt =====
-- The MQTT dashboard server: a Go program that polls NATS servers and MQTT bridges, keeps accounts and
-- settings in SQLite, and serves a JSON API and a live feed to browsers.
--
-- How the parts work together. `internal/auth` stands in front of every API handler: a login passes the
-- rate limiter, is checked by a password provider against the user table of `internal/store`, and is
-- answered by a signed session token; each later request goes through `Auth.Middleware`, which reads
-- the user's row again. `internal/collector` polls each cluster over $SYS or HTTP and keeps a snapshot,
-- which `internal/ws` pushes to the browsers. Beside them, `internal/logbuf` keeps the latest log records
-- for the admin page.
--
-- Which file models what.
--   Prelude: tests on numbers, lists over the native numbers, maps as association lists, texts as lists of
--     bytes, and 64-bit integers that wrap around.
--   Logbuf (internal/logbuf/logbuf.go): `Core` is the shared ring, `Handler` what slog derives from it.
--   Auth.RateLimit (internal/auth/ratelimit.go): `Limiter` is `LoginRateLimiter`; `allow`, `evict_stale`
--     and `prune` are its methods; ClientIp is `clientIP`.
--   Auth.Session (internal/auth/auth.go): `issue_token`, `validate_token`, `middleware`, `admin_only`.
--   Auth.Login (internal/auth/providers.go, handlers.go): the chain of providers and `handlePasswordLogin`.
--   Auth.Accounts (internal/auth/handlers.go): the handlers on accounts, from `HandleLogout` on.
--   Auth.Oidc (internal/auth/oidc.go): `store_flow`, `consume_flow` and `complete_login`; `group_match` is
--     of internal/auth/ldap.go.
--   Ws (internal/ws/hub.go, client.go): the hub and its clients; Ws.Pumps has the loops of a client, one
--     round per step, and the runs of a hub.
--   Collector (internal/collector/collector.go, snapshot.go): Fetch is `fetchServer`, Poll is `poll` and what
--     it calls, Rates is `computeRates`, Health is `Health` and its reasons.
--   Exposition (internal/collector/mqtt_metrics_parser.go): a line and its labels; Actions and Rules are the
--     switch of `parsePrometheusMetrics` as a table, one entry per case; Metrics is `MQTTMetrics`, with the
--     numeric fields by name; Parse reads a body; Buckets is `bucketsCumulativeToRaw`. Samples has what is
--     read of a written line, Kept and Captured the series without a field, Numbers, Families and Owners
--     the fields.
--   Environments (internal/config/config.go): `Environment` and its parts; Hosts is `DiscoveryTrustedHosts`,
--     Certificates is `ResolveCAFile`.
--   Config (internal/config/config.go): Load is `Load`, Providers checks the providers of logins, Clusters the
--     environments; Valid says what valid environments are, and Post how a chain of checks is followed.
--   Discovery (internal/collector/mqtt_discovery.go): the groups of bridge connections, and in Probing the
--     probes that `DiscoverMQTTBridges` sends.
--   Collector.Sys (internal/collector/sys_collector.go): the cache of `SYSCollector`; Ping is `fillFromPing` and
--     `poll`, Durations is `formatUptime`.
--   Manager (internal/collector/collector.go): `Manager`, its contexts and its collectors.
--   Push (internal/collector/mqtt_subscriber.go): `Subscriber` is `MQTTSubscriber`; Instances is what it shows.
--   Store.Clusters (internal/store/clusters.go): the rows and their JSON; Methods has a function per method,
--     Listing `ListClusters` and `SeedClusters`.
--   Store.Metrics (internal/store/metrics.go, internal/api/handlers_metrics.go): Writer is the goroutine of
--     `MetricsWriter` as a machine, beside the transaction of a sample and the pruning; Queries has the texts
--     of the queries with their parameters, and `parseTimeRange`.
--   Urls: what `net/url` gives of a URL, as the API and Config use it.
--   Api.Clusters (internal/api/handlers_clusters.go): `ClusterView`, the merging of secrets into an edit and
--     the keeping of host paths; Handlers has the four handlers.
--   Store.Users (internal/store/store.go): the table of users, and a function per method of `Store`.
--
-- State is passed explicitly: a method that locks a mutex is one step from a state to a state, and the
-- time of a call is its argument. Times are counted in nanoseconds. Sums on unsigned machine integers
-- are written modulo 2 ^ 64; counters of rows and attempts are SQL integers, far from their bound. Loops
-- over slices are structural recursion. The loop of `extractLabel` runs on fuel, more than the length of
-- the line, of which each round takes at least one byte.
--
-- Parameters. bcrypt, the JWT library, the OIDC library, `encoding/json`, YAML, `net/url`, floating point, the file
-- system, Go's `net` functions and the inner slog handler are records of functions; what the network brings to a
-- round of a loop is an argument of the step.
-- What a theorem needs of one is among its hypotheses. The table of users is a list in the order of ids;
-- whether SQLite answers is a flag, and an error of it in the middle of a method is not modelled.
--
-- Not modelled: routes and the handlers that only read a snapshot or call an admin interface, the
-- collector's HTTP and NATS transport, topology, SQL migrations, what SQLite answers to the queries of the
-- metrics store, LDAP searches, and the browser interface.
pub mod Prelude
pub mod Exposition
pub mod Environments
pub mod Discovery
pub mod Manager
pub mod Push
pub mod Urls
pub mod Config
pub mod Api
pub mod Logbuf
pub mod Auth
pub mod Store
pub mod Ws
pub mod Collector
