-- ===== src/Lib.antt =====
-- The platform for short links (src/): a redirect goes from a code to a URL through a local cache, a
-- Bloom filter, a Redis Cluster and PostgreSQL; links are managed per workspace; visits and audit
-- records leave through an outbox.
--
-- The parts, by file:
-- - Common and its children: shared names, Boolean tests, lists over the native numbers, calls that
--   change a state and may throw (Common/Effects), and what holds after one (Common/Ensures).
-- - Snowflake (src/common/id/snowflake.ts): `next_id` is nextId. The clock is the list of its readings,
--   so the busy wait ends with the list (`waiting`); identifiers are BigInt and do not overflow.
-- - Base62 (src/common/utils/base62.ts): encodeBase62 and decodeBase62 on lists of code points. The
--   loop of the encoder runs on fuel, the number itself, enough since every round divides it by 62.
-- - Circuit (src/cache/cache-circuit-breaker.service.ts): the breaker as a record, `acquire`,
--   `record_success` and `record_failure`, and histories of them (`run`).
-- - HotCache (src/cache/hot-cache.service.ts): the map of one process as an association list, and
--   in HotCache/Map a map whose values end.
-- - Cache: the state that the cache services of one process share, and `Outside`, the record of all
--   that is outside it: Redis, the clock, random numbers and timers. A call outside may throw and
--   may change the shared state, since other requests run while it is awaited. Cache/Cluster is
--   src/redis/redis-cluster.service.ts, Cache/Bloom src/cache/short-link-bloom.service.ts,
--   Cache/Resolve src/cache/short-link-resolve-cache.service.ts, Cache/Redirect
--   src/cache/redirect-cache.service.ts, Cache/Bootstrap src/cache/short-link-bloom-bootstrap.service.ts,
--   whose queries may fail, and whose loop has more fuel than there are links, enough since every page but the last has 500 of
--   them. Cache/Coherence, Cache/Availability, Cache/Waiting and Cache/LostProbe are
--   about their properties; waitForCache polls 40 times, as the source does.
-- - Http, Links: the exceptions of NestJS that the services throw, and the row of the table ShortLink
--   in prisma/schema.prisma.
-- - Redirects (src/redirects/redirects.service.ts, src/redirects/share-access-token.service.ts):
--   `resolve_internal` goes through Cache/Redirect; Prisma, JwtService and argon2 are the record
--   `Services`. Redirects/Limit is the UPDATE of resolveLimited as a statement on the table.
-- - RateLimit (src/rate-limit): the service and, in RateLimit/Guard, the guard. RateLimit/Scripts holds
--   the three Lua scripts over the commands of Redis that each calls, RateLimit/Serve the client's eval
--   that runs them. What Redis documents of the commands is the record `Lawful` beside each bound
--   (RateLimit/FixedWindow, RateLimit/SlidingWindow, RateLimit/TokenBucket). Tokens are counted in
--   thousandths and times in whole milliseconds or microseconds, without the rounding of Lua's numbers.
-- - Workspaces (src/workspaces/workspaces.service.ts, prisma/schema.prisma): the tables and the statements
--   on them, and in Workspaces/Service the operations; a transaction that throws is undone. Foreign keys
--   are those of members and of their roles. Workspaces/Isolation runs operations in any order.
-- - Authorization (src/authorization): getWorkspaceAccess and the guards. Authorization/Roles is about the
--   loops that collect permissions, Authorization/Guard about what the guard lets through.
-- - ShortLinks (src/short-links): create, update, remove and setAccess on the table ShortLink. A
--   transaction is one step, and so is each statement that stands in none; what other requests do between
--   the statements of an operation is not modelled. create draws its five codes from outside, and is told
--   whether the filter throws. ShortLinks/Sharing is the table
--   ShortLinkShareUser.
-- - Users (src/users/users.service.ts): the table User, and in Users/Pages the pages of findAll, each of
--   which is a query with its own order of rows of the same time.
-- - Analytics (src/analytics/analytics.service.ts): resolveRange, with the parsing of dates and the time
--   zones that Intl knows as parameters.
-- - Sessions (src/auth/auth.service.ts, src/auth/auth-token.service.ts): refresh, logout, logoutAll and
--   the session that a login opens, on the table AuthSession. Sessions/Login is login with its limit on
--   failures, Sessions/Guard src/auth/guard/jwt-auth.guard.ts; Sessions/Rows is what all rows keep.
-- - Outbox (src/outbox-worker/outbox-relay.service.ts): claimBatch, publishOne and handleFailure as
--   atomic statements on the table OutboxEvent, in whatever order the workers run them.
-- - Visits (src/analytics-worker/visit-events.consumer.ts): processEvent on the tables ShortLinkVisit and
--   ShortLink, for deliveries that may repeat and fail.
--
-- A row is a record and a table a list of rows; times are milliseconds in the natural numbers. Not
-- modelled: the controllers, DTO validation, metrics other than those that a service keeps, logs and
-- spans; the SQL of the analytics.
pub mod Common
pub mod Snowflake
pub mod Base62
pub mod Circuit
pub mod HotCache
pub mod Cache
pub mod Http
pub mod Links
pub mod Redirects
pub mod Outbox
pub mod Sessions
pub mod ShortLinks
pub mod Visits
pub mod RateLimit
pub mod Workspaces
pub mod Authorization
pub mod Users
pub mod Analytics
