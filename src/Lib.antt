-- ===== src/Lib.antt =====
-- The poll service: a verification library for the Go program of this repository.
--
-- The program publishes polls, counts votes in Redis and keeps polls and results in PostgreSQL. Its
-- parts, and the files here that model them (each file opens with the sources it is about):
--
-- - Domain: internal/domain. The types of polls, votes and results, `CreatePoll.Validate`
--   (Domain/Poll: `validate`), `Poll.ValidateSelection` (`validate_selection`), `NewUUID` and
--   `IsUUID` (Domain/Uuid), and the errors (Domain/Errors: `Result`, with `fail_if` for an early
--   return).
-- - Redis: the commands that the store uses, as a record over any type of server states, with their
--   documented behaviour as the record `RedisLaws`. Redis/Keyspace is an instance, a key space in
--   memory, that meets the laws and on which the tests run.
-- - Store: internal/redisstore with scripts/vote.lua. Names of keys (Store/Keys), `TTL`
--   (Store/Ttl), `Record` (Store/Votes), the gates (Store/Gates), `Totals` (Store/Counters), the
--   snapshot lock and the rate limit (Store/Locks). Store/Votes/Ledger is the abstract view of a
--   poll, the list of ballots of its devices, that the keys represent; Store/Election runs a whole
--   poll against it.
-- - Postgres: internal/postgres. The tables (Postgres/Tables), the queries (Postgres/Reads),
--   `Create`, `Publish` and `RevertPublish` (Postgres/Polls), `SaveSnapshot` and `LoadResult`
--   (Postgres/Results), these writers in any order (Postgres/History), and `Migrate`
--   (Postgres/Migrations).
-- - Service: internal/service and internal/worker. The cache (Service/Cache), `Vote`
--   (Service/Votes), `Publish` and `PublicBySlug` (Service/Polls), `Results`, `Close`, `Snapshot`
--   and the loop of the worker (Service/Results), its rounds with their observer (Service/Rounds).
--   Service/World is the state of a replica: the shared tables and Redis, and its own cache.
-- - Identity: internal/identity, the signed cookie of a device, and the hash of its network
--   (Identity/Network).
-- - Config and Api: internal/config (`Load`, with the readers of values in Config/Values) and the
--   start of cmd/api (`start`), which makes a `Replica` of the configuration.
-- - Http: internal/httpapi, the handler of votes (Http/Votes), its answers and counters
--   (Http/Answers), the handlers of the administrator behind `adminAuth` (Http/Admin), and the
--   middleware with the metrics of requests (Http/Middleware), `getPoll`, the health checks and the
--   pages (Http/Public). Http/Closing composes the close with the votes behind it. The handler of
--   votes calls `allow_rate` of the store, `device_id`, whose result is part of the request here,
--   and `vote` of the service.
-- - Base: strings, lists, maps and numbers. Tests: runs on concrete inputs.
--
-- How the code is rendered. A handler is a function from the state to its result and the state
-- behind it. A call of Redis or PostgreSQL takes its outcome as an argument (`Wire`): answered,
-- lost before it reached the server, or done there with its reply lost. A pipeline breaks behind
-- any of its commands (`Pipeline`). `Calls` gives the outcomes of an operation's calls by their
-- order. Readings of the clock and random bytes are arguments too. A map is the list of its
-- entries. A string is the list of its codes; identifiers and keys hold bytes, and a question or an
-- option holds code points, as `utf8.RuneCountInString` counts them.
--
-- Bounds. A `time.Time` is its nanoseconds since the year 0, and a duration its nanoseconds. Sums
-- of durations wrap on int64 where the code adds them (`add_int64`), and counters are bounded by
-- int64 where the code checks them. `itoa` takes one more unit of fuel than its number, which is
-- enough since each step divides by ten (`digits_value-itoa_from`). All other loops are structural.
--
-- Identifiers. A column of type UUID compares values and returns them in lower case, so that
-- statements take the text of an identifier in either case (`uuid_of`), while the cache of polls
-- holds texts. A text that is no UUID is one that no row has; the handlers pass on what `IsUUID`
-- accepts.
--
-- What is assumed. Redis and the replicas read the same clock, in one time line. A key whose time
-- has come is not there. No TTL is below a millisecond, which go-redis raises to one. `HINCRBY` on
-- a counter does not fail: counters hold numbers below 2^63. An operation runs without another
-- between its calls, except where a theorem puts one there: the row lock of `SELECT ... FOR UPDATE`
-- and the single thread of Redis make single calls atomic, not whole operations. The rows of
-- results that `SaveSnapshot` writes meet the constraints of their tables, since their polls and
-- options come from the database. `Create`, `Publish` and `RevertPublish` cut the instants that
-- they pass to PostgreSQL to microseconds, as the driver does (`to_micro`); the instants of results
-- are stored as they are given. SHA-256, HMAC and the random source are parameters. `math.Ceil` of
-- a TTL in seconds is exact for the TTLs that the configuration admits by default.
--
-- What is not modelled. Texts with a NUL, which PostgreSQL refuses. Of internal/httpapi the page of
-- the administrator, the document of the API, the multiplexer, the headers of answers but the
-- cookie, and the text of the metrics; the drawing of QR codes; in internal/config `url.Parse`,
-- `net.ParseCIDR` and the texts of durations, and in internal/identity `net.ParseIP`, which are
-- parameters; cmd/migrate, logging, contexts and their timeouts; goroutines that share an entry of
-- the cache; `ORDER BY` ties; the rounding of the percentages and of the sums of seconds, which are
-- floats.
pub mod Base
pub mod Domain
pub mod Redis
pub mod Store
pub mod Postgres
pub mod Service
pub mod Identity
pub mod Http
pub mod Config
pub mod Api
mod Tests
