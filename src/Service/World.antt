-- ===== src/Service/World.antt =====
-- What the services of a replica work on, and what they take from their surroundings: the shared
-- database and Redis, the replica's own cache, its clock, the outcomes of its calls.
use mipttest_task.Base.{ℕ, Option, List, Str}
use mipttest_task.Base.Dict.{Dict}
use mipttest_task.Domain.Poll.{Time, Poll}
use mipttest_task.Redis.{Redis}
use mipttest_task.Store.Ttl.{Store}
use mipttest_task.Store.Wire.{Wire, Pipeline}
use mipttest_task.Postgres.Tables.{Tables}
use mipttest_task.Postgres.Calls.{Calls}

-- `cacheEntry`. An entry that is not `loaded` is `none`.
pub record Loaded : Type 0 where
  pub poll : Poll
  pub expires : Time

-- `PollCache`: its map, by the key under which `entries` holds an entry.
abbrev pub Cache : Type 0
Cache = Dict (Option Loaded)

pub record World (Db : Type 0) : Type 0 where
  pub tables : Tables
  pub db : Db
  pub cache : Cache

-- What a replica is configured with; `sum256` and `mac` are SHA-256 and HMAC-SHA-256.
pub record Replica (Db : Type 0) : Type 0 where
  pub redis : Redis Db
  pub store : Store
  pub cache_ttl : ℕ
  pub dedup_secret : List ℕ
  pub sum256 : Str → List ℕ
  pub mac : List ℕ → Str → List ℕ

-- What happens around one operation: the clock's readings in their order, the outcomes of its calls of
-- the database, of its pipeline of gates and of its other calls of Redis, and the random bytes.
pub record Events : Type 0 where
  pub clock : ℕ → Time
  pub calls : Calls
  pub gates : Pipeline
  pub wire : ℕ → Wire
  pub random : Option (List ℕ)
