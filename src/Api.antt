-- ===== src/Api.antt =====
-- cmd/api/main.go: the start of a replica, up to the point where it serves. Signals, the server's own
-- timeouts and the pools of connections are left out.
pub mod Serving
use mipttest_task.Base.{ℕ, Bool, true, false, List, Str, if◌then◌else◌}
use mipttest_task.Base.Int.{pos_part}
use mipttest_task.Domain.Errors.{Result, ok, err, ◌>>=◌, ◌>>◌}
use mipttest_task.Redis.{Redis}
use mipttest_task.Store.Ttl.{Store}
use mipttest_task.Store.Wire.{Wire}
use mipttest_task.Postgres.Tables.{Tables}
use mipttest_task.Postgres.Calls.{Calls, answer}
use mipttest_task.Postgres.Reads.{validate_active_buckets}
use mipttest_task.Service.World.{Replica, World}
use mipttest_task.Config.Values.{Env, Parsers}
use mipttest_task.Config.{Config, DurationKey, load}

-- What `main` meets: the environment and the order in which the map of durations is ranged over, whether
-- `sql.Open` accepts the URL, how the two pings end, and the outcomes of the calls of the database.
pub record Surroundings : Type 0 where
  pub getenv : Env
  pub order : List DurationKey
  pub opens : Bool
  pub db_ping : Wire
  pub redis_ping : Wire
  pub calls : Calls

-- `os.Exit`, or a replica that serves.
pub data Start (Db N : Type 0) : Type 0 where
  exits : ℕ → Start Db N
  serves : Config N → Replica Db → Start Db N

module _ {Db N : Type 0} (libs : Parsers N) (redis : Redis Db) (sum256 : Str → List ℕ)
    (mac : List ℕ → Str → List ℕ) where
  -- `redisstore.New`, `NewPollCache` and the services. The lengths of time are positive, which `Load`
  -- has checked.
  abbrev pub replica_of : Config N → Replica Db
  replica_of c = record {
    redis = redis;
    store = record {
      buckets = pos_part c.vote_buckets;
      retention = pos_part c.redis_retention;
      max_ttl = pos_part c.max_redis_ttl;
    };
    cache_ttl = pos_part c.poll_cache_ttl;
    dedup_secret = c.dedup_hmac_key;
    sum256 = sum256;
    mac = mac;
  }

  abbrev pub exit_unless : Result (Unit {0}) → Start Db N → Start Db N
  exit_unless (ok _) next = next
  exit_unless (err e) next = exits 1

  abbrev pub start_with : Surroundings → Tables → Config N → Start Db N
  start_with s t c =
      if s.opens
      then exit_unless (answer s.db_ping (ok tt)) (
          exit_unless (answer s.redis_ping (ok tt)) (
            exit_unless (validate_active_buckets s.calls 0 (pos_part c.vote_buckets) t)
              (serves c (replica_of c))))
      else exits 1

  abbrev pub start_from : Surroundings → Tables → Result (Config N) → Start Db N
  start_from s t (err e) = exits 2
  start_from s t (ok c) = start_with s t c

  -- `main`
  unfoldable pub start : Surroundings → Tables → Start Db N
  unfolding load validate_active_buckets
  start s t = start_from s t (load libs s.getenv s.order)
