-- ===== src/Tests/ConfigTests.antt =====
-- internal/config and cmd/api at concrete inputs: parsers that read durations in nanoseconds and take
-- each text for an origin of http.
use mipttest_task.Base.{
  ◌≤◌, ◌≡◌, ◌↔◌, refl, true, false, some, List, [], ◌∷◌, if◌then◌else◌, Str, codes, eq_str, All,
}
use mipttest_task.Base.Int.{pos, pos_part}
use mipttest_task.Base.Decimal.{itoa, parse_int}
use mipttest_task.Domain.Errors.{ok}
use mipttest_task.Domain.Poll.{active}
use mipttest_task.Redis.Keyspace.{Keyspace, memory}
use mipttest_task.Store.Wire.{answered}
use mipttest_task.Postgres.Calls.{no_faults}
use mipttest_task.Postgres.Reads.{validate_active_buckets}
use mipttest_task.Service.World.{Replica}
use mipttest_task.Config.Values.{
  Env, Parsers, env, int_env, bool_env, duration_env, parse_bool, trim_slashes, to_lower,
  split_commas,
}
use mipttest_task.Config.{
  Config, DurationKey, for_retention, for_max_ttl, for_cache, for_snapshots, for_votes,
  for_shutdown, configured, check, load, read_durations, read_proxies, level_error,
}
use mipttest_task.Config.Bounds.{IsBounded, load_iff}
use mipttest_task.Api.{Surroundings, start, serves, replica_of}
use mipttest_task.Api.Serving.{start-serves}
use mipttest_task.Tests.PostgresTests.{tables}

abbrev libs : Parsers Str
libs = record {
  parse_cidr = λ s. some s;
  parse_url = λ s. some (record {
    scheme = codes "http";
    host = s;
    path = [];
    raw_query = [];
    fragment = [];
    has_user = false;
  });
  parse_duration = parse_int;
  duration_string = λ d. itoa (pos_part d);
}

abbrev key_a : Str
key_a = codes "0123456789abcdef0123456789abcdef"

abbrev key_b : Str
key_b = codes "fedcba9876543210fedcba9876543210"

abbrev getenv : Env
getenv k =
    if eq_str k (codes "DATABASE_URL")
    then codes "postgres"
    else if eq_str k (codes "ADMIN_TOKEN")
    then codes "0123456789abcdef"
    else if eq_str k (codes "COOKIE_SIGNING_KEY")
    then key_a
    else if eq_str k (codes "DEDUP_HMAC_KEY")
    then key_b
    else if eq_str k (codes "VOTE_BUCKETS")
    then codes "4"
    else if eq_str k (codes "SNAPSHOT_INTERVAL")
    then codes "0"
    else if eq_str k (codes "LOG_LEVEL")
    then codes "Error"
    else []

abbrev order : List DurationKey
order = for_votes ∷ for_retention ∷ for_snapshots ∷ for_max_ttl ∷ for_cache ∷ for_shutdown ∷ []

abbrev loaded : Config Str
loaded = record {
  http_addr = codes ":8080";
  database_url = codes "postgres";
  redis_addr = codes "localhost:6379";
  redis_password = [];
  redis_db = pos 0;
  admin_token = codes "0123456789abcdef";
  cookie_signing_key = key_a;
  dedup_hmac_key = key_b;
  cookie_secure = false;
  vote_buckets = pos 4;
  redis_retention = pos 86400000000000;
  max_redis_ttl = pos 2592000000000000;
  poll_cache_ttl = pos 30000000000;
  snapshot_interval = pos 0;
  vote_request_timeout = pos 2000000000;
  trust_proxy_headers = false;
  trusted_proxies = [];
  log_level = level_error;
  shutdown_timeout = pos 15000000000;
  rate_limit_per_minute = pos 120;
  public_base_url = codes "http://localhost:8080";
}

-- A snapshot interval of zero is accepted.
load_test : load libs getenv order ≡ ok loaded
unfolding load configured check env int_env bool_env duration_env parse_bool trim_slashes to_lower
    split_commas read_durations read_proxies eq_str itoa parse_int
load_test = refl

load_iff_example :
    (load libs getenv order ≡ ok loaded)
    ↔ ((configured libs getenv order ≡ ok loaded) × IsBounded libs loaded)
load_iff_example = load_iff libs getenv order loaded

abbrev surroundings : Surroundings
surroundings = record {
  getenv = getenv;
  order = order;
  opens = true;
  db_ping = answered;
  redis_ping = answered;
  calls = no_faults;
}

abbrev started : Replica Keyspace
started = replica_of libs memory (λ s. s) (λ key s. s) loaded

start_test :
    start libs memory (λ s. s) (λ key s. s) surroundings (tables active []) ≡ serves loaded started
unfolding start load configured check env int_env bool_env duration_env parse_bool trim_slashes
    to_lower split_commas read_durations read_proxies eq_str itoa parse_int validate_active_buckets
start_test = refl

start-serves_example :
    IsBounded libs loaded
    × (loaded.vote_buckets ≡ pos 4)
    × (1 ≤ 4)
    × (4 ≤ 4096)
    × (1 ≤ started.store.retention)
    × (1 ≤ started.store.max_ttl)
    × (1 ≤ started.cache_ttl)
    × All (λ p. p.status ≡ active → p.vote_buckets ≡ 4) (tables active []).polls
start-serves_example =
    start-serves libs memory (λ s. s) (λ key s. s) surroundings (tables active []) loaded started
      start_test
