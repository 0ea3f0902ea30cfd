-- ===== src/Config.antt =====
-- internal/config/config.go: `Load`.
pub mod Values
pub mod Checks
pub mod Bounds
use mipttest_task.Base.{
  ℕ, ◌*◌, Bool, true, false, not, ◌&&◌, ◌||◌, Option, none, some, List, [], ◌∷◌, ◌++◌, ltb, String,
  if◌then◌else◌, Str, codes, eq_str, trim_space, length,
}
use mipttest_task.Base.Int.{ℤ, pos, ltb_ℤ}
use mipttest_task.Domain.Errors.{Result, ok, err, Error, other, ◌>>=◌, ◌>>◌, fail_if}
use mipttest_task.Redis.{second}
use mipttest_task.Config.Values.{
  Env, Url, Parsers, env, int_env, bool_env, duration_env, trim_slashes, split_commas, to_lower,
  one_of,
}

-- `slog.Level`
pub data Level : Type 0 where
  level_debug level_info level_warn level_error : Level

pub record Config (N : Type 0) : Type 0 where
  pub http_addr : Str
  pub database_url : Str
  pub redis_addr : Str
  pub redis_password : Str
  pub redis_db : ℤ
  pub admin_token : Str
  pub cookie_signing_key : Str
  pub dedup_hmac_key : Str
  pub cookie_secure : Bool
  pub vote_buckets : ℤ
  pub redis_retention : ℤ
  pub max_redis_ttl : ℤ
  pub poll_cache_ttl : ℤ
  pub snapshot_interval : ℤ
  pub vote_request_timeout : ℤ
  pub trust_proxy_headers : Bool
  pub trusted_proxies : List N
  pub log_level : Level
  pub shutdown_timeout : ℤ
  pub rate_limit_per_minute : ℤ
  pub public_base_url : Str

-- The keys of the map from names to durations.
pub data DurationKey : Type 0 where
  for_retention for_max_ttl for_cache for_snapshots for_votes for_shutdown : DurationKey

abbrev pub key_name : DurationKey → Str
key_name for_retention = codes "REDIS_RETENTION"
key_name for_max_ttl = codes "MAX_REDIS_TTL"
key_name for_cache = codes "POLL_CACHE_TTL"
key_name for_snapshots = codes "SNAPSHOT_INTERVAL"
key_name for_votes = codes "VOTE_REQUEST_TIMEOUT"
key_name for_shutdown = codes "SHUTDOWN_TIMEOUT"

abbrev pub hours : ℕ → ℤ
hours n = pos (n * 3600 * second)

abbrev pub seconds : ℕ → ℤ
seconds n = pos (n * second)

-- `if cond { return c, errors.New(…) }`
abbrev pub refuse_if : Bool → String → Result (Unit {0})
refuse_if b text = fail_if b (other text)

abbrev pub is_empty : {A : Type 0} → List A → Bool
is_empty [] = true
is_empty (c ∷ s) = false

-- `switch strings.ToLower(…)`
abbrev pub level_of : Str → Result Level
level_of s =
    if one_of ("debug" ∷ []) s
    then ok level_debug
    else if one_of ("info" ∷ []) s
    then ok level_info
    else if one_of ("warn" ∷ []) s
    then ok level_warn
    else if one_of ("error" ∷ []) s
    then ok level_error
    else err (other "LOG_LEVEL must be debug, info, warn, or error")

abbrev pub is_scheme : String → Url → Bool
is_scheme name u = eq_str u.scheme (codes name)

-- The condition on what `url.Parse` returned.
abbrev pub is_no_origin : Option Url → Bool
is_no_origin none = true
is_no_origin (some u) =
    is_empty u.host
    || (not (is_scheme "http" u) && not (is_scheme "https" u))
    || u.has_user
    || (not (is_empty u.path) && not (eq_str u.path (codes "/")))
    || not (is_empty u.raw_query)
    || not (is_empty u.fragment)

abbrev pub is_insecure : Option Url → Bool
is_insecure none = true
is_insecure (some u) = not (is_scheme "https" u)

abbrev pub not_positive : ℤ → Bool
not_positive d = ltb_ℤ d (pos 1)

module _ {N : Type 0} where
  abbrev pub target : DurationKey → Config N → ℤ
  target for_retention c = c.redis_retention
  target for_max_ttl c = c.max_redis_ttl
  target for_cache c = c.poll_cache_ttl
  target for_snapshots c = c.snapshot_interval
  target for_votes c = c.vote_request_timeout
  target for_shutdown c = c.shutdown_timeout

  abbrev pub set_target : DurationKey → ℤ → Config N → Config N
  set_target for_retention d c = record c { redis_retention = d }
  set_target for_max_ttl d c = record c { max_redis_ttl = d }
  set_target for_cache d c = record c { poll_cache_ttl = d }
  set_target for_snapshots d c = record c { snapshot_interval = d }
  set_target for_votes d c = record c { vote_request_timeout = d }
  set_target for_shutdown d c = record c { shutdown_timeout = d }

module _ {N : Type 0} (libs : Parsers N) where
  -- The checks behind the reading.
  unfoldable pub check : Config N → Result (Unit {0})
  unfolding eq_str
  check c = do
    refuse_if (is_empty c.database_url) "DATABASE_URL is required"
    refuse_if (ltb (length c.admin_token) 16) "ADMIN_TOKEN must contain at least 16 bytes"
    refuse_if (ltb (length c.cookie_signing_key) 32 || ltb (length c.dedup_hmac_key) 32)
        "COOKIE_SIGNING_KEY and DEDUP_HMAC_KEY must contain at least 32 bytes"
    refuse_if (eq_str c.cookie_signing_key c.dedup_hmac_key) "signing and dedup keys must differ"
    refuse_if (ltb_ℤ c.vote_buckets (pos 1) || ltb_ℤ (pos 4096) c.vote_buckets)
        "VOTE_BUCKETS must be between 1 and 4096"
    refuse_if
        (not_positive c.redis_retention
          || not_positive c.max_redis_ttl
          || not_positive c.poll_cache_ttl
          || not_positive c.vote_request_timeout)
        "durations must be positive"
    refuse_if (not_positive c.rate_limit_per_minute) "RATE_LIMIT_PER_MINUTE must be positive"
    refuse_if (is_no_origin (libs.parse_url c.public_base_url))
        "PUBLIC_BASE_URL must be an absolute http(s) origin without credentials, path, query, or fragment"
    refuse_if (c.cookie_secure && is_insecure (libs.parse_url c.public_base_url))
        "PUBLIC_BASE_URL must use https when COOKIE_SECURE=true"

module _ {N : Type 0} (libs : Parsers N) (getenv : Env) where
  -- `for _, raw := range strings.Split(…)`
  unfoldable pub read_proxies : List Str → List N → Result (List N)
  unfolding trim_space
  read_proxies [] found = ok found
  read_proxies (raw ∷ raws) found =
      let skipped = read_proxies raws found in
      if is_empty (trim_space raw) then skipped else elim (libs.parse_cidr (trim_space raw)) [
        | none ↦ err (other "TRUSTED_PROXY_CIDRS")
        | some network ↦ read_proxies raws (found ++ network ∷ [])
      ]

  -- `if c.TrustProxyHeaders { … }`
  abbrev pub proxies_if : Bool → Result (List N)
  proxies_if false = ok []
  proxies_if true = do
    networks ← read_proxies (split_commas (getenv (codes "TRUSTED_PROXY_CIDRS"))) []
    refuse_if (is_empty networks) "TRUSTED_PROXY_CIDRS is required when TRUST_PROXY_HEADERS=true"
    ok networks

  -- The loop over the map of durations, in the order in which it yields the keys.
  unfoldable pub read_durations : List DurationKey → Config N → Result (Config N)
  unfolding duration_env
  read_durations [] c = ok c
  read_durations (k ∷ ks) c =
      duration_env libs getenv (key_name k) (target k c)
      >>= (λ d. read_durations ks (set_target k d c))

  -- What is read of the environment, up to the first check.
  unfoldable pub configured : List DurationKey → Result (Config N)
  unfolding env int_env bool_env read_proxies read_durations trim_slashes split_commas to_lower
      eq_str
  configured order = do
    redis_db ← int_env getenv (codes "REDIS_DB") 0
    buckets ← int_env getenv (codes "VOTE_BUCKETS") 64
    rate ← int_env getenv (codes "RATE_LIMIT_PER_MINUTE") 120
    secure ← bool_env getenv (codes "COOKIE_SECURE") false
    trust ← bool_env getenv (codes "TRUST_PROXY_HEADERS") false
    networks ← proxies_if trust
    c ← read_durations order (record {
      http_addr = env getenv (codes "HTTP_ADDR") (codes ":8080");
      database_url = getenv (codes "DATABASE_URL");
      redis_addr = env getenv (codes "REDIS_ADDR") (codes "localhost:6379");
      redis_password = getenv (codes "REDIS_PASSWORD");
      redis_db = redis_db;
      admin_token = getenv (codes "ADMIN_TOKEN");
      cookie_signing_key = getenv (codes "COOKIE_SIGNING_KEY");
      dedup_hmac_key = getenv (codes "DEDUP_HMAC_KEY");
      cookie_secure = secure;
      vote_buckets = buckets;
      redis_retention = hours 24;
      max_redis_ttl = hours (30 * 24);
      poll_cache_ttl = seconds 30;
      snapshot_interval = seconds 5;
      vote_request_timeout = seconds 2;
      trust_proxy_headers = trust;
      trusted_proxies = networks;
      log_level = level_info;
      shutdown_timeout = seconds 15;
      rate_limit_per_minute = rate;
      public_base_url =
          trim_slashes (env getenv (codes "PUBLIC_BASE_URL") (codes "http://localhost:8080"));
    })
    level ← level_of (to_lower (env getenv (codes "LOG_LEVEL") (codes "info")))
    ok (record c { log_level = level })

  -- `Load`
  unfoldable pub load : List DurationKey → Result (Config N)
  unfolding configured check
  load order = do c ← configured order; check libs c; ok c
