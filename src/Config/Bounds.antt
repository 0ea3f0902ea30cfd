-- ===== src/Config/Bounds.antt =====
-- The configurations that `Load` accepts.
use mipttest_task.Base.{
  some-injective, ◌≤◌, ◌≡◌, ◌≢◌, ◌↔◌, ◌⊎◌, refl, sym, ap, ◌∙◌, Bool, true, false, not, ◌&&◌, Option,
  none, some, List, [], codes, eq_str, eq_str_iff, eq_str-false_iff, subst, length,
}
use mipttest_task.Base.Int.{pos, ◌≤ℤ◌}
use mipttest_task.Domain.Errors.{ok, ◌>>=◌, ◌>>◌, bind-ok, ok-injective}
use mipttest_task.Config.Values.{Env, Url, Parsers}
use mipttest_task.Config.{Config, DurationKey, configured, check, load, is_no_origin, is_insecure}
use mipttest_task.Config.Checks.{
  or_iff, neither_iff, and_iff_implies, step_iff, last_iff, nonempty_iff, empty_iff, not_empty_iff,
  positive_iff, at_most_iff, long_enough_iff, true_iff, not_iff, same_iff,
}

-- An absolute http or https origin: no credentials, path, query or fragment.
pub record IsOrigin (u : Url) : Type 0 where
  pub host : u.host ≢ []
  pub scheme : (u.scheme ≡ codes "http") ⊎ (u.scheme ≡ codes "https")
  pub user : u.has_user ≡ false
  pub path : (u.path ≡ []) ⊎ (u.path ≡ codes "/")
  pub query : u.raw_query ≡ []
  pub fragment : u.fragment ≡ []

pub record IsBounded {N : Type 0} (libs : Parsers N) (c : Config N) : Type 0 where
  pub database : c.database_url ≢ []
  pub token : 16 ≤ length c.admin_token
  pub signing : 32 ≤ length c.cookie_signing_key
  pub dedup : 32 ≤ length c.dedup_hmac_key
  pub different : c.cookie_signing_key ≢ c.dedup_hmac_key
  pub buckets : (pos 1 ≤ℤ c.vote_buckets) × (c.vote_buckets ≤ℤ pos 4096)
  pub retention : pos 1 ≤ℤ c.redis_retention
  pub max_ttl : pos 1 ≤ℤ c.max_redis_ttl
  pub cache : pos 1 ≤ℤ c.poll_cache_ttl
  pub votes : pos 1 ≤ℤ c.vote_request_timeout
  pub rate : pos 1 ≤ℤ c.rate_limit_per_minute
  pub origin :
      (u : Url) × (libs.parse_url c.public_base_url ≡ some u)
      × IsOrigin u
      × (c.cookie_secure ≡ true → u.scheme ≡ codes "https")

IsOrigin-iff : (u : Url) → (is_no_origin (some u) ≡ false) ↔ IsOrigin u
IsOrigin-iff u = (
  (λ h.
      let (((((host, scheme), user), path), query), fragment) = parts.0 h in
      record {
        host = host;
        scheme = scheme;
        user = user;
        path = path;
        query = query;
        fragment = fragment;
      }),
  λ o. parts.1 (((((o.host, o.scheme), o.user), o.path), o.query), o.fragment),
)
  where
    parts : (is_no_origin (some u) ≡ false) ↔ (
        (((((u.host ≢ []) × ((u.scheme ≡ codes "http") ⊎ (u.scheme ≡ codes "https")))
              × (u.has_user ≡ false))
            × ((u.path ≡ []) ⊎ (u.path ≡ codes "/")))
          × (u.raw_query ≡ []))
        × (u.fragment ≡ []))
    parts =
        or_iff _ _
          (or_iff _ _
            (or_iff _ _
              (or_iff _ _
                (or_iff _ _ (nonempty_iff u.host) (
                  neither_iff _ _ (eq_str_iff u.scheme (codes "http"))
                    (eq_str_iff u.scheme (codes "https"))))
                (same_iff u.has_user))
              (neither_iff _ _ (empty_iff u.path) (eq_str_iff u.path (codes "/"))))
            (not_empty_iff u.raw_query))
          (not_empty_iff u.fragment)

module _ {N : Type 0} (libs : Parsers N) where
  url_iff :
      (o : Option Url) (secure : Bool)
      → ((is_no_origin o ≡ false) × ((secure && is_insecure o) ≡ false))
        ↔ ((u : Url) × (o ≡ some u) × IsOrigin u × (secure ≡ true → u.scheme ≡ codes "https"))
  url_iff none secure = ((λ h. cc (h.0)), λ h. cc (h.1))
  url_iff (some u) secure = (
    (λ h. (u, refl, (IsOrigin-iff u).0 h.0, (https_iff u).0 h.1)),
    λ h.
        let (x, e, o, s) = h in
        let same : x ≡ u = some-injective (sym e) in
        (
          (IsOrigin-iff u).1 (subst IsOrigin same o),
          (https_iff u).1 (λ t. ap (λ (y : Url). y.scheme) (sym same) ∙ s t),
        ),
  )
    where
      https_iff :
          (x : Url)
          → ((secure && not (eq_str x.scheme (codes "https"))) ≡ false)
            ↔ (secure ≡ true → x.scheme ≡ codes "https")
      https_iff x =
          and_iff_implies secure (not (eq_str x.scheme (codes "https"))) (true_iff secure)
            (not_iff _ (eq_str_iff x.scheme (codes "https")))

  check_parts_iff :
      (c : Config N)
      → (check libs c ≡ ok tt) ↔ (
          (c.database_url ≢ [])
          × ((16 ≤ length c.admin_token)
              × (((32 ≤ length c.cookie_signing_key) × (32 ≤ length c.dedup_hmac_key))
                  × ((c.cookie_signing_key ≢ c.dedup_hmac_key)
                      × (((pos 1 ≤ℤ c.vote_buckets) × (c.vote_buckets ≤ℤ pos 4096))
                          × (((((pos 1 ≤ℤ c.redis_retention) × (pos 1 ≤ℤ c.max_redis_ttl))
                                  × (pos 1 ≤ℤ c.poll_cache_ttl))
                                × (pos 1 ≤ℤ c.vote_request_timeout))
                              × ((pos 1 ≤ℤ c.rate_limit_per_minute)
                                  × ((is_no_origin (libs.parse_url c.public_base_url) ≡ false)
                                      × ((c.cookie_secure
                                            && is_insecure (libs.parse_url c.public_base_url))
                                          ≡ false)))))))))
  unfolding check
  check_parts_iff c = step_iff _ _ _ _ (nonempty_iff c.database_url) (
      step_iff _ _ _ _ (long_enough_iff (length c.admin_token) 16) (
        step_iff _ _ _ _
          (or_iff _ _ (long_enough_iff (length c.cookie_signing_key) 32)
            (long_enough_iff (length c.dedup_hmac_key) 32))
          (step_iff _ _ _ _ (eq_str-false_iff c.cookie_signing_key c.dedup_hmac_key) (
            step_iff _ _ _ _
              (or_iff _ _ (positive_iff c.vote_buckets) (at_most_iff 4096 c.vote_buckets))
              (step_iff _ _ _ _
                (or_iff _ _
                  (or_iff _ _
                    (or_iff _ _ (positive_iff c.redis_retention) (positive_iff c.max_redis_ttl))
                    (positive_iff c.poll_cache_ttl))
                  (positive_iff c.vote_request_timeout))
                (step_iff _ _ _ _ (positive_iff c.rate_limit_per_minute)
                  (step_iff _ _ _ _ (same_iff _) (last_iff _ _ (same_iff _)))))))))

  check_iff : (c : Config N) → (check libs c ≡ ok tt) ↔ IsBounded libs c
  check_iff c = (forward, backward)
    where
      forward : check libs c ≡ ok tt → IsBounded libs c
      forward h =
          let (
            database,
            (
              token,
              (
                (signing, dedup),
                (different, (buckets, ((((retention, max_ttl), cache), votes), (rate, urls)))),
              ),
            ),
          ) =
            (check_parts_iff c).0 h in
          record {
            database = database;
            token = token;
            signing = signing;
            dedup = dedup;
            different = different;
            buckets = buckets;
            retention = retention;
            max_ttl = max_ttl;
            cache = cache;
            votes = votes;
            rate = rate;
            origin = (url_iff (libs.parse_url c.public_base_url) c.cookie_secure).0 urls;
          }

      backward : IsBounded libs c → check libs c ≡ ok tt
      backward b = (check_parts_iff c).1 (
        b.database,
        (
          b.token,
          (
            (b.signing, b.dedup),
            (
              b.different,
              (
                b.buckets,
                (
                  (((b.retention, b.max_ttl), b.cache), b.votes),
                  (b.rate, (url_iff (libs.parse_url c.public_base_url) c.cookie_secure).1 b.origin),
                ),
              ),
            ),
          ),
        ),
      )

  -- `Load` returns a configuration exactly when the environment yields it and it is within the bounds: a
  -- database URL, a token of at least 16 bytes, two different keys of at least 32 bytes, 1 to 4096
  -- buckets, positive retention, maximum TTL, cache TTL, vote timeout and rate, and a public URL that is an
  -- http or https origin, an https one if cookies are secure.
  pub load_iff :
      (getenv : Env) (order : List DurationKey) (c : Config N)
      → (load libs getenv order ≡ ok c) ↔ ((configured libs getenv order ≡ ok c) × IsBounded libs c)
  unfolding load
  load_iff getenv order c = (forward, backward)
    where
      forward :
          load libs getenv order ≡ ok c → (configured libs getenv order ≡ ok c) × IsBounded libs c
      forward h =
          let (read, e, h1) = bind-ok (configured libs getenv order) _ c h in
          let (_, checked, h2) = bind-ok (check libs read) _ c h1 in
          let same : read ≡ c = ok-injective h2 in
          (e ∙ ap ok same, subst (IsBounded libs) same ((check_iff read).0 checked))

      backward :
          (configured libs getenv order ≡ ok c) × IsBounded libs c → load libs getenv order ≡ ok c
      backward (e, b) =
          ap (λ r. r >>= (λ x. check libs x >> ok x)) e ∙ ap (λ r. r >> ok c) ((check_iff c).1 b)
