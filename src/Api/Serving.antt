-- ===== src/Api/Serving.antt =====
-- What a replica that serves can rely on.
use mipttest_task.Base.{
  ℕ, ◌≤◌, ◌≡◌, refl, sym, ap, subst, ◌∙◌, suc, Bool-cases, inl, inr, ==_iff, Bool, true, false, not,
  ◌&&◌, List, [], ◌∷◌, arith, ltb, ◌==◌, Str, All, count_p, if◌then◌else◌,
}
use mipttest_task.Base.Int.{ℤ, pos, negsuc, pos_part, ◌≤ℤ◌}
use mipttest_task.Domain.Errors.{Result, ok, err, other, fail_if, bind-ok, ok-injective}
use mipttest_task.Domain.Poll.{active, is_status}
use mipttest_task.Redis.{Redis}
use mipttest_task.Store.Wire.{Wire, answered, lost, unacknowledged}
use mipttest_task.Postgres.Tables.{PollRow, Tables}
use mipttest_task.Postgres.Calls.{Calls, answer, answer-ok}
use mipttest_task.Postgres.Reads.{validate_active_buckets, uses_other}
use mipttest_task.Service.World.{Replica}
use mipttest_task.Config.Values.{Parsers}
use mipttest_task.Config.{Config, load}
use mipttest_task.Config.Bounds.{IsBounded, load_iff}
use mipttest_task.Api.{Surroundings, exits, serves, replica_of, exit_unless, start_from, start}

none_other :
    (buckets : ℕ) (ps : List PollRow)
    → count_p (uses_other buckets) ps ≡ 0
    → All (λ p. p.status ≡ active → p.vote_buckets ≡ buckets) ps
none_other buckets [] h = tt
none_other buckets (p ∷ ps) h = elim (Bool-cases (uses_other buckets p)) [
  | inl differs ↦ absurd (
      cc (
        h,
        ap
            (λ b.
              if b then suc (count_p (uses_other buckets) ps) else count_p (uses_other buckets) ps)
            differs,
      ))
  | inr own ↦ (
    λ a.
        same_buckets (p.vote_buckets == buckets) refl
          (ap (λ s. is_status s active && not (p.vote_buckets == buckets)) (sym a) ∙ own),
    none_other buckets ps (
        sym (
          ap
            (λ b.
              if b then suc (count_p (uses_other buckets) ps) else count_p (uses_other buckets) ps)
            own)
        ∙ h),
  )
]
  where
    same_buckets :
        (b : Bool)
        → (p.vote_buckets == buckets) ≡ b
        → not (p.vote_buckets == buckets) ≡ false
        → p.vote_buckets ≡ buckets
    same_buckets true e n = (==_iff p.vote_buckets buckets).0 e
    same_buckets false e n = absurd (cc (ap not e, n))

validate_active_buckets-ok :
    (calls : Calls) (i buckets : ℕ) (t : Tables)
    → validate_active_buckets calls i buckets t ≡ ok tt
    → All (λ p. p.status ≡ active → p.vote_buckets ≡ buckets) t.polls
unfolding validate_active_buckets
validate_active_buckets-ok calls i buckets t h =
    let (n, counted, h1) =
      bind-ok (answer (calls i) (ok (count_p (uses_other buckets) t.polls))) _ tt h in
    let same : count_p (uses_other buckets) t.polls ≡ n =
      ok-injective (answer-ok (calls i) _ n counted) in
    none_other buckets t.polls (same ∙ no_error n h1)
  where
    no_error :
        (n : ℕ)
        → fail_if (ltb 0 n) (other "active polls use a different VOTE_BUCKETS value") ≡ ok tt
        → n ≡ 0
    no_error n k = ground arith

positive_part : (d : ℤ) → pos 1 ≤ℤ d → (1 ≤ pos_part d) × (d ≡ pos (pos_part d))
positive_part (pos n) h = (omega arith, refl)
positive_part (negsuc n) h = absurd (omega arith)

part_at_most : (d : ℤ) (n : ℕ) → d ≤ℤ pos n → pos_part d ≤ n
part_at_most (pos m) n h = omega arith
part_at_most (negsuc m) n h = omega arith

module _ {Db N : Type 0} (libs : Parsers N) (redis : Redis Db) (sum256 : Str → List ℕ)
    (mac : List ℕ → Str → List ℕ) where
  started :
      (s : Surroundings) (t : Tables) (c : Config N) (r : Replica Db) (loaded : Result (Config N))
      → start_from libs redis sum256 mac s t loaded ≡ serves c r
      → (loaded ≡ ok c)
        × (replica_of libs redis sum256 mac c ≡ r)
        × (validate_active_buckets s.calls 0 (pos_part c.vote_buckets) t ≡ ok tt)
  started s t c r (err e) h = cc
  started s t c r (ok d) h = by_calls s.opens s.db_ping s.redis_ping _ refl h
    where
      by_calls :
          (opens : Bool) (v w : Wire) (checked : Result (Unit {0}))
          → validate_active_buckets s.calls 0 (pos_part d.vote_buckets) t ≡ checked
          → (if opens
              then exit_unless libs redis sum256 mac (answer v (ok tt)) (
                  exit_unless libs redis sum256 mac (answer w (ok tt)) (
                    exit_unless libs redis sum256 mac checked
                      (serves d (replica_of libs redis sum256 mac d))))
              else exits 1)
            ≡ serves c r
          → (ok d ≡ ok c)
            × (replica_of libs redis sum256 mac c ≡ r)
            × (validate_active_buckets s.calls 0 (pos_part c.vote_buckets) t ≡ ok tt)
      by_calls false v w checked e h = cc
      by_calls true lost w checked e h = cc
      by_calls true unacknowledged w checked e h = cc
      by_calls true answered lost checked e h = cc
      by_calls true answered unacknowledged checked e h = cc
      by_calls true answered answered (err x) e h = cc
      by_calls true answered answered (ok x) e h =
          let same : d ≡ c = ap (λ z. elim z [ exits _ ↦ d | serves a b ↦ a ]) h in
          (
            ap ok same,
            ap (replica_of libs redis sum256 mac) (sym same)
                ∙ ap (λ z. elim z [ exits _ ↦ replica_of libs redis sum256 mac d | serves a b ↦ b ])
                    h,
            ap (λ (z : Config N). validate_active_buckets s.calls 0 (pos_part z.vote_buckets) t)
                  (sym same)
                ∙ e,
          )

  -- A replica that serves was configured within the bounds: it has 1 to 4096 buckets, as many as `Load`
  -- read, a positive retention, maximum TTL and cache TTL, and every poll that was active in the
  -- database at its start has its number of buckets.
  pub start-serves :
      (s : Surroundings) (t : Tables) (c : Config N) (r : Replica Db)
      → start libs redis sum256 mac s t ≡ serves c r
      → IsBounded libs c
        × (c.vote_buckets ≡ pos r.store.buckets)
        × (1 ≤ r.store.buckets)
        × (r.store.buckets ≤ 4096)
        × (1 ≤ r.store.retention)
        × (1 ≤ r.store.max_ttl)
        × (1 ≤ r.cache_ttl)
        × All (λ p. p.status ≡ active → p.vote_buckets ≡ r.store.buckets) t.polls
  unfolding start
  start-serves s t c r h =
      let (loaded, same, checked) = started s t c r (load libs s.getenv s.order) h in
      let bounded = ((load_iff libs s.getenv s.order c).0 loaded).1 in
      let (some_buckets, whole) = positive_part c.vote_buckets bounded.buckets.0 in
      subst
        (λ (x : Replica Db).
          IsBounded libs c
          × (c.vote_buckets ≡ pos x.store.buckets)
          × (1 ≤ x.store.buckets)
          × (x.store.buckets ≤ 4096)
          × (1 ≤ x.store.retention)
          × (1 ≤ x.store.max_ttl)
          × (1 ≤ x.cache_ttl)
          × All (λ p. p.status ≡ active → p.vote_buckets ≡ x.store.buckets) t.polls)
        same
        (
          bounded,
          whole,
          some_buckets,
          part_at_most c.vote_buckets 4096 bounded.buckets.1,
          (positive_part c.redis_retention bounded.retention).0,
          (positive_part c.max_redis_ttl bounded.max_ttl).0,
          (positive_part c.poll_cache_ttl bounded.cache).0,
          validate_active_buckets-ok s.calls 0 (pos_part c.vote_buckets) t checked,
        )
