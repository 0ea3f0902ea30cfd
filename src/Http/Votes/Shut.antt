-- ===== src/Http/Votes/Shut.antt =====
-- Behind a close no request for a vote is answered with a recorded vote.
use mipttest_task.Base.{
  ℕ, ◌≤◌, ◌<◌, ◌≡◌, refl, sym, ap, subst, ◌∙◌, inl, inr, Bool, true, false, Option, none, some,
  List, [], ◌∷◌, arith, Str, All,
}
use mipttest_task.Postgres.Tables.{uuid_of}
use mipttest_task.Domain.Errors.{Result, ok, err, Error}
use mipttest_task.Domain.Poll.{Time, VoteStatus, recorded, already_recorded}
use mipttest_task.Domain.Uuid.{is_uuid}
use mipttest_task.Redis.{RedisLaws}
use mipttest_task.Store.Wire.{Wire}
use mipttest_task.Store.Keys.{gate_key}
use mipttest_task.Store.Locks.{allow_rate}
use mipttest_task.Store.Gates.Effect.{AreShut, AreShut-refuses}
use mipttest_task.Store.Gates.Shut.{
  KeepsGates, AreShut-kept, record_vote-KeepsGates, allow_rate-KeepsGates,
}
use mipttest_task.Service.World.{Cache, World, Replica, Events}
use mipttest_task.Service.Votes.{command_for, vote}
use mipttest_task.Service.Votes.Guarded.{AreActive, vote-guarded, vote-AreActive}
use mipttest_task.Service.Results.Closing.{record_vote-refused}
use mipttest_task.Http.Answers.{Response, Metrics}
use mipttest_task.Http.Votes.{
  VoteRequest, check_option_ids, answer_vote, vote_by_device, vote_if_allowed, vote_checked,
  vote_body, vote_media, vote_at, post_vote,
}
use mipttest_task.Http.Votes.Accounts.{error_status}

module _ {Db : Type 0} (r : Replica Db) (laws : RedisLaws r.redis)
    (some_buckets : 0 < r.store.buckets) where
  -- A vote leaves all gates as they are, and one for a poll whose gates are closed is an error.
  vote-shut :
      (ev : Events) (now : Time) (id device : Str) (ids : List Str) (w : World Db)
      → let (reply, w') = vote r ev now id device ids w in
        KeepsGates r.redis w.db w'.db
        × (AreActive w.cache
            → AreShut r.redis r.store (uuid_of id) w.db
            → (e : Error) × (reply ≡ err e))
  vote-shut ev now id device ids w = elim ((vote-guarded r ev now id device ids w).1) [
    | inl (error, same) ↦ (λ j b. ap (λ d. r.redis.entry d (gate_key j b)) same, λ _ _. error)
    | inr (q, found, _, _, _, _, out) ↦
        let cmd = command_for r q device ids in
        (
          λ j b.
              ap (λ x. r.redis.entry x.1 (gate_key j b)) out
              ∙ record_vote-KeepsGates r.redis laws r.sum256 r.store (ev.wire 0) (ev.clock 2) cmd
                  w.db j b,
          λ inv shut.
              let own = ((vote-AreActive r ev now id device ids w inv).1 q found).1 in
              let (error, _) =
                record_vote-refused r.redis r.sum256 r.store (ev.wire 0) (ev.clock 2) cmd w.db (
                  AreShut-refuses r.redis laws r.sum256 r.store (ev.clock 2) cmd w.db some_buckets
                    (subst (λ k. AreShut r.redis r.store k w.db) (sym own) shut)) in
              (error.0, ap (λ y. y.0) out ∙ error.1),
        )
  ]

  module _ (limited : Time × Wire) (limit : ℕ) (ev : Events) (now : Time) (q : VoteRequest) where
    -- A request that leaves the gates as they are, and is refused where those of its poll are closed.
    abbrev IsHarmless : World Db → Response × World Db × Metrics → Type 0
    IsHarmless w out =
        KeepsGates r.redis w.db out.1.db
        × (AreActive w.cache → AreShut r.redis r.store (uuid_of q.id) w.db → 400 ≤ out.0.status)

    by_device-IsHarmless :
        (ids : List Str) (w : World Db) (m : Metrics) (device : Result (Str × Option Str))
        → IsHarmless w (vote_by_device r ev now q ids w m device)
    by_device-IsHarmless ids w m (err e) = ((λ j b. refl), λ _ _. omega arith)
    by_device-IsHarmless ids w m (ok (device, cookie)) =
        let (reply, w') = vote r ev now q.id device ids w in
        let (kept, refused) = vote-shut ev now q.id device ids w in
        answered_by reply w' kept refused
      where
        answered_by :
            (reply : Result VoteStatus) (w' : World Db)
            → KeepsGates r.redis w.db w'.db
            → (AreActive w.cache
                → AreShut r.redis r.store (uuid_of q.id) w.db
                → (e : Error) × (reply ≡ err e))
            → IsHarmless w (answer_vote cookie reply (w', m))
        answered_by (err e) w' kept refused = (kept, λ _ _. error_status e)
        answered_by (ok recorded) w' kept refused =
            (kept, λ inv shut. absurd (cc (refused inv shut).1))
        answered_by (ok already_recorded) w' kept refused =
            (kept, λ inv shut. absurd (cc (refused inv shut).1))

    if_allowed-IsHarmless :
        (ids : List Str) (w : World Db) (m : Metrics) (allowed : Result Bool)
        → IsHarmless w (vote_if_allowed r ev now q ids w m allowed)
    if_allowed-IsHarmless ids w m (err e) = ((λ j b. refl), λ _ _. omega arith)
    if_allowed-IsHarmless ids w m (ok false) = ((λ j b. refl), λ _ _. omega arith)
    if_allowed-IsHarmless ids w m (ok true) = by_device-IsHarmless ids w m q.device

    checked-IsHarmless :
        (ids : List Str) (w : World Db) (m : Metrics) (wrong : Option Str)
        → IsHarmless w (vote_checked r limited limit ev now q ids w m wrong)
    checked-IsHarmless ids w m (some code) = ((λ j b. refl), λ _ _. omega arith)
    checked-IsHarmless ids w m none =
        let (allowed, d) = allow_rate r.redis limited.1 limited.0 q.network_hash limit w.db in
        let same =
          allow_rate-KeepsGates r.redis laws limited.1 limited.0 q.network_hash limit w.db in
        let (kept, refused) = if_allowed-IsHarmless ids (record w { db = d }) m allowed in
        (
          λ j b. kept j b ∙ same j b,
          λ inv shut.
              refused inv (AreShut-kept r.redis laws r.store (uuid_of q.id) w.db d same shut),
        )

    body-IsHarmless :
        (w : World Db) (m : Metrics) (body : Option (List Str))
        → IsHarmless w (vote_body r limited limit ev now q w m body)
    body-IsHarmless w m none = ((λ j b. refl), λ _ _. omega arith)
    body-IsHarmless w m (some ids) = checked-IsHarmless ids w m (check_option_ids [] ids)

    media-IsHarmless :
        (w : World Db) (m : Metrics) (b : Bool)
        → IsHarmless w (vote_media r limited limit ev now q w m b)
    media-IsHarmless w m false = ((λ j b. refl), λ _ _. omega arith)
    media-IsHarmless w m true = body-IsHarmless w m q.body

    at-IsHarmless :
        (w : World Db) (m : Metrics) (b : Bool)
        → IsHarmless w (vote_at r limited limit ev now q w m b)
    at-IsHarmless w m false = ((λ j b. refl), λ _ _. omega arith)
    at-IsHarmless w m true = media-IsHarmless w m q.is_json

    pub post_vote-IsHarmless :
        (w : World Db) (m : Metrics) → IsHarmless w (post_vote r limited limit ev now q w m)
    unfolding post_vote
    post_vote-IsHarmless w m = at-IsHarmless w m (is_uuid q.id)

-- A request for a vote as it arrives at one of the replicas of a configuration: the time and the outcome
-- of the call of its rate limit, the limit, what happens around its vote, and the cache and the counters
-- that the replica has then.
pub record Arrival : Type 0 where
  pub limited : Time × Wire
  pub limit : ℕ
  pub events : Events
  pub now : Time
  pub request : VoteRequest
  pub cache : Cache
  pub metrics : Metrics

module _ {Db : Type 0} (r : Replica Db) where
  abbrev pub arrive : Arrival → World Db → Response × World Db × Metrics
  arrive a w =
      post_vote r a.limited a.limit a.events a.now a.request (record w { cache = a.cache })
        a.metrics

  -- The answers to requests one behind the other.
  unfoldable pub answers : List Arrival → World Db → List Response
  answers [] w = []
  answers (a ∷ rest) w = let (response, w', _) = arrive a w in response ∷ answers rest w'

-- Each answer to a request for the poll, by its identifier in either case, is an error.
abbrev pub AreRefused : Str → List Arrival → List Response → Type 0
AreRefused id [] [] = Unit
AreRefused id (a ∷ rest) (response ∷ responses) =
    (uuid_of a.request.id ≡ uuid_of id → 400 ≤ response.status) × AreRefused id rest responses
AreRefused id _ _ = ⊥

module _ {Db : Type 0} (r : Replica Db) (laws : RedisLaws r.redis)
    (some_buckets : 0 < r.store.buckets) (id : Str) where
  pub answers-AreRefused :
      (arrivals : List Arrival) (w : World Db)
      → All (λ a. AreActive a.cache) arrivals
      → AreShut r.redis r.store (uuid_of id) w.db
      → AreRefused id arrivals (answers r arrivals w)
  unfolding answers
  answers-AreRefused [] w inv shut = tt
  answers-AreRefused (a ∷ rest) w (own, inv) shut =
      let (kept, refused) =
        post_vote-IsHarmless r laws some_buckets a.limited a.limit a.events a.now a.request
          (record w { cache = a.cache }) a.metrics in
      (
        λ same. refused own (subst (λ k. AreShut r.redis r.store k w.db) (sym same) shut),
        answers-AreRefused rest (arrive r a w).1 inv
            (AreShut-kept r.redis laws r.store (uuid_of id) w.db (arrive r a w).1.db kept shut),
      )
