-- ===== src/Http/Closing.antt =====
-- The close of a poll over HTTP, and the requests for votes behind it.
use mipttest_task.Base.{
  ℕ, ◌<◌, ◌≡◌, refl, sym, subst, Bool, true, false, Option, List, arith, if◌then◌else◌, Str, codes,
  All,
}
use mipttest_task.Postgres.Tables.{uuid_of}
use mipttest_task.Domain.Errors.{Result, ok, err}
use mipttest_task.Domain.Poll.{active, Poll, PollResult}
use mipttest_task.Domain.Uuid.{is_uuid}
use mipttest_task.Redis.{RedisLaws}
use mipttest_task.Postgres.Reads.{get_by_id}
use mipttest_task.Postgres.Reads.Found.{get_by_id-id}
use mipttest_task.Service.World.{World, Replica, Events}
use mipttest_task.Service.Votes.Guarded.{AreActive}
use mipttest_task.Service.Results.{close}
use mipttest_task.Service.Results.Closing.{close-gates}
use mipttest_task.Store.Wire.{complete}
use mipttest_task.Store.Gates.{close_gates}
use mipttest_task.Store.Gates.Effect.{AreShut, close_gates-AreShut}
use mipttest_task.Http.Answers.{write_error}
use mipttest_task.Http.Admin.{
  Answer, Site, Setup, post_close, failed, answer_with, invalid_request, provided, is_refused,
  results_body, admin_answer, admin,
}
use mipttest_task.Http.Votes.Accounts.{error_status}
use mipttest_task.Http.Votes.Shut.{Arrival, answers, AreRefused, answers-AreRefused}

module _ {Db : Type 0} (r : Replica Db) (setup : Setup) (random : ℕ → Option (List ℕ)) (ev : Events)
    (id : Str) (s : Site Db) where
  abbrev closed_answer : Result (Poll × PollResult) → Bool → Bool → World Db → Answer × Site Db
  closed_answer reply refused is_id w =
      if refused
      then (failed (write_error 401 (codes "unauthorized")), s)
      else if is_id
      then (answer_with 200 (results_body r setup) reply, record s { world = w })
      else (invalid_request, s)

  closed_ok :
      (reply : Result (Poll × PollResult)) (refused is_id : Bool) (w : World Db)
      → (closed_answer reply refused is_id w).0.status ≡ 200
      → (x : Poll × PollResult) × (reply ≡ ok x)
        × ((closed_answer reply refused is_id w).1.world ≡ w)
  closed_ok reply true other_id w h = absurd (omega (arith, h))
  closed_ok reply false false w h = absurd (omega (arith, h))
  closed_ok (ok x) false true w h = (x, refl, refl)
  closed_ok (err e) false true w h = absurd (omega (arith, h, error_status e))

  close_answered :
      (authorization : Str)
      → (admin r setup random ev authorization (post_close id) s).0.status ≡ 200
      → (x : Poll × PollResult) × ((close r ev id s.world).0 ≡ ok x)
        × ((admin r setup random ev authorization (post_close id) s).1.world
            ≡ (close r ev id s.world).1)
  unfolding admin admin_answer
  close_answered authorization h =
      closed_ok (close r ev id s.world).0 (is_refused setup (provided authorization)) (is_uuid id)
        (close r ev id s.world).1 h

  -- With Redis as documented and at least one bucket: behind a close over HTTP that is answered 200, of a
  -- poll that was active, each later request for a vote for it is answered with an error, in whatever
  -- order requests for votes for any polls arrive at the replicas of the configuration, however their
  -- calls end, and although the caches of the replicas may still hold the poll as active, where they hold
  -- active polls under texts of their identifiers, in either case.
  pub close-AreRefused :
      RedisLaws r.redis
      → 0 < r.store.buckets
      → (p : Poll) (authorization : Str) → get_by_id ev.calls 0 id s.world.tables ≡ ok p
      → p.status ≡ active
      → (admin r setup random ev authorization (post_close id) s).0.status ≡ 200
      → (arrivals : List Arrival) → All (λ a. AreActive a.cache) arrivals
      → AreRefused id arrivals
          (answers r arrivals (admin r setup random ev authorization (post_close id) s).1.world)
  close-AreRefused laws some_buckets p authorization g active_poll h arrivals inv =
      let (x, done, behind) = close_answered authorization h in
      let own = get_by_id-id ev.calls 0 id s.world.tables p g in
      let shut : AreShut r.redis r.store (uuid_of id) (close r ev id s.world).1.db =
        subst (λ d. AreShut r.redis r.store (uuid_of id) d)
          (sym (close-gates r ev id s.world p x g active_poll done))
          (subst
            (λ k.
              AreShut r.redis r.store (uuid_of id)
                (close_gates r.redis r.store complete (ev.clock 0) k p.ends_at s.world.db).1)
            (sym own)
            (close_gates-AreShut r.redis laws r.store (ev.clock 0) (uuid_of id) p.ends_at
              s.world.db)) in
      answers-AreRefused r laws some_buckets id arrivals _ inv
        (subst (λ (w : World Db). AreShut r.redis r.store (uuid_of id) w.db) (sym behind) shut)
