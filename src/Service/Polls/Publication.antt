-- ===== src/Service/Polls/Publication.antt =====
-- What a publication leaves behind, in the database, in Redis and in the cache.
use mipttest_task.Base.{
  count_p, eq_str, ◌&&◌, ◌==◌, arith, ◌*◌, ◌/◌, ℕ, ◌<◌, ◌≤◌, ◌≡◌, refl, sym, ap, subst, ◌∙◌, Bool,
  true, false, Option, none, some, List, ==_iff, Str, length, if◌then◌else◌,
}
use mipttest_task.Domain.Errors.{
  Result, ok, err, not_found, not_active, invalid_transition, ◌>>=◌, ◌>>◌, fail_if,
}
use mipttest_task.Domain.Poll.{Time, draft, active, Poll, VoteCommand}
use mipttest_task.Redis.{RedisLaws}
use mipttest_task.Store.Wire.{answered, broken_after, unreachable}
use mipttest_task.Store.Votes.{record_vote}
use mipttest_task.Store.Gates.{setup_gates, write_gates, delete_gates}
use mipttest_task.Store.Gates.Deleted.{delete_gates-refuses}
use mipttest_task.Postgres.Tables.{uuid_of, uuid_of_twice, update_poll, PollRow, Tables, find_poll}
use mipttest_task.Postgres.Calls.{Calls, no_faults}
use mipttest_task.Postgres.Reads.{options_of, poll_of, get_by_slug}
use mipttest_task.Postgres.Reads.Found.{AreKeyed, sorted_options}
use mipttest_task.Postgres.Results.Closed.{find_poll-id}
use mipttest_task.Postgres.Polls.{publish, publish_row, revert_publish, revert_row, is_published_at}
use mipttest_task.Postgres.Polls.Status.{published, publish-by_status}
use mipttest_task.Postgres.Polls.Reverted.{publish-revert_publish}
use mipttest_task.Service.World.{World, Replica, Events}
use mipttest_task.Service.Votes.{is_shut}
use mipttest_task.Service.Votes.Guarded.{is_shut_lem}
use mipttest_task.Service.Polls.{
  truncated, is_published_now, delete_if, compensate, open_gates, publish_with, publish_poll,
  public_by_slug,
}

-- The database keeps an instant that is cut to microseconds as it is.
truncated_twice : (t : Time) → truncated t / 1000 * 1000 ≡ truncated t
truncated_twice t = omega arith

-- A compensation by another text of the same identifier.
reverts_same :
    {A : Type 0} (i j : Str) (at now : Time) (t : Tables)
    → uuid_of i ≡ uuid_of j
    → (f : Result (Unit {0}) × Tables → A)
    → f (revert_publish answered i at now t) ≡ f (revert_publish answered j at now t)
unfolding revert_publish
reverts_same i j at now t h f =
    ap
      (λ k. f (
        fail_if (count_p (λ p. eq_str p.id k && is_published_at at p) t.polls == 0)
            (invalid_transition "publish compensation"),
        record t { polls = update_poll k (revert_row at now) t.polls },
      ))
      h

module _ {Db : Type 0} (r : Replica Db) where
  compensate-own :
      (ev : Events) (now : Time) (p : Poll) (w : World Db)
      → is_published_now p now ≡ true
      → (revert_publish (ev.calls 5) p.id now (ev.clock 2) w.tables).0 ≡ ok tt
      → compensate r ev now p w ≡ record w {
        tables = (revert_publish (ev.calls 5) p.id now (ev.clock 2) w.tables).1;
        db = (delete_gates r.redis r.store (ev.wire 0) p.id w.db).1;
      }
  unfolding compensate
  compensate-own ev now p w own reverted =
      let (reply, t) = revert_publish (ev.calls 5) p.id now (ev.clock 2) w.tables in
      ap (λ b. if b then record w { tables = t; db = delete_if r ev p.id reply w.db } else w) own
      ∙ ap (λ x. record w { tables = t; db = delete_if r ev p.id x w.db }) reverted

  setup_gates-broken :
      (n : ℕ) (t ends_at : Time) (id : Str) (d : Db)
      → (setup_gates r.redis r.store (broken_after n) t id ends_at d).0 ≡ err unreachable
  unfolding setup_gates write_gates
  setup_gates-broken n t ends_at id d = refl

  -- With Redis as documented, at least one bucket, distinct identifiers of polls and an option: the
  -- publication of a draft whose gates are set up in part only, with every other call answered, is
  -- undone: the caller gets the error, the poll is a draft again with no time of publication, the cache
  -- is as before, and every vote for the poll is refused and changes nothing.
  pub publish_poll-compensates :
      RedisLaws r.redis
      → 0 < r.store.buckets
      → (clock : ℕ → Time) (random : Option (List ℕ)) (n : ℕ) (id : Str) (w : World Db)
        (q : PollRow)
      → let ev : Events = record {
        clock = clock;
        calls = no_faults;
        gates = broken_after n;
        wire = (λ _. answered);
        random = random;
      } in
        AreKeyed w.tables.polls
        → find_poll (uuid_of id) w.tables.polls ≡ some q
        → q.status ≡ draft
        → 0 < length (options_of (uuid_of id) w.tables.poll_options)
        → let (reply, w') = publish_poll r ev id w in
          (reply ≡ err unreachable)
          × (find_poll (uuid_of id) w'.tables.polls
              ≡ some (record q {
                vote_buckets = r.store.buckets;
                status = draft;
                published_at = none;
                updated_at = clock 2;
              }))
          × (w'.cache ≡ w.cache)
          × ((t : Time) (cmd : VoteCommand)
              → cmd.poll_id ≡ uuid_of id
              → record_vote r.redis r.sum256 r.store answered t cmd w'.db ≡ (err not_active, w'.db))
  unfolding publish_poll
  publish_poll-compensates laws some_buckets clock random n id w q k e s options =
      let ev : Events = record {
        clock = clock;
        calls = no_faults;
        gates = broken_after n;
        wire = (λ _. answered);
        random = random;
      } in
      let now = truncated (clock 0) in
      let t1 = published no_faults r.store.buckets id now w.tables in
      let p =
        poll_of (publish_row r.store.buckets now q) (sorted_options q.id w.tables.poll_options) in
      let run = (publish-by_status r.store.buckets id now w.tables q k e options).0 s in
      let own_id : q.id ≡ uuid_of id = find_poll-id (uuid_of id) w.tables.polls q e in
      let (reverted, row) =
        publish-revert_publish r.store.buckets id now (clock 2) w.tables q e s in
      let t1_is : (publish no_faults r.store.buckets id now w.tables).1 ≡ t1 = ap (λ x. x.1) run in
      let reverted_own : (revert_publish answered p.id now (clock 2) t1).0 ≡ ok tt =
        reverts_same p.id id now (clock 2) t1 (ap uuid_of own_id ∙ uuid_of_twice id) (λ x. x.0)
        ∙ ap (λ t. (revert_publish answered id now (clock 2) t).0) (sym t1_is)
        ∙ reverted in
      let d1 = (setup_gates r.redis r.store (broken_after n) (clock 1) p.id p.ends_at w.db).1 in
      let w1 : World Db = record w { tables = t1; db = d1 } in
      let outcome : publish_poll r ev id w ≡ (err unreachable, compensate r ev now p w1) =
        ap (λ x. publish_with r ev now (record w { tables = x.1 }) x.0) run
        ∙ ap (open_gates r ev now p w1) (setup_gates-broken n (clock 1) p.ends_at p.id w.db) in
      let undone =
        compensate-own ev now p w1 ((==_iff (now / 1000 * 1000) now).1 (truncated_twice (clock 0)))
          reverted_own in
      let d2 = (delete_gates r.redis r.store answered p.id d1).1 in
      let db_is : (publish_poll r ev id w).1.db ≡ d2 =
        ap (λ x. x.1.db) outcome ∙ ap (λ (x : World Db). x.db) undone in
      (
        ap (λ x. x.0) outcome,
        ap (λ x. find_poll (uuid_of id) x.1.tables.polls) outcome
            ∙ ap (λ (x : World Db). find_poll (uuid_of id) x.tables.polls) undone
            ∙ reverts_same p.id id now (clock 2) t1 (ap uuid_of own_id ∙ uuid_of_twice id)
                (λ x. find_poll (uuid_of id) x.1.polls)
            ∙ ap (λ t. find_poll (uuid_of id) (revert_publish answered id now (clock 2) t).1.polls)
                (sym t1_is)
            ∙ row,
        ap (λ x. x.1.cache) outcome ∙ ap (λ (x : World Db). x.cache) undone,
        λ t cmd same.
            subst (λ d. record_vote r.redis r.sum256 r.store answered t cmd d ≡ (err not_active, d))
              (sym db_is)
              (subst
                (λ i.
                  let d = (delete_gates r.redis r.store answered i d1).1 in
                  record_vote r.redis r.sum256 r.store answered t cmd d ≡ (err not_active, d))
                (same ∙ sym own_id)
                (delete_gates-refuses r.redis laws r.sum256 r.store d1 t cmd some_buckets)),
      )

-- A poll is shown under its slug only while it is active and within its period.
pub public_by_slug_lem :
    (calls : Calls) (slug : Str) (now : Time) (t : Tables) (p : Poll)
    → public_by_slug calls slug now t ≡ ok p
    → (get_by_slug calls 0 slug t ≡ ok p)
      × (p.status ≡ active)
      × (p.starts_at ≤ now)
      × (now < p.ends_at)
unfolding public_by_slug
public_by_slug_lem calls slug now t p h = by_reply (get_by_slug calls 0 slug t) refl h
  where
    by_test :
        (q : Poll) (b : Bool)
        → get_by_slug calls 0 slug t ≡ ok q
        → is_shut now q ≡ b
        → (fail_if b not_found >> ok q) ≡ ok p
        → (get_by_slug calls 0 slug t ≡ ok p)
          × (p.status ≡ active)
          × (p.starts_at ≤ now)
          × (now < p.ends_at)
    by_test q true e f k = cc
    by_test q false e f k =
        subst
          (λ x.
            (get_by_slug calls 0 slug t ≡ ok x)
            × (x.status ≡ active)
            × (x.starts_at ≤ now)
            × (now < x.ends_at))
          (ap (λ x. elim x [ err _ ↦ q | ok y ↦ y ]) k)
          (let (a, b, c) = is_shut_lem now q f in (e, a, b, c))

    by_reply :
        (reply : Result Poll)
        → get_by_slug calls 0 slug t ≡ reply
        → (reply >>= (λ q. fail_if (is_shut now q) not_found >> ok q)) ≡ ok p
        → (get_by_slug calls 0 slug t ≡ ok p)
          × (p.status ≡ active)
          × (p.starts_at ≤ now)
          × (now < p.ends_at)
    by_reply (err e) f k = cc
    by_reply (ok q) f k = by_test q (is_shut now q) f refl k
