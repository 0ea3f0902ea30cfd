-- ===== src/Service/Results/Closing.antt =====
-- What a close does to the votes that follow it, and when it does nothing.
use mipttest_task.Base.{ℕ, ◌<◌, ◌≡◌, refl, sym, ap, subst, ◌∙◌, inl, inr, List, Str, true}
use mipttest_task.Domain.Errors.{
  Result, ok, err, Error, not_active, invalid_transition, ◌>>◌, ◌>>=◌,
}
use mipttest_task.Domain.Poll.{
  Time, draft, active, closed, Poll, Totals, PollResult, VoteCommand, option_ids,
}
use mipttest_task.Redis.{Redis, RedisLaws}
use mipttest_task.Store.Ttl.{Store}
use mipttest_task.Store.Wire.{
  Wire, answered, lost, unacknowledged, Pipeline, complete, broken_after,
}
use mipttest_task.Store.Votes.{record_vote}
use mipttest_task.Store.Gates.{close_gates, write_gates}
use mipttest_task.Store.Gates.Effect.{close_gates-refuses}
use mipttest_task.Store.Counters.{totals}
use mipttest_task.Postgres.Calls.{no_faults}
use mipttest_task.Postgres.Reads.{get_by_id}
use mipttest_task.Postgres.Reads.Found.{get_by_id-id}
use mipttest_task.Postgres.Results.Loaded.{load_result-same, save_snapshot-load_result}
use mipttest_task.Postgres.Tables.{uuid_of, uuid_of_twice}
use mipttest_task.Postgres.Results.{load_result, save_snapshot}
use mipttest_task.Service.World.{Cache, World, Replica, Events}
use mipttest_task.Service.Votes.{command_for, vote}
use mipttest_task.Service.Votes.Guarded.{AreActive, vote-guarded, vote-AreActive}
use mipttest_task.Service.Results.{
  closed_with, from_call, close_from, close_active, store_final, close_with, close,
}

-- A refused vote stays an error where its reply is lost, and leaves Redis alone too.
pub record_vote-refused :
    {Db : Type 0} (r : Redis Db) (sum256 : Str → List ℕ) (s : Store) (w : Wire) (t : Time)
    (cmd : VoteCommand) (d : Db)
    → record_vote r sum256 s answered t cmd d ≡ (err not_active, d)
    → ((e : Error) × ((record_vote r sum256 s w t cmd d).0 ≡ err e))
      × ((record_vote r sum256 s w t cmd d).1 ≡ d)
unfolding record_vote
record_vote-refused r sum256 s answered t cmd d h = ((not_active, ap (λ x. x.0) h), ap (λ x. x.1) h)
record_vote-refused r sum256 s lost t cmd d h = ((_, refl), refl)
record_vote-refused r sum256 s unacknowledged t cmd d h = ((_, refl), ap (λ x. x.1) h)

module _ {Db : Type 0} (r : Replica Db) (ev : Events) (id : Str) where
  closed_with-db :
      (p : Poll) (w : World Db) (saved : Result PollResult)
      → (closed_with r id p w saved).1.db ≡ w.db
  closed_with-db p w (err e) = refl
  closed_with-db p w (ok res) = refl

  store_final-db :
      (p : Poll) (w : World Db) (t : Result Totals) → (store_final r ev id p w t).1.db ≡ w.db
  store_final-db p w (err e) = refl
  store_final-db p w (ok t) =
      closed_with-db p _ (save_snapshot (from_call 1 ev.calls) p t true w.tables).0

  shut_lem :
      (pipe : Pipeline) (p : Poll) (w : World Db) (t : Db → Result Totals) (x : Poll × PollResult)
      → let (shut, d) = close_gates r.redis r.store pipe (ev.clock 0) p.id p.ends_at w.db in
        (store_final r ev id p (record w { db = d }) (shut >> t d)).0 ≡ ok x → pipe ≡ complete
  unfolding close_gates write_gates
  shut_lem complete p w t x h = refl
  shut_lem (broken_after n) p w t x h = cc

  -- A close of an active poll that succeeds has shut all its gates.
  pub close-gates :
      (w : World Db) (p : Poll) (x : Poll × PollResult)
      → get_by_id ev.calls 0 id w.tables ≡ ok p
      → p.status ≡ active
      → (close r ev id w).0 ≡ ok x
      → (close r ev id w).1.db
        ≡ (close_gates r.redis r.store complete (ev.clock 0) p.id p.ends_at w.db).1
  unfolding close
  close-gates w p x g s h =
      let run : close r ev id w ≡ close_active r ev id p w =
        ap (close_with r ev id w) g ∙ ap (close_from r ev id p w) s in
      let all_shut =
        shut_lem ev.gates p w
          (λ d. totals r.redis r.store (ev.wire 0) (ev.clock 1) p.id (option_ids p) d) x
          (ap (λ y. y.0) (sym run) ∙ h) in
      ap (λ y. y.1.db) run
      ∙ store_final-db p _ _
      ∙ ap (λ pipe. (close_gates r.redis r.store pipe (ev.clock 0) p.id p.ends_at w.db).1) all_shut

  -- With Redis as documented and at least one bucket: behind a successful close of an active poll no
  -- replica of the same configuration counts a vote for it, not one that still has the poll as active in
  -- its cache, where the cache holds active polls under texts of their identifiers, in either case. The
  -- vote ends in an error and Redis stays as it is.
  pub close-stops_votes :
      RedisLaws r.redis
      → 0 < r.store.buckets
      → (w : World Db) (p : Poll) (x : Poll × PollResult) → get_by_id ev.calls 0 id w.tables ≡ ok p
      → p.status ≡ active
      → (close r ev id w).0 ≡ ok x
      → (cache : Cache) (later : Events) (now : Time) (device_id : Str) (ids : List Str)
      → AreActive cache
      → let w1 : World Db = record (close r ev id w).1 { cache = cache } in
        let out = vote r later now id device_id ids w1 in
        ((e : Error) × (out.0 ≡ err e)) × (out.1.db ≡ w1.db)
  close-stops_votes laws some_buckets w p x g s h cache later now device_id ids inv =
      let w1 : World Db = record (close r ev id w).1 { cache = cache } in
      elim ((vote-guarded r later now id device_id ids w1).1) [
        | inl refused ↦ refused
        | inr (q, found, _, _, _, _, out) ↦
            let own = ((vote-AreActive r later now id device_id ids w1 inv).1 q found).1 in
            let cmd = command_for r q device_id ids in
            let same : p.id ≡ q.id = get_by_id-id ev.calls 0 id w.tables p g ∙ sym own in
            let shut : w1.db
                ≡ (close_gates r.redis r.store complete (ev.clock 0) cmd.poll_id p.ends_at w.db).1 =
              close-gates w p x g s h
              ∙ ap (λ k. (close_gates r.redis r.store complete (ev.clock 0) k p.ends_at w.db).1)
                  same in
            let refuses =
              close_gates-refuses r.redis laws r.sum256 r.store (ev.clock 0) p.ends_at w.db
                (later.clock 2) cmd some_buckets in
            let (error, kept) =
              record_vote-refused r.redis r.sum256 r.store (later.wire 0) (later.clock 2) cmd w1.db
                (subst
                  (λ d.
                    record_vote r.redis r.sum256 r.store answered (later.clock 2) cmd d
                    ≡ (err not_active, d))
                  (sym shut) refuses) in
            ((error.0, ap (λ y. y.0) out ∙ error.1), ap (λ y. y.1) out ∙ kept)
      ]

  closed_with-stored :
      (p q : Poll) (w : World Db) (saved : Result PollResult) (res : PollResult)
      → (closed_with r id p w saved).0 ≡ ok (q, res)
      → (saved ≡ ok res)
        × (q ≡ record p { status = closed; closed_at = res.finalized_at })
        × ((closed_with r id p w saved).1.tables ≡ w.tables)
  closed_with-stored p q w (err e) res h = cc
  closed_with-stored p q w (ok found) res h =
      let same : found ≡ res = ap (λ x. elim x [ err _ ↦ found | ok y ↦ y.1 ]) h in
      (
        ap ok same,
        sym (ap (λ x. elim x [ err _ ↦ q | ok y ↦ y.0 ]) h)
            ∙ ap (λ (x : PollResult). record p { status = closed; closed_at = x.finalized_at })
                same,
        refl,
      )

  store_final-stored :
      (p q : Poll) (w : World Db) (t : Result Totals) (res : PollResult) (j : ℕ)
      → (store_final r ev id p w t).0 ≡ ok (q, res)
      → (load_result no_faults j p.id (store_final r ev id p w t).1.tables ≡ ok res)
        × (q ≡ record p { status = closed; closed_at = res.finalized_at })
  store_final-stored p q w (err e) res j h = cc
  store_final-stored p q w (ok t) res j h =
      let (saved, tables) = save_snapshot (from_call 1 ev.calls) p t true w.tables in
      let (done, closed_poll, kept) =
        closed_with-stored p q (record w { tables = tables }) saved res h in
      (
        ap (λ x. load_result no_faults j p.id x) kept
            ∙ save_snapshot-load_result (from_call 1 ev.calls) p t true j w.tables res done,
        closed_poll,
      )

  -- What a successful close of an active poll returns: the poll closed at the time of finalization of the
  -- result, and the result that `LoadResult` reads behind it.
  pub close-load_result :
      (w : World Db) (p q : Poll) (res : PollResult) (j : ℕ)
      → get_by_id ev.calls 0 id w.tables ≡ ok p
      → p.status ≡ active
      → (close r ev id w).0 ≡ ok (q, res)
      → (load_result no_faults j id (close r ev id w).1.tables ≡ ok res)
        × (q ≡ record p { status = closed; closed_at = res.finalized_at })
  unfolding close
  close-load_result w p q res j g s h =
      let run : close r ev id w ≡ close_active r ev id p w =
        ap (close_with r ev id w) g ∙ ap (close_from r ev id p w) s in
      let (stored, closed_poll) = store_final-stored p q _ _ res j (ap (λ y. y.0) (sym run) ∙ h) in
      (
        ap (λ y. load_result no_faults j id y.1.tables) run
            ∙ load_result-same j id p.id (close_active r ev id p w).1.tables
                (sym (ap uuid_of (get_by_id-id ev.calls 0 id w.tables p g) ∙ uuid_of_twice id))
            ∙ stored,
        closed_poll,
      )

  -- A close of a draft is refused, and one of a closed poll returns what is stored; neither changes
  -- anything, so that a close can be repeated.
  pub close-by_status :
      (w : World Db) (p : Poll)
      → get_by_id ev.calls 0 id w.tables ≡ ok p
      → ((p.status ≡ draft) → close r ev id w ≡ (err (invalid_transition ""), w))
        × ((p.status ≡ closed)
            → close r ev id w ≡ (load_result ev.calls 1 id w.tables >>= (λ res. ok (p, res)), w))
  unfolding close
  close-by_status w p g = (
    λ s. ap (close_with r ev id w) g ∙ ap (close_from r ev id p w) s,
    λ s. ap (close_with r ev id w) g ∙ ap (close_from r ev id p w) s,
  )
