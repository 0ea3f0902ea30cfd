-- ===== src/Service/Results/Snapshots.antt =====
-- A snapshot that is not disturbed stores the totals and leaves the lock free.
use mipttest_task.Base.{
  All, ℕ, ◌+◌, ◌*◌, ◌≤◌, ◌<◌, ◌≡◌, sym, ap, subst, ◌∙◌, true, false, none, some, Str,
}
use mipttest_task.Base.Dict.{Dict, lookup, get_or}
use mipttest_task.Domain.Errors.{ok, err, ◌>>=◌}
use mipttest_task.Domain.Poll.{Time, Poll, Totals, postgres_snapshot, option_ids}
use mipttest_task.Domain.Uuid.{new_uuid}
use mipttest_task.Redis.{Redis, RedisLaws, live, second}
use mipttest_task.Store.Wire.{answered}
use mipttest_task.Store.Counters.{totals}
use mipttest_task.Store.Locks.{lock_key, acquire_lock, release_lock}
use mipttest_task.Store.Locks.Exclusion.{release_lock-frees}
use mipttest_task.Postgres.Tables.{uuid_of, PollRow, RuntimeRow, find_poll, find_runtime}
use mipttest_task.Postgres.Calls.{Calls, no_faults}
use mipttest_task.Postgres.Results.{load_result, save_snapshot, final_time}
use mipttest_task.Postgres.Results.Live.{save_snapshot-stores}
use mipttest_task.Postgres.Results.Counted.{HaveKeys, AreOld, AreDistinct}
use mipttest_task.Service.World.{World, Replica, Events}
use mipttest_task.Service.Results.{snapshot_locked, snapshot_with, snapshot}

acquire_lock-free :
    {Db : Type 0} (r : Redis Db) (laws : RedisLaws r) (now : Time) (poll_id token : Str) (n : ℕ)
    (d : Db)
    → live now (r.entry d (lock_key poll_id)) ≡ none
    → (acquire_lock r answered now poll_id token n d).0 ≡ ok true
unfolding acquire_lock
acquire_lock-free r laws now poll_id token n d h =
    ap (λ x. ok x.0) (laws.set_nx_free d now (lock_key poll_id) token n h)

module _ {Db : Type 0} (r : Replica Db) (laws : RedisLaws r.redis) (ev : Events) (p : Poll)
    (w : World Db) (token : Str) where
  -- Redis behind the acquisition of the lock.
  abbrev locked_db : Db
  locked_db = (acquire_lock r.redis answered (ev.clock 0) p.id token (4 * second) w.db).1

  abbrev freed_db : Db
  freed_db = (release_lock r.redis answered (ev.clock 2) p.id token locked_db).1

  snapshot-run :
      (t : Totals)
      → new_uuid ev.random ≡ ok token
      → ((i : ℕ) → ev.wire i ≡ answered)
      → (acquire_lock r.redis answered (ev.clock 0) p.id token (4 * second) w.db).0 ≡ ok true
      → totals r.redis r.store answered (ev.clock 1) p.id (option_ids p) locked_db ≡ ok t
      → snapshot r ev p w ≡ (
        (save_snapshot ev.calls p t false w.tables).0 >>= (λ _. ok tt),
        record w { tables = (save_snapshot ev.calls p t false w.tables).1; db = freed_db },
      )
  unfolding snapshot
  snapshot-run t e answers got read =
      ap
        (λ x. elim x [
          | err cause ↦ (err cause, w)
          | ok name ↦
              let (locked, d) =
                acquire_lock r.redis (ev.wire 0) (ev.clock 0) p.id name (4 * second) w.db in
              snapshot_with r ev name p (record w { db = d }) locked
        ])
        e
      ∙ ap
          (λ v.
            let (locked, d) = acquire_lock r.redis v (ev.clock 0) p.id token (4 * second) w.db in
            snapshot_with r ev token p (record w { db = d }) locked)
          (answers 0)
      ∙ ap (snapshot_with r ev token p (record w { db = locked_db })) got
      ∙ ap
          (λ v.
            let (reply, w1) =
              snapshot_locked r ev p (record w { db = locked_db })
                (totals r.redis r.store v (ev.clock 1) p.id (option_ids p) locked_db) in
            let (_, d) = release_lock r.redis (ev.wire 2) (ev.clock 2) p.id token w1.db in
            (reply, record w1 { db = d }))
          (answers 1)
      ∙ ap
          (λ x.
            let (reply, w1) = snapshot_locked r ev p (record w { db = locked_db }) x in
            let (_, d) = release_lock r.redis (ev.wire 2) (ev.clock 2) p.id token w1.db in
            (reply, record w1 { db = d }))
          read
      ∙ ap
          (λ v. (
            (save_snapshot ev.calls p t false w.tables).0 >>= (λ _. ok tt),
            record w {
              tables = (save_snapshot ev.calls p t false w.tables).1;
              db = (release_lock r.redis v (ev.clock 2) p.id token locked_db).1;
            },
          ))
          (answers 2)

  -- With Redis as documented: a snapshot whose calls are all answered, while nobody holds the poll's
  -- lock, of a stored poll without a final result and without newer rows of results, with options of
  -- distinct identifiers, where the rows of options meet their primary key, succeeds within the four
  -- seconds of its lock; then the poll's stored result has the participants and the instant that it has
  -- read, up to the rounding of stored instants, and the count of each option, and the next caller
  -- acquires the lock.
  pub snapshot-stores :
      (t : Totals) (q : PollRow) (i n : ℕ) (next : Str)
      → new_uuid ev.random ≡ ok token
      → ev.calls ≡ no_faults
      → ((j : ℕ) → ev.wire j ≡ answered)
      → live (ev.clock 0) (r.redis.entry w.db (lock_key p.id)) ≡ none
      → ev.clock 2 < ev.clock 0 + 4 * second
      → totals r.redis r.store answered (ev.clock 1) p.id (option_ids p) locked_db ≡ ok t
      → find_poll (uuid_of p.id) w.tables.polls ≡ some q
      → final_time (find_runtime (uuid_of p.id) w.tables.poll_runtime_results) ≡ none
      → ((x : RuntimeRow)
          → find_runtime (uuid_of p.id) w.tables.poll_runtime_results ≡ some x
          → x.captured_at ≤ t.as_of)
      → AreDistinct p.options
      → HaveKeys w.tables.poll_option_results
      → AreOld (uuid_of p.id) t.as_of w.tables.poll_option_results
      → let (reply, w1) = snapshot r ev p w in
        (reply ≡ ok tt)
        × ((m : Dict ℕ) × (load_result no_faults i p.id w1.tables
              ≡ ok (record {
                poll_id = q.id;
                status = q.status;
                source = postgres_snapshot;
                as_of = t.as_of;
                finalized_at = none;
                participants = t.participants;
                options = m;
              }))
            × All (λ o. lookup o.id m ≡ some (get_or t.options o.id 0)) p.options)
        × ((acquire_lock r.redis answered (ev.clock 2) p.id next n w1.db).0 ≡ ok true)
  snapshot-stores t q i n next e calls answers free in_time read stored not_final old distinct keys
        rows_old =
      let got = acquire_lock-free r.redis laws (ev.clock 0) p.id token (4 * second) w.db free in
      let run =
        snapshot-run t e answers got read
        ∙ ap
            (λ (c : Calls). (
              (save_snapshot c p t false w.tables).0 >>= (λ _. ok tt),
              record w { tables = (save_snapshot c p t false w.tables).1; db = freed_db },
            ))
            calls in
      let (m, res, is, counts, saved, loaded) =
        save_snapshot-stores p t w.tables i q stored not_final old distinct keys rows_old in
      (
        ap (λ x. x.0) run ∙ ap (λ s. s >>= (λ _. ok tt)) saved,
        (m, ap (λ x. load_result no_faults i p.id x.1.tables) run ∙ loaded ∙ ap ok is, counts),
        ap (λ x. (acquire_lock r.redis answered (ev.clock 2) p.id next n x.1.db).0) run
            ∙ release_lock-frees r.redis laws w.db p.id token next (ev.clock 0) (ev.clock 2)
                (4 * second) n got
                (subst (λ l. ev.clock 2 < ev.clock 0 + l) (sym (laws.lifetime_seconds 4)) in_time),
      )
