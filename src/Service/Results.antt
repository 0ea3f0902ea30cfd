-- ===== src/Service/Results.antt =====
-- internal/service/result_service.go, and the snapshots of internal/worker/snapshot.go.
pub mod Closing
pub mod Snapshots
use mipttest_task.Base.{
  ℕ, suc, ◌+◌, ◌*◌, Bool, true, false, not, Option, none, some, List, [], ◌∷◌, length,
  if◌then◌else◌, Str,
}
use mipttest_task.Domain.Errors.{Result, ok, err, Error, invalid_transition, ◌>>=◌, ◌>>◌, fail_if}
use mipttest_task.Domain.Poll.{
  Time, PollStatus, draft, active, closed, is_status, Poll, Totals, PollResult, redis_live,
  option_ids,
}
use mipttest_task.Domain.Uuid.{new_uuid}
use mipttest_task.Redis.{second}
use mipttest_task.Store.Wire.{Wire}
use mipttest_task.Store.Gates.{close_gates}
use mipttest_task.Store.Counters.{totals}
use mipttest_task.Store.Locks.{acquire_lock, release_lock}
use mipttest_task.Postgres.Tables.{Tables}
use mipttest_task.Postgres.Calls.{Calls}
use mipttest_task.Postgres.Reads.{get, get_by_id, list_active}
use mipttest_task.Postgres.Results.{load_result, save_snapshot}
use mipttest_task.Service.World.{Cache, World, Replica, Events}
use mipttest_task.Service.Cache.{cache_delete}

-- The calls of the database behind the first `n`.
abbrev pub from_call : ℕ → Calls → Calls
from_call n calls i = calls (n + i)

abbrev live_result : Poll → Totals → PollResult
live_result p t = record {
  poll_id = p.id;
  status = p.status;
  source = redis_live;
  as_of = t.as_of;
  finalized_at = none;
  participants = t.participants;
  options = t.options;
}

module _ {Db : Type 0} (r : Replica Db) where
  -- `ResultService.Results`, which changes nothing.
  unfoldable pub results : Events → Str → World Db → Result (Poll × PollResult)
  unfolding get load_result totals
  results ev id w = do
    p ← get_by_id ev.calls 0 id w.tables
    elim p.status [
      | closed ↦ load_result ev.calls 1 id w.tables >>= (λ res. ok (p, res))
      | draft ↦ err (invalid_transition "")
      | active ↦
          totals r.redis r.store (ev.wire 0) (ev.clock 0) id (option_ids p) w.db
          >>= (λ t. ok (p, live_result p t))
    ]

  -- The last steps of `Close`, behind `SaveSnapshot`.
  abbrev pub closed_with :
      Str → Poll → World Db → Result PollResult → Result (Poll × PollResult) × World Db
  closed_with id p w (err e) = (err e, w)
  closed_with id p w (ok res) = (
    ok (record p { status = closed; closed_at = res.finalized_at }, res),
    record w { cache = cache_delete id w.cache },
  )

  abbrev pub store_final :
      Events → Str → Poll → World Db → Result Totals → Result (Poll × PollResult) × World Db
  store_final ev id p w (err e) = (err e, w)
  store_final ev id p w (ok t) =
      let (saved, tables) = save_snapshot (from_call 1 ev.calls) p t true w.tables in
      closed_with id p (record w { tables = tables }) saved

  -- The gates, then the totals, unless the gates could not be closed.
  abbrev pub close_active : Events → Str → Poll → World Db → Result (Poll × PollResult) × World Db
  close_active ev id p w =
      let (shut, d) = close_gates r.redis r.store ev.gates (ev.clock 0) p.id p.ends_at w.db in
      store_final ev id p (record w { db = d })
        (shut >> totals r.redis r.store (ev.wire 0) (ev.clock 1) p.id (option_ids p) d)

  abbrev pub close_from :
      Events → Str → Poll → World Db → PollStatus → Result (Poll × PollResult) × World Db
  close_from ev id p w closed = (load_result ev.calls 1 id w.tables >>= (λ res. ok (p, res)), w)
  close_from ev id p w draft = (err (invalid_transition ""), w)
  close_from ev id p w active = close_active ev id p w

  abbrev pub close_with :
      Events → Str → World Db → Result Poll → Result (Poll × PollResult) × World Db
  close_with ev id w (err e) = (err e, w)
  close_with ev id w (ok p) = close_from ev id p w p.status

  -- `ResultService.Close`
  unfoldable pub close : Events → Str → World Db → Result (Poll × PollResult) × World Db
  unfolding get load_result totals close_gates save_snapshot cache_delete
  close ev id w = close_with ev id w (get_by_id ev.calls 0 id w.tables)

  -- What `Snapshot` does while it holds the lock; the deferred release follows it.
  abbrev pub snapshot_locked :
      Events → Poll → World Db → Result Totals → Result (Unit {0}) × World Db
  snapshot_locked ev p w (err e) = (err e, w)
  snapshot_locked ev p w (ok t) =
      let (saved, tables) = save_snapshot ev.calls p t false w.tables in
      (saved >>= (λ _. ok tt), record w { tables = tables })

  abbrev pub snapshot_with :
      Events → Str → Poll → World Db → Result Bool → Result (Unit {0}) × World Db
  snapshot_with ev token p w (err e) = (err e, w)
  snapshot_with ev token p w (ok false) = (ok tt, w)
  snapshot_with ev token p w (ok true) =
      let (reply, w1) =
        snapshot_locked ev p w
          (totals r.redis r.store (ev.wire 1) (ev.clock 1) p.id (option_ids p) w.db) in
      let (_, d) = release_lock r.redis (ev.wire 2) (ev.clock 2) p.id token w1.db in
      (reply, record w1 { db = d })

  -- `ResultService.Snapshot`
  unfoldable pub snapshot : Events → Poll → World Db → Result (Unit {0}) × World Db
  unfolding new_uuid acquire_lock release_lock totals save_snapshot
  snapshot ev p w = elim (new_uuid ev.random) [
    | err e ↦ (err e, w)
    | ok token ↦
        let (locked, d) =
          acquire_lock r.redis (ev.wire 0) (ev.clock 0) p.id token (4 * second) w.db in
        snapshot_with ev token p (record w { db = d }) locked
  ]

  -- The loop of the worker's `run` over the active polls; the outcomes go to its observer.
  unfoldable pub snapshot_all :
      (ℕ → Events) → ℕ → List Poll → World Db → List (Result (Unit {0})) × World Db
  snapshot_all evs i [] w = ([], w)
  snapshot_all evs i (p ∷ ps) w =
      let (reply, w1) = snapshot (evs i) p w in
      let (replies, w2) = snapshot_all evs (suc i) ps w1 in (reply ∷ replies, w2)

  -- `run`, with the calls of the listing and the events of the snapshots.
  unfoldable pub worker_run : Calls → (ℕ → Events) → World Db → List (Result (Unit {0})) × World Db
  unfolding list_active snapshot_all
  worker_run calls evs w = elim (list_active calls 0 w.tables) [
    | err e ↦ (err e ∷ [], w)
    | ok ps ↦ snapshot_all evs 0 ps w
  ]
