-- ===== src/Service/Rounds.antt =====
-- internal/worker/snapshot.go `run` with its observer, the counters of snapshots of
-- internal/httpapi/metrics.go.
pub mod Kept
use mipttest_task.Base.{ℕ, suc, ◌-◌, Option, none, some, List, [], ◌∷◌}
use mipttest_task.Domain.Errors.{Result, ok, err}
use mipttest_task.Domain.Poll.{Time}
use mipttest_task.Postgres.Calls.{Calls}
use mipttest_task.Service.World.{World, Replica, Events}
use mipttest_task.Service.Results.{worker_run}

-- The counters of snapshots of `Metrics`. The time of the last success is that whose `UnixNano` the code
-- stores, `none` where it still holds 0.
pub record SnapshotMetrics : Type 0 where
  pub snapshots : ℕ
  pub snapshot_errors : ℕ
  pub last_snapshot : Option Time

-- `SnapshotSuccess`
abbrev pub snapshot_success : Time → SnapshotMetrics → SnapshotMetrics
snapshot_success now m = record m { snapshots = suc m.snapshots; last_snapshot = some now }

-- `SnapshotError`
abbrev pub snapshot_error : SnapshotMetrics → SnapshotMetrics
snapshot_error m = record m { snapshot_errors = suc m.snapshot_errors }

-- The age that `ServeHTTP` writes, in nanoseconds: 0 where there was no success, or where it lies ahead.
abbrev pub snapshot_age : Time → SnapshotMetrics → ℕ
snapshot_age now m = elim m.last_snapshot [ none ↦ 0 | some t ↦ now - t ]

abbrev pub observe_one : Time → Result (Unit {0}) → SnapshotMetrics → SnapshotMetrics
observe_one now (err e) m = snapshot_error m
observe_one now (ok _) m = snapshot_success now m

-- The observer behind the outcomes of a round, from the clock's `i`th reading on.
unfoldable pub observe :
    (ℕ → Time) → ℕ → List (Result (Unit {0})) → SnapshotMetrics → SnapshotMetrics
observe clock i [] m = m
observe clock i (reply ∷ replies) m = observe clock (suc i) replies (observe_one (clock i) reply m)

-- What happens around a round of the ticker: the calls of its listing, the events of its snapshots, the
-- readings of the observer's clock.
pub record Round : Type 0 where
  pub calls : Calls
  pub events : ℕ → Events
  pub clock : ℕ → Time

module _ {Db : Type 0} (r : Replica Db) where
  -- `run` with its observer.
  unfoldable pub observed_run : Round → SnapshotMetrics → World Db → SnapshotMetrics × World Db
  unfolding worker_run observe
  observed_run x m w =
      let (replies, w') = worker_run r x.calls x.events w in (observe x.clock 0 replies m, w')

  -- `Run`: a round for each tick, until its context ends.
  unfoldable pub worker_loop : List Round → SnapshotMetrics → World Db → SnapshotMetrics × World Db
  unfolding observed_run
  worker_loop [] m w = (m, w)
  worker_loop (x ∷ xs) m w = let (m', w') = observed_run x m w in worker_loop xs m' w'
