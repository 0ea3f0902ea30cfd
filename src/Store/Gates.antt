-- ===== src/Store/Gates.antt =====
-- internal/redisstore/votes.go: `SetupGates`, `CloseGates` and `DeleteGates`.
pub mod Effect
pub mod Deleted
pub mod Shut
use mipttest_task.Base.{ℕ, List, [], ◌∷◌, Str, codes, take, range_from}
use mipttest_task.Domain.Errors.{Result, ok, err}
use mipttest_task.Domain.Poll.{Time}
use mipttest_task.Redis.{Redis}
use mipttest_task.Store.Keys.{gate_key}
use mipttest_task.Store.Ttl.{Store, ttl}
use mipttest_task.Store.Wire.{
  Pipeline, complete, broken_after, unreachable, Wire, answered, lost, unacknowledged, call,
}

module _ {Db : Type 0} (r : Redis Db) where
  -- The `SET`s of the gates of the given buckets.
  unfoldable pub set_gates : Str → Time → Str → ℕ → List ℕ → Db → Db
  set_gates value now poll_id n [] d = d
  set_gates value now poll_id n (b ∷ bs) d =
      set_gates value now poll_id n bs (r.set d now (gate_key poll_id b) value n)

  unfoldable pub del_gates : Str → List ℕ → Db → Db
  del_gates poll_id [] d = d
  del_gates poll_id (b ∷ bs) d = del_gates poll_id bs (r.del d (gate_key poll_id b))

  module _ (s : Store) where
    -- The pipeline that both calls send.
    unfoldable pub write_gates : Str → Pipeline → Time → Str → Time → Db → Result (Unit {0}) × Db
    write_gates value complete now poll_id ends_at d =
        (ok tt, set_gates value now poll_id (ttl s ends_at now) (range_from 0 s.buckets) d)
    write_gates value (broken_after n) now poll_id ends_at d = (
      err unreachable,
      set_gates value now poll_id (ttl s ends_at now) (take n (range_from 0 s.buckets)) d,
    )

    unfoldable pub setup_gates : Pipeline → Time → Str → Time → Db → Result (Unit {0}) × Db
    unfolding set_gates write_gates
    setup_gates = write_gates (codes "active")

    unfoldable pub close_gates : Pipeline → Time → Str → Time → Db → Result (Unit {0}) × Db
    unfolding set_gates write_gates
    close_gates = write_gates (codes "closed")

    -- One `DEL` of all keys.
    unfoldable pub delete_gates : Wire → Str → Db → Result (Unit {0}) × Db
    unfolding del_gates
    delete_gates wire poll_id d = call wire d (tt, del_gates poll_id (range_from 0 s.buckets) d)
