-- ===== src/Postgres/History.antt =====
-- The writers of internal/postgres in any order: `Create`, `Publish`, `RevertPublish` and
-- `SaveSnapshot`, with any arguments and any ends of their calls.
pub mod Kept
pub mod Frozen
use mipttest_task.Base.{ℕ, Bool, Option, List, Str}
use mipttest_task.Domain.Poll.{Time, Poll, CreatePoll, Totals}
use mipttest_task.Store.Wire.{Wire}
use mipttest_task.Postgres.Tables.{Tables}
use mipttest_task.Postgres.Calls.{Calls}
use mipttest_task.Postgres.Polls.{create, publish, revert_publish}
use mipttest_task.Postgres.Results.{save_snapshot}

-- What one operation makes of the tables.
pub data Write : Tables → Tables → Type 0 where
  creates :
      {t : Tables} (random : ℕ → Option (List ℕ)) (calls : Calls) (buckets : ℕ) (c : CreatePoll)
      (now : Time)
      → Write t (create random calls buckets c now t).1
  publishes :
      {t : Tables} (calls : Calls) (buckets : ℕ) (id : Str) (now : Time)
      → Write t (publish calls buckets id now t).1
  reverts :
      {t : Tables} (w : Wire) (id : Str) (at now : Time) → Write t (revert_publish w id at now t).1
  saves :
      {t : Tables} (calls : Calls) (p : Poll) (totals : Totals) (finalized : Bool)
      → Write t (save_snapshot calls p totals finalized t).1

-- A history: operations one behind the other.
pub data History : Tables → Tables → Type 0 where
  start : {t : Tables} → History t t
  write : {t t1 t2 : Tables} → Write t t1 → History t1 t2 → History t t2
