-- ===== src/Tests/HistoryTests.antt =====
-- Histories of writes at concrete inputs.
use mipttest_task.Base.{◌≡◌, refl, true, some, [], ◌∷◌, codes, eq_str}
use mipttest_task.Domain.Errors.{ok}
use mipttest_task.Domain.Poll.{closed}
use mipttest_task.Postgres.Calls.{no_faults}
use mipttest_task.Postgres.Tables.{Tables, find_poll, find_runtime}
use mipttest_task.Store.Wire.{unacknowledged}
use mipttest_task.Postgres.Polls.{publish, revert_publish}
use mipttest_task.Postgres.Results.{save_snapshot, load_result, result_of, option_counts}
use mipttest_task.Postgres.History.{History, start, write, publishes, reverts, saves}
use mipttest_task.Postgres.History.Frozen.{history-load_result}
use mipttest_task.Tests.PostgresTests.{row, runtime, tables, poll, totals_at}

abbrev frozen_tables : Tables
frozen_tables = tables closed (runtime 30 (some 30) ∷ [])

abbrev later_tables : Tables
later_tables =
    let t1 = (save_snapshot no_faults poll (totals_at 40) true frozen_tables).1 in
    let t2 = (publish (λ _. unacknowledged) 8 (codes "p") 50 t1).1 in
    (revert_publish unacknowledged (codes "p") 50 60 t2).1

later_writes : History frozen_tables later_tables
later_writes = write (saves no_faults poll (totals_at 40) true) (
    write (publishes (λ _. unacknowledged) 8 (codes "p") 50)
      (write (reverts unacknowledged (codes "p") 50 60) start))

history-load_result_example :
    (load_result no_faults 0 (codes "p") later_tables
      ≡ ok (result_of (row closed) (runtime 30 (some 30)) []))
    × (load_result no_faults 0 (codes "p") frozen_tables
        ≡ load_result no_faults 0 (codes "p") later_tables)
history-load_result_example =
    history-load_result (codes "p") (row closed) (runtime 30 (some 30)) [] 30 refl refl
      frozen_tables later_tables 0 0 (unfold find_poll eq_str in refl)
      (unfold find_runtime eq_str in refl) (unfold option_counts in refl) later_writes
