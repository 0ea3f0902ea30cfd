-- ===== src/Postgres/Results/Live.antt =====
-- What a snapshot of a poll without a final result stores.
use mipttest_task.Base.{ℕ, ◌+◌, ◌≤◌, ◌≡◌, refl, ap, ◌∙◌, false, none, some, [], length, All}
use mipttest_task.Base.Dict.{Dict, lookup, get_or}
use mipttest_task.Domain.Errors.{Result, ok, ◌>>=◌}
use mipttest_task.Domain.Poll.{PollStatus, Poll, Totals, PollResult}
use mipttest_task.Postgres.Tables.{uuid_of, PollRow, RuntimeRow, Tables, find_poll, find_runtime}
use mipttest_task.Postgres.Calls.{no_faults}
use mipttest_task.Postgres.Results.{
  load_result, final_time, upsert_runtime, runtime_row, written, save_snapshot, finish, result_of,
  option_counts,
}
use mipttest_task.Postgres.Results.Final.{
  stored_options, save_options-stored, find_runtime-upsert_runtime,
}
use mipttest_task.Postgres.Results.Counted.{HaveKeys, AreOld, AreDistinct, stored_options-counts}
use mipttest_task.Postgres.Results.Closed.{
  merged_new, save_options-total, save_snapshot-run, load_result-found,
}

module _ (p : Poll) (totals : Totals) (t : Tables) where
  written_live :
      (s : PollStatus)
      → written no_faults false s p totals t
        ≡ ok (record t {
          poll_runtime_results = upsert_runtime (runtime_row p totals none) t.poll_runtime_results;
          poll_option_results = stored_options no_faults p totals t p.options t.poll_option_results;
        })
  unfolding written
  written_live s =
      let (rows, e) = save_options-total 4 p totals p.options t.poll_option_results in
      ap
        (λ r. r >>= (λ x. ok (record t {
          poll_runtime_results = upsert_runtime (runtime_row p totals none) t.poll_runtime_results;
          poll_option_results = x;
        })))
        (e
          ∙ ap ok
              (save_options-stored no_faults p totals t 4 p.options t.poll_option_results rows e))

  -- A snapshot whose calls are all answered, of a stored poll without a final result and without newer
  -- rows, is what is read of the poll behind it, with the count of each of its options.
  pub save_snapshot-stores :
      (i : ℕ) (q : PollRow)
      → find_poll (uuid_of p.id) t.polls ≡ some q
      → final_time (find_runtime (uuid_of p.id) t.poll_runtime_results) ≡ none
      → ((r : RuntimeRow)
          → find_runtime (uuid_of p.id) t.poll_runtime_results ≡ some r
          → r.captured_at ≤ totals.as_of)
      → AreDistinct p.options
      → HaveKeys t.poll_option_results
      → AreOld (uuid_of p.id) totals.as_of t.poll_option_results
      → (m : Dict ℕ) × (res : PollResult) × (res ≡ result_of q (runtime_row p totals none) m)
        × All (λ o. lookup o.id m ≡ some (get_or totals.options o.id 0)) p.options
        × ((save_snapshot no_faults p totals false t).0 ≡ ok res)
        × (load_result no_faults i p.id (save_snapshot no_faults p totals false t).1 ≡ ok res)
  save_snapshot-stores i q e f old distinct keys rows_old =
      let rows = stored_options no_faults p totals t p.options t.poll_option_results in
      let w = written_live q.status in
      let new = runtime_row p totals none in
      let t2 : Tables = record t {
        poll_runtime_results = upsert_runtime new t.poll_runtime_results;
        poll_option_results = rows;
      } in
      let row : find_runtime (uuid_of p.id) t2.poll_runtime_results ≡ some new =
        find_runtime-upsert_runtime new t.poll_runtime_results ∙ ap some (merged_new new _ f old) in
      let run =
        save_snapshot-run p totals t false q e f
        ∙ ap (finish no_faults (5 + length p.options) p.id t) w in
      let m = option_counts (uuid_of p.id) rows [] in
      (
        m,
        result_of q new m,
        refl,
        stored_options-counts p totals t p.options t.poll_option_results distinct keys rows_old,
        ap (λ (x : Result PollResult × Tables). x.0) run ∙ load_result-found _ p.id t2 q new e row,
        ap (λ (x : Result PollResult × Tables). load_result no_faults i p.id x.1) run
            ∙ load_result-found i p.id t2 q new e row,
      )
