-- ===== src/Postgres/Results/Closed.antt =====
-- What a close stores and returns, where its calls are all answered.
use mipttest_task.Base.{
  ℕ, suc, ◌+◌, ◌≤◌, ◌<◌, ◌≡◌, ◌≢◌, refl, ap, ap₂, ◌∙◌, Bool, true, Option, none, some, List, [],
  ◌∷◌, arith, Str, eq_str_iff, length,
}
use mipttest_task.Base.Dict.{Dict}
use mipttest_task.Domain.Errors.{Result, ok}
use mipttest_task.Domain.Poll.{
  PollStatus, draft, closed, Poll, PollOption, Totals, PollResult, postgres_snapshot,
  postgres_final,
}
use mipttest_task.Postgres.Tables.{
  uuid_of, PollRow, RuntimeRow, OptionResultRow, Tables, find_poll, find_runtime, update_poll,
}
use mipttest_task.Postgres.Calls.{no_faults}
use mipttest_task.Postgres.Results.{
  load_result, select_status, final_time, upsert_runtime, runtime_row, close_row, written,
  save_snapshot, save_options, save_known, finish, result_of, option_counts, source_of,
}
use mipttest_task.Postgres.Results.Final.{
  merged, find_runtime-upsert_runtime, find_poll-update_poll,
}

pub merged_new :
    (new : RuntimeRow) (o : Option RuntimeRow)
    → final_time o ≡ none
    → ((r : RuntimeRow) → o ≡ some r → r.captured_at ≤ new.captured_at)
    → merged new o ≡ new
merged_new new none f old = refl
merged_new new (some r) f old = ground (arith, old r refl)

pub find_poll-id :
    (id : Str) (ps : List PollRow) (q : PollRow) → find_poll id ps ≡ some q → q.id ≡ id
unfolding find_poll
find_poll-id id [] q h = cc
find_poll-id id (x ∷ ps) q h = ground (arith, eq_str_iff x.id id, find_poll-id id ps q)

pub save_options-total :
    (i : ℕ) (p : Poll) (totals : Totals) (os : List PollOption) (rows : List OptionResultRow)
    → (rows' : List OptionResultRow) × (save_options no_faults i p totals os rows ≡ ok rows')
unfolding save_options
save_options-total i p totals [] rows = (rows, refl)
save_options-total i p totals (o ∷ os) rows = save_options-total (suc i) p totals os _

pub load_result-found :
    (i : ℕ) (id : Str) (t : Tables) (a : PollRow) (b : RuntimeRow)
    → find_poll (uuid_of id) t.polls ≡ some a
    → find_runtime (uuid_of id) t.poll_runtime_results ≡ some b
    → load_result no_faults i id t
      ≡ ok (result_of a b (option_counts (uuid_of id) t.poll_option_results []))
unfolding load_result
load_result-found i id t a b e f = rw (e, f)

pub select_status_lem :
    (id : Str) (t : Tables) (q : PollRow)
    → find_poll id t.polls ≡ some q
    → select_status id t ≡ ok q.status
select_status_lem id t q e = ground arith

module _ (p : Poll) (totals : Totals) (t : Tables) where
  written-total :
      (s : PollStatus)
      → s ≢ draft
      → (rows : List OptionResultRow) × (written no_faults true s p totals t
          ≡ ok (record t {
            polls = update_poll (uuid_of p.id) (close_row totals.as_of) t.polls;
            poll_runtime_results =
                upsert_runtime (runtime_row p totals (some totals.as_of)) t.poll_runtime_results;
            poll_option_results = rows;
          }))
  unfolding written
  written-total s h =
      let (rows, e) = save_options-total 4 p totals p.options t.poll_option_results in
      (rows, ground arith)

  pub save_snapshot-run :
      (finalized : Bool) (q : PollRow)
      → find_poll (uuid_of p.id) t.polls ≡ some q
      → final_time (find_runtime (uuid_of p.id) t.poll_runtime_results) ≡ none
      → save_snapshot no_faults p totals finalized t
        ≡ finish no_faults
            (5 + length p.options)
            p.id
            t
            (written no_faults finalized q.status p totals t)
  unfolding save_snapshot
  save_snapshot-run finalized q e f =
      ap₂ (λ a b. save_known no_faults finalized p totals t a b)
        (select_status_lem (uuid_of p.id) t q e) (ap ok f)

  -- A close whose calls are all answered, of a poll that is no draft and has no final result yet: the
  -- poll's row is closed, and the reply is the runtime row as the upsert leaves it.
  pub save_snapshot-closes :
      (q : PollRow)
      → find_poll (uuid_of p.id) t.polls ≡ some q
      → q.status ≢ draft
      → final_time (find_runtime (uuid_of p.id) t.poll_runtime_results) ≡ none
      → let (reply, t') = save_snapshot no_faults p totals true t in
        let new = runtime_row p totals (some totals.as_of) in
        let row = merged new (find_runtime (uuid_of p.id) t.poll_runtime_results) in
        (find_poll (uuid_of p.id) t'.polls ≡ some (close_row totals.as_of q))
        × (find_runtime (uuid_of p.id) t'.poll_runtime_results ≡ some row)
        × ((m : Dict ℕ) × (reply ≡ ok (result_of (close_row totals.as_of q) row m)))
  save_snapshot-closes q e s f =
      let (rows, w) = written-total q.status s in
      let new = runtime_row p totals (some totals.as_of) in
      let t2 : Tables = record t {
        polls = update_poll (uuid_of p.id) (close_row totals.as_of) t.polls;
        poll_runtime_results = upsert_runtime new t.poll_runtime_results;
        poll_option_results = rows;
      } in
      let stored : find_poll (uuid_of p.id) t2.polls ≡ some (close_row totals.as_of q) =
        find_poll-update_poll (uuid_of p.id) (close_row totals.as_of) t.polls q refl e in
      let final = find_runtime-upsert_runtime new t.poll_runtime_results in
      let run =
        save_snapshot-run true q e f ∙ ap (finish no_faults (5 + length p.options) p.id t) w in
      (
        ap (λ (x : Result PollResult × Tables). find_poll (uuid_of p.id) x.1.polls) run ∙ stored,
        ap
              (λ (x : Result PollResult × Tables).
                find_runtime (uuid_of p.id) x.1.poll_runtime_results)
              run
            ∙ final,
        (
          option_counts (uuid_of p.id) rows [],
          ap (λ (x : Result PollResult × Tables). x.0) run
              ∙ load_result-found _ p.id t2 _ _ stored final,
        ),
      )

  -- Such a close makes the result final with its own totals, if no stored snapshot is newer than them.
  pub save_snapshot-finalizes :
      (q : PollRow)
      → find_poll (uuid_of p.id) t.polls ≡ some q
      → q.status ≢ draft
      → final_time (find_runtime (uuid_of p.id) t.poll_runtime_results) ≡ none
      → ((r : RuntimeRow)
          → find_runtime (uuid_of p.id) t.poll_runtime_results ≡ some r
          → r.captured_at ≤ totals.as_of)
      → (res : PollResult) × ((save_snapshot no_faults p totals true t).0 ≡ ok res)
        × (res.status ≡ closed)
        × (res.source ≡ postgres_final)
        × (res.finalized_at ≡ some totals.as_of)
        × (res.participants ≡ totals.participants)
  save_snapshot-finalizes q e s f old =
      let (_, _, (m, reply)) = save_snapshot-closes q e s f in
      let row : merged (runtime_row p totals (some totals.as_of))
            (find_runtime (uuid_of p.id) t.poll_runtime_results)
          ≡ runtime_row p totals (some totals.as_of) =
        merged_new (runtime_row p totals (some totals.as_of))
          (find_runtime (uuid_of p.id) t.poll_runtime_results) f old in
      (
        result_of (close_row totals.as_of q) (runtime_row p totals (some totals.as_of)) m,
        reply ∙ ap (λ r. ok (result_of (close_row totals.as_of q) r m)) row,
        refl,
        refl,
        refl,
        refl,
      )

  -- Where the stored snapshot of the poll is newer than the totals of the close, as the clocks of two
  -- replicas make it, the poll is closed all the same, but its result is not final: the reply is the
  -- older snapshot with no time of finalization.
  pub save_snapshot-closes_unfinalized :
      (q : PollRow) (r : RuntimeRow)
      → find_poll (uuid_of p.id) t.polls ≡ some q
      → q.status ≢ draft
      → find_runtime (uuid_of p.id) t.poll_runtime_results ≡ some r
      → r.finalized_at ≡ none
      → totals.as_of < r.captured_at
      → let (reply, t') = save_snapshot no_faults p totals true t in
        (find_poll (uuid_of p.id) t'.polls ≡ some (close_row totals.as_of q))
        × (find_runtime (uuid_of p.id) t'.poll_runtime_results ≡ some r)
        × ((res : PollResult) × (reply ≡ ok res)
            × (res.status ≡ closed)
            × (res.source ≡ postgres_snapshot)
            × (res.finalized_at ≡ none)
            × (res.participants ≡ r.participants_count))
  save_snapshot-closes_unfinalized q r e s f n late =
      let open_row : final_time (find_runtime (uuid_of p.id) t.poll_runtime_results) ≡ none =
        rw f n in
      let (row_q, row_r, (m, reply)) = save_snapshot-closes q e s open_row in
      let kept : merged (runtime_row p totals (some totals.as_of))
            (find_runtime (uuid_of p.id) t.poll_runtime_results)
          ≡ r =
        rw f (ground arith) in
      (
        row_q,
        row_r ∙ ap some kept,
        (
          result_of (close_row totals.as_of q) r m,
          reply ∙ ap (λ r. ok (result_of (close_row totals.as_of q) r m)) kept,
          refl,
          ap source_of n,
          n,
          refl,
        ),
      )
