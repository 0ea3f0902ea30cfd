-- ===== src/Postgres/Results.antt =====
-- internal/postgres/results.go: `SaveSnapshot` and `LoadResult`.
pub mod Upserts
pub mod Final
pub mod Closed
pub mod Loaded
pub mod Counted
pub mod Live
use mipttest_task.Base.{
  ℕ, suc, ◌+◌, Bool, true, false, not, ◌&&◌, ◌||◌, Option, none, some, List, [], ◌∷◌, leb,
  if◌then◌else◌, Str, eq_str, length,
}
use mipttest_task.Base.Dict.{Dict, insert, get_or}
use mipttest_task.Domain.Errors.{
  Result, ok, err, Error, not_found, invalid_transition, ◌>>=◌, ◌>>◌, fail_if,
}
use mipttest_task.Domain.Poll.{
  Time, PollStatus, draft, active, closed, is_status, Poll, PollOption, Totals, PollResult, Source,
  redis_live, postgres_snapshot, postgres_final,
}
use mipttest_task.Store.Wire.{Wire}
use mipttest_task.Postgres.Tables.{
  uuid_of, PollRow, OptionRow, RuntimeRow, OptionResultRow, Tables, find_poll, find_runtime,
  update_poll,
}
use mipttest_task.Postgres.Calls.{Calls, answer, commit}

-- `LoadResult`: the poll joined with its runtime row, then the counts of its options.
abbrev pub source_of : Option Time → Source
source_of none = postgres_snapshot
source_of (some _) = postgres_final

unfoldable pub option_counts : Str → List OptionResultRow → Dict ℕ → Dict ℕ
option_counts id [] m = m
option_counts id (r ∷ rs) m =
    option_counts id rs (if eq_str r.poll_id id then insert r.option_id r.vote_count m else m)

abbrev pub result_of : PollRow → RuntimeRow → Dict ℕ → PollResult
result_of p r m = record {
  poll_id = p.id;
  status = p.status;
  source = source_of r.finalized_at;
  as_of = r.captured_at;
  finalized_at = r.finalized_at;
  participants = r.participants_count;
  options = m;
}

abbrev joined : Option PollRow → Option RuntimeRow → Dict ℕ → Result PollResult
joined (some p) (some r) m = ok (result_of p r m)
joined _ _ m = err not_found

unfoldable pub load_result : Calls → ℕ → Str → Tables → Result PollResult
unfolding find_poll find_runtime option_counts
load_result calls i id t =
    answer (calls i) (
      joined (find_poll (uuid_of id) t.polls) (find_runtime (uuid_of id) t.poll_runtime_results) [])
    >>= (λ r. answer (calls (suc i)) (
        joined (find_poll (uuid_of id) t.polls) (find_runtime (uuid_of id) t.poll_runtime_results)
          (option_counts (uuid_of id) t.poll_option_results [])))

-- `SELECT status … FOR UPDATE`
abbrev pub select_status : Str → Tables → Result PollStatus
select_status id t = elim (find_poll id t.polls) [ none ↦ err not_found | some p ↦ ok p.status ]

-- `SELECT finalized_at …`, which may find no row.
abbrev pub final_time : Option RuntimeRow → Option Time
final_time none = none
final_time (some r) = r.finalized_at

-- `INSERT … ON CONFLICT(poll_id) DO UPDATE … WHERE finalized_at IS NULL AND captured_at <= …`
abbrev pub is_open : RuntimeRow → Bool
is_open r = elim r.finalized_at [ none ↦ true | some _ ↦ false ]

unfoldable pub upsert_runtime : RuntimeRow → List RuntimeRow → List RuntimeRow
upsert_runtime new [] = new ∷ []
upsert_runtime new (r ∷ rs) =
    if eq_str r.poll_id new.poll_id
    then (if is_open r && leb r.captured_at new.captured_at then new else r) ∷ rs
    else r ∷ upsert_runtime new rs

unfoldable pub upsert_option : OptionResultRow → List OptionResultRow → List OptionResultRow
upsert_option new [] = new ∷ []
upsert_option new (r ∷ rs) =
    if eq_str r.poll_id new.poll_id && eq_str r.option_id new.option_id
    then (if leb r.captured_at new.captured_at then new else r) ∷ rs
    else r ∷ upsert_option new rs

abbrev pub runtime_row : Poll → Totals → Option Time → RuntimeRow
runtime_row p totals final_at = record {
  poll_id = uuid_of p.id;
  participants_count = totals.participants;
  captured_at = totals.as_of;
  finalized_at = final_at;
}

abbrev pub option_row : Poll → Totals → PollOption → OptionResultRow
option_row p totals o = record {
  poll_id = uuid_of p.id;
  option_id = o.id;
  vote_count = get_or totals.options o.id 0;
  captured_at = totals.as_of;
}

-- The loop over the options; a call for each, from the `i`th on.
unfoldable pub save_options :
    Calls
    → ℕ
    → Poll
    → Totals
    → List PollOption
    → List OptionResultRow
    → Result (List OptionResultRow)
save_options calls i p totals [] rows = ok rows
save_options calls i p totals (o ∷ os) rows =
    answer (calls i) (ok (upsert_option (option_row p totals o) rows))
    >>= save_options calls (suc i) p totals os

-- `closed_at=COALESCE(closed_at,$2)`
abbrev pub coalesce : Option Time → Time → Option Time
coalesce none t = some t
coalesce (some s) t = some s

abbrev pub close_row : Time → PollRow → PollRow
close_row t p = record p { status = closed; closed_at = coalesce p.closed_at t; updated_at = t }

abbrev pub final_at : Bool → Time → Option Time
final_at true t = some t
final_at false t = none

-- The `if finalized` behind the loop.
abbrev pub close_poll : Calls → ℕ → Bool → PollStatus → Poll → Totals → Tables → Result Tables
close_poll calls i false status p totals t = ok t
close_poll calls i true status p totals t =
    fail_if (not (is_status status active) && not (is_status status closed)) (invalid_transition "")
    >> answer (calls i)
        (ok (record t { polls = update_poll (uuid_of p.id) (close_row totals.as_of) t.polls }))

-- What the statements behind the two `SELECT`s make of the tables, before the commit.
unfoldable pub written : Calls → Bool → PollStatus → Poll → Totals → Tables → Result Tables
unfolding upsert_runtime upsert_option save_options update_poll
written calls finalized status p totals t = do
  runtime ← answer (calls 3) (
      ok (
        upsert_runtime (runtime_row p totals (final_at finalized totals.as_of))
          t.poll_runtime_results))
  options ← save_options calls 4 p totals p.options t.poll_option_results
  close_poll calls (4 + length p.options) finalized status p totals
      (record t { poll_runtime_results = runtime; poll_option_results = options })

-- A commit and the reading of what is stored then.
abbrev pub commit_and_load : Calls → ℕ → Str → Tables → Tables → Result PollResult × Tables
commit_and_load calls i id before after =
    let (done, t) = commit (calls i) before after in (done >> load_result calls (suc i) id t, t)

abbrev pub finish : Calls → ℕ → Str → Tables → Result Tables → Result PollResult × Tables
finish calls i id before (ok after) = commit_and_load calls i id before after
finish calls i id before (err e) = (err e, before)

abbrev pub save_known :
    Calls
    → Bool
    → Poll
    → Totals
    → Tables
    → Result PollStatus
    → Result (Option Time)
    → Result PollResult × Tables
save_known calls finalized p totals t (err e) _ = (err e, t)
save_known calls finalized p totals t (ok status) (err e) = (err e, t)
save_known calls finalized p totals t (ok status) (ok (some _)) = commit_and_load calls 3 p.id t t
save_known calls finalized p totals t (ok status) (ok none) =
    finish calls (5 + length p.options) p.id t (written calls finalized status p totals t)

-- `SaveSnapshot`. Call 0 begins the transaction, 1 and 2 are the `SELECT`s.
unfoldable pub save_snapshot : Calls → Poll → Totals → Bool → Tables → Result PollResult × Tables
unfolding load_result written
save_snapshot calls p totals finalized t =
    save_known calls finalized p totals t
      (answer (calls 0) (ok tt) >> answer (calls 1) (select_status (uuid_of p.id) t))
      (answer (calls 2) (ok (final_time (find_runtime (uuid_of p.id) t.poll_runtime_results))))
