-- ===== src/Tests/PostgresTests.antt =====
-- internal/postgres at concrete inputs.
use mipttest_task.Base.{
  if◌then◌else◌, ◌*◌, ◌/◌, ℕ, ◌≡◌, ◌≢◌, refl, ◌⊎◌, true, false, Option, none, some, List, [], ◌∷◌,
  arith, Str, codes, eq_str, trim_space, length, map, take, Bool, count_p,
}
use mipttest_task.Base.Int.{pos}
use mipttest_task.Domain.Errors.{ok, err, invalid_transition}
use mipttest_task.Domain.Poll.{
  Time, multiple_choice, PollStatus, draft, active, closed, Poll, CreatePoll, Totals, PollResult,
  validate, postgres_snapshot, postgres_final,
}
use mipttest_task.Domain.Uuid.{new_uuid, hex_encode, strip_dashes}
use mipttest_task.Store.Wire.{answered, unacknowledged}
use mipttest_task.Postgres.Tables.{PollRow, OptionRow, RuntimeRow, Tables, find_poll, find_runtime}
use mipttest_task.Postgres.Calls.{no_faults}
use mipttest_task.Postgres.Reads.{
  get_by_id, poll_of, order_by, insert_by, join, is_older, list_recent, scan_recent, in_order,
  str_before,
}
use mipttest_task.Postgres.Reads.Sorted.{IsSorted}
use mipttest_task.Postgres.Reads.Recent.{listed, list_recent-listed}
use mipttest_task.Postgres.Reads.Found.{sorted_options}
use mipttest_task.Postgres.Results.{save_snapshot, close_row}
use mipttest_task.Postgres.Results.Final.{saved, save_snapshot-final, save_snapshot-atomic}
use mipttest_task.Postgres.Results.Closed.{
  save_snapshot-finalizes, save_snapshot-closes_unfinalized,
}
use mipttest_task.Postgres.Polls.{
  create, created, insert_poll, insert_options, insert_option, publish, revert_publish,
}
use mipttest_task.Postgres.Polls.Status.{
  as_published, published, publish-transition, publish-by_status,
}
use mipttest_task.Postgres.Polls.Reverted.{revert_publish-other, publish-revert_publish}
use mipttest_task.Postgres.Polls.Created.{create-get_by_id}

abbrev pub row : PollStatus → PollRow
row s = record {
  id = codes "p";
  slug = codes "poll-p";
  question = codes "q";
  poll_type = multiple_choice;
  max_choices = pos 2;
  vote_buckets = 4;
  status = s;
  starts_at = 5;
  ends_at = 100;
  created_at = 1;
  updated_at = 1;
  published_at = none;
  closed_at = none;
}

abbrev pub option_row_of : Str → ℕ → OptionRow
option_row_of id n = record { id = id; poll_id = codes "p"; text = codes "o"; position = n }

abbrev pub runtime : Time → Option Time → RuntimeRow
runtime t f = record {
  poll_id = codes "p";
  participants_count = 3;
  captured_at = t;
  finalized_at = f;
}

abbrev pub tables : PollStatus → List RuntimeRow → Tables
tables s rs = record {
  polls = row s ∷ [];
  poll_options = option_row_of (codes "b") 1 ∷ option_row_of (codes "a") 0 ∷ [];
  poll_runtime_results = rs;
  poll_option_results = [];
}

abbrev pub poll : Poll
poll = poll_of (row active) (record { id = codes "a"; text = codes "o"; position = 0 } ∷ [])

abbrev pub totals_at : Time → Totals
totals_at t = record { participants = 7; options = (codes "a", 7) ∷ []; as_of = t }

save_snapshot-final_example :
    (save_snapshot no_faults poll (totals_at 40) true (tables closed (runtime 30 (some 30) ∷ []))).1
    ≡ tables closed (runtime 30 (some 30) ∷ [])
save_snapshot-final_example =
    save_snapshot-final no_faults poll (totals_at 40) (tables closed (runtime 30 (some 30) ∷ []))
      true (runtime 30 (some 30)) 30 (unfold find_runtime eq_str in refl) refl

save_snapshot-atomic_example :
    let t = tables active [] in
    let t' = (save_snapshot no_faults poll (totals_at 40) false t).1 in
    (t' ≡ t) ⊎ (t' ≡ saved no_faults poll (totals_at 40) t false)
save_snapshot-atomic_example =
    save_snapshot-atomic no_faults poll (totals_at 40) (tables active []) false

save_snapshot-finalizes_example :
    (res : PollResult) × ((save_snapshot no_faults poll (totals_at 40) true (tables active [])).0
      ≡ ok res)
    × (res.status ≡ closed)
    × (res.source ≡ postgres_final)
    × (res.finalized_at ≡ some 40)
    × (res.participants ≡ 7)
save_snapshot-finalizes_example =
    save_snapshot-finalizes poll (totals_at 40) (tables active []) (row active)
      (unfold find_poll eq_str in refl) (λ h. cc) (unfold find_runtime in refl)
      (unfold find_runtime in λ r h. cc)

save_snapshot-closes_unfinalized_example :
    let t = tables active (runtime 50 none ∷ []) in
    let (reply, t') = save_snapshot no_faults poll (totals_at 40) true t in
    (find_poll poll.id t'.polls ≡ some (close_row 40 (row active)))
    × (find_runtime poll.id t'.poll_runtime_results ≡ some (runtime 50 none))
    × ((res : PollResult) × (reply ≡ ok res)
        × (res.status ≡ closed)
        × (res.source ≡ postgres_snapshot)
        × (res.finalized_at ≡ none)
        × (res.participants ≡ 3))
save_snapshot-closes_unfinalized_example =
    save_snapshot-closes_unfinalized poll (totals_at 40) (tables active (runtime 50 none ∷ []))
      (row active) (runtime 50 none) (unfold find_poll eq_str in refl) (λ h. cc)
      (unfold find_runtime eq_str in refl) refl (omega arith)

publish-transition_example :
    let t = tables draft [] in
    let t' = (publish (λ _. unacknowledged) 8 (codes "p") 9500 t).1 in
    (t' ≡ t)
    ⊎ ((q : PollRow) × (find_poll (codes "p") t.polls ≡ some q)
        × (q.status ≡ draft)
        × (t' ≡ record t {
          polls = map (λ p. if eq_str p.id (codes "p") then as_published 8 9500 p else p) t.polls;
        })
        × (find_poll (codes "p") t'.polls ≡ some (as_published 8 9500 q)))
publish-transition_example =
    publish-transition (λ _. unacknowledged) 8 (codes "p") 9500 (tables draft [])

publish-by_status_example : publish no_faults 8 (codes "p") 9500 (tables draft []) ≡ (
  ok (
      poll_of
        (as_published 8 9500 (row draft))
        (sorted_options (codes "p") (tables draft []).poll_options)),
  published no_faults 8 (codes "p") 9500 (tables draft []),
)
publish-by_status_example =
    (publish-by_status 8 (codes "p") 9500 (tables draft []) (row draft) (tt, tt)
        (unfold find_poll eq_str in refl) (unfold eq_str in omega arith)).0
      refl

revert_publish-other_example :
    let t = tables draft [] in
    ((revert_publish answered (codes "p") 9500 12 t).1 ≡ t)
    × ((revert_publish answered (codes "p") 9500 12 t).0 ≢ ok tt)
    × (answered ≡ answered
        → (revert_publish answered (codes "p") 9500 12 t).0
          ≡ err (invalid_transition "publish compensation"))
revert_publish-other_example =
    revert_publish-other answered (codes "p") 9500 12 (tables draft []) ((λ same is_active. cc), tt)

publish-revert_publish_example :
    let t1 = (publish no_faults 8 (codes "p") 9500 (tables draft [])).1 in
    let (reply, t2) = revert_publish answered (codes "p") 9500 12 t1 in
    (reply ≡ ok tt)
    × (find_poll (codes "p") t2.polls
        ≡ some (record (row draft) {
          vote_buckets = 8;
          status = draft;
          published_at = none;
          updated_at = 12;
        }))
publish-revert_publish_example =
    publish-revert_publish 8 (codes "p") 9500 12 (tables draft []) (row draft)
      (unfold find_poll eq_str in refl) refl

-- A request for a poll of two options, and bytes for its three identifiers.
abbrev request : CreatePoll
request = record {
  question = codes " q ";
  type = multiple_choice;
  max_choices = pos 2;
  starts_at = 5500;
  ends_at = 100000;
  options = codes "yes" ∷ codes "no" ∷ [];
}

abbrev bytes : ℕ → Option (List ℕ)
bytes n = some (n ∷ 1 ∷ 2 ∷ 3 ∷ 4 ∷ 5 ∷ 6 ∷ 7 ∷ 8 ∷ 9 ∷ 10 ∷ 11 ∷ 12 ∷ 13 ∷ 14 ∷ 15 ∷ [])

abbrev made : Poll
made = elim (create bytes no_faults 4 request 1500 (tables draft [])).0 [ err _ ↦ poll | ok p ↦ p ]

made_test : (create bytes no_faults 4 request 1500 (tables draft [])).0 ≡ ok made
unfolding create created validate trim_space new_uuid hex_encode insert_poll insert_options
    insert_option strip_dashes eq_str
made_test = refl

create-get_by_id_example :
    (get_by_id no_faults 9 made.id (create bytes no_faults 4 request 1500 (tables draft [])).1
      ≡ ok (record made {
        starts_at = made.starts_at / 1000 * 1000;
        ends_at = made.ends_at / 1000 * 1000;
        created_at = made.created_at / 1000 * 1000;
        updated_at = made.updated_at / 1000 * 1000;
      }))
    × (length made.options ≡ 2)
create-get_by_id_example =
    create-get_by_id bytes no_faults 4 request 1500 (tables draft []) made 9
      (unfold eq_str in (omega arith, (omega arith, tt))) made_test

-- The poll above, an older one without options, and a newer one with one.
abbrev three_polls : Tables
three_polls = record (tables active []) {
  polls =
      row active
      ∷ record (row draft) { id = codes "o"; slug = codes "poll-o"; created_at = 0 }
      ∷ record (row draft) { id = codes "n"; slug = codes "poll-n"; created_at = 2 }
      ∷ [];
  poll_options =
      record { id = codes "c"; poll_id = codes "n"; text = codes "o"; position = 0 }
      ∷ (tables active []).poll_options;
}

list_recent-listed_example :
    let newest = order_by is_older three_polls.polls in
    (list_recent no_faults 0 50 three_polls ≡ ok (listed three_polls.poll_options (take 50 newest)))
    × IsSorted is_older newest
    × ((test : PollRow → Bool) → count_p test newest ≡ count_p test three_polls.polls)
list_recent-listed_example =
    list_recent-listed 0 50 three_polls
      (unfold eq_str in ((refl, (refl, tt)), ((refl, tt), (tt, tt))))

-- Newest first, without the poll that has no options.
listed_test :
    elim (list_recent no_faults 0 50 three_polls) [
      | ok ps ↦ map (λ (p : Poll). p.id) ps
      | err _ ↦ []
    ]
    ≡ codes "n" ∷ codes "p" ∷ []
unfolding list_recent order_by insert_by join scan_recent in_order str_before eq_str
listed_test = refl
