-- ===== src/Tests/ServiceTests.antt =====
-- internal/service at concrete inputs: a replica on the key space in memory.
use mipttest_task.Base.{
  All, ℕ, Str, true, ap, sym, ◌∙◌, ◌+◌, ◌*◌, ◌≤◌, ◌<◌, ◌≡◌, refl, ◌⊎◌, none, some, [], ◌∷◌, arith,
  codes, eq_str,
}
use mipttest_task.Base.Dict.{get_or, Dict, lookup, insert}
use mipttest_task.Domain.Errors.{ok, err, Error, not_active}
use mipttest_task.Domain.Poll.{
  closed, Time, PollStatus, draft, active, Poll, Totals, PollResult, postgres_snapshot, VoteCommand,
  redis_live, option_ids,
}
use mipttest_task.Domain.Poll.Selection.{IsAllowed}
use mipttest_task.Redis.{second}
use mipttest_task.Redis.Keyspace.{dedupe, Keyspace, memory, memory-laws}
use mipttest_task.Base.Decimal.{itoa, parse_int}
use mipttest_task.Base.Int.{add_int64}
use mipttest_task.Store.Keys.{gate_key, counts_key}
use mipttest_task.Store.Ttl.{ttl, time_sub}
use mipttest_task.Store.Wire.{answered, complete, broken_after, unreachable}
use mipttest_task.Domain.Uuid.{new_uuid, hex_encode}
use mipttest_task.Store.Locks.{acquire_lock}
use mipttest_task.Store.Votes.{record_vote}
use mipttest_task.Store.Gates.{close_gates, set_gates, write_gates}
use mipttest_task.Store.Counters.{totals, add_counters}
use mipttest_task.Postgres.Tables.{find_poll, find_runtime, update_poll}
use mipttest_task.Postgres.Calls.{no_faults}
use mipttest_task.Postgres.Reads.{get, get_by_id, join, order_by, insert_by, scan_poll}
use mipttest_task.Postgres.Results.{
  load_result, save_snapshot, written, upsert_runtime, upsert_option, save_options, option_counts,
}
use mipttest_task.Service.World.{Cache, World, Replica, Events}
use mipttest_task.Service.Votes.{command_for, vote}
use mipttest_task.Service.Votes.Guarded.{
  insert-AreActive, AreActive, vote-guarded, vote-AreActive, found_by,
}
use mipttest_task.Service.Polls.{publish_poll, public_by_slug}
use mipttest_task.Service.Polls.Publication.{publish_poll-compensates}
use mipttest_task.Service.Results.{close, snapshot}
use mipttest_task.Service.Results.Snapshots.{snapshot-stores}
use mipttest_task.Service.Results.Closing.{close-load_result, close-stops_votes}
use mipttest_task.Service.Rounds.{SnapshotMetrics, Round, snapshot_age, snapshot_success}
use mipttest_task.Tests.PostgresTests.{row, tables}

abbrev nothing : Keyspace
nothing k = none

abbrev pub replica : Replica Keyspace
replica = record {
  redis = memory;
  store = record { buckets = 2; retention = 3600 * second; max_ttl = 86400 * second };
  cache_ttl = 10;
  dedup_secret = 1 ∷ [];
  sum256 = λ s. s;
  mac = λ key s. s;
}

abbrev pub quiet : Events
quiet = record {
  clock = λ i. 20 + i;
  calls = no_faults;
  gates = complete;
  wire = λ _. answered;
  random = none;
}

abbrev pub world : PollStatus → World Keyspace
world s = record { tables = tables s []; db = nothing; cache = [] }

vote-guarded_example :
    let (reply, w') =
      vote replica quiet 20 (codes "p") (codes "d") (codes "a" ∷ []) (world active) in
    let found = found_by replica quiet 20 (codes "p") (codes "d") (codes "a" ∷ []) (world active) in
    (w'.tables ≡ tables active [])
    × ((((e : Error) × (reply ≡ err e)) × (w'.db ≡ nothing))
        ⊎ ((p : Poll) × (found ≡ ok p)
            × (p.status ≡ active)
            × (p.starts_at ≤ 20)
            × (20 < p.ends_at)
            × IsAllowed p (codes "a" ∷ [])
            × ((reply, w'.db)
                ≡ record_vote memory
                    (λ s. s)
                    replica.store
                    answered
                    22
                    (command_for replica p (codes "d") (codes "a" ∷ []))
                    nothing)))
vote-guarded_example =
    vote-guarded replica quiet 20 (codes "p") (codes "d") (codes "a" ∷ []) (world active)

pub no_polls-AreActive : AreActive []
unfolding lookup
no_polls-AreActive id e h = cc

vote-AreActive_example :
    AreActive
      (vote replica quiet 20 (codes "p") (codes "d") (codes "a" ∷ []) (world active)).1.cache
    × ((p : Poll)
        → found_by replica quiet 20 (codes "p") (codes "d") (codes "a" ∷ []) (world active) ≡ ok p
        → (p.status ≡ active) × (p.id ≡ codes "p"))
vote-AreActive_example =
    vote-AreActive replica quiet 20 (codes "p") (codes "d") (codes "a" ∷ []) (world active)
      no_polls-AreActive

publish_poll-compensates_example :
    let ev : Events = record {
      clock = λ i. 20 + i;
      calls = no_faults;
      gates = broken_after 1;
      wire = (λ _. answered);
      random = none;
    } in
    let (reply, w') = publish_poll replica ev (codes "p") (world draft) in
    (reply ≡ err unreachable)
    × (find_poll (codes "p") w'.tables.polls
        ≡ some (record (row draft) {
          vote_buckets = 2;
          status = draft;
          published_at = none;
          updated_at = 22;
        }))
    × (w'.cache ≡ [])
    × ((t : Time) (cmd : VoteCommand)
        → cmd.poll_id ≡ codes "p"
        → record_vote memory (λ s. s) replica.store answered t cmd w'.db ≡ (err not_active, w'.db))
publish_poll-compensates_example =
    publish_poll-compensates replica memory-laws (omega arith) (λ i. 20 + i) none 1 (codes "p")
      (world draft) (row draft) (tt, tt) (unfold find_poll eq_str in refl) refl
      (unfold eq_str in omega arith)

abbrev shown : Poll
shown = elim (public_by_slug no_faults (codes "poll-p") 20 (tables active [])) [
  | ok p ↦ p
  | err _ ↦ record {
    options = [];
    id = [];
    slug = [];
    question = [];
    type = (row draft).poll_type;
    max_choices = (row draft).max_choices;
    status = draft;
    starts_at = 0;
    ends_at = 0;
    created_at = 0;
    updated_at = 0;
    published_at = none;
    closed_at = none;
  }
]

shown_test : public_by_slug no_faults (codes "poll-p") 20 (tables active []) ≡ ok shown
unfolding public_by_slug get join order_by insert_by scan_poll eq_str
shown_test = refl

abbrev stored_poll : Poll
stored_poll = elim (get_by_id no_faults 0 (codes "p") (tables active [])) [
  | ok p ↦ p
  | err _ ↦ shown
]

stored_test : get_by_id no_faults 0 (codes "p") (tables active []) ≡ ok stored_poll
unfolding get join order_by insert_by scan_poll eq_str
stored_test = refl

abbrev finished : Poll × PollResult
finished = elim (close replica quiet (codes "p") (world active)).0 [
  | ok x ↦ x
  | err _ ↦ (
    shown,
    record {
      poll_id = [];
      status = draft;
      source = redis_live;
      as_of = 0;
      finalized_at = none;
      participants = 0;
      options = [];
    },
  )
]

finished_test : (close replica quiet (codes "p") (world active)).0 ≡ ok finished
unfolding close get join order_by insert_by scan_poll eq_str close_gates write_gates set_gates
    gate_key counts_key totals save_snapshot written load_result find_poll find_runtime update_poll
    upsert_runtime upsert_option save_options option_counts ttl add_int64 time_sub lookup insert
    dedupe parse_int itoa add_counters
finished_test = refl

-- A cache that still holds the poll as it was before the close.
abbrev stale : Cache
stale = insert (codes "p") (some (record { poll = stored_poll; expires = 100 })) []

stored_active : stored_poll.status ≡ active
stored_active = unfold get join order_by insert_by scan_poll eq_str in refl

stale-AreActive : AreActive stale
stale-AreActive =
    insert-AreActive [] (codes "p") (some (record { poll = stored_poll; expires = 100 }))
      no_polls-AreActive
      (λ e h.
        let own : e.poll ≡ stored_poll =
          ap (λ o. elim o [ none ↦ stored_poll | some x ↦ x.poll ]) (sym h) in
        (
          ap (λ (x : Poll). x.status) own ∙ stored_active,
          ap (λ (x : Poll). x.id) own
              ∙ (unfold get join order_by insert_by scan_poll eq_str in refl),
        ))

close-stops_votes_example :
    let w1 : World Keyspace = record (close replica quiet (codes "p") (world active)).1 {
      cache = stale;
    } in
    let out = vote replica quiet 30 (codes "p") (codes "d") (codes "a" ∷ []) w1 in
    ((e : Error) × (out.0 ≡ err e)) × (out.1.db ≡ w1.db)
close-stops_votes_example =
    close-stops_votes replica quiet (codes "p") memory-laws (omega arith) (world active) stored_poll
      finished stored_test stored_active finished_test stale quiet 30 (codes "d") (codes "a" ∷ [])
      stale-AreActive

close-load_result_example :
    (load_result no_faults 7 (codes "p") (close replica quiet (codes "p") (world active)).1.tables
      ≡ ok finished.1)
    × (finished.0 ≡ record stored_poll { status = closed; closed_at = finished.1.finalized_at })
close-load_result_example =
    close-load_result replica quiet (codes "p") (world active) stored_poll finished.0 finished.1 7
      stored_test stored_active finished_test

abbrev lucky : Events
lucky = record quiet {
  random = some (0 ∷ 1 ∷ 2 ∷ 3 ∷ 4 ∷ 5 ∷ 6 ∷ 7 ∷ 8 ∷ 9 ∷ 10 ∷ 11 ∷ 12 ∷ 13 ∷ 14 ∷ 15 ∷ []);
}

abbrev holder : Str
holder = codes "00010203-0405-4607-8809-0a0b0c0d0e0f"

abbrev read_totals : Totals
read_totals =
    elim (totals memory replica.store answered 21 stored_poll.id (option_ids stored_poll)
      (acquire_lock memory answered 20 stored_poll.id holder (4 * second) nothing).1) [
        | ok t ↦ t
        | err _ ↦ record { participants = 0; options = []; as_of = 0 }
      ]

snapshot-stores_example :
    let (reply, w1) = snapshot replica lucky stored_poll (world active) in
    (reply ≡ ok tt)
    × ((m : Dict ℕ) × (load_result no_faults 7 stored_poll.id w1.tables
          ≡ ok (record {
            poll_id = codes "p";
            status = active;
            source = postgres_snapshot;
            as_of = read_totals.as_of;
            finalized_at = none;
            participants = read_totals.participants;
            options = m;
          }))
        × All (λ o. lookup o.id m ≡ some (get_or read_totals.options o.id 0)) stored_poll.options)
    × ((acquire_lock memory answered 22 stored_poll.id (codes "y") 4 w1.db).0 ≡ ok true)
snapshot-stores_example =
    snapshot-stores replica memory-laws lucky stored_poll (world active) holder read_totals
      (row active) 7 4 (codes "y") (unfold new_uuid hex_encode in refl) refl (λ j. refl) refl
      (omega arith)
      (unfold totals add_counters counts_key acquire_lock lookup insert dedupe parse_int itoa get
          join order_by insert_by scan_poll eq_str in
        refl)
      (unfold find_poll get join order_by insert_by scan_poll eq_str in refl)
      (unfold find_runtime get join order_by insert_by scan_poll eq_str in refl)
      (unfold find_runtime get join order_by insert_by scan_poll eq_str in λ x h. cc)
      (unfold get join order_by insert_by scan_poll eq_str in ((refl, tt), (tt, tt))) tt tt

abbrev no_snapshots : SnapshotMetrics
no_snapshots = record { snapshots = 0; snapshot_errors = 0; last_snapshot = none }

abbrev round : Round
round = record { calls = no_faults; events = λ i. lucky; clock = λ i. 30 + i }

snapshot_age_test :
    (snapshot_age 50 no_snapshots ≡ 0)
    × (snapshot_age 50 (snapshot_success 30 no_snapshots) ≡ 20)
    × (snapshot_age 20 (snapshot_success 30 no_snapshots) ≡ 0)
snapshot_age_test = (refl, refl, refl)
