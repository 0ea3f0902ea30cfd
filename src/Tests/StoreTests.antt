-- ===== src/Tests/StoreTests.antt =====
-- internal/redisstore at concrete inputs, on the key space in memory.
use mipttest_task.Base.{
  ℕ, ◌+◌, ◌*◌, ◌^◌, ◌<◌, ◌≤◌, ◌≡◌, refl, inl, inr, false, none, List, [], ◌∷◌, map, arith, ap, Str,
  codes, length, All, In, min, count_p, eq_str,
}
use mipttest_task.Base.Int.{add_int64}
use mipttest_task.Base.Dict.{lookup, insert}
use mipttest_task.Domain.Errors.{Result, ok, err, not_active}
use mipttest_task.Domain.Poll.{
  Time, VoteStatus, recorded, already_recorded, VoteCommand, Totals, contains,
}
use mipttest_task.Domain.Poll.Selection.{IsDistinct}
use mipttest_task.Redis.{second}
use mipttest_task.Redis.Keyspace.{dedupe, Keyspace, memory, memory-laws}
use mipttest_task.Base.Decimal.{itoa, parse_int}
use mipttest_task.Store.Keys.{bucket, dedup_key, gate_key, counts_key}
use mipttest_task.Store.Ttl.{
  Store, ttl, ttl-eq-plain_ttl, ttl-wraps, time_sub, ttl_bounds, ceil_seconds, ceil_seconds_bounds,
}
use mipttest_task.Store.Wire.{unacknowledged, unreachable, answered, complete}
use mipttest_task.Store.Locks.{acquire_lock, release_lock}
use mipttest_task.Store.Locks.Exclusion.{acquire_lock-excludes, run_rate, run_rate-limits}
use mipttest_task.Store.Votes.{vote_script, record_vote, participants_field}
use mipttest_task.Store.Votes.Ledger.{Ballot, ballot_of, devices, cast, total, Represents}
use mipttest_task.Store.Votes.Ledger.Refines.{record_vote-refines}
use mipttest_task.Store.Gates.{setup_gates, close_gates}
use mipttest_task.Store.Gates.Effect.{setup_gates-Represents, close_gates-refuses}
use mipttest_task.Store.Counters.{totals}
use mipttest_task.Store.Counters.Sums.{OptionsAre}
use mipttest_task.Store.Counters.Exact.{totals-exact}
use mipttest_task.Store.Election.{
  Arrival, run_votes, cast_all, ballot, is_recorded, IsTimely, election_totals, command,
}

abbrev store : Store
store = record { buckets = 4; retention = 3600 * second; max_ttl = 86400 * second }

abbrev nothing : Keyspace
nothing k = none

abbrev digest : Str → List ℕ
digest s = s

abbrev poll_id : Str
poll_id = codes "p"

abbrev yes_id : Str
yes_id = codes "y"

abbrev arrival : Time → Str → Str → Arrival
arrival t x id = record { at = t; device = x; choices = id ∷ [] }

-- Two devices; the first votes twice.
abbrev votes : List Arrival
votes =
    arrival 10 (codes "a") yes_id
    ∷ arrival 11 (codes "b") (codes "n")
    ∷ arrival 12 (codes "a") (codes "n")
    ∷ []

votes-IsTimely :
    All (IsTimely memory memory-laws digest store poll_id 100 5 (omega arith) (omega arith)) votes
unfolding ttl
votes-IsTimely = ground arith

-- The gates as they stand behind `Publish`.
abbrev opened : Keyspace
opened = (setup_gates memory store complete 5 poll_id 100 nothing).1

early : 20 < 5 + ttl store 100 5
early = omega (arith, ttl-eq-plain_ttl store 100 5 (omega arith) (omega arith))

reserved : ¬ In participants_field (yes_id ∷ [])
reserved = elim [ inl e ↦ absurd (omega (arith, ap length e)) | inr m ↦ m ]

setup_gates-Represents_example :
    let (reply, d') = setup_gates memory store complete 5 poll_id 100 nothing in
    (reply ≡ ok tt) × Represents memory digest store poll_id 50 d' []
setup_gates-Represents_example =
    setup_gates-Represents memory memory-laws digest store 5 poll_id 100 50 nothing (λ b x. refl)
      (λ b. refl) (omega (arith, ttl-eq-plain_ttl store 100 5 (omega arith) (omega arith)))

abbrev vote : VoteCommand
vote = command poll_id 100 (arrival 10 (codes "a") yes_id)

one_ballot : (f : Str) → total f (ballot_of vote ∷ []) < 2 ^ 63
one_ballot f = ground arith

record_vote-refines_example :
    let (reply, d') = record_vote memory digest store answered 10 vote opened in
    let (status, ledger') = cast (ballot_of vote) [] in
    (reply ≡ ok status) × Represents memory digest store poll_id 50 d' ledger'
record_vote-refines_example =
    record_vote-refines memory memory-laws digest store 50 opened [] 10 vote (omega arith)
      setup_gates-Represents_example.1 (omega arith)
      (omega (
        arith,
        ttl-eq-plain_ttl store 100 10 (omega arith) (omega arith),
        (ceil_seconds_bounds (ttl store 100 10)).0,
      ))
      one_ballot

close_gates-refuses_example :
    let d' = (close_gates memory store complete 20 poll_id 100 opened).1 in
    record_vote memory digest store answered 21 vote d' ≡ (err not_active, d')
close_gates-refuses_example =
    close_gates-refuses memory memory-laws digest store 20 100 opened 21 vote (omega arith)

totals-exact_example :
    (t : Totals) × (totals memory store answered 20 poll_id (yes_id ∷ []) opened ≡ ok t)
    × (t.participants ≡ 0)
    × OptionsAre (yes_id ∷ []) (λ id. count_p (λ (b : Ballot). contains b.choices id) []) t.options
    × (t.as_of ≡ 20)
totals-exact_example =
    totals-exact memory memory-laws digest store 20 poll_id (yes_id ∷ []) opened [] (omega arith)
      (λ n h. setup_gates-Represents_example.1.counts 20 n (omega arith) h) reserved tt
      (omega arith)

-- Opening, three votes from two devices and the totals, run on the key space.
abbrev after_votes : List (Result VoteStatus) × Keyspace
after_votes = run_votes memory digest store poll_id 100 votes opened

replies_test : after_votes.0 ≡ ok recorded ∷ ok recorded ∷ ok already_recorded ∷ []
unfolding run_votes record_vote vote_script setup_gates ttl ceil_seconds bucket gate_key dedup_key
    counts_key eq_str lookup insert dedupe parse_int itoa add_int64 time_sub
replies_test = refl

election_totals_example :
    let d1 = (setup_gates memory store complete 5 poll_id 100 nothing).1 in
    let (replies, d2) = run_votes memory digest store poll_id 100 votes d1 in
    let (statuses, ledger) = cast_all (map ballot votes) [] in
    (replies ≡ map ok statuses)
    × IsDistinct (devices ledger)
    × ((t : Totals) × (totals memory store answered 20 poll_id (yes_id ∷ []) d2 ≡ ok t)
        × (t.participants ≡ count_p is_recorded statuses)
        × OptionsAre (yes_id ∷ []) (λ id. count_p (λ b. contains b.choices id) ledger) t.options)
election_totals_example =
    election_totals memory memory-laws digest store poll_id 100 5 (omega arith) (omega arith) votes
      nothing (yes_id ∷ []) 20 (λ b x. refl) (λ b. refl) votes-IsTimely (omega arith) early reserved

ttl_bounds_example :
    (min second store.max_ttl ≤ ttl store 100 5) × (ttl store 100 5 ≤ store.max_ttl)
ttl_bounds_example = ttl_bounds store 100 5

ttl-wraps_example : ttl store (2 ^ 63) 0 ≡ min second store.max_ttl
ttl-wraps_example = ttl-wraps store (2 ^ 63) 0 (omega arith) (omega arith) (omega arith)

-- Behind the votes a retried vote of a device is still a duplicate after its first reply was lost.
lost_reply_test :
    let (first, d1) = record_vote memory digest store unacknowledged 10 vote opened in
    (first ≡ err unreachable)
    × ((record_vote memory digest store answered 11 vote d1).0 ≡ ok already_recorded)
unfolding run_votes record_vote vote_script setup_gates ttl ceil_seconds bucket gate_key dedup_key
    counts_key eq_str lookup insert dedupe parse_int itoa add_int64 time_sub
lost_reply_test = (refl, refl)

acquire_lock-excludes_example :
    let d1 = (acquire_lock memory answered 10 poll_id (codes "x") (4 * second) nothing).1 in
    (acquire_lock memory answered 11 poll_id (codes "y") (4 * second) d1 ≡ (ok false, d1))
    × (release_lock memory answered 11 poll_id (codes "y") d1 ≡ (ok tt, d1))
acquire_lock-excludes_example =
    acquire_lock-excludes memory memory-laws nothing poll_id (codes "x") (codes "y") 10 11
      (4 * second) (4 * second) (unfold acquire_lock in refl) (omega arith) (unfold eq_str in refl)

run_rate-limits_example :
    (run_rate memory (codes "k") 2 (10 ∷ 11 ∷ 12 ∷ []) nothing).0 ≡ 1 ∷ 1 ∷ 0 ∷ []
run_rate-limits_example =
    run_rate-limits memory memory-laws (codes "k") 2 10 (11 ∷ 12 ∷ []) nothing refl
      (omega arith, (omega arith, tt)) (omega arith)
