-- ===== src/Store/Election.antt =====
-- A whole poll on Redis: the gates are set up, votes arrive one after another, the totals are read.
use mipttest_task.Base.{
  ℕ, suc, ◌+◌, ◌*◌, ◌-◌, ◌^◌, ◌≤◌, ◌<◌, ◌≡◌, refl, ap₂, inl, inr, Bool, true, false, none, List, [],
  ◌∷◌, map, arith, Str, In, All, length, Bool-cases, count_p,
}
use mipttest_task.Domain.Errors.{Result, ok}
use mipttest_task.Domain.Poll.{
  Time, VoteStatus, recorded, already_recorded, VoteCommand, Totals, contains,
}
use mipttest_task.Domain.Poll.Selection.{IsDistinct, contains-false}
use mipttest_task.Redis.{Redis, RedisLaws, second}
use mipttest_task.Store.Keys.{dedup_key, counts_key}
use mipttest_task.Store.Ttl.{Store, ttl, ceil_seconds, ceil_seconds_bounds, deadline_mono}
use mipttest_task.Store.Wire.{answered, complete}
use mipttest_task.Store.Votes.{record_vote, participants_field}
use mipttest_task.Store.Votes.Ledger.{Ballot, devices, cast, Represents}
use mipttest_task.Store.Votes.Ledger.Refines.{record_vote-refines}
use mipttest_task.Store.Gates.{setup_gates}
use mipttest_task.Store.Gates.Effect.{setup_gates-Represents}
use mipttest_task.Store.Counters.{totals}
use mipttest_task.Store.Counters.Sums.{OptionsAre}
use mipttest_task.Store.Counters.Exact.{IsProper, total-le-length, totals-exact}

-- A vote as it reaches the store: when, from which device, for what.
pub record Arrival : Type 0 where
  pub at : Time
  pub device : Str
  pub choices : List Str

abbrev pub command : Str → Time → Arrival → VoteCommand
command poll_id ends_at v = record {
  poll_id = poll_id;
  device_hash = v.device;
  option_ids = v.choices;
  ends_at = ends_at;
}

-- The votes on the store, and on a ledger.
unfoldable pub run_votes :
    {Db : Type 0}
    → Redis Db
    → (Str → List ℕ)
    → Store
    → Str
    → Time
    → List Arrival
    → Db
    → List (Result VoteStatus) × Db
run_votes r sum256 s poll_id ends_at [] d = ([], d)
run_votes r sum256 s poll_id ends_at (v ∷ vs) d =
    let (reply, d1) = record_vote r sum256 s answered v.at (command poll_id ends_at v) d in
    let (replies, d2) = run_votes r sum256 s poll_id ends_at vs d1 in (reply ∷ replies, d2)

unfoldable pub cast_all : List Ballot → List Ballot → List VoteStatus × List Ballot
cast_all [] ledger = ([], ledger)
cast_all (b ∷ bs) ledger =
    let (status, l1) = cast b ledger in
    let (statuses, l2) = cast_all bs l1 in (status ∷ statuses, l2)

abbrev pub ballot : Arrival → Ballot
ballot v = record { device = v.device; choices = v.choices }

abbrev pub is_recorded : VoteStatus → Bool
is_recorded recorded = true
is_recorded already_recorded = false

-- The ledger grows by one ballot for each vote that is reported as recorded, and no device has two.
cast_all-length :
    (bs ledger : List Ballot)
    → let (statuses, ledger') = cast_all bs ledger in
      length ledger' ≡ count_p is_recorded statuses + length ledger
unfolding cast_all cast
cast_all-length [] ledger = omega arith
cast_all-length (b ∷ bs) ledger =
    ground (arith, cast_all-length bs ledger, cast_all-length bs (b ∷ ledger))

cast-IsDistinct :
    (b : Ballot) (ledger : List Ballot)
    → IsDistinct (devices ledger)
    → IsDistinct (devices (cast b ledger).1)
unfolding cast
cast-IsDistinct b ledger d = elim (Bool-cases (contains (devices ledger) b.device)) [
  | inl old ↦ rw old d
  | inr new ↦ rw new (contains-false _ _ new, d)
]

cast_all-IsDistinct :
    (bs ledger : List Ballot)
    → IsDistinct (devices ledger)
    → IsDistinct (devices (cast_all bs ledger).1)
unfolding cast_all
cast_all-IsDistinct [] ledger d = d
cast_all-IsDistinct (b ∷ bs) ledger d =
    cast_all-IsDistinct bs (cast b ledger).1 (cast-IsDistinct b ledger d)

cast-IsProper :
    (b : Ballot) (ledger : List Ballot)
    → IsProper b
    → All IsProper ledger
    → All IsProper (cast b ledger).1
unfolding cast
cast-IsProper b ledger p h = elim (Bool-cases (contains (devices ledger) b.device)) [
  | inl old ↦ rw old h
  | inr new ↦ rw new (p, h)
]

length-cast : (b : Ballot) (ledger : List Ballot) → length (cast b ledger).1 ≤ suc (length ledger)
unfolding cast
length-cast b ledger = ground arith

module _ {Db : Type 0} (r : Redis Db) (laws : RedisLaws r) (sum256 : Str → List ℕ) (s : Store)
    (poll_id : Str) (ends_at opened : Time) (some_buckets : 0 < s.buckets)
    (in_range : (ends_at - opened) + s.retention < 2 ^ 63) where
  -- When the gates that were set up at `opened` expire.
  abbrev pub until : Time
  until = opened + r.lifetime (ttl s ends_at opened)

  -- The vote comes while the gates are there, with options that passed validation.
  abbrev pub IsTimely : Arrival → Type 0
  IsTimely v = (opened ≤ v.at) × (v.at < until) × (v.at - ends_at < 2 ^ 63) × IsProper (ballot v)

  -- The marker of a timely vote outlives the gates.
  marker_outlives :
      (t : Time)
      → opened ≤ t
      → t - ends_at < 2 ^ 63
      → until ≤ t + ceil_seconds (ttl s ends_at t) * second
  marker_outlives t h k = omega (
    arith,
    laws.lifetime_le (ttl s ends_at opened),
    deadline_mono s ends_at opened t in_range h k,
    (ceil_seconds_bounds (ttl s ends_at t)).0,
  )

  run_votes-Represents :
      (vs : List Arrival) (d : Db) (ledger : List Ballot)
      → All IsTimely vs
      → All IsProper ledger
      → length vs + length ledger < 2 ^ 63
      → Represents r sum256 s poll_id until d ledger
      → let (replies, d') = run_votes r sum256 s poll_id ends_at vs d in
        let (statuses, ledger') = cast_all (map ballot vs) ledger in
        (replies ≡ map ok statuses)
        × Represents r sum256 s poll_id until d' ledger'
        × All IsProper ledger'
        × (length ledger' < 2 ^ 63)
  unfolding run_votes cast_all
  run_votes-Represents [] d ledger h p few rep = (refl, rep, p, omega arith)
  run_votes-Represents (v ∷ vs) d ledger ((after, early, k, proper), h) p few rep =
      let (e, rep') =
        record_vote-refines r laws sum256 s until d ledger v.at (command poll_id ends_at v)
          some_buckets rep early (marker_outlives v.at after k)
          (λ f. omega (arith, total-le-length f (ballot v ∷ ledger) (proper, p))) in
      let (es, rep2, p2, f2) =
        run_votes-Represents vs _ (cast (ballot v) ledger).1 h
          (cast-IsProper (ballot v) ledger proper p) (omega (arith, length-cast (ballot v) ledger))
          rep' in
      (ap₂ ◌∷◌ e es, rep2, p2, f2)

  -- A poll whose gates are set up on an empty key space, and any votes while the gates are there: the
  -- first vote of each device is recorded and every later one of it is reported as already recorded;
  -- the participants in the totals are the votes reported as recorded, one for each device of the
  -- ledger, and the count of each option is the number of those devices that chose it.
  pub election_totals :
      (vs : List Arrival) (d : Db) (ids : List Str) (now : Time)
      → ((b : ℕ) (x : Str) → r.entry d (dedup_key poll_id b x) ≡ none)
      → ((b : ℕ) → r.entry d (counts_key poll_id b) ≡ none)
      → All IsTimely vs
      → length vs < 2 ^ 63
      → now < until
      → ¬ In participants_field ids
      → let d1 = (setup_gates r s complete opened poll_id ends_at d).1 in
        let (replies, d2) = run_votes r sum256 s poll_id ends_at vs d1 in
        let (statuses, ledger) = cast_all (map ballot vs) [] in
        (replies ≡ map ok statuses)
        × IsDistinct (devices ledger)
        × ((t : Totals) × (totals r s answered now poll_id ids d2 ≡ ok t)
            × (t.participants ≡ count_p is_recorded statuses)
            × OptionsAre ids (λ id. count_p (λ b. contains b.choices id) ledger) t.options)
  election_totals vs d ids now no_marks no_counts timely few early reserved =
      let (_, rep) =
        setup_gates-Represents r laws sum256 s opened poll_id ends_at until d no_marks no_counts
          (omega arith) in
      let (replies, rep', proper, small) =
        run_votes-Represents vs _ [] timely tt (omega arith) rep in
      let (t, e, p, o, _) =
        totals-exact r laws sum256 s now poll_id ids _ (cast_all (map ballot vs) []).1 some_buckets
          (λ n h. rep'.counts now n early h) reserved proper small in
      (
        replies,
        cast_all-IsDistinct (map ballot vs) [] tt,
        (t, e, omega (arith, p, cast_all-length (map ballot vs) []), o),
      )
