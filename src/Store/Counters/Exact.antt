-- ===== src/Store/Counters/Exact.antt =====
-- `Totals` reports what the ledger holds: how many devices voted, and how many chose each option.
use mipttest_task.Base.{
  leb, ◌&&◌, ℕ, zero, suc, ◌+◌, ◌^◌, ◌≤◌, ◌<◌, ◌≡◌, ◌≢◌, refl, sym, ap, subst, ◌∙◌, inl, inr, Bool,
  true, false, none, some, List, [], ◌∷◌, arith, ltb, if◌then◌else◌, Str, eq_str, eq_str_iff,
  eq_str_refl, eq_of_eq_str, Bool-cases, In, length, All, range_from, count_p,
}
use mipttest_task.Base.Int.{max_int64}
use mipttest_task.Base.Dict.{Dict, lookup, insert, lookup-insert}
use mipttest_task.Domain.Errors.{Result, ok, ◌>>=◌}
use mipttest_task.Domain.Poll.{Time, Totals, contains}
use mipttest_task.Domain.Poll.Selection.{IsDistinct}
use mipttest_task.Redis.{Redis, RedisLaws, live, IsCount}
use mipttest_task.Store.Keys.{counts_key}
use mipttest_task.Store.Ttl.{Store}
use mipttest_task.Store.Wire.{answered}
use mipttest_task.Store.Votes.{participants_field}
use mipttest_task.Store.Votes.Script.{Counts, occurrences}
use mipttest_task.Store.Votes.Ledger.{Ballot, fields, tally, total, place}
use mipttest_task.Store.Votes.Ledger.Refines.{tally-le-total, bucket-lt}
use mipttest_task.Store.Counters.{add_counters, add_buckets, zero_options, totals}
use mipttest_task.Store.Counters.Values.{AreNumbers-of_counts, value_sum, value_sum_lem}
use mipttest_task.Store.Counters.Sums.{OptionsAre, OptionsAre-cong, Adds, add_counters-Adds}

-- Every option starts at zero.
zero_options-kept :
    (ids : List Str) (m : Dict ℕ) (id : Str)
    → lookup id m ≡ some 0
    → lookup id (zero_options ids m) ≡ some 0
unfolding zero_options
zero_options-kept [] m id h = h
zero_options-kept (x ∷ ids) m id h =
    zero_options-kept ids (insert x 0 m) id (lookup-insert x id 0 m ∙ same (eq_str x id))
  where
    same : (b : Bool) → (if b then some 0 else lookup id m) ≡ some 0
    same true = refl
    same false = h

zero_options-In :
    (ids : List Str) (m : Dict ℕ) (id : Str) → In id ids → lookup id (zero_options ids m) ≡ some 0
unfolding zero_options
zero_options-In [] m id i = absurd i
zero_options-In (x ∷ ids) m id (inl e) =
    zero_options-kept ids (insert x 0 m) id
      (lookup-insert x id 0 m ∙ ground (arith, eq_str_iff x id))
zero_options-In (x ∷ ids) m id (inr i) = zero_options-In ids (insert x 0 m) id i

zero_options-missing :
    (ids : List Str) (m : Dict ℕ) (id : Str)
    → ¬ In id ids
    → lookup id m ≡ none
    → lookup id (zero_options ids m) ≡ none
unfolding zero_options
zero_options-missing [] m id i h = h
zero_options-missing (x ∷ ids) m id i h =
    let ne : id ≢ x = λ e. i (inl e) in
    zero_options-missing ids (insert x 0 m) id (λ j. i (inr j))
      (lookup-insert x id 0 m ∙ ground (arith, eq_str_iff x id))

zero_options-OptionsAre : (ids : List Str) → OptionsAre ids (λ id. 0) (zero_options ids [])
zero_options-OptionsAre ids id =
    (zero_options-In ids [] id, λ i. zero_options-missing ids [] id i (unfold lookup in refl))

abbrev bucket_sum : (ℕ → Str → ℕ) → Str → List ℕ → ℕ
bucket_sum c f [] = 0
bucket_sum c f (n ∷ ns) = c n f + bucket_sum c f ns

module _ {Db : Type 0} (r : Redis Db) (laws : RedisLaws r) (s : Store) (d : Db) (now : Time)
    (poll_id : Str) (valid : List Str) (reserved : ¬ In participants_field valid) (c : ℕ → Str → ℕ)
    (small : (n : ℕ) (f : Str) → c n f < 2 ^ 63) where
  abbrev table : ℕ → Dict Str
  table n = r.hgetall d now (counts_key poll_id n)

  module _ (n : ℕ) (held : Counts (live now (r.entry d (counts_key poll_id n))) (c n)) where
    table-counts : (f : Str) → IsCount (table n) f (c n f)
    table-counts f = rw (laws.hgetall_lem d now (counts_key poll_id n)) (held.1 f)

    table-sum : (f : Str) → value_sum f (table n) ≡ c n f
    table-sum f =
        value_sum_lem f (table n) (c n f) (laws.hgetall_distinct d now (counts_key poll_id n))
          (table-counts f) (small n f)

    -- One bucket.
    bucket-Adds :
        (m : Str → ℕ) (t : Totals)
        → OptionsAre valid m t.options
        → c n participants_field + t.participants ≤ max_int64
        → ((id : Str) → In id valid → c n id + m id ≤ max_int64)
        → Adds valid t
            (c n participants_field + t.participants, λ id. c n id + m id)
            (add_counters valid (table n) t)
    bucket-Adds m t o p q =
        let (t', e, p', o', a') =
          add_counters-Adds valid reserved (table n) m t
            (AreNumbers-of_counts (table n) (c n)
              (laws.hgetall_distinct d now (counts_key poll_id n)) table-counts (small n))
            o (omega (arith, p, table-sum participants_field))
            (λ id i. omega (arith, q id i, table-sum id)) in
        (
          t',
          e,
          omega (arith, p', table-sum participants_field),
          OptionsAre-cong valid _ _ t'.options (λ id. omega (arith, table-sum id)) o',
          a',
        )

  add_buckets-Adds :
      (ns : List ℕ) (m : Str → ℕ) (t : Totals)
      → All (λ n. Counts (live now (r.entry d (counts_key poll_id n))) (c n)) ns
      → OptionsAre valid m t.options
      → bucket_sum c participants_field ns + t.participants ≤ max_int64
      → ((id : Str) → In id valid → bucket_sum c id ns + m id ≤ max_int64)
      → Adds valid t
          (bucket_sum c participants_field ns + t.participants, λ id. bucket_sum c id ns + m id)
          (add_buckets r s d now poll_id valid ns t)
  unfolding add_buckets
  add_buckets-Adds [] m t h o p q =
      (t, refl, omega arith, OptionsAre-cong valid m _ t.options (λ id. omega arith) o, refl)
  add_buckets-Adds (n ∷ ns) m t (held, h) o p q =
      let (t1, e1, p1, o1, a1) =
        bucket-Adds n held m t o (omega (arith, p)) (λ id i. omega (arith, q id i)) in
      let (t2, e2, p2, o2, a2) =
        add_buckets-Adds ns (λ id. c n id + m id) t1 h o1 (omega (arith, p, p1))
          (λ id i. omega (arith, q id i)) in
      (
        t2,
        ap (λ (x : Result Totals). x >>= add_buckets r s d now poll_id valid ns) e1 ∙ e2,
        omega (arith, p1, p2),
        OptionsAre-cong valid _ _ t2.options (λ id. omega arith) o2,
        a2 ∙ a1,
      )

-- A ballot falls into one of the buckets.
bucket_sum-at :
    (at : Str → ℕ) (f : Str) (b : Ballot) (ledger : List Ballot) (i n : ℕ)
    → bucket_sum (λ k g. tally at k g (b ∷ ledger)) f (range_from i n)
      ≡ (if leb i (at b.device) && ltb (at b.device) (i + n) then occurrences f (fields b) else 0)
        + bucket_sum (λ k g. tally at k g ledger) f (range_from i n)
bucket_sum-at at f b ledger i zero = ground arith
bucket_sum-at at f b ledger i (suc n) = ground (arith, bucket_sum-at at f b ledger (suc i) n)

bucket_sum-nil :
    (f : Str) (at : Str → ℕ) (ns : List ℕ) → bucket_sum (λ k g. tally at k g []) f ns ≡ 0
bucket_sum-nil f at [] = refl
bucket_sum-nil f at (n ∷ ns) = omega (arith, bucket_sum-nil f at ns)

-- The buckets together hold the whole ledger.
bucket_sum-total :
    (at : Str → ℕ) (f : Str) (ledger : List Ballot) (n : ℕ)
    → ((x : Str) → at x < n)
    → bucket_sum (λ k g. tally at k g ledger) f (range_from 0 n) ≡ total f ledger
bucket_sum-total at f [] n h = bucket_sum-nil f at (range_from 0 n)
bucket_sum-total at f (b ∷ ledger) n h =
    ground (arith, bucket_sum-at at f b ledger 0 n, bucket_sum-total at f ledger n h, h b.device)

-- A ballot as `ValidateSelection` lets it through: no option twice, and none named like the field of
-- the participants.
abbrev pub IsProper : Ballot → Type 0
IsProper b = IsDistinct b.choices × (¬ In participants_field b.choices)

occurrences-missing : (f : Str) (fs : List Str) → ¬ In f fs → occurrences f fs ≡ 0
occurrences-missing f [] h = refl
occurrences-missing f (g ∷ fs) h =
    let ne : f ≢ g = λ e. h (inl e) in
    ground (arith, eq_str_iff g f, occurrences-missing f fs (λ i. h (inr i)))

occurrences-distinct :
    (f : Str) (fs : List Str) → IsDistinct fs → occurrences f fs ≡ (if contains fs f then 1 else 0)
unfolding contains
occurrences-distinct f [] d = refl
occurrences-distinct f (g ∷ fs) (absent, d) = elim (Bool-cases (eq_str g f)) [
  | inl same ↦
      let e = occurrences-missing f fs (subst (λ x. ¬ In x fs) (eq_of_eq_str g f same) absent) in
      ground arith
  | inr other ↦ ground (arith, occurrences-distinct f fs d)
]

total-participants :
    (ledger : List Ballot) → All IsProper ledger → total participants_field ledger ≡ length ledger
total-participants [] h = refl
total-participants (b ∷ ledger) ((_, absent), h) = ground (
  arith,
  total-participants ledger h,
  eq_str_refl participants_field,
  occurrences-missing participants_field b.choices absent,
)

total-option :
    (f : Str) (ledger : List Ballot)
    → participants_field ≢ f
    → All IsProper ledger
    → total f ledger ≡ count_p (λ b. contains b.choices f) ledger
total-option f [] ne h = refl
total-option f (b ∷ ledger) ne ((d, _), h) = ground (
  arith,
  total-option f ledger ne h,
  eq_str_iff participants_field f,
  occurrences-distinct f b.choices d,
)

count_p-le-length :
    (f : Str) (ledger : List Ballot) → count_p (λ b. contains b.choices f) ledger ≤ length ledger
count_p-le-length f [] = omega arith
count_p-le-length f (b ∷ ledger) = ground (arith, count_p-le-length f ledger)

pub total-le-length :
    (f : Str) (ledger : List Ballot) → All IsProper ledger → total f ledger ≤ length ledger
total-le-length f ledger h = elim (Bool-cases (eq_str participants_field f)) [
  | inl same ↦
      let e = eq_of_eq_str participants_field f same in
      subst (λ x. total x ledger ≤ length ledger) e (omega (arith, total-participants ledger h))
  | inr other ↦
      let ne : participants_field ≢ f = ground (arith, eq_str_iff participants_field f) in
      omega (arith, total-option f ledger ne h, count_p-le-length f ledger)
]

-- The counter hashes of the poll hold the ledger at a time.
abbrev pub HoldsCounts :
    {Db : Type 0} → Redis Db → (Str → List ℕ) → Store → Str → Time → Db → List Ballot → Type 0
HoldsCounts r sum256 s poll_id now d ledger =
    (n : ℕ)
    → n < s.buckets
    → Counts (live now (r.entry d (counts_key poll_id n))) (λ f. tally (place sum256 s) n f ledger)

held_by-All :
    {Db : Type 0} (r : Redis Db) (sum256 : Str → List ℕ) (s : Store) (poll_id : Str) (now : Time)
    (d : Db) (ledger : List Ballot) (i n : ℕ)
    → HoldsCounts r sum256 s poll_id now d ledger
    → i + n ≤ s.buckets
    → All
        (λ k.
          Counts
            (live now (r.entry d (counts_key poll_id k)))
            (λ f. tally (place sum256 s) k f ledger))
        (range_from i n)
held_by-All r sum256 s poll_id now d ledger i zero h l = tt
held_by-All r sum256 s poll_id now d ledger i (suc n) h l =
    (h i (omega arith), held_by-All r sum256 s poll_id now d ledger (suc i) n h (omega arith))

-- Where the counters of a poll hold a ledger of proper ballots, the totals are read without an error:
-- the participants are the ballots, the count of each of the poll's options is the number of ballots
-- that chose it, and nothing else is reported. Each call sees fewer than 2^63 ballots, and no option
-- is named like the field of the participants.
pub totals-exact :
    {Db : Type 0} (r : Redis Db) (laws : RedisLaws r) (sum256 : Str → List ℕ) (s : Store)
    (now : Time) (poll_id : Str) (ids : List Str) (d : Db) (ledger : List Ballot)
    → 0 < s.buckets
    → HoldsCounts r sum256 s poll_id now d ledger
    → ¬ In participants_field ids
    → All IsProper ledger
    → length ledger < 2 ^ 63
    → (t : Totals) × (totals r s answered now poll_id ids d ≡ ok t)
      × (t.participants ≡ length ledger)
      × OptionsAre ids (λ id. count_p (λ b. contains b.choices id) ledger) t.options
      × (t.as_of ≡ now)
unfolding totals
totals-exact r laws sum256 s now poll_id ids d ledger some_buckets held reserved proper few =
    let c = λ (n : ℕ) (f : Str). tally (place sum256 s) n f ledger in
    let whole = λ (f : Str).
      bucket_sum-total (place sum256 s) f ledger s.buckets
        (λ x. bucket-lt sum256 x s.buckets some_buckets) in
    let (t, e, p, o, a) =
      add_buckets-Adds r laws s d now poll_id ids reserved c
        (λ n f.
          omega
            (arith, tally-le-total (place sum256 s) n f ledger, total-le-length f ledger proper))
        (range_from 0 s.buckets) (λ id. 0)
        (record { participants = 0; options = zero_options ids []; as_of = now })
        (held_by-All r sum256 s poll_id now d ledger 0 s.buckets held (omega arith))
        (zero_options-OptionsAre ids)
        (omega (arith, whole participants_field, total-le-length participants_field ledger proper))
        (λ id i. omega (arith, whole id, total-le-length id ledger proper)) in
    (
      t,
      e,
      omega (arith, p, whole participants_field, total-participants ledger proper),
      λ id. (
        λ i.
            (o id).0 i
            ∙ ap some (
                omega (
                  arith,
                  whole id,
                  total-option id ledger (λ e. reserved (subst (λ x. In x ids) (sym e) i)) proper,
                )),
        (o id).1,
      ),
      a,
    )
