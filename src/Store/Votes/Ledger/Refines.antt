-- ===== src/Store/Votes/Ledger/Refines.antt =====
-- `Record` refines `cast`.
use mipttest_task.Base.{
  ℕ, ◌+◌, ◌*◌, ◌^◌, ◌≤◌, ◌<◌, ◌≡◌, ◌≢◌, refl, sym, subst, ◌∙◌, inl, inr, true, false, Option, none,
  some, List, [], ◌∷◌, arith, ltb, Str, codes, eq_str, eq_str_iff, eq_str_refl, Bool-cases, In,
}
use mipttest_task.Base.Int.{pos, negsuc}
use mipttest_task.Domain.Errors.{ok}
use mipttest_task.Domain.Poll.{Time, VoteCommand, contains}
use mipttest_task.Domain.Poll.Selection.{contains-In, contains-false}
use mipttest_task.Redis.{Redis, RedisLaws, Entry, str, live, as_str, second}
use mipttest_task.Store.Keys.{bucket, gate_key, dedup_key, counts_key}
use mipttest_task.Store.Keys.Names.{
  dedup_key-injective, counts_key-injective, gate-ne-dedup, gate-ne-counts, dedup-ne-counts,
}
use mipttest_task.Store.Ttl.{Store, ttl, ceil_seconds}
use mipttest_task.Store.Wire.{answered}
use mipttest_task.Store.Votes.{vote_script, record_vote, count_vote, is_active}
use native.Mathlib.Decide.{ℕ_discrete}
use mipttest_task.Store.Votes.Script.{
  IsCount-cong, Counts, occurrences, count_vote-Counts, count_vote-other,
}
use mipttest_task.Store.Votes.Ledger.{
  Ballot, ballot_of, devices, cast, fields, tally, total, place, Represents,
}

pub tally-le-total :
    (at : Str → ℕ) (n : ℕ) (f : Str) (ledger : List Ballot) → tally at n f ledger ≤ total f ledger
tally-le-total at n f [] = omega arith
tally-le-total at n f (b ∷ bs) = ground (arith, tally-le-total at n f bs)

tally_here :
    (at : Str → ℕ) (n : ℕ) (f : Str) (b : Ballot) (ledger : List Ballot)
    → at b.device ≡ n
    → tally at n f (b ∷ ledger) ≡ occurrences f (fields b) + tally at n f ledger
tally_here at n f b ledger e = ground arith

tally_elsewhere :
    (at : Str → ℕ) (n : ℕ) (f : Str) (b : Ballot) (ledger : List Ballot)
    → at b.device ≢ n
    → tally at n f (b ∷ ledger) ≡ tally at n f ledger
tally_elsewhere at n f b ledger e = ground arith

pub ne_of_ne : (s t : Str) → s ≢ t → eq_str s t ≡ false
ne_of_ne s t h = ground (arith, eq_str_iff s t)

pub bucket-lt : (sum256 : Str → List ℕ) (x : Str) (n : ℕ) → 0 < n → bucket sum256 x n < n
unfolding bucket
bucket-lt sum256 x n h = grind arith

-- The three ways through the script.
module _ {Db : Type 0} (r : Redis Db) (laws : RedisLaws r) (t : Time) (g k c : Str) (seconds : ℕ)
    (ids : List Str) (d : Db) where
  pub script_shut :
      is_active (as_str (live t (r.entry d g))) ≡ false
      → vote_script r t g k c seconds ids d ≡ (negsuc 0, d)
  unfolding vote_script
  script_shut h = rw (laws.get_lem d t g, h)

  script_taken :
      (e : Entry)
      → is_active (as_str (live t (r.entry d g))) ≡ true
      → live t (r.entry d k) ≡ some e
      → vote_script r t g k c seconds ids d ≡ (pos 0, d)
  unfolding vote_script
  script_taken e h l =
      rw (laws.get_lem d t g, h, laws.set_nx_taken d t k (codes "1") (seconds * second) e l)

  script_free :
      is_active (as_str (live t (r.entry d g))) ≡ true
      → live t (r.entry d k) ≡ none
      → vote_script r t g k c seconds ids d
        ≡ (pos 1, count_vote r t c seconds ids (r.set d t k (codes "1") (seconds * second)))
  unfolding vote_script
  script_free h l =
      rw (laws.get_lem d t g, h, laws.set_nx_free d t k (codes "1") (seconds * second) l)

is_active_lem : (o : Option Str) → o ≡ some (codes "active") → is_active o ≡ true
is_active_lem o e = rw e (eq_str_refl (codes "active"))

-- The state behind a recorded vote.
module _ {Db : Type 0} (r : Redis Db) (laws : RedisLaws r) (sum256 : Str → List ℕ) (s : Store)
    (poll_id : Str) (until : Time) (d : Db) (ledger : List Ballot)
    (rep : Represents r sum256 s poll_id until d ledger) (t : Time) (early : t < until) (b : Ballot)
    (seconds : ℕ) (lasts : until ≤ t + seconds * second) (new : ¬ In b.device (devices ledger))
    (some_buckets : 0 < s.buckets) (small : (f : Str) → total f (b ∷ ledger) < 2 ^ 63) where
  abbrev home : ℕ
  home = place sum256 s b.device

  abbrev dedup : Str
  dedup = dedup_key poll_id home b.device

  abbrev counters : Str
  counters = counts_key poll_id home

  abbrev marked : Db
  marked = r.set d t dedup (codes "1") (seconds * second)

  abbrev behind : Db
  behind = count_vote r t counters seconds b.choices marked

  marked-other : (j : Str) → dedup ≢ j → r.entry marked j ≡ r.entry d j
  marked-other j h = laws.set_lem d t dedup _ _ j ∙ rw (ne_of_ne dedup j h)

  behind-other : (j : Str) → dedup ≢ j → counters ≢ j → r.entry behind j ≡ r.entry d j
  behind-other j h k =
      count_vote-other r laws t counters marked seconds b.choices j (ne_of_ne counters j k)
      ∙ marked-other j h

  behind-dedup :
      r.entry behind dedup
      ≡ some (record { value = str (codes "1"); deadline = some (t + seconds * second) })
  behind-dedup =
      count_vote-other r laws t counters marked seconds b.choices dedup
        (ne_of_ne counters dedup (λ e. dedup-ne-counts poll_id poll_id home home b.device (sym e)))
      ∙ laws.set_lem d t dedup _ _ dedup
      ∙ rw (eq_str_refl dedup, laws.lifetime_seconds)

  behind-gates :
      (t' : Time) (n : ℕ)
      → t' < until
      → n < s.buckets
      → as_str (live t' (r.entry behind (gate_key poll_id n))) ≡ some (codes "active")
  behind-gates t' n h k =
      rw
        (behind-other (gate_key poll_id n)
          (λ e. gate-ne-dedup poll_id poll_id n home b.device (sym e))
          (λ e. gate-ne-counts poll_id poll_id n home (sym e)))
        (rep.gates t' n h k)

  -- Another device's marker has another key.
  behind-marker :
      (x : Str)
      → b.device ≢ x
      → r.entry behind (dedup_key poll_id (place sum256 s x) x)
        ≡ r.entry d (dedup_key poll_id (place sum256 s x) x)
  behind-marker x h =
      behind-other _ (λ e. h (dedup_key-injective poll_id poll_id home _ refl b.device x e).2)
        (λ e. dedup-ne-counts poll_id poll_id _ home x (sym e))

  behind-voted :
      (t' : Time) (x : Str)
      → t' < until
      → In x (devices (b ∷ ledger))
      → (e : Entry) × (live t' (r.entry behind (dedup_key poll_id (place sum256 s x) x)) ≡ some e)
  behind-voted t' x h (inl e) = (
    record { value = str (codes "1"); deadline = some (t + seconds * second) },
    rw (e, behind-dedup) (ground arith),
  )
  behind-voted t' x h (inr m) =
      rw (behind-marker x (λ e. new (subst (λ y. In y (devices ledger)) (sym e) m)))
        (rep.voted t' x h m)

  behind-fresh :
      (t' : Time) (x : Str)
      → t' < until
      → ¬ In x (devices (b ∷ ledger))
      → live t' (r.entry behind (dedup_key poll_id (place sum256 s x) x)) ≡ none
  behind-fresh t' x h m =
      rw (behind-marker x (λ e. m (inl (sym e)))) (rep.fresh t' x h (λ i. m (inr i)))

  start : Counts (live t (r.entry marked counters)) (λ f. tally (place sum256 s) home f ledger)
  start =
      rw (marked-other counters (dedup-ne-counts poll_id poll_id home home b.device))
        (rep.counts t home early (bucket-lt sum256 b.device s.buckets some_buckets))

  Counts-home :
      (t' : Time)
      → t' < until
      → Counts (live t' (r.entry behind counters)) (λ f. tally (place sum256 s) home f (b ∷ ledger))
  Counts-home t' h =
      let (table, e, counts) =
        count_vote-Counts r laws t counters marked seconds b.choices
          (λ f. tally (place sum256 s) home f ledger) start
          (λ f. omega (arith, small f, tally-le-total (place sum256 s) home f ledger)) in
      let alive : ltb t' (t + seconds * second) ≡ true = ground arith in
      rw (e, alive)
        (
          tt,
          λ f.
              IsCount-cong table f _ _ (sym (tally_here (place sum256 s) home f b ledger refl))
                (counts f),
        )

  Counts-away :
      (t' : Time) (n : ℕ)
      → t' < until
      → n < s.buckets
      → home ≢ n
      → Counts
          (live t' (r.entry behind (counts_key poll_id n)))
          (λ f. tally (place sum256 s) n f (b ∷ ledger))
  Counts-away t' n h k ne =
      rw
        (behind-other (counts_key poll_id n) (dedup-ne-counts poll_id poll_id home n b.device)
          (λ e. ne (counts_key-injective poll_id poll_id home n refl e).1))
        (let (is_hash, counts) = rep.counts t' n h k in
          (
            is_hash,
            λ f.
                IsCount-cong _ f _ _ (sym (tally_elsewhere (place sum256 s) n f b ledger ne))
                  (counts f),
          ))

  behind-Counts :
      (t' : Time) (n : ℕ)
      → t' < until
      → n < s.buckets
      → Counts
          (live t' (r.entry behind (counts_key poll_id n)))
          (λ f. tally (place sum256 s) n f (b ∷ ledger))
  behind-Counts t' n h k = elim (ℕ_discrete home n) [
    | yes e ↦
        subst
          (λ m.
            Counts (live t' (r.entry behind (counts_key poll_id m)))
              (λ f. tally (place sum256 s) m f (b ∷ ledger)))
          e (Counts-home t' h)
    | no ne ↦ Counts-away t' n h k ne
  ]

  behind-Represents : Represents r sum256 s poll_id until behind (b ∷ ledger)
  behind-Represents = record {
    gates = behind-gates;
    voted = behind-voted;
    fresh = behind-fresh;
    counts = behind-Counts;
  }

-- A vote that is answered before `until` enters its ballot into the ledger: it is recorded and counted
-- if its device has none yet, and otherwise reported as already recorded and nothing changes. The
-- marker of the vote must outlive `until`, and the counters stay below 2^63.
pub record_vote-refines :
    {Db : Type 0} (r : Redis Db) (laws : RedisLaws r) (sum256 : Str → List ℕ) (s : Store)
    (until : Time) (d : Db) (ledger : List Ballot) (now : Time) (cmd : VoteCommand)
    → 0 < s.buckets
    → Represents r sum256 s cmd.poll_id until d ledger
    → now < until
    → until ≤ now + ceil_seconds (ttl s cmd.ends_at now) * second
    → ((f : Str) → total f (ballot_of cmd ∷ ledger) < 2 ^ 63)
    → let (reply, d') = record_vote r sum256 s answered now cmd d in
      let (status, ledger') = cast (ballot_of cmd) ledger in
      (reply ≡ ok status) × Represents r sum256 s cmd.poll_id until d' ledger'
unfolding record_vote cast
record_vote-refines r laws sum256 s until d ledger now cmd some_buckets rep early lasts small =
    elim (Bool-cases (contains (devices ledger) cmd.device_hash)) [
      | inl old ↦
          let (e, l) = rep.voted now cmd.device_hash early (contains-In _ _ old) in
          rw (old, script_taken r laws now _ _ _ _ _ d e open_gate l) (refl, rep)
      | inr new ↦
          let absent = contains-false _ _ new in
          rw (new, script_free r laws now _ _ _ _ _ d open_gate (rep.fresh now _ early absent))
            (
              refl,
              behind-Represents r laws sum256 s cmd.poll_id until d ledger rep now early
                  (ballot_of cmd) _ lasts absent some_buckets small,
            )
    ]
  where
    open_gate :
        is_active
          (as_str (live now (r.entry d (gate_key cmd.poll_id (place sum256 s cmd.device_hash)))))
        ≡ true
    open_gate =
        is_active_lem _
          (rep.gates now _ early (bucket-lt sum256 cmd.device_hash s.buckets some_buckets))
