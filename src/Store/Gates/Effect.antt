-- ===== src/Store/Gates/Effect.antt =====
-- What opening and closing the gates of a poll does to its keys.
use mipttest_task.Base.{
  ℕ, zero, suc, ◌+◌, ◌≤◌, ◌<◌, ◌≡◌, ◌≢◌, refl, ◌∙◌, inl, inr, Bool, true, false, Option, none, some,
  List, [], ◌∷◌, arith, if◌then◌else◌, Str, codes, eq_str, eq_str_refl, In, range_from,
}
use native.Mathlib.Decide.{ℕ_discrete}
use mipttest_task.Base.Dict.{lookup}
use mipttest_task.Domain.Errors.{ok, err, not_active}
use mipttest_task.Domain.Poll.{Time, VoteCommand}
use mipttest_task.Redis.{Redis, RedisLaws, Entry, str, live, as_str}
use mipttest_task.Store.Keys.{bucket, gate_key, dedup_key, counts_key}
use mipttest_task.Store.Keys.Names.{gate-ne-dedup, gate-ne-counts}
use mipttest_task.Store.Ttl.{Store, ttl}
use mipttest_task.Store.Wire.{answered, complete}
use mipttest_task.Store.Gates.{set_gates, write_gates, setup_gates, close_gates}
use mipttest_task.Store.Votes.{record_vote, is_active}
use mipttest_task.Store.Votes.Ledger.{Represents, place}
use mipttest_task.Store.Votes.Ledger.Refines.{ne_of_ne, bucket-lt, script_shut}

pub In-range_from : (i n b : ℕ) → i ≤ b → b < i + n → In b (range_from i n)
In-range_from i zero b h k = absurd (omega arith)
In-range_from i (suc n) b h k = elim (ℕ_discrete b i) [
  | yes e ↦ inl e
  | no ne ↦ inr (In-range_from (suc i) n b (omega arith) (omega arith))
]

module _ {Db : Type 0} (r : Redis Db) (laws : RedisLaws r) (value : Str) (now : Time)
    (poll_id : Str) (n : ℕ) where
  abbrev gate_entry : Entry
  gate_entry = record { value = str value; deadline = some (now + r.lifetime n) }

  -- A key that is no gate of the poll keeps its entry.
  pub set_gates-other :
      (bs : List ℕ) (d : Db) (j : Str)
      → ((b : ℕ) → gate_key poll_id b ≢ j)
      → r.entry (set_gates r value now poll_id n bs d) j ≡ r.entry d j
  unfolding set_gates
  set_gates-other [] d j h = refl
  set_gates-other (b ∷ bs) d j h =
      set_gates-other bs _ j h
      ∙ laws.set_lem d now (gate_key poll_id b) value n j
      ∙ rw (ne_of_ne _ j (h b))

  set_gates-kept :
      (bs : List ℕ) (d : Db) (j : Str)
      → r.entry d j ≡ some gate_entry
      → r.entry (set_gates r value now poll_id n bs d) j ≡ some gate_entry
  unfolding set_gates
  set_gates-kept [] d j h = h
  set_gates-kept (b ∷ bs) d j h =
      set_gates-kept bs _ j
        (laws.set_lem d now (gate_key poll_id b) value n j ∙ same (eq_str (gate_key poll_id b) j))
    where
      same : (x : Bool) → (if x then some gate_entry else r.entry d j) ≡ some gate_entry
      same true = refl
      same false = h

  pub set_gates-gate :
      (bs : List ℕ) (d : Db) (b : ℕ)
      → In b bs
      → r.entry (set_gates r value now poll_id n bs d) (gate_key poll_id b) ≡ some gate_entry
  unfolding set_gates
  set_gates-gate [] d b m = absurd m
  set_gates-gate (c ∷ bs) d b (inl e) = set_gates-kept bs _ (gate_key poll_id b) (
      laws.set_lem d now (gate_key poll_id c) value n (gate_key poll_id b)
      ∙ rw (e, eq_str_refl (gate_key poll_id c)))
  set_gates-gate (c ∷ bs) d b (inr m) = set_gates-gate bs _ b m

-- Every gate of the poll is closed.
abbrev pub AreShut : {Db : Type 0} → Redis Db → Store → Str → Db → Type 0
AreShut r s poll_id d =
    (b : ℕ)
    → b < s.buckets
    → (g : Option Time) × (r.entry d (gate_key poll_id b)
        ≡ some (record { value = str (codes "closed"); deadline = g }))

pub closed_inactive :
    (t : Time) (g : Option Time)
    → is_active (as_str (live t (some (record { value = str (codes "closed"); deadline = g }))))
      ≡ false
unfolding eq_str
closed_inactive t g = ground arith

module _ {Db : Type 0} (r : Redis Db) (laws : RedisLaws r) (sum256 : Str → List ℕ) (s : Store) where
  -- Opening the gates of a poll that has no keys yet starts its ledger empty, until the gates expire.
  pub setup_gates-Represents :
      (now : Time) (poll_id : Str) (ends_at until : Time) (d : Db)
      → ((b : ℕ) (x : Str) → r.entry d (dedup_key poll_id b x) ≡ none)
      → ((b : ℕ) → r.entry d (counts_key poll_id b) ≡ none)
      → until ≤ now + r.lifetime (ttl s ends_at now)
      → let (reply, d') = setup_gates r s complete now poll_id ends_at d in
        (reply ≡ ok tt) × Represents r sum256 s poll_id until d' []
  unfolding setup_gates write_gates
  setup_gates-Represents now poll_id ends_at until d no_marks no_counts lasts = (
    refl,
    record {
      gates = λ t n early h.
          rw
            (set_gates-gate r laws (codes "active") now poll_id (ttl s ends_at now) _ d n
              (In-range_from 0 s.buckets n (omega arith) (omega arith)))
            (ground arith);
      voted = λ t x early m. absurd m;
      fresh = λ t x early m.
          rw
            (
              set_gates-other r laws (codes "active") now poll_id (ttl s ends_at now) _ d _
                  (λ b. gate-ne-dedup poll_id poll_id b _ x),
              no_marks (place sum256 s x) x,
            )
            refl;
      counts = λ t n early h.
          rw
            (
              set_gates-other r laws (codes "active") now poll_id (ttl s ends_at now) _ d _
                  (λ b. gate-ne-counts poll_id poll_id b n),
              no_counts n,
            )
            (tt, λ f. inr (unfold lookup in refl, refl));
    },
  )

module _ {Db : Type 0} (r : Redis Db) (laws : RedisLaws r) where
  pub close_gates-AreShut :
      (s : Store) (now : Time) (poll_id : Str) (ends_at : Time) (d : Db)
      → AreShut r s poll_id (close_gates r s complete now poll_id ends_at d).1
  unfolding close_gates write_gates
  close_gates-AreShut s now poll_id ends_at d b h = (
    _,
    set_gates-gate r laws (codes "closed") now poll_id (ttl s ends_at now) (range_from 0 s.buckets)
        d b (In-range_from 0 s.buckets b (omega arith) (omega arith)),
  )

  -- A vote for a poll whose gates are closed is refused as not active and changes nothing.
  pub AreShut-refuses :
      (sum256 : Str → List ℕ) (s : Store) (t : Time) (cmd : VoteCommand) (d : Db)
      → 0 < s.buckets
      → AreShut r s cmd.poll_id d
      → record_vote r sum256 s answered t cmd d ≡ (err not_active, d)
  unfolding record_vote
  AreShut-refuses sum256 s t cmd d some_buckets shut =
      let n = bucket sum256 cmd.device_hash s.buckets in
      let (g, e) = shut n (bucket-lt sum256 cmd.device_hash s.buckets some_buckets) in
      rw
        (script_shut r laws t (gate_key cmd.poll_id n) _ _ _ cmd.option_ids d
          (rw e (closed_inactive t g)))
        refl

module _ {Db : Type 0} (r : Redis Db) (laws : RedisLaws r) (sum256 : Str → List ℕ) (s : Store) where
  -- Once the gates of a poll are closed, every vote for it is refused as not active, at any later time
  -- and from any device, and changes nothing.
  pub close_gates-refuses :
      (now : Time) (ends_at : Time) (d : Db) (t : Time) (cmd : VoteCommand)
      → 0 < s.buckets
      → let d' = (close_gates r s complete now cmd.poll_id ends_at d).1 in
        record_vote r sum256 s answered t cmd d' ≡ (err not_active, d')
  close_gates-refuses now ends_at d t cmd some_buckets =
      AreShut-refuses r laws sum256 s t cmd _ some_buckets
        (close_gates-AreShut r laws s now cmd.poll_id ends_at d)
