-- ===== src/Store/Gates/Shut.antt =====
-- Closed gates stay closed: no vote, for whatever poll, and no request for the rate limit opens one.
use mipttest_task.Base.{
  ℕ, ◌*◌, ◌≡◌, ◌≢◌, refl, sym, ap, ◌∙◌, inl, inr, Bool, true, false, not, Option-cases, List, ◌∷◌,
  arith, ◌==◌, if◌then◌else◌, Str, codes, eq_str,
}
use mipttest_task.Base.Int.{ℤ, pos, negsuc}
use mipttest_task.Domain.Poll.{Time, VoteCommand}
use mipttest_task.Redis.{Redis, RedisLaws, live, second}
use mipttest_task.Store.Keys.{bucket, gate_key, dedup_key, counts_key}
use mipttest_task.Store.Keys.Names.{gate-ne-dedup, gate-ne-counts}
use mipttest_task.Store.Ttl.{Store, ttl, ceil_seconds}
use mipttest_task.Store.Wire.{Wire, answered, lost, unacknowledged, call}
use mipttest_task.Store.Gates.Effect.{AreShut}
use mipttest_task.Store.Votes.{vote_script, record_vote, is_active, count_vote}
use mipttest_task.Store.Votes.Script.{count_vote-other}
use mipttest_task.Store.Votes.Ledger.Refines.{ne_of_ne}
use mipttest_task.Store.Locks.{rate_key, rate_script, allow_rate}

-- The gates of all polls are as they were.
abbrev pub KeepsGates : {Db : Type 0} → Redis Db → Db → Db → Type 0
KeepsGates r d d' = (j : Str) (b : ℕ) → r.entry d' (gate_key j b) ≡ r.entry d (gate_key j b)

gate-ne-rate : (p h : Str) (b : ℕ) (t : Time) → gate_key p b ≢ rate_key h t
unfolding gate_key
gate-ne-rate p h b t e = kinds e
  where
    kinds : {s t : Str} → b'p' ∷ s ≢ b'v' ∷ t
    kinds e = absurd (ground arith)

module _ {Db : Type 0} (r : Redis Db) (laws : RedisLaws r) where
  pub AreShut-kept :
      (s : Store) (poll_id : Str) (d d' : Db)
      → KeepsGates r d d'
      → AreShut r s poll_id d
      → AreShut r s poll_id d'
  AreShut-kept s poll_id d d' same shut b h = let (g, e) = shut b h in (g, same poll_id b ∙ e)

  set_nx-other :
      (d : Db) (t : Time) (k v : Str) (n : ℕ) (j : Str)
      → eq_str k j ≡ false
      → r.entry (r.set_nx d t k v n).1 j ≡ r.entry d j
  set_nx-other d t k v n j h = elim (Option-cases (live t (r.entry d k))) [
    | inl free ↦
        ap (λ x. r.entry x.1 j) (laws.set_nx_free d t k v n free)
        ∙ laws.set_lem d t k v n j
        ∙ rw h refl
    | inr (e, there) ↦ ap (λ x. r.entry x.1 j) (laws.set_nx_taken d t k v n e there)
  ]

  vote_script-other :
      (t : Time) (g k c : Str) (seconds : ℕ) (ids : List Str) (d : Db) (j : Str)
      → eq_str k j ≡ false
      → eq_str c j ≡ false
      → r.entry (vote_script r t g k c seconds ids d).1 j ≡ r.entry d j
  unfolding vote_script
  vote_script-other t g k c seconds ids d j h l =
      by_tests (not (is_active (r.get d t g)))
        (not (r.set_nx d t k (codes "1") (seconds * second)).0)
    where
      d1 : Db
      d1 = (r.set_nx d t k (codes "1") (seconds * second)).1

      marked : r.entry d1 j ≡ r.entry d j
      marked = set_nx-other d t k (codes "1") (seconds * second) j h

      tried : Bool → Bool → ℤ × Db
      tried shut taken =
          if shut
          then (negsuc 0, d)
          else if taken
          then (pos 0, d1)
          else (pos 1, count_vote r t c seconds ids d1)

      by_tests : (shut taken : Bool) → r.entry (tried shut taken).1 j ≡ r.entry d j
      by_tests true taken = refl
      by_tests false true = marked
      by_tests false false = count_vote-other r laws t c d1 seconds ids j l ∙ marked

  call-KeepsGates :
      {A : Type 0} (w : Wire) (d : Db) (done : A × Db)
      → KeepsGates r d done.1
      → KeepsGates r d (call w d done).1
  call-KeepsGates answered d done h j b = h j b
  call-KeepsGates lost d done h j b = refl
  call-KeepsGates unacknowledged d done h j b = h j b

  pub record_vote-KeepsGates :
      (sum256 : Str → List ℕ) (s : Store) (w : Wire) (t : Time) (cmd : VoteCommand) (d : Db)
      → KeepsGates r d (record_vote r sum256 s w t cmd d).1
  unfolding record_vote
  record_vote-KeepsGates sum256 s w t cmd d =
      let n = bucket sum256 cmd.device_hash s.buckets in
      call-KeepsGates w d _ (λ j b.
        vote_script-other t (gate_key cmd.poll_id n) (dedup_key cmd.poll_id n cmd.device_hash)
          (counts_key cmd.poll_id n) (ceil_seconds (ttl s cmd.ends_at t)) cmd.option_ids d
          (gate_key j b)
          (ne_of_ne _ _ (λ e. gate-ne-dedup j cmd.poll_id b n cmd.device_hash (sym e)))
          (ne_of_ne _ _ (λ e. gate-ne-counts j cmd.poll_id b n (sym e))))

  rate_script-other :
      (now : Time) (k : Str) (limit seconds : ℕ) (d : Db) (j : Str)
      → eq_str k j ≡ false
      → r.entry (rate_script r now k limit seconds d).1 j ≡ r.entry d j
  unfolding rate_script
  rate_script-other now k limit seconds d j h = by_first ((r.incr d now k).0 == 1)
    where
      by_first :
          (b : Bool)
          → r.entry (if b then r.expire (r.incr d now k).1 now k seconds else (r.incr d now k).1) j
            ≡ r.entry d j
      by_first true = laws.expire_other _ now k seconds j h ∙ laws.incr_other d now k j h
      by_first false = laws.incr_other d now k j h

  pub allow_rate-KeepsGates :
      (w : Wire) (now : Time) (network_hash : Str) (limit : ℕ) (d : Db)
      → KeepsGates r d (allow_rate r w now network_hash limit d).1
  unfolding allow_rate
  allow_rate-KeepsGates w now network_hash limit d = call-KeepsGates w d _ (λ j b.
      rate_script-other now (rate_key network_hash now) limit 65 d (gate_key j b)
        (ne_of_ne _ _ (λ e. gate-ne-rate j network_hash b now (sym e))))
