-- ===== src/Store/Gates/Deleted.antt =====
-- What deleting the gates of a poll does to its votes.
use mipttest_task.Base.{
  ℕ, ◌<◌, ◌≡◌, refl, ap, ◌∙◌, inl, inr, Bool, true, false, none, List, [], ◌∷◌, arith,
  if◌then◌else◌, Str, eq_str, eq_str_refl, In, range_from,
}
use mipttest_task.Domain.Errors.{err, not_active}
use mipttest_task.Domain.Poll.{Time, VoteCommand}
use mipttest_task.Redis.{Redis, RedisLaws, live, as_str}
use mipttest_task.Store.Keys.{bucket, gate_key}
use mipttest_task.Store.Ttl.{Store}
use mipttest_task.Store.Wire.{answered}
use mipttest_task.Store.Gates.{del_gates, delete_gates}
use mipttest_task.Store.Gates.Effect.{In-range_from}
use mipttest_task.Store.Votes.{record_vote, is_active}
use mipttest_task.Store.Votes.Ledger.Refines.{bucket-lt, script_shut}

module _ {Db : Type 0} (r : Redis Db) (laws : RedisLaws r) (poll_id : Str) where
  del_gates-kept :
      (bs : List ℕ) (d : Db) (j : Str)
      → r.entry d j ≡ none
      → r.entry (del_gates r poll_id bs d) j ≡ none
  unfolding del_gates
  del_gates-kept [] d j h = h
  del_gates-kept (b ∷ bs) d j h =
      del_gates-kept bs _ j
        (laws.del_lem d (gate_key poll_id b) j ∙ still (eq_str (gate_key poll_id b) j))
    where
      still : (x : Bool) → (if x then none else r.entry d j) ≡ none
      still true = refl
      still false = h

  del_gates-gate :
      (bs : List ℕ) (d : Db) (b : ℕ)
      → In b bs
      → r.entry (del_gates r poll_id bs d) (gate_key poll_id b) ≡ none
  unfolding del_gates
  del_gates-gate [] d b m = absurd m
  del_gates-gate (c ∷ bs) d b (inl e) = del_gates-kept bs _ (gate_key poll_id b) (
      laws.del_lem d (gate_key poll_id c) (gate_key poll_id b)
      ∙ rw (e, eq_str_refl (gate_key poll_id c)))
  del_gates-gate (c ∷ bs) d b (inr m) = del_gates-gate bs _ b m

-- Once the gates of a poll are deleted, every vote for it is refused as not active and changes nothing.
pub delete_gates-refuses :
    {Db : Type 0} (r : Redis Db) (laws : RedisLaws r) (sum256 : Str → List ℕ) (s : Store) (d : Db)
    (t : Time) (cmd : VoteCommand)
    → 0 < s.buckets
    → let d' = (delete_gates r s answered cmd.poll_id d).1 in
      record_vote r sum256 s answered t cmd d' ≡ (err not_active, d')
unfolding delete_gates record_vote
delete_gates-refuses r laws sum256 s d t cmd some_buckets =
    let bs = range_from 0 s.buckets in
    let b = bucket sum256 cmd.device_hash s.buckets in
    let inside = bucket-lt sum256 cmd.device_hash s.buckets some_buckets in
    let gone =
      del_gates-gate r laws cmd.poll_id bs d b
        (In-range_from 0 s.buckets b (omega arith) (omega arith)) in
    rw
      (script_shut r laws t (gate_key cmd.poll_id b) _ _ _ cmd.option_ids
        (del_gates r cmd.poll_id bs d) (ap (λ e. is_active (as_str (live t e))) gone))
      refl
