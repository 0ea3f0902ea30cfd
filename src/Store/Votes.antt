-- ===== src/Store/Votes.antt =====
-- internal/redisstore/votes.go `Record`, and internal/redisstore/scripts/vote.lua.
pub mod Script
pub mod Ledger
use mipttest_task.Base.{
  ℕ, zero, suc, ◌*◌, Bool, true, false, not, Option, none, some, List, [], ◌∷◌, if◌then◌else◌, Str,
  codes, eq_str,
}
use mipttest_task.Base.Int.{ℤ, pos, negsuc}
use mipttest_task.Domain.Errors.{Result, ok, err, not_active, other, ◌>>=◌}
use mipttest_task.Domain.Poll.{Time, VoteStatus, recorded, already_recorded, VoteCommand}
use mipttest_task.Redis.{Redis, second}
use mipttest_task.Store.Keys.{bucket, gate_key, dedup_key, counts_key}
use mipttest_task.Store.Ttl.{Store, ttl, ceil_seconds}
use mipttest_task.Store.Wire.{Wire, call}

abbrev pub participants_field : Str
participants_field = codes "__participants"

abbrev pub is_active : Option Str → Bool
is_active none = false
is_active (some v) = eq_str v (codes "active")

module _ {Db : Type 0} (r : Redis Db) where
  -- The loop over `ARGV[2..n]`.
  unfoldable pub count_all : Time → Str → List Str → Db → Db
  count_all t counts [] d = d
  count_all t counts (id ∷ ids) d = count_all t counts ids (r.hincrby d t counts id)

  abbrev pub count_vote : Time → Str → ℕ → List Str → Db → Db
  count_vote t counts seconds ids d =
      r.expire (count_all t counts ids (r.hincrby d t counts participants_field)) t counts seconds

  -- vote.lua: the reply, and the server's state behind it. The server runs a script as one step.
  unfoldable pub vote_script : Time → Str → Str → Str → ℕ → List Str → Db → ℤ × Db
  unfolding count_all
  vote_script t gate dedup counts seconds ids d =
      let (inserted, d') = r.set_nx d t dedup (codes "1") (seconds * second) in
      if not (is_active (r.get d t gate))
      then (negsuc 0, d)
      else if not inserted
      then (pos 0, d')
      else (pos 1, count_vote t counts seconds ids d')

-- The switch on the script's reply.
abbrev pub vote_status : ℤ → Result VoteStatus
vote_status (pos zero) = ok already_recorded
vote_status (pos (suc zero)) = ok recorded
vote_status (pos (suc (suc n))) = err (other "unexpected vote script result")
vote_status (negsuc zero) = err not_active
vote_status (negsuc (suc n)) = err (other "unexpected vote script result")

module _ {Db : Type 0} (r : Redis Db) (sum256 : Str → List ℕ) (s : Store) where
  -- `Store.Record`
  unfoldable pub record_vote : Wire → Time → VoteCommand → Db → Result VoteStatus × Db
  record_vote wire now cmd d =
      let b = bucket sum256 cmd.device_hash s.buckets in
      let reply =
        vote_script r now (gate_key cmd.poll_id b) (dedup_key cmd.poll_id b cmd.device_hash)
          (counts_key cmd.poll_id b) (ceil_seconds (ttl s cmd.ends_at now)) cmd.option_ids d in
      let (n, d') = call wire d reply in (n >>= vote_status, d')
