-- ===== src/Store/Locks.antt =====
-- internal/redisstore/votes.go: `AcquireSnapshotLock`, `ReleaseSnapshotLock` and `AllowRate`.
pub mod Exclusion
use mipttest_task.Base.{
  ℕ, ◌+◌, ◌-◌, ◌*◌, ◌/◌, ◌<◌, Bool, true, false, Option, none, some, ◌++◌, ltb, ◌==◌, if◌then◌else◌,
  Str, codes, eq_str,
}
use mipttest_task.Base.Decimal.{itoa}
use mipttest_task.Domain.Errors.{Result, ok, err, ◌>>=◌}
use mipttest_task.Domain.Poll.{Time}
use mipttest_task.Redis.{Redis, second}
use mipttest_task.Store.Wire.{Wire, call}

abbrev pub lock_key : Str → Str
lock_key poll_id = codes "snapshot-lock:" ++ poll_id

-- `redis.call('GET',KEYS[1])==ARGV[1]`
abbrev pub holds : Str → Option Str → Bool
holds token none = false
holds token (some v) = eq_str v token

-- The number of minutes since 1970, as a Unix time in seconds divided by 60.
abbrev pub unix_epoch : ℕ
unix_epoch = 62167219200

abbrev pub window_of : Time → ℕ
window_of now = (now / second) / 60 - unix_epoch / 60

abbrev pub rate_key : Str → Time → Str
rate_key network_hash now =
    codes "vote-rate:" ++ (network_hash ++ (codes ":" ++ itoa (window_of now)))

module _ {Db : Type 0} (r : Redis Db) where
  -- `AcquireSnapshotLock`
  unfoldable pub acquire_lock : Wire → Time → Str → Str → ℕ → Db → Result Bool × Db
  acquire_lock wire now poll_id token n d = call wire d (r.set_nx d now (lock_key poll_id) token n)

  -- `unlockLua`
  unfoldable pub unlock_script : Time → Str → Str → Db → Db
  unlock_script now key token d = if holds token (r.get d now key) then r.del d key else d

  -- `ReleaseSnapshotLock`
  unfoldable pub release_lock : Wire → Time → Str → Str → Db → Result (Unit {0}) × Db
  unfolding unlock_script
  release_lock wire now poll_id token d =
      call wire d (tt, unlock_script now (lock_key poll_id) token d)

  -- `rateLua`
  unfoldable pub rate_script : Time → Str → ℕ → ℕ → Db → ℕ × Db
  rate_script now key limit seconds d =
      let (n, d1) = r.incr d now key in
      let d2 = if n == 1 then r.expire d1 now key seconds else d1 in
      (if ltb limit n then 0 else 1, d2)

  -- `AllowRate`
  unfoldable pub allow_rate : Wire → Time → Str → ℕ → Db → Result Bool × Db
  unfolding rate_script
  allow_rate wire now network_hash limit d =
      let (reply, d') = call wire d (rate_script now (rate_key network_hash now) limit 65 d) in
      (reply >>= (λ n. ok (n == 1)), d')
