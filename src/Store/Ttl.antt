-- ===== src/Store/Ttl.antt =====
-- internal/redisstore/votes.go: `Store` and its `TTL`.
use mipttest_task.Base.{
  ℕ, ◌+◌, ◌-◌, ◌*◌, ◌/◌, ◌^◌, ◌≤◌, ◌<◌, ◌≡◌, arith, min, max, ltb, leb, if◌then◌else◌,
}
use mipttest_task.Base.Int.{ℤ, pos, negsuc, pos_part, ltb_ℤ, add_int64, max_int64}
use mipttest_task.Domain.Poll.{Time}
use mipttest_task.Redis.{second}

-- The configuration of a `Store`. `config.Load` accepts 1 to 4096 buckets and positive durations, so
-- the fields are natural numbers; a duration is its nanoseconds, below 2^63.
pub record Store : Type 0 where
  pub buckets : ℕ
  pub retention : ℕ
  pub max_ttl : ℕ

-- `a.Sub(b)`: the difference as an int64 of nanoseconds, which saturates at both ends.
unfoldable pub time_sub : Time → Time → ℤ
time_sub a b = if leb b a then pos (min (a - b) max_int64) else negsuc (min (b - a) (2 ^ 63) - 1)

-- `if ttl < time.Second { ttl = time.Second }`, and the same with the maximum.
abbrev clamp_ttl : ℕ → ℤ → ℕ
clamp_ttl most n =
    let low = if ltb_ℤ n (pos second) then second else pos_part n in
    if ltb most low then most else low

-- `Store.TTL`; the sum is on int64 and wraps.
unfoldable pub ttl : Store → Time → Time → ℕ
ttl s ends_at now = clamp_ttl s.max_ttl (add_int64 (time_sub ends_at now) (pos s.retention))

-- `int64(math.Ceil(ttl.Seconds()))`. The float is exact enough for the ceiling up to 2^22 seconds.
unfoldable pub ceil_seconds : ℕ → ℕ
ceil_seconds n = (n + (second - 1)) / second

-- Whatever the two times, a TTL is at least a second, or the configured maximum if that is less, and
-- never above the maximum.
pub ttl_bounds :
    (s : Store) (ends_at now : Time)
    → (min second s.max_ttl ≤ ttl s ends_at now) × (ttl s ends_at now ≤ s.max_ttl)
unfolding ttl
ttl_bounds s ends_at now = (ground arith, ground arith)

-- The difference of two times and a retention, where int64 holds it.
sum_in_range :
    (ends_at now retention : ℕ)
    → (ends_at - now) + retention < 2 ^ 63
    → now - ends_at < 2 ^ 63
    → pos_part (add_int64 (time_sub ends_at now) (pos retention)) ≡ (ends_at + retention) - now
unfolding time_sub add_int64
sum_in_range ends_at now retention h k = ground arith

sum_sign : (n : ℤ) → ltb_ℤ n (pos second) ≡ ltb (pos_part n) second
sum_sign n = ground arith

-- The TTL that is meant: what is left until the end plus the retention, between a second and the
-- maximum.
abbrev pub plain_ttl : Store → Time → Time → ℕ
plain_ttl s ends_at now = min s.max_ttl (max second (ends_at + s.retention - now))

-- A TTL is the time left until the end plus the retention, raised to a second and cut to the maximum,
-- while int64 holds the sum of the two.
pub ttl-eq-plain_ttl :
    (s : Store) (ends_at now : Time)
    → (ends_at - now) + s.retention < 2 ^ 63
    → now - ends_at < 2 ^ 63
    → ttl s ends_at now ≡ plain_ttl s ends_at now
unfolding ttl
ttl-eq-plain_ttl s ends_at now h k = ground (
  arith,
  sum_in_range ends_at now s.retention h k,
  sum_sign (add_int64 (time_sub ends_at now) (pos s.retention)),
)

sum_overflow :
    (ends_at now retention : ℕ)
    → 2 ^ 63 ≤ (ends_at - now) + retention
    → retention < 2 ^ 63
    → 1 ≤ retention
    → pos_part (add_int64 (time_sub ends_at now) (pos retention)) ≡ 0
unfolding time_sub add_int64
sum_overflow ends_at now retention h k l = ground arith

-- Where the time left and the retention together exceed int64, the sum wraps to a negative duration
-- and the TTL of the gates of a poll that ends in the far future is one second, or the maximum if
-- that is less.
pub ttl-wraps :
    (s : Store) (ends_at now : Time)
    → 2 ^ 63 ≤ (ends_at - now) + s.retention
    → s.retention < 2 ^ 63
    → 1 ≤ s.retention
    → ttl s ends_at now ≡ min second s.max_ttl
unfolding ttl
ttl-wraps s ends_at now h k l = ground (
  arith,
  sum_overflow ends_at now s.retention h k l,
  sum_sign (add_int64 (time_sub ends_at now) (pos s.retention)),
)

-- A key that is given its TTL later expires no earlier, while int64 holds the sum of the time left
-- and the retention at the earlier time.
pub deadline_mono :
    (s : Store) (ends_at now later : Time)
    → (ends_at - now) + s.retention < 2 ^ 63
    → now ≤ later
    → later - ends_at < 2 ^ 63
    → now + ttl s ends_at now ≤ later + ttl s ends_at later
deadline_mono s ends_at now later h k l = omega (
  arith,
  ttl-eq-plain_ttl s ends_at now h (omega arith),
  ttl-eq-plain_ttl s ends_at later (omega arith) l,
)

-- `Ceil` to seconds never shortens a TTL, and adds less than a second.
pub ceil_seconds_bounds :
    (n : ℕ) → (n ≤ ceil_seconds n * second) × (ceil_seconds n * second < n + second)
unfolding ceil_seconds
ceil_seconds_bounds n = (omega arith, omega arith)
