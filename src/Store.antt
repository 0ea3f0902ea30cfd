-- ===== src/Store.antt =====
-- internal/redisstore: keys, gates, the vote script, totals, the rate limit, the snapshot lock.
pub mod Keys
pub mod Ttl
pub mod Wire
pub mod Votes
pub mod Gates
pub mod Counters
pub mod Locks
pub mod Election
