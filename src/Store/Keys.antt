-- ===== src/Store/Keys.antt =====
-- internal/redisstore/votes.go: `Bucket` and the names of the keys of a poll.
pub mod Names
use mipttest_task.Base.{ℕ, zero, suc, ◌+◌, ◌*◌, ◌%◌, List, [], ◌∷◌, ◌++◌, Str, codes, take}
use mipttest_task.Base.Decimal.{itoa}

-- `binary.BigEndian.Uint64`
abbrev big_endian : ℕ → List ℕ → ℕ
big_endian acc [] = acc
big_endian acc (b ∷ bs) = big_endian (acc * 256 + b) bs

-- The first argument is `sha256.Sum256`.
unfoldable pub bucket : (Str → List ℕ) → Str → ℕ → ℕ
bucket sum256 device_hash buckets = big_endian 0 (take 8 (sum256 device_hash)) % buckets

abbrev pub key_tag : Str → ℕ → Str
key_tag poll_id b = codes "{" ++ (poll_id ++ (codes ":" ++ (itoa b ++ codes "}")))

unfoldable pub gate_key : Str → ℕ → Str
gate_key poll_id b = codes "poll-gate:" ++ key_tag poll_id b

unfoldable pub dedup_key : Str → ℕ → Str → Str
dedup_key poll_id b device_hash =
    codes "poll-dedup:" ++ (key_tag poll_id b ++ (codes ":" ++ device_hash))

unfoldable pub counts_key : Str → ℕ → Str
counts_key poll_id b = codes "poll-counts:" ++ key_tag poll_id b
