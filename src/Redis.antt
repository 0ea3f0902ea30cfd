-- ===== src/Redis.antt =====
-- The Redis service as internal/redisstore uses it through go-redis and Lua: an interface of the
-- commands that the code calls, with the documented behaviour of each as a law. The service is no
-- code of the repository, so every definition that calls it takes it as a parameter.
pub mod Keyspace
use mipttest_task.Base.{
  ℕ, zero, suc, ◌+◌, ◌*◌, ◌^◌, ◌≤◌, ◌<◌, ◌≡◌, ◌⊎◌, Bool, true, false, Option, none, some, List, [],
  ◌∷◌, ltb, if◌then◌else◌, Str, eq_str,
}
use mipttest_task.Base.Decimal.{itoa}
use mipttest_task.Base.Dict.{Dict, lookup}
use mipttest_task.Domain.Poll.{Time}

pub data Value : Type 0 where
  str : Str → Value
  hash : Dict Str → Value

-- A key's value, and when it expires.
pub record Entry : Type 0 where
  pub value : Value
  pub deadline : Option Time

abbrev pub is_alive : Time → Option Time → Bool
is_alive t none = true
is_alive t (some g) = ltb t g

-- What a command sees of an entry at a time.
abbrev pub live : Time → Option Entry → Option Entry
live t none = none
live t (some e) = if is_alive t e.deadline then some e else none

abbrev pub as_str : Option Entry → Option Str
as_str none = none
as_str (some e) = elim e.value [ str s ↦ some s | hash _ ↦ none ]

abbrev pub as_hash : Option Entry → Dict Str
as_hash none = []
as_hash (some e) = elim e.value [ str _ ↦ [] | hash h ↦ h ]

-- A missing key, or one that holds a hash: `HINCRBY` and `HGETALL` want one of these.
abbrev pub IsHash : Option Entry → Type 0
IsHash none = Unit
IsHash (some e) = elim e.value [ str _ ↦ ⊥ | hash _ ↦ Unit ]

abbrev pub deadline_of : Option Entry → Option Time
deadline_of none = none
deadline_of (some e) = e.deadline

-- A field that holds the number in decimal; a missing field counts as 0.
abbrev pub IsCount : Dict Str → Str → ℕ → Type 0
IsCount h f n = (lookup f h ≡ some (itoa n)) ⊎ ((lookup f h ≡ none) × (n ≡ 0))

abbrev pub HasField : Str → Dict Str → Type 0
HasField f [] = ⊥
HasField f ((g, _) ∷ h) = (f ≡ g) ⊎ HasField f h

abbrev pub HasDistinctFields : Dict Str → Type 0
HasDistinctFields [] = Unit
HasDistinctFields ((f, _) ∷ h) = (¬ HasField f h) × HasDistinctFields h

abbrev pub second : ℕ
second = 1000000000

-- Every command takes the time at which the server runs it. `set` and `set_nx` take the expiration
-- in nanoseconds; the client rounds it down to a whole unit of the protocol, to `lifetime`.
pub record Redis (Db : Type 0) : Type 0 where
  pub entry : Db → Str → Option Entry
  pub lifetime : ℕ → ℕ
  pub get : Db → Time → Str → Option Str
  pub set : Db → Time → Str → Str → ℕ → Db
  pub set_nx : Db → Time → Str → Str → ℕ → Bool × Db
  pub hincrby : Db → Time → Str → Str → Db
  pub expire : Db → Time → Str → ℕ → Db
  pub hgetall : Db → Time → Str → Dict Str
  pub del : Db → Str → Db
  pub incr : Db → Time → Str → ℕ × Db

-- The documented behaviour of the commands.
pub record RedisLaws {Db : Type 0} (r : Redis Db) : Type 0 where
  pub lifetime_le : (n : ℕ) → r.lifetime n ≤ n
  pub lifetime_seconds : (n : ℕ) → r.lifetime (n * second) ≡ n * second
  pub get_lem : (d : Db) (t : Time) (k : Str) → r.get d t k ≡ as_str (live t (r.entry d k))
  pub set_lem :
      (d : Db) (t : Time) (k v : Str) (n : ℕ) (j : Str)
      → r.entry (r.set d t k v n) j ≡ (
          if eq_str k j
          then some (record { value = str v; deadline = some (t + r.lifetime n) })
          else r.entry d j)
  -- `SET … NX` on a key that is there changes nothing.
  pub set_nx_taken :
      (d : Db) (t : Time) (k v : Str) (n : ℕ) (e : Entry)
      → live t (r.entry d k) ≡ some e
      → r.set_nx d t k v n ≡ (false, d)
  pub set_nx_free :
      (d : Db) (t : Time) (k v : Str) (n : ℕ)
      → live t (r.entry d k) ≡ none
      → r.set_nx d t k v n ≡ (true, r.set d t k v n)
  -- `HINCRBY key field 1` makes the hash or the field where it is missing, and keeps the deadline.
  pub hincrby_self :
      (d : Db) (t : Time) (k f : Str) (n : ℕ)
      → IsHash (live t (r.entry d k))
      → IsCount (as_hash (live t (r.entry d k))) f n
      → suc n < 2 ^ 63
      → (h : Dict Str) × (r.entry (r.hincrby d t k f) k
          ≡ some (record { value = hash h; deadline = deadline_of (live t (r.entry d k)) }))
        × ((j : Str)
            → lookup j h ≡ (
                if eq_str f j
                then some (itoa (suc n))
                else lookup j (as_hash (live t (r.entry d k)))))
  pub hincrby_other :
      (d : Db) (t : Time) (k f j : Str)
      → eq_str k j ≡ false
      → r.entry (r.hincrby d t k f) j ≡ r.entry d j
  pub expire_self :
      (d : Db) (t : Time) (k : Str) (n : ℕ) (e : Entry)
      → live t (r.entry d k) ≡ some e
      → r.entry (r.expire d t k n) k ≡ some (record e { deadline = some (t + n * second) })
  pub expire_other :
      (d : Db) (t : Time) (k : Str) (n : ℕ) (j : Str)
      → eq_str k j ≡ false
      → r.entry (r.expire d t k n) j ≡ r.entry d j
  pub hgetall_lem : (d : Db) (t : Time) (k : Str) → r.hgetall d t k ≡ as_hash (live t (r.entry d k))
  pub hgetall_distinct : (d : Db) (t : Time) (k : Str) → HasDistinctFields (r.hgetall d t k)
  pub del_lem :
      (d : Db) (k j : Str) → r.entry (r.del d k) j ≡ (if eq_str k j then none else r.entry d j)
  -- `INCR` counts from 0 and keeps the deadline.
  pub incr_new :
      (d : Db) (t : Time) (k : Str)
      → live t (r.entry d k) ≡ none
      → ((r.incr d t k).0 ≡ 1)
        × (r.entry (r.incr d t k).1 k ≡ some (record { value = str (itoa 1); deadline = none }))
  pub incr_old :
      (d : Db) (t : Time) (k : Str) (e : Entry) (n : ℕ)
      → live t (r.entry d k) ≡ some e
      → e.value ≡ str (itoa n)
      → suc n < 2 ^ 63
      → ((r.incr d t k).0 ≡ suc n)
        × (r.entry (r.incr d t k).1 k ≡ some (record e { value = str (itoa (suc n)) }))
  pub incr_other :
      (d : Db) (t : Time) (k j : Str)
      → eq_str k j ≡ false
      → r.entry (r.incr d t k).1 j ≡ r.entry d j
