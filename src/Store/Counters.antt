-- ===== src/Store/Counters.antt =====
-- internal/redisstore/votes.go: `Totals` and `addCounters`.
pub mod Values
pub mod Sums
pub mod Exact
use mipttest_task.Base.{
  ℕ, ◌+◌, ◌-◌, Bool, true, false, not, Option, none, some, List, [], ◌∷◌, ltb, if◌then◌else◌, Str,
  codes, eq_str, range_from,
}
use mipttest_task.Base.Int.{ℤ, pos, negsuc, max_int64}
use mipttest_task.Base.Decimal.{parse_int}
use mipttest_task.Base.Dict.{Dict, lookup, insert, get_or}
use mipttest_task.Domain.Errors.{Result, ok, err, Error, other, ◌>>=◌}
use mipttest_task.Domain.Poll.{Time, Totals, contains}
use mipttest_task.Redis.{Redis}
use mipttest_task.Store.Keys.{counts_key}
use mipttest_task.Store.Ttl.{Store}
use mipttest_task.Store.Wire.{Wire, answered, unreachable}
use mipttest_task.Store.Votes.{participants_field}

-- A counter's text as an int64, `none` where it is none or is negative.
abbrev pub counter_value : Str → Option ℕ
counter_value raw = elim (parse_int raw) [
  | none ↦ none
  | some z ↦ elim z [ pos n ↦ some n | negsuc _ ↦ none ]
]

-- `t.Participants += n` and `t.Options[field] += n`, each behind its check for overflow.
abbrev add_participants : ℕ → Totals → Result Totals
add_participants n t =
    if ltb (max_int64 - t.participants) n
    then err (other "participants counter overflow")
    else ok (record t { participants = t.participants + n })

abbrev add_option : Str → ℕ → Totals → Result Totals
add_option field n t =
    if ltb (max_int64 - get_or t.options field 0) n
    then err (other "option counter overflow")
    else ok (record t { options = insert field (get_or t.options field 0 + n) t.options })

-- One round of the loop.
unfoldable pub add_counter : List Str → Str → Option ℕ → Totals → Result Totals
add_counter valid field none t = err (other "invalid counter")
add_counter valid field (some n) t =
    if eq_str field participants_field
    then add_participants n t
    else if not (contains valid field)
    then ok t
    else add_option field n t

-- `addCounters`
unfoldable pub add_counters : List Str → Dict Str → Totals → Result Totals
unfolding add_counter
add_counters valid [] t = ok t
add_counters valid ((field, raw) ∷ values) t =
    add_counter valid field (counter_value raw) t >>= add_counters valid values

-- `t.Options[id] = 0` for every option of the poll.
unfoldable pub zero_options : List Str → Dict ℕ → Dict ℕ
zero_options [] m = m
zero_options (id ∷ ids) m = zero_options ids (insert id 0 m)

module _ {Db : Type 0} (r : Redis Db) (s : Store) where
  unfoldable pub add_buckets : Db → Time → Str → List Str → List ℕ → Totals → Result Totals
  add_buckets d now poll_id valid [] t = ok t
  add_buckets d now poll_id valid (b ∷ bs) t =
      add_counters valid (r.hgetall d now (counts_key poll_id b)) t
      >>= add_buckets d now poll_id valid bs

  abbrev no_votes : Time → List Str → Totals
  no_votes now ids = record { participants = 0; options = zero_options ids []; as_of = now }

  -- `Store.Totals`. It changes nothing on the server; the pipeline is answered whole or fails.
  unfoldable pub totals : Wire → Time → Str → List Str → Db → Result Totals
  unfolding zero_options add_buckets
  totals answered now poll_id ids d =
      add_buckets d now poll_id ids (range_from 0 s.buckets) (no_votes now ids)
  totals _ now poll_id ids d = err unreachable
