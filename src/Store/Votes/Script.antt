-- ===== src/Store/Votes/Script.antt =====
-- What vote.lua does to the counters of a bucket, and what it leaves alone.
use mipttest_task.Base.{
  ℕ, suc, ◌+◌, ◌*◌, ◌^◌, ◌<◌, ◌≡◌, refl, ap, subst, ◌∙◌, inl, inr, true, false, Option, none, some,
  List, [], ◌∷◌, arith, if◌then◌else◌, Str, eq_str, eq_of_eq_str, eq_str_refl, Bool-cases,
}
use mipttest_task.Base.Decimal.{itoa}
use mipttest_task.Base.Dict.{Dict, lookup}
use mipttest_task.Domain.Poll.{Time}
use mipttest_task.Redis.{
  Redis, RedisLaws, Entry, Value, hash, live, as_hash, IsHash, deadline_of, IsCount, second,
}
use mipttest_task.Store.Votes.{count_all, count_vote, participants_field}

-- The entry is missing or a hash whose fields hold the numbers of `c`.
abbrev pub Counts : Option Entry → (Str → ℕ) → Type 0
Counts o c = IsHash o × ((f : Str) → IsCount (as_hash o) f (c f))

-- How often a field is counted by a list of `HINCRBY`s.
abbrev pub occurrences : Str → List Str → ℕ
occurrences j [] = 0
occurrences j (f ∷ fs) = (if eq_str f j then 1 else 0) + occurrences j fs

pub IsCount-cong : (h : Dict Str) (f : Str) (m n : ℕ) → m ≡ n → IsCount h f m → IsCount h f n
IsCount-cong h f m n e c = subst (IsCount h f) e c

-- An entry that keeps the deadline of what was live is live.
live-kept :
    (t : Time) (o : Option Entry) (v : Value)
    → let e : Entry = record { value = v; deadline = deadline_of (live t o) } in
      live t (some e) ≡ some e
live-kept t none v = refl
live-kept t (some e) v = ground arith

IsCount-bumped :
    (h old : Dict Str) (f j : Str) (m n : ℕ)
    → (eq_str f j ≡ true → m ≡ n)
    → lookup j h ≡ (if eq_str f j then some (itoa (suc m)) else lookup j old)
    → IsCount old j n
    → IsCount h j ((if eq_str f j then 1 else 0) + n)
IsCount-bumped h old f j m n same e c = elim (Bool-cases (eq_str f j)) [
  | inl b ↦
      let e' : lookup j h ≡ some (itoa (suc m)) = ground arith in
      let mn : suc m ≡ (if eq_str f j then 1 else 0) + n = rw b (omega (arith, same b)) in
      IsCount-cong h j _ _ mn (inl e')
  | inr b ↦
      let e' : lookup j h ≡ lookup j old = ground arith in
      let nn : n ≡ (if eq_str f j then 1 else 0) + n = rw b (omega arith) in
      IsCount-cong h j _ _ nn (rw e' c)
]

first_small :
    (id : Str) (ids : List Str) (c : ℕ) → occurrences id (id ∷ ids) + c < 2 ^ 63 → suc c < 2 ^ 63
first_small id ids c h = ground (arith, eq_str_refl id)

module _ {Db : Type 0} (r : Redis Db) (laws : RedisLaws r) (t : Time) (k : Str) where
  -- The live entry is a hash that holds the numbers of `c`.
  abbrev Stored : Db → (Str → ℕ) → Type 0
  Stored d c =
      (e : Entry) × (h : Dict Str) × (live t (r.entry d k) ≡ some e)
      × (e.value ≡ hash h)
      × ((f : Str) → IsCount h f (c f))

  hincrby-Stored :
      (d : Db) (f : Str) (c : Str → ℕ)
      → Counts (live t (r.entry d k)) c
      → suc (c f) < 2 ^ 63
      → Stored (r.hincrby d t k f) (λ j. (if eq_str f j then 1 else 0) + c j)
  hincrby-Stored d f c (is_hash, counts) small =
      let (h, e, l) = laws.hincrby_self d t k f (c f) is_hash (counts f) small in
      (
        record { value = hash h; deadline = deadline_of (live t (r.entry d k)) },
        h,
        ap (live t) e ∙ live-kept t (r.entry d k) (hash h),
        refl,
        λ j.
            IsCount-bumped h (as_hash (live t (r.entry d k))) f j (c f) (c j)
              (λ e. ap c (eq_of_eq_str f j e)) (l j) (counts j),
      )

  Stored-Counts : (d : Db) (c : Str → ℕ) → Stored d c → Counts (live t (r.entry d k)) c
  Stored-Counts d c (e, h, le, v, counts) = rw le (rw v (tt, counts))

  -- The loop of the script adds the occurrences of each field.
  count_all-Stored :
      (d : Db) (ids : List Str) (c : Str → ℕ)
      → Stored d c
      → ((j : Str) → occurrences j ids + c j < 2 ^ 63)
      → Stored (count_all r t k ids d) (λ j. occurrences j ids + c j)
  unfolding count_all
  count_all-Stored d [] c (e, h, le, v, counts) small =
      (e, h, le, v, λ j. IsCount-cong h j (c j) _ (omega arith) (counts j))
  count_all-Stored d (id ∷ ids) c s small =
      let c' = λ (j : Str). (if eq_str id j then 1 else 0) + c j in
      let first = first_small id ids (c id) (small id) in
      let s' = hincrby-Stored d id c (Stored-Counts d c s) first in
      let (e, h, le, v, counts) =
        count_all-Stored (r.hincrby d t k id) ids c' s' (λ j. omega (arith, small j)) in
      (e, h, le, v, λ j. IsCount-cong h j _ _ (omega arith) (counts j))

  -- All of the counting behind the script's tests: the participants, every option, and the expiry.
  pub count_vote-Counts :
      (d : Db) (seconds : ℕ) (ids : List Str) (c : Str → ℕ)
      → Counts (live t (r.entry d k)) c
      → ((j : Str) → occurrences j (participants_field ∷ ids) + c j < 2 ^ 63)
      → (h : Dict Str) × (r.entry (count_vote r t k seconds ids d) k
          ≡ some (record { value = hash h; deadline = some (t + seconds * second) }))
        × ((j : Str) → IsCount h j (occurrences j (participants_field ∷ ids) + c j))
  count_vote-Counts d seconds ids c start small =
      let c' = λ (j : Str). (if eq_str participants_field j then 1 else 0) + c j in
      let first =
        first_small participants_field ids (c participants_field) (small participants_field) in
      let s' = hincrby-Stored d participants_field c start first in
      let (e, h, le, v, counts) =
        count_all-Stored (r.hincrby d t k participants_field) ids c' s'
          (λ j. omega (arith, small j)) in
      (
        h,
        laws.expire_self _ t k seconds e le ∙ ap (λ w. some (stamped w)) v,
        λ j. IsCount-cong h j _ _ (omega arith) (counts j),
      )
    where
      stamped : Value → Entry
      stamped w = record { value = w; deadline = some (t + seconds * second) }

  count_all-other :
      (d : Db) (ids : List Str) (j : Str)
      → eq_str k j ≡ false
      → r.entry (count_all r t k ids d) j ≡ r.entry d j
  unfolding count_all
  count_all-other d [] j h = refl
  count_all-other d (id ∷ ids) j h =
      count_all-other (r.hincrby d t k id) ids j h ∙ laws.hincrby_other d t k id j h

  -- No other key is touched.
  pub count_vote-other :
      (d : Db) (seconds : ℕ) (ids : List Str) (j : Str)
      → eq_str k j ≡ false
      → r.entry (count_vote r t k seconds ids d) j ≡ r.entry d j
  count_vote-other d seconds ids j h =
      laws.expire_other _ t k seconds j h
      ∙ count_all-other _ ids j h
      ∙ laws.hincrby_other d t k participants_field j h
