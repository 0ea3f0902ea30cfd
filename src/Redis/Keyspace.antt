-- ===== src/Redis/Keyspace.antt =====
-- A key space in memory, which shows that the laws of `Redis` can be met, and runs in tests.
use mipttest_task.Base.{
  ℕ, suc, ◌+◌, ◌*◌, ◌^◌, ◌<◌, ◌≡◌, ◌≢◌, refl, sym, ap, ◌∙◌, inl, inr, Bool, true, false, Option,
  none, some, [], ◌∷◌, arith, if◌then◌else◌, Str, eq_str, eq_str_iff, eq_str_refl,
}
use mipttest_task.Base.Decimal.{itoa, parse_int, parse_int-itoa}
use mipttest_task.Base.Int.{pos, negsuc}
use mipttest_task.Base.Dict.{Dict, lookup, insert, erase, lookup-insert, lookup-erase}
use mipttest_task.Domain.Poll.{Time}
use mipttest_task.Redis.{
  Value, str, hash, Entry, live, is_alive, as_str, as_hash, deadline_of, IsCount, HasField,
  HasDistinctFields, second, Redis, RedisLaws,
}

abbrev pub Keyspace : Type 0
Keyspace = Str → Option Entry

-- A table with the first entry of every field.
unfoldable pub dedupe : Dict Str → Dict Str
dedupe [] = []
dedupe ((f, v) ∷ h) = (f, v) ∷ erase f (dedupe h)

abbrev clean_value : Value → Value
clean_value (str s) = str s
clean_value (hash h) = hash (dedupe h)

abbrev clean : Option Entry → Option Entry
clean none = none
clean (some e) = some (record e { value = clean_value e.value })

abbrev pub entry : Keyspace → Str → Option Entry
entry d k = clean (d k)

abbrev put : Keyspace → Str → Option Entry → Keyspace
put d k e j = if eq_str k j then e else d j

-- The number in a text, 0 where it is none.
abbrev number : Option Str → ℕ
number none = 0
number (some raw) = elim (parse_int raw) [ none ↦ 0 | some z ↦ elim z [ pos n ↦ n | negsuc _ ↦ 0 ] ]

abbrev set : Keyspace → Time → Str → Str → ℕ → Keyspace
set d t k v n = put d k (some (record { value = str v; deadline = some (t + n) }))

abbrev is_free : Option Entry → Bool
is_free none = true
is_free (some _) = false

abbrev set_nx : Keyspace → Time → Str → Str → ℕ → Bool × Keyspace
set_nx d t k v n = if is_free (live t (entry d k)) then (true, set d t k v n) else (false, d)

abbrev hincrby : Keyspace → Time → Str → Str → Keyspace
hincrby d t k f =
    let h = as_hash (live t (entry d k)) in
    put d k (
      some (record {
        value = hash (insert f (itoa (suc (number (lookup f h)))) h);
        deadline = deadline_of (live t (entry d k));
      }))

abbrev renewed : Time → ℕ → Option Entry → Option Entry
renewed t n none = none
renewed t n (some e) =
    if is_alive t e.deadline then some (record e { deadline = some (t + n * second) }) else some e

abbrev expire : Keyspace → Time → Str → ℕ → Keyspace
expire d t k n = put d k (renewed t n (d k))

abbrev hgetall : Keyspace → Time → Str → Dict Str
hgetall d t k = as_hash (live t (entry d k))

abbrev del : Keyspace → Str → Keyspace
del d k = put d k none

abbrev incr : Keyspace → Time → Str → ℕ × Keyspace
incr d t k =
    let n = suc (number (as_str (live t (entry d k)))) in
    (
      n,
      put d k (some (record { value = str (itoa n); deadline = deadline_of (live t (entry d k)) })),
    )

abbrev pub memory : Redis Keyspace
memory = record {
  entry = entry;
  lifetime = λ n. n;
  get = λ d t k. as_str (live t (entry d k));
  set = set;
  set_nx = set_nx;
  hincrby = hincrby;
  expire = expire;
  hgetall = hgetall;
  del = del;
  incr = incr;
}

lookup-dedupe : (j : Str) (h : Dict Str) → lookup j (dedupe h) ≡ lookup j h
unfolding dedupe lookup
lookup-dedupe j [] = refl
lookup-dedupe j ((f, v) ∷ h) =
    ground (arith, eq_str_iff f j, lookup-erase f j (dedupe h), lookup-dedupe j h)

HasField-erase : (j f : Str) (h : Dict Str) → HasField j (erase f h) → HasField j h × (j ≢ f)
unfolding erase
HasField-erase j f [] i = absurd i
HasField-erase j f ((g, v) ∷ h) i = go (λ k. HasField-erase j f h k) (eq_str g f) refl i
  where
    go :
        (HasField j (erase f h) → HasField j h × (j ≢ f))
        → (b : Bool) → eq_str g f ≡ b
        → HasField j (if b then erase f h else (g, v) ∷ erase f h)
        → HasField j ((g, v) ∷ h) × (j ≢ f)
    go ih true e i = let (m, ne) = ih i in (inr m, ne)
    go ih false e (inl same) = (
      inl same,
      λ jf. cc (sym e ∙ ap (eq_str g) (sym jf) ∙ ap (λ x. eq_str x j) (sym same) ∙ eq_str_refl j),
    )
    go ih false e (inr i) = let (m, ne) = ih i in (inr m, ne)

erase-distinct : (f : Str) (h : Dict Str) → HasDistinctFields h → HasDistinctFields (erase f h)
unfolding erase
erase-distinct f [] d = tt
erase-distinct f ((g, v) ∷ h) (absent, d) = go (erase-distinct f h d) (eq_str g f)
  where
    go :
        HasDistinctFields (erase f h)
        → (b : Bool) → HasDistinctFields (if b then erase f h else (g, v) ∷ erase f h)
    go rest true = rest
    go rest false = ((λ i. absent (HasField-erase g f h i).0), rest)

dedupe-distinct : (h : Dict Str) → HasDistinctFields (dedupe h)
unfolding dedupe
dedupe-distinct [] = tt
dedupe-distinct ((f, v) ∷ h) = (
  (λ i. (HasField-erase f f (dedupe h) i).1 refl),
  erase-distinct f (dedupe h) (dedupe-distinct h),
)

number_of_count :
    (h : Dict Str) (f : Str) (n : ℕ) → IsCount h f n → n < 2 ^ 63 → number (lookup f h) ≡ n
number_of_count h f n (inl e) small = ground (arith, parse_int-itoa n small)
number_of_count h f n (inr (e, z)) small = ground arith

live-clean : (t : Time) (o : Option Entry) → live t (clean o) ≡ clean (live t o)
live-clean t none = refl
live-clean t (some e) = go (is_alive t e.deadline)
  where
    go : (b : Bool) → (if b then clean (some e) else none) ≡ clean (if b then some e else none)
    go true = refl
    go false = refl

as_hash-distinct : (t : Time) (o : Option Entry) → HasDistinctFields (as_hash (live t (clean o)))
as_hash-distinct t none = tt
as_hash-distinct t (some e) = go (is_alive t e.deadline) e.value
  where
    go :
        (b : Bool) (v : Value)
        → HasDistinctFields (
            as_hash
              (if b then some (record { value = clean_value v; deadline = e.deadline }) else none))
    go true (str s) = tt
    go true (hash h) = dedupe-distinct h
    go false v = tt

put_self : (d : Keyspace) (k : Str) (e : Option Entry) → put d k e k ≡ e
put_self d k e = rw (eq_str_refl k)

put_other : (d : Keyspace) (k j : Str) (e : Option Entry) → eq_str k j ≡ false → put d k e j ≡ d j
put_other d k j e h = rw h

clean_if :
    (b : Bool) (x y : Option Entry) → clean (if b then x else y) ≡ (if b then clean x else clean y)
clean_if true x y = refl
clean_if false x y = refl

hincrby_self :
    (d : Keyspace) (t : Time) (k f : Str) (n : ℕ)
    → IsCount (as_hash (live t (entry d k))) f n
    → suc n < 2 ^ 63
    → (h : Dict Str) × (entry (hincrby d t k f) k
        ≡ some (record { value = hash h; deadline = deadline_of (live t (entry d k)) }))
      × ((j : Str)
          → lookup j h
            ≡ (if eq_str f j then some (itoa (suc n)) else lookup j (as_hash (live t (entry d k)))))
hincrby_self d t k f n c small =
    let old = as_hash (live t (entry d k)) in
    let same = number_of_count old f n c (omega arith) in
    (
      dedupe (insert f (itoa (suc (number (lookup f old)))) old),
      ap clean (put_self d k _),
      λ j.
          lookup-dedupe j _
          ∙ lookup-insert f j _ old
          ∙ ap (λ (m : ℕ). if eq_str f j then some (itoa (suc m)) else lookup j old) same,
    )

renewed-live :
    (t : Time) (n : ℕ) (o : Option Entry) (e : Entry)
    → live t (clean o) ≡ some e
    → clean (renewed t n o) ≡ some (record e { deadline = some (t + n * second) })
renewed-live t n none e h = cc
renewed-live t n (some x) e h = go (is_alive t x.deadline) h
  where
    go :
        (b : Bool)
        → (if b then clean (some x) else none) ≡ some e
        → clean (if b then some (record x { deadline = some (t + n * second) }) else some x)
          ≡ some (record e { deadline = some (t + n * second) })
    go true h = ground arith
    go false h = cc

expire_other :
    (d : Keyspace) (t : Time) (k : Str) (n : ℕ) (j : Str)
    → eq_str k j ≡ false
    → entry (expire d t k n) j ≡ entry d j
expire_other d t k n j h = ap clean (put_other d k j _ h)

incr_new :
    (d : Keyspace) (t : Time) (k : Str)
    → live t (entry d k) ≡ none
    → ((incr d t k).0 ≡ 1)
      × (entry (incr d t k).1 k ≡ some (record { value = str (itoa 1); deadline = none }))
incr_new d t k h = (
  ap (λ o. suc (number (as_str o))) h,
  ap clean (put_self d k _)
      ∙ ap
          (λ o.
            some
              (record { value = str (itoa (suc (number (as_str o)))); deadline = deadline_of o }))
          h,
)

number_of_text :
    (e : Entry) (n : ℕ) → e.value ≡ str (itoa n) → n < 2 ^ 63 → number (as_str (some e)) ≡ n
number_of_text e n h small = ground (arith, parse_int-itoa n small)

incr_old :
    (d : Keyspace) (t : Time) (k : Str) (e : Entry) (n : ℕ)
    → live t (entry d k) ≡ some e
    → e.value ≡ str (itoa n)
    → suc n < 2 ^ 63
    → ((incr d t k).0 ≡ suc n)
      × (entry (incr d t k).1 k ≡ some (record e { value = str (itoa (suc n)) }))
incr_old d t k e n h v small =
    let m : number (as_str (live t (entry d k))) ≡ n =
      ap (λ o. number (as_str o)) h ∙ number_of_text e n v (omega arith) in
    (
      ap suc m,
      ap clean (put_self d k _)
          ∙ ap (λ (x : ℕ). some (stamped (itoa (suc x)) (deadline_of (live t (entry d k))))) m
          ∙ ap (λ o. some (stamped (itoa (suc n)) (deadline_of o))) h,
    )
  where
    stamped : Str → Option Time → Entry
    stamped s g = record { value = str s; deadline = g }

pub memory-laws : RedisLaws memory
memory-laws = record {
  lifetime_le = λ n. omega arith;
  lifetime_seconds = λ n. refl;
  get_lem = λ d t k. refl;
  set_lem = λ d t k v n j. clean_if (eq_str k j) _ (d j);
  set_nx_taken = λ d t k v n e h. rw h;
  set_nx_free = λ d t k v n h. rw h;
  hincrby_self = λ d t k f n is_hash c small. hincrby_self d t k f n c small;
  hincrby_other = λ d t k f j h. ap clean (put_other d k j _ h);
  expire_self = λ d t k n e h. ap clean (put_self d k _) ∙ renewed-live t n (d k) e h;
  expire_other = expire_other;
  hgetall_lem = λ d t k. refl;
  hgetall_distinct = λ d t k. as_hash-distinct t (d k);
  del_lem = λ d k j. clean_if (eq_str k j) none (d j);
  incr_new = incr_new;
  incr_old = incr_old;
  incr_other = λ d t k j h. ap clean (put_other d k j _ h);
}
