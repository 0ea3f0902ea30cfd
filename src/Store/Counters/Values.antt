-- ===== src/Store/Counters/Values.antt =====
-- What the fields of a counter hash add to a total, without the loop's checks.
use mipttest_task.Base.{
  ℕ, ◌+◌, ◌^◌, ◌<◌, ◌≡◌, ◌≢◌, refl, sym, subst, inl, inr, Bool, true, false, none, some, [], ◌∷◌,
  arith, if◌then◌else◌, Str, eq_str, eq_str_iff, eq_of_eq_str, eq_str_refl, Bool-cases,
}
use mipttest_task.Base.Decimal.{itoa, parse_int-itoa}
use mipttest_task.Base.Dict.{Dict, lookup}
use mipttest_task.Redis.{IsCount, HasField, HasDistinctFields}
use mipttest_task.Store.Counters.{counter_value}

-- Every value is a number below 2^63 in decimal.
abbrev pub AreNumbers : Dict Str → Type 0
AreNumbers [] = Unit
AreNumbers ((f, raw) ∷ h) = ((n : ℕ) × (raw ≡ itoa n) × (n < 2 ^ 63)) × AreNumbers h

pub number : Str → ℕ
number raw = elim (counter_value raw) [ none ↦ 0 | some n ↦ n ]

abbrev pub value_sum : Str → Dict Str → ℕ
value_sum f [] = 0
value_sum f ((g, raw) ∷ h) = (if eq_str g f then number raw else 0) + value_sum f h

pub counter_value-itoa : (n : ℕ) → n < 2 ^ 63 → counter_value (itoa n) ≡ some n
counter_value-itoa n h = ground (arith, parse_int-itoa n h)

pub number-itoa : (n : ℕ) → n < 2 ^ 63 → number (itoa n) ≡ n
unfolding number
number-itoa n h = ground (arith, counter_value-itoa n h)

lookup-missing : (f : Str) (h : Dict Str) → ¬ HasField f h → lookup f h ≡ none
unfolding lookup
lookup-missing f [] m = refl
lookup-missing f ((g, raw) ∷ h) m =
    let ne : f ≢ g = λ e. m (inl e) in
    ground (arith, eq_str_iff g f, lookup-missing f h (λ i. m (inr i)))

value_sum-missing : (f : Str) (h : Dict Str) → ¬ HasField f h → value_sum f h ≡ 0
value_sum-missing f [] m = refl
value_sum-missing f ((g, raw) ∷ h) m =
    let ne : f ≢ g = λ e. m (inl e) in
    ground (arith, eq_str_iff g f, value_sum-missing f h (λ i. m (inr i)))

-- The entry of a field of its own.
lookup_head : (f raw : Str) (h : Dict Str) → lookup f ((f, raw) ∷ h) ≡ some raw
unfolding lookup
lookup_head f raw h = rw (eq_str_refl f)

lookup_tail :
    (f g raw : Str) (h : Dict Str) → eq_str g f ≡ false → lookup f ((g, raw) ∷ h) ≡ lookup f h
unfolding lookup
lookup_tail f g raw h e = rw e

IsCount-tail :
    (f g raw : Str) (h : Dict Str) (n : ℕ)
    → eq_str g f ≡ false
    → IsCount ((g, raw) ∷ h) f n
    → IsCount h f n
IsCount-tail f g raw h n e c = rw (lookup_tail f g raw h e) at c

head_raw : (f raw : Str) (h : Dict Str) (n : ℕ) → IsCount ((f, raw) ∷ h) f n → raw ≡ itoa n
head_raw f raw h n (inl e) = let l = lookup_head f raw h in cc
head_raw f raw h n (inr (e, z)) = let l = lookup_head f raw h in cc

-- Where fields are distinct, a field's sum is the number that it holds.
pub value_sum_lem :
    (f : Str) (h : Dict Str) (n : ℕ)
    → HasDistinctFields h
    → IsCount h f n
    → n < 2 ^ 63
    → value_sum f h ≡ n
value_sum_lem f [] n d (inl e) small = unfold lookup in cc
value_sum_lem f [] n d (inr (e, z)) small = sym z
value_sum_lem f ((g, raw) ∷ h) n (absent, d) c small = elim (Bool-cases (eq_str g f)) [
  | inl same ↦
      let e = eq_of_eq_str g f same in
      let raw_n = head_raw f raw h n (subst (λ x. IsCount ((x, raw) ∷ h) f n) e c) in
      let rest = value_sum-missing f h (subst (λ x. ¬ HasField x h) e absent) in
      rw (same, raw_n) (omega (arith, rest, number-itoa n small))
  | inr other ↦
      rw other (omega (arith, value_sum_lem f h n d (IsCount-tail f g raw h n other c) small))
]

pub AreNumbers-of_counts :
    (h : Dict Str) (c : Str → ℕ)
    → HasDistinctFields h
    → ((f : Str) → IsCount h f (c f))
    → ((f : Str) → c f < 2 ^ 63)
    → AreNumbers h
AreNumbers-of_counts [] c d counts small = tt
AreNumbers-of_counts ((g, raw) ∷ h) c (absent, d) counts small = (
  (c g, head_raw g raw h (c g) (counts g), small g),
  AreNumbers-of_counts h (λ f. if eq_str g f then 0 else c f) d
      (λ f. tail_count f (eq_str g f) refl) (λ f. ground (arith, small f)),
)
  where
    tail_count : (f : Str) (b : Bool) → eq_str g f ≡ b → IsCount h f (if b then 0 else c f)
    tail_count f true e =
        inr (lookup-missing f h (subst (λ x. ¬ HasField x h) (eq_of_eq_str g f e) absent), refl)
    tail_count f false e = IsCount-tail f g raw h (c f) e (counts f)
