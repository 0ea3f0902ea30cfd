-- ===== src/Base/Decimal.antt =====
-- `strconv`: `Itoa` and `FormatInt(n, 10)` of a number, `ParseInt(s, 10, 64)` and `Atoi`.
use mipttest_task.Base.{
  ℕ, zero, suc, ◌+◌, ◌-◌, ◌*◌, ◌/◌, ◌%◌, ◌^◌, ◌<◌, ◌≡◌, refl, ap, inl, inr, Bool, true, ◌&&◌,
  Option, none, some, [], ◌∷◌, ◌++◌, arith, ltb, leb, ◌==◌, if◌then◌else◌, Str, Bool-cases, All,
  All-append,
}
use mipttest_task.Base.Int.{ℤ, pos, negsuc}

abbrev pub digit : ℕ → ℕ
digit d = b'0' + d

itoa_from : ℕ → ℕ → Str
itoa_from zero n = []
itoa_from (suc fuel) n =
    let more = itoa_from fuel (n / 10) ++ digit (n % 10) ∷ [] in
    if ltb n 10 then digit n ∷ [] else more

-- The decimal digits of a number; it has fewer digits than the fuel, its own size.
unfoldable pub itoa : ℕ → Str
unfolding itoa_from
itoa n = itoa_from (suc n) n

abbrev pub is_digit : ℕ → Bool
is_digit c = leb b'0' c && leb c b'9'

abbrev digit_step : Option ℕ → ℕ → Option ℕ
digit_step none c = none
digit_step (some acc) c = if is_digit c then some (acc * 10 + (c - b'0')) else none

digits_value : Option ℕ → Str → Option ℕ
digits_value acc [] = acc
digits_value acc (c ∷ s) = digits_value (digit_step acc c) s

-- The unsigned part: at least one digit, and digits alone.
unsigned : Str → Option ℕ
unsigned [] = none
unsigned (c ∷ s) = digits_value (some 0) (c ∷ s)

abbrev negate : ℕ → ℤ
negate zero = pos 0
negate (suc n) = negsuc n

abbrev in_range_pos : Option ℕ → Option ℤ
in_range_pos none = none
in_range_pos (some n) = if ltb n (2 ^ 63) then some (pos n) else none

abbrev in_range_neg : Option ℕ → Option ℤ
in_range_neg none = none
in_range_neg (some n) = if leb n (2 ^ 63) then some (negate n) else none

-- `strconv.ParseInt(s, 10, 64)`; `none` is a syntax or a range error.
unfoldable pub parse_int : Str → Option ℤ
unfolding unsigned digits_value
parse_int [] = none
parse_int (c ∷ s) =
    if c == b'-'
    then in_range_neg (unsigned s)
    else if c == b'+'
    then in_range_pos (unsigned s)
    else in_range_pos (unsigned (c ∷ s))

digits_value-snoc :
    (acc : Option ℕ) (s : Str) (c : ℕ)
    → digits_value acc (s ++ c ∷ []) ≡ digit_step (digits_value acc s) c
unfolding digits_value
digits_value-snoc acc [] c = refl
digits_value-snoc acc (d ∷ s) c = digits_value-snoc (digit_step acc d) s c

step_lem : (n : ℕ) → digit_step (some (n / 10)) (digit (n % 10)) ≡ some n
step_lem n = ground arith

digits_value-itoa_from : (fuel n : ℕ) → n < fuel → digits_value (some 0) (itoa_from fuel n) ≡ some n
unfolding itoa_from
digits_value-itoa_from zero n h = elim h [ ]
digits_value-itoa_from (suc fuel) n h = elim (Bool-cases (ltb n 10)) [
  | inl small ↦ rw small (unfold digits_value in ground arith)
  | inr large ↦
      rw (large, digits_value-snoc, digits_value-itoa_from fuel (n / 10) (ground arith))
        (step_lem n)
]

itoa_from-digits :
    (fuel n : ℕ) → n < fuel → (c : ℕ) × (s : Str) × (itoa_from fuel n ≡ c ∷ s) × (is_digit c ≡ true)
unfolding itoa_from
itoa_from-digits zero n h = elim h [ ]
itoa_from-digits (suc fuel) n h = elim (Bool-cases (ltb n 10)) [
  | inl small ↦ (digit n, [], rw small, ground arith)
  | inr large ↦
      let (c, s, e, d) = itoa_from-digits fuel (n / 10) (ground arith) in
      (c, s ++ digit (n % 10) ∷ [], rw (large, e), d)
]

-- Reading a number back from its digits gives the number.
pub parse_int-itoa : (n : ℕ) → n < 2 ^ 63 → parse_int (itoa n) ≡ some (pos n)
unfolding parse_int itoa
parse_int-itoa n h =
    let (c, s, e, d) = itoa_from-digits (suc n) n (omega arith) in
    let v = digits_value-itoa_from (suc n) n (omega arith) in
    rw e (ground (arith, ap (digits_value (some 0)) e))

-- Different numbers have different digits.
pub itoa-injective : (m n : ℕ) → itoa m ≡ itoa n → m ≡ n
unfolding itoa
itoa-injective m n e =
    let p = digits_value-itoa_from (suc m) m (omega arith) in
    let q = digits_value-itoa_from (suc n) n (omega arith) in cc (ap (digits_value (some 0)) e)

itoa_from-All : (fuel n : ℕ) → n < fuel → All (λ c. is_digit c ≡ true) (itoa_from fuel n)
unfolding itoa_from
itoa_from-All zero n h = elim h [ ]
itoa_from-All (suc fuel) n h = elim (Bool-cases (ltb n 10)) [
  | inl small ↦ rw small (ground arith, tt)
  | inr large ↦ rw large (
      All-append (λ c. is_digit c ≡ true) (itoa_from fuel (n / 10)) (digit (n % 10) ∷ [])
        (itoa_from-All fuel (n / 10) (ground arith)) (ground arith, tt))
]

pub itoa-All : (n : ℕ) → All (λ c. is_digit c ≡ true) (itoa n)
unfolding itoa
itoa-All n = itoa_from-All (suc n) n (omega arith)

round : parse_int (itoa 9223372036854775807) ≡ some (pos 9223372036854775807)
unfolding parse_int itoa
round = refl

too_large : parse_int (itoa 9223372036854775808) ≡ none
unfolding parse_int itoa
too_large = refl
