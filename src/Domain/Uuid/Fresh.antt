-- ===== src/Domain/Uuid/Fresh.antt =====
-- Every identifier that `NewUUID` makes passes `IsUUID`, and has the version and variant bits.
use native.Mathlib.Decide.{ℕ_discrete}
use mipttest_task.Base.{
  all, range_from, ℕ, zero, suc, ◌+◌, ◌/◌, ◌<◌, ◌≤◌, ◌≡◌, refl, ap, Bool, true, ◌&&◌, some, List,
  [], ◌∷◌, arith, ltb, ◌==◌, Str, length, get_elem?, All, drop, length-take, length-drop, All-take,
  All-drop, and_iff, ltb_iff, ==_iff, ◌||◌, ◌-◌,
}
use mipttest_task.Domain.Errors.{ok}
use mipttest_task.Domain.Uuid.{
  hex_digit, hex_encode, is_uuid, new_uuid, version_bits, variant_bits, slice, update_at, uuid_text,
}
use mipttest_task.Domain.Uuid.Shape.{
  IsHex, hex_encode-IsHex, length-hex_encode, is_uuid-join_groups,
}

-- Facts on single bytes are checked on all of them.
every_byte : (ℕ → Bool) → Bool
every_byte test = all test (range_from 0 256)

all-range_from :
    (test : ℕ → Bool) (i n x : ℕ)
    → i ≤ x
    → x < i + n
    → all test (range_from i n) ≡ true
    → test x ≡ true
all-range_from test i zero x low high e = absurd (omega arith)
all-range_from test i (suc n) x low high e = elim (ℕ_discrete x i) [
  | yes here ↦ rw here ((and_iff _ _).0 e).0
  | no ahead ↦ all-range_from test (suc i) n x (omega arith) (omega arith) ((and_iff _ _).0 e).1
]

byte_test : (test : ℕ → Bool) (x : ℕ) → x < 256 → every_byte test ≡ true → test x ≡ true
unfolding every_byte
byte_test test x h e = all-range_from test 0 256 x (omega arith) h e

version_table :
    every_byte (λ x. ltb (version_bits x) 256 && hex_digit (version_bits x / 16) == b'4') ≡ true
unfolding every_byte
version_table = refl

abbrev pub is_variant : ℕ → Bool
is_variant c = (c == b'8') || (c == b'9') || (c == b'a') || (c == b'b')

variant_table :
    every_byte (λ x. ltb (variant_bits x) 256 && is_variant (hex_digit (variant_bits x / 16)))
    ≡ true
unfolding every_byte
variant_table = refl

version_byte : (x : ℕ) → x < 256 → (version_bits x < 256) × (hex_digit (version_bits x / 16) ≡ b'4')
version_byte x h =
    let (p, q) = (and_iff _ _).0 (byte_test _ x h version_table) in
    ((ltb_iff _ _).0 p, (==_iff _ _).0 q)

variant_byte :
    (x : ℕ)
    → x < 256
    → (variant_bits x < 256) × (is_variant (hex_digit (variant_bits x / 16)) ≡ true)
variant_byte x h =
    let (p, q) = (and_iff _ _).0 (byte_test _ x h variant_table) in ((ltb_iff _ _).0 p, q)

abbrev IsByte : ℕ → Type 0
IsByte b = b < 256

length-update_at : (bs : List ℕ) (i : ℕ) (f : ℕ → ℕ) → length (update_at bs i f) ≡ length bs
length-update_at [] i f = refl
length-update_at (b ∷ bs) zero f = refl
length-update_at (b ∷ bs) (suc i) f = omega (arith, length-update_at bs i f)

update_at-All :
    (bs : List ℕ) (i : ℕ) (f : ℕ → ℕ)
    → ((x : ℕ) → IsByte x → IsByte (f x))
    → All IsByte bs
    → All IsByte (update_at bs i f)
update_at-All [] i f k h = tt
update_at-All (b ∷ bs) zero f k (p, h) = (k b p, h)
update_at-All (b ∷ bs) (suc i) f k (p, h) = (p, update_at-All bs i f k h)

module _ (bs : List ℕ) (l : length bs ≡ 16) (h : All IsByte bs) where
  slice-IsHex : (low high : ℕ) → All IsHex (hex_encode (slice bs low high))
  slice-IsHex low high =
      hex_encode-IsHex _ (All-take IsByte (high - low) _ (All-drop IsByte low bs h))

  length-slice :
      (low high : ℕ)
      → low ≤ high
      → high ≤ 16
      → length (hex_encode (slice bs low high)) ≡ (high - low) + (high - low)
  length-slice low high p q = omega (
    arith,
    length-hex_encode (slice bs low high),
    length-take (high - low) (drop low bs),
    length-drop low bs,
  )

  is_uuid-uuid_text : is_uuid (uuid_text bs) ≡ true
  is_uuid-uuid_text =
      is_uuid-join_groups _ _ _ _ _ (length-slice 0 4 (omega arith) (omega arith))
        (length-slice 4 6 (omega arith) (omega arith))
        (length-slice 6 8 (omega arith) (omega arith))
        (length-slice 8 10 (omega arith) (omega arith))
        (length-slice 10 16 (omega arith) (omega arith)) (slice-IsHex 0 4) (slice-IsHex 4 6)
        (slice-IsHex 6 8) (slice-IsHex 8 10) (slice-IsHex 10 16)

uuid_digits :
    (bs : List ℕ)
    → length bs ≡ 16
    → All IsByte bs
    → let id = uuid_text (update_at (update_at bs 6 version_bits) 8 variant_bits) in
      (get_elem? id 14 ≡ some b'4') × ((c : ℕ) × (get_elem? id 19 ≡ some c) × (is_variant c ≡ true))
unfolding hex_encode
uuid_digits (_ ∷ _ ∷ _ ∷ _ ∷ _ ∷ _ ∷ x ∷ _ ∷ y ∷ _ ∷ _ ∷ _ ∷ _ ∷ _ ∷ _ ∷ _ ∷ []) l h = (
  ap some (version_byte x h.1.1.1.1.1.1.0).1,
  (hex_digit (variant_bits y / 16), refl, (variant_byte y h.1.1.1.1.1.1.1.1.0).1),
)
uuid_digits bs l h = absurd (omega arith)

-- From any 16 random bytes `NewUUID` makes a string that `IsUUID` accepts, with the digit 4 of its
-- version at place 14 and one of 8, 9, a, b at place 19.
pub new_uuid-is_uuid :
    (bs : List ℕ)
    → length bs ≡ 16
    → All (λ b. b < 256) bs
    → (id : Str) × (new_uuid (some bs) ≡ ok id)
      × (is_uuid id ≡ true)
      × (get_elem? id 14 ≡ some b'4')
      × ((c : ℕ) × (get_elem? id 19 ≡ some c) × (is_variant c ≡ true))
unfolding new_uuid
new_uuid-is_uuid bs l h =
    let b' = update_at (update_at bs 6 version_bits) 8 variant_bits in
    let l' : length b' ≡ 16 = omega (arith, length-update_at, l) in
    let (p, q) = uuid_digits bs l h in
    (
      uuid_text b',
      refl,
      is_uuid-uuid_text b' l' (
          update_at-All _ 8 variant_bits (λ x k. (variant_byte x k).0)
            (update_at-All bs 6 version_bits (λ x k. (version_byte x k).0) h)),
      p,
      q,
    )
