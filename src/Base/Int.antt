-- ===== src/Base/Int.antt =====
-- Signed integers over the native numbers, with Go's int64 arithmetic.
use mipttest_task.Base.{
  ℕ, suc, ◌+◌, ◌-◌, ◌%◌, ◌^◌, ◌≤◌, ◌<◌, ◌≡◌, refl, Bool, arith, ltb, leb, if◌then◌else◌,
}

-- `negsuc n` is -(n + 1).
pub data ℤ : Type 0 where
  pos : ℕ → ℤ
  negsuc : ℕ → ℤ

abbrev pub pos_part : ℤ → ℕ
pos_part (pos n) = n
pos_part (negsuc n) = 0

abbrev pub neg_part : ℤ → ℕ
neg_part (pos n) = 0
neg_part (negsuc n) = suc n

-- a - b, as an integer.
abbrev pub sub_ℕ : ℕ → ℕ → ℤ
sub_ℕ a b = if leb b a then pos (a - b) else negsuc (b - a - 1)

infix 50 ◌≤ℤ◌ ◌<ℤ◌
abbrev pub ◌≤ℤ◌ : ℤ → ℤ → Type 0
a ≤ℤ b = pos_part a + neg_part b ≤ pos_part b + neg_part a

abbrev pub ◌<ℤ◌ : ℤ → ℤ → Type 0
a <ℤ b = pos_part a + neg_part b < pos_part b + neg_part a

abbrev pub ltb_ℤ : ℤ → ℤ → Bool
ltb_ℤ a b = ltb (pos_part a + neg_part b) (pos_part b + neg_part a)

-- 2 ^ 63; `math.MaxInt64` is one less.
abbrev pub int64_half : ℕ
int64_half = 2 ^ 63

abbrev pub max_int64 : ℕ
max_int64 = 2 ^ 63 - 1

-- The int64 whose bit pattern is the number, modulo 2^64.
abbrev pub of_bits : ℕ → ℤ
of_bits n = if ltb n int64_half then pos n else negsuc (2 ^ 64 - 1 - n)

abbrev pub to_bits : ℤ → ℕ
to_bits (pos n) = n % 2 ^ 64
to_bits (negsuc n) = 2 ^ 64 - 1 - n % 2 ^ 64

-- `a + b` on int64, which wraps.
unfoldable pub add_int64 : ℤ → ℤ → ℤ
add_int64 a b = of_bits ((to_bits a + to_bits b) % 2 ^ 64)

pub add_int64-pos : (a b : ℕ) → a + b < 2 ^ 63 → add_int64 (pos a) (pos b) ≡ pos (a + b)
unfolding add_int64
add_int64-pos a b h = ground arith

wraps : add_int64 (pos (2 ^ 63 - 1)) (pos 1) ≡ negsuc (2 ^ 63 - 1)
unfolding add_int64
wraps = refl

cancels : add_int64 (negsuc 4) (pos 5) ≡ pos 0
unfolding add_int64
cancels = refl
