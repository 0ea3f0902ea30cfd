-- ===== src/Base/Strings.antt =====
-- Go strings. A `string` is a sequence of bytes; where the program counts characters, the text has
-- come out of encoding/json, which yields valid UTF-8, and is kept as its code points. An ASCII
-- text has the same numbers either way, and `codes` reads a literal.
use Prim.Native.Nat.{ℕ}
use Prim.Native.Char.{code}
use Prim.Native.String.{String}
use mathlib.Core.Path.{◌≡◌, refl, ap₂}
use mathlib.Core.Logic.{◌↔◌, ◌≢◌, inl, inr}
use mathlib.Core.Bool.{Bool, true, false, ◌&&◌, ◌||◌}
use mathlib.Core.List.{List, [], ◌∷◌, reverse}
use native.Mathlib.Omega.{arith}
use mipttest_task.Base.Tests.{◌==◌, leb, if◌then◌else◌, and_iff, ==_iff, Bool-cases}

abbrev pub Str : Type 0
Str = List ℕ

-- The code points of a literal.
abbrev pub codes : String → Str
codes String.[] = []
codes (String.◌∷◌ c s) = code c ∷ codes s

-- `==` on strings
unfoldable pub eq_str : Str → Str → Bool
eq_str [] [] = true
eq_str (a ∷ s) (b ∷ t) = a == b && eq_str s t
eq_str _ _ = false

pub eq_str_refl : (s : Str) → eq_str s s ≡ true
unfolding eq_str
eq_str_refl [] = refl
eq_str_refl (a ∷ s) = ground (arith, eq_str_refl s)

pub eq_of_eq_str : (s t : Str) → eq_str s t ≡ true → s ≡ t
unfolding eq_str
eq_of_eq_str [] [] h = refl
eq_of_eq_str [] (b ∷ t) h = cc
eq_of_eq_str (a ∷ s) [] h = cc
eq_of_eq_str (a ∷ s) (b ∷ t) h =
    let (p, q) = (and_iff (a == b) (eq_str s t)).0 h in
    ap₂ ◌∷◌ ((==_iff a b).0 p) (eq_of_eq_str s t q)

pub eq_str_iff : (s t : Str) → (eq_str s t ≡ true) ↔ (s ≡ t)
eq_str_iff s t = (eq_of_eq_str s t, λ e. rw e (eq_str_refl t))

pub eq_str-false_iff : (s t : Str) → (eq_str s t ≡ false) ↔ (s ≢ t)
eq_str-false_iff s t = (
  (λ h e. cc (h, (eq_str_iff s t).1 e)),
  λ ne. elim (Bool-cases (eq_str s t)) [
    | inl same ↦ absurd (ne ((eq_str_iff s t).0 same))
    | inr other ↦ other
  ],
)

-- `unicode.IsSpace`
abbrev pub is_space : ℕ → Bool
is_space c =
    (leb 9 c && leb c 13)
    || (c == 32)
    || (c == 0x85)
    || (c == 0xa0)
    || (c == 0x1680)
    || (leb 0x2000 c && leb c 0x200a)
    || (c == 0x2028)
    || (c == 0x2029)
    || (c == 0x202f)
    || (c == 0x205f)
    || (c == 0x3000)

abbrev pub trim_left : Str → Str
trim_left [] = []
trim_left (c ∷ s) = if is_space c then trim_left s else c ∷ s

-- `strings.TrimSpace`
unfoldable pub trim_space : Str → Str
trim_space s = reverse (trim_left (reverse (trim_left s)))

-- `strings.HasPrefix`
unfoldable pub has_prefix : Str → Str → Bool
has_prefix s [] = true
has_prefix [] (p ∷ ps) = false
has_prefix (c ∷ s) (p ∷ ps) = c == p && has_prefix s ps

-- `strings.HasSuffix`
unfoldable pub has_suffix : Str → Str → Bool
unfolding has_prefix
has_suffix s p = has_prefix (reverse s) (reverse p)
