-- ===== src/Config/Checks.antt =====
-- What the tests of a configuration say where they let it pass.
use mipttest_task.Base.{
  ℕ, ◌≤◌, ◌≡◌, ◌≢◌, ◌↔◌, ◌⊎◌, inl, inr, refl, Bool, true, false, not, ◌&&◌, ◌||◌, List, [], ◌∷◌,
  arith, ltb,
}
use mipttest_task.Base.Int.{ℤ, pos, negsuc, ◌≤ℤ◌, ltb_ℤ}
use mipttest_task.Domain.Errors.{Result, ok, Error, ◌>>◌, fail_if, fail_if_iff}
use mipttest_task.Config.{not_positive, is_empty}

-- Tests that are false, and what they say.
module _ {P Q : Type 0} where
  pub or_iff : (a b : Bool) → ((a ≡ false) ↔ P) → ((b ≡ false) ↔ Q) → ((a || b) ≡ false) ↔ (P × Q)
  or_iff true b p q = ((λ h. cc), λ h. cc (p.1 h.0))
  or_iff false b p q = ((λ h. (p.0 refl, q.0 h)), λ h. q.1 h.1)

  pub neither_iff :
      (a b : Bool) → ((a ≡ true) ↔ P) → ((b ≡ true) ↔ Q) → ((not a && not b) ≡ false) ↔ (P ⊎ Q)
  neither_iff true b p q = ((λ h. inl (p.0 refl)), λ h. refl)
  neither_iff false true p q = ((λ h. inr (q.0 refl)), λ h. refl)
  neither_iff false false p q = ((λ h. cc), λ h. elim h [ inl a ↦ cc (p.1 a) | inr b ↦ cc (q.1 b) ])

  pub and_iff_implies :
      (a b : Bool) → ((a ≡ true) ↔ P) → ((b ≡ false) ↔ Q) → ((a && b) ≡ false) ↔ (P → Q)
  and_iff_implies true b p q = ((λ h _. q.0 h), λ h. q.1 (h (p.0 refl)))
  and_iff_implies false b p q = ((λ h x. cc (p.1 x)), λ h. refl)

  pub step_iff :
      {A : Type 0} (b : Bool) (e : Error) (reply : Result A) (a : A)
      → ((b ≡ false) ↔ P)
      → ((reply ≡ ok a) ↔ Q)
      → ((fail_if b e >> reply) ≡ ok a) ↔ (P × Q)
  step_iff b e reply a p q = (
    (λ h. let (x, y) = (fail_if_iff b e reply a).0 h in (p.0 x, q.0 y)),
    λ h. (fail_if_iff b e reply a).1 (p.1 h.0, q.1 h.1),
  )

pub last_iff : {P : Type 0} (b : Bool) (e : Error) → ((b ≡ false) ↔ P) → (fail_if b e ≡ ok tt) ↔ P
last_iff true e p = ((λ h. cc), λ h. cc (p.1 h))
last_iff false e p = ((λ h. p.0 refl), λ h. refl)

pub nonempty_iff : {A : Type 0} (s : List A) → (is_empty s ≡ false) ↔ (s ≢ [])
nonempty_iff [] = ((λ h. cc), λ h. absurd (h refl))
nonempty_iff (c ∷ s) = ((λ h e. cc), λ h. refl)

pub empty_iff : {A : Type 0} (s : List A) → (is_empty s ≡ true) ↔ (s ≡ [])
empty_iff [] = ((λ h. refl), λ h. refl)
empty_iff (c ∷ s) = ((λ h. cc), λ h. cc)

pub not_empty_iff : {A : Type 0} (s : List A) → (not (is_empty s) ≡ false) ↔ (s ≡ [])
not_empty_iff [] = ((λ h. refl), λ h. refl)
not_empty_iff (c ∷ s) = ((λ h. cc), λ h. cc)

pub positive_iff : (d : ℤ) → (not_positive d ≡ false) ↔ (pos 1 ≤ℤ d)
positive_iff (pos n) = ((λ h. ground arith), λ h. ground arith)
positive_iff (negsuc n) = ((λ h. ground arith), λ h. ground arith)

pub at_most_iff : (n : ℕ) (d : ℤ) → (ltb_ℤ (pos n) d ≡ false) ↔ (d ≤ℤ pos n)
at_most_iff n (pos m) = ((λ h. ground arith), λ h. ground arith)
at_most_iff n (negsuc m) = ((λ h. ground arith), λ h. ground arith)

pub long_enough_iff : (n least : ℕ) → (ltb n least ≡ false) ↔ (least ≤ n)
long_enough_iff n least = ((λ h. ground arith), λ h. ground arith)

pub true_iff : (b : Bool) → (b ≡ true) ↔ (b ≡ true)
true_iff b = ((λ h. h), λ h. h)

pub not_iff : {P : Type 0} (b : Bool) → ((b ≡ true) ↔ P) → (not b ≡ false) ↔ P
not_iff true p = ((λ h. p.0 refl), λ h. refl)
not_iff false p = ((λ h. cc), λ h. cc (p.1 h))

pub same_iff : (b : Bool) → (b ≡ false) ↔ (b ≡ false)
same_iff b = ((λ h. h), λ h. h)
