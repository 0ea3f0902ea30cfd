-- ===== src/Domain/Errors.antt =====
-- internal/domain/errors.go, and the result of a call that returns an `error`.
use mipttest_task.Base.{String, Bool, true, false, ◌≡◌, ◌↔◌, refl}

-- The sentinel errors; `invalid_input` and `invalid_transition` carry the text that `fmt.Errorf`
-- adds behind `%w`. `other` is any error that wraps no sentinel: a driver's, the network's.
pub data Error : Type 0 where
  not_found invalid_selection not_active already_finalized temporarily_unavailable : Error
  invalid_input invalid_transition other : String → Error

pub data Result {ℓ} (A : Type ℓ) : Type ℓ where
  ok : A → Result A
  err : Error → Result A

-- `if err != nil { return err }` behind a call; `>>` where the call returns an error alone.
infixl 5 ◌>>=◌ ◌>>◌
abbrev pub ◌>>=◌ {ℓ κ} : {A : Type ℓ} {B : Type κ} → Result A → (A → Result B) → Result B
outcome >>= continue = elim outcome [ ok value ↦ continue value | err cause ↦ err cause ]

abbrev pub ◌>>◌ {ℓ} : {B : Type ℓ} → Result (Unit {0}) → Result B → Result B
outcome >> next = outcome >>= (λ _. next)

-- `if cond { return e }`
abbrev pub fail_if : Bool → Error → Result (Unit {0})
fail_if true e = err e
fail_if false e = ok tt

pub bind-ok :
    {A B : Type 0} (r : Result A) (f : A → Result B) (b : B)
    → (r >>= f) ≡ ok b
    → (a : A) × (r ≡ ok a) × (f a ≡ ok b)
bind-ok (ok a) f b h = (a, refl, h)
bind-ok (err e) f b h = cc

pub ok-injective : {A : Type 0} {a b : A} → ok a ≡ ok b → a ≡ b
ok-injective h = cc

pub fail_if_iff :
    {A : Type 0} (b : Bool) (e : Error) (reply : Result A) (a : A)
    → ((fail_if b e >> reply) ≡ ok a) ↔ ((b ≡ false) × (reply ≡ ok a))
fail_if_iff true e reply a = ((λ h. cc), λ h. cc)
fail_if_iff false e reply a = ((λ h. (refl, h)), λ h. h.1)
