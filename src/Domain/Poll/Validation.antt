-- ===== src/Domain/Poll/Validation.antt =====
-- `CreatePoll.Validate` accepts exactly the well-formed requests.
use mipttest_task.Base.{
  ℕ, ◌≤◌, ◌<◌, ◌≡◌, ◌↔◌, refl, List, [], ◌∷◌, arith, Str, trim_space, length, All,
}
use mipttest_task.Base.Int.{ℤ, pos, ◌≤ℤ◌}
use mipttest_task.Domain.Errors.{ok}
use mipttest_task.Domain.Poll.{
  PollType, single_choice, multiple_choice, unknown, CreatePoll, validate, check_options,
  check_type,
}

-- A text of 1 to `most` characters between its white space.
abbrev pub HasLength : ℕ → Str → Type 0
HasLength most s = (1 ≤ length (trim_space s)) × (length (trim_space s) ≤ most)

abbrev pub AllowsChoices : PollType → ℤ → ℕ → Type 0
AllowsChoices single_choice most n = most ≡ pos 1
AllowsChoices multiple_choice most n = (pos 2 ≤ℤ most) × (most ≤ℤ pos n)
AllowsChoices (unknown _) most n = ⊥

pub record IsWellFormed (c : CreatePoll) : Type 0 where
  pub question : HasLength 500 c.question
  pub period : c.starts_at < c.ends_at
  pub few : 2 ≤ length c.options
  pub many : length c.options ≤ 20
  pub texts : All (HasLength 200) c.options
  pub choices : AllowsChoices c.type c.max_choices (length c.options)

check_options_iff : (os : List Str) → (check_options os ≡ ok tt) ↔ All (HasLength 200) os
unfolding check_options
check_options_iff [] = ((λ _. tt), λ _. refl)
check_options_iff (o ∷ os) = (
  (λ h. (ground arith, (check_options_iff os).0 (ground arith))),
  λ h. let e = (check_options_iff os).1 h.1 in ground arith,
)

check_type_iff :
    (t : PollType) (most : ℤ) (n : ℕ) → (check_type t most n ≡ ok tt) ↔ AllowsChoices t most n
unfolding check_type
check_type_iff single_choice most n = ((λ h. ground arith), λ h. ground arith)
check_type_iff multiple_choice most n = ((λ h. (ground arith, ground arith)), λ h. ground arith)
check_type_iff (unknown _) most n = ((λ h. cc), λ h. absurd h)

-- `validate` with its two loops shut.
module _ (c : CreatePoll) where
  validate_parts :
      validate c ≡ ok tt
      → (check_options c.options ≡ ok tt)
        × (check_type c.type c.max_choices (length c.options) ≡ ok tt)
        × HasLength 500 c.question
        × (c.starts_at < c.ends_at)
        × (2 ≤ length c.options)
        × (length c.options ≤ 20)
  unfolding validate
  validate_parts h = (
    ground arith,
    ground arith,
    (ground arith, ground arith),
    ground arith,
    ground arith,
    ground arith,
  )

  validate_of_parts :
      check_options c.options ≡ ok tt
      → check_type c.type c.max_choices (length c.options) ≡ ok tt
      → HasLength 500 c.question
      → c.starts_at < c.ends_at
      → 2 ≤ length c.options
      → length c.options ≤ 20
      → validate c ≡ ok tt
  unfolding validate
  validate_of_parts os t q period few many = ground arith

-- A request to create a poll passes validation exactly when its trimmed question has 1 to 500
-- characters, it starts before it ends, it has 2 to 20 options of 1 to 200 characters when trimmed,
-- and its number of choices is 1 for a single-choice poll, and between 2 and the number of options
-- for a multiple-choice one.
pub validate_iff : (c : CreatePoll) → (validate c ≡ ok tt) ↔ IsWellFormed c
validate_iff c = (forward, backward)
  where
    forward : validate c ≡ ok tt → IsWellFormed c
    forward h =
        let (os, t, q, period, few, many) = validate_parts c h in
        record {
          question = q;
          period = period;
          few = few;
          many = many;
          texts = (check_options_iff c.options).0 os;
          choices = (check_type_iff c.type c.max_choices (length c.options)).0 t;
        }

    backward : IsWellFormed c → validate c ≡ ok tt
    backward w =
        validate_of_parts c ((check_options_iff c.options).1 w.texts)
          ((check_type_iff c.type c.max_choices (length c.options)).1 w.choices) w.question w.period
          w.few w.many
