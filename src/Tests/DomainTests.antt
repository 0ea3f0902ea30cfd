-- ===== src/Tests/DomainTests.antt =====
-- internal/domain at concrete inputs: some are those of poll_test.go.
use mipttest_task.Base.{
  ℕ, ◌≡◌, ◌↔◌, refl, true, some, none, List, [], ◌∷◌, ◌++◌, arith, Str, codes, trim_space, eq_str,
}
use mipttest_task.Base.Int.{pos}
use mipttest_task.Domain.Errors.{ok, err, invalid_selection}
use mipttest_task.Domain.Uuid.{is_uuid, new_uuid}
use mipttest_task.Domain.Uuid.Shape.{join_groups, is_uuid-join_groups, is_uuid-extra_dashes}
use mipttest_task.Domain.Poll.{
  Poll, PollOption, single_choice, multiple_choice, active, CreatePoll, validate,
  validate_selection,
}
use mipttest_task.Domain.Poll.Validation.{IsWellFormed, validate_iff}
use mipttest_task.Domain.Poll.Selection.{
  IsAllowed, validate_selection_iff, validate_selection-error,
}

abbrev id_a : Str
id_a = codes "550e8400-e29b-41d4-a716-446655440000"

abbrev id_b : Str
id_b = codes "550e8400-e29b-41d4-a716-446655440001"

abbrev request : CreatePoll
request = record {
  question = codes " Question? ";
  type = single_choice;
  max_choices = pos 1;
  starts_at = 5;
  ends_at = 9;
  options = codes "A" ∷ codes "B" ∷ [];
}

abbrev choice : Str → ℕ → PollOption
choice id n = record { id = id; text = codes "A"; position = n }

abbrev poll : Poll
poll = record {
  id = id_a;
  slug = codes "poll-550e8400";
  question = codes "Question?";
  type = multiple_choice;
  max_choices = pos 2;
  status = active;
  starts_at = 5;
  ends_at = 9;
  created_at = 1;
  updated_at = 1;
  published_at = none;
  closed_at = none;
  options = choice id_a 0 ∷ choice id_b 1 ∷ [];
}

validate_tests :
    (validate request ≡ ok tt)
    × (validate (record request { question = codes "  " }) ≡ ok tt → ⊥)
    × (validate (record request { ends_at = 5 }) ≡ ok tt → ⊥)
    × (validate (record request { max_choices = pos 2 }) ≡ ok tt → ⊥)
unfolding validate trim_space
validate_tests = (refl, (λ e. cc), (λ e. cc), λ e. cc)

selection_tests :
    (validate_selection poll (id_b ∷ id_a ∷ []) ≡ ok tt)
    × (validate_selection poll (id_a ∷ id_a ∷ []) ≡ err invalid_selection)
    × (validate_selection poll [] ≡ err invalid_selection)
unfolding validate_selection is_uuid eq_str
selection_tests = (refl, refl, refl)

validate_iff_example : (validate request ≡ ok tt) ↔ IsWellFormed request
validate_iff_example = validate_iff request

validate_selection_iff_example :
    (validate_selection poll (id_a ∷ id_b ∷ []) ≡ ok tt) ↔ IsAllowed poll (id_a ∷ id_b ∷ [])
validate_selection_iff_example = validate_selection_iff poll (id_a ∷ id_b ∷ [])

validate_selection-error_example : invalid_selection ≡ invalid_selection
unfolding validate_selection is_uuid eq_str
validate_selection-error_example =
    validate_selection-error poll (id_a ∷ id_a ∷ []) invalid_selection refl

is_uuid-join_groups_example :
    is_uuid (
      join_groups
        (codes "550e8400")
        (codes "e29b")
        (codes "41D4")
        (codes "a716")
        (codes "446655440000"))
    ≡ true
is_uuid-join_groups_example =
    is_uuid-join_groups (codes "550e8400") (codes "e29b") (codes "41D4") (codes "a716")
      (codes "446655440000") refl refl refl refl refl (ground arith) (ground arith) (ground arith)
      (ground arith) (ground arith)

is_uuid-extra_dashes_example :
    is_uuid (
      join_groups
        (codes "550e8400")
        (codes "e29b")
        (codes "41d4")
        (codes "a716")
        (codes "4466554400" ++ codes "--"))
    ≡ true
is_uuid-extra_dashes_example =
    is_uuid-extra_dashes (codes "550e8400") (codes "e29b") (codes "41d4") (codes "a716")
      (codes "4466554400") refl refl refl refl refl (ground arith) (ground arith) (ground arith)
      (ground arith) (ground arith)

abbrev random : List ℕ
random = 85 ∷ 14 ∷ 132 ∷ 0 ∷ 226 ∷ 155 ∷ 255 ∷ 212 ∷ 7 ∷ 22 ∷ 68 ∷ 102 ∷ 85 ∷ 68 ∷ 0 ∷ 0 ∷ []

new_uuid_test : new_uuid (some random) ≡ ok (codes "550e8400-e29b-4fd4-8716-446655440000")
unfolding new_uuid
new_uuid_test = refl
