-- ===== src/Domain/Poll.antt =====
-- internal/domain/poll.go and vote.go: polls and their validation, votes and totals.
pub mod Validation
pub mod Selection
use mipttest_task.Base.{
  ℕ, ◌+◌, Bool, true, false, not, ◌&&◌, ◌||◌, Option, none, some, List, [], ◌∷◌, map, ltb, ◌==◌,
  if◌then◌else◌, Str, eq_str, trim_space, length,
}
use mipttest_task.Base.Int.{ℤ, pos, ltb_ℤ}
use mipttest_task.Base.Dict.{Dict}
use mipttest_task.Domain.Errors.{
  Result, ok, err, invalid_input, invalid_selection, fail_if, ◌>>=◌, ◌>>◌,
}
use mipttest_task.Domain.Uuid.{is_uuid}

-- `PollType` is a string that a request may set to anything.
pub data PollType : Type 0 where
  single_choice multiple_choice : PollType
  unknown : Str → PollType

-- The table's CHECK admits these three alone.
pub data PollStatus : Type 0 where
  draft active closed : PollStatus

-- A `time.Time` is its number of nanoseconds since the start of the year 0, the earliest instant
-- that RFC 3339 writes. A pointer to one is an option.
abbrev pub Time : Type 0
Time = ℕ

pub record PollOption : Type 0 where
  pub id : Str
  pub text : Str
  pub position : ℕ

pub record Poll : Type 0 where
  pub id : Str
  pub slug : Str
  pub question : Str
  pub type : PollType
  pub max_choices : ℤ
  pub status : PollStatus
  pub starts_at : Time
  pub ends_at : Time
  pub created_at : Time
  pub updated_at : Time
  pub published_at : Option Time
  pub closed_at : Option Time
  pub options : List PollOption

pub record CreatePoll : Type 0 where
  pub question : Str
  pub type : PollType
  pub max_choices : ℤ
  pub starts_at : Time
  pub ends_at : Time
  pub options : List Str

-- `status == Active` and the like
abbrev pub is_status : PollStatus → PollStatus → Bool
is_status draft draft = true
is_status active active = true
is_status closed closed = true
is_status _ _ = false

abbrev pub is_single : PollType → Bool
is_single single_choice = true
is_single _ = false

-- `n < 1 || n > most`
abbrev out_of : ℕ → ℕ → Bool
out_of most n = ltb n 1 || ltb most n

check_options : List Str → Result (Unit {0})
check_options [] = ok tt
check_options (o ∷ os) =
    fail_if (out_of 200 (length (trim_space o)))
      (invalid_input "option must contain 1 to 200 characters")
    >> check_options os

check_type : PollType → ℤ → ℕ → Result (Unit {0})
check_type single_choice most n =
    fail_if (ltb_ℤ most (pos 1) || ltb_ℤ (pos 1) most)
      (invalid_input "single_choice requires max_choices=1")
check_type multiple_choice most n =
    fail_if (ltb_ℤ most (pos 2) || ltb_ℤ (pos n) most)
      (invalid_input "multiple_choice max_choices must be between 2 and option count")
check_type (unknown _) most n = err (invalid_input "unknown poll type")

-- `CreatePoll.Validate`
unfoldable pub validate : CreatePoll → Result (Unit {0})
unfolding check_options check_type
validate c = do
  fail_if (out_of 500 (length (trim_space c.question)))
      (invalid_input "question must contain 1 to 500 characters")
  fail_if (not (ltb c.starts_at c.ends_at)) (invalid_input "starts_at must be before ends_at")
  fail_if (ltb (length c.options) 2 || ltb 20 (length c.options))
      (invalid_input "poll must contain 2 to 20 options")
  check_options c.options
  check_type c.type c.max_choices (length c.options)

-- Membership in a `map[string]struct{}`, kept as the list of its keys.
unfoldable pub contains : List Str → Str → Bool
contains [] k = false
contains (j ∷ js) k = eq_str j k || contains js k

check_ids : List Str → List Str → List Str → Result (Unit {0})
check_ids valid seen [] = ok tt
check_ids valid seen (id ∷ ids) =
    let rest = check_ids valid (id ∷ seen) ids in
    fail_if (not (is_uuid id)) invalid_selection
    >> (fail_if (contains seen id) invalid_selection
        >> (fail_if (not (contains valid id)) invalid_selection >> rest))

abbrev pub option_ids : Poll → List Str
option_ids p = map (λ o. o.id) p.options

-- `Poll.ValidateSelection`
unfoldable pub validate_selection : Poll → List Str → Result (Unit {0})
unfolding check_ids contains
validate_selection p ids =
    fail_if
      (length ids == 0
        || ltb_ℤ p.max_choices (pos (length ids))
        || (is_single p.type && not (length ids == 1)))
      invalid_selection
    >> check_ids (option_ids p) [] ids

pub data VoteStatus : Type 0 where
  recorded already_recorded : VoteStatus

pub record VoteCommand : Type 0 where
  pub poll_id : Str
  pub device_hash : Str
  pub option_ids : List Str
  pub ends_at : Time

pub record Totals : Type 0 where
  pub participants : ℕ
  pub options : Dict ℕ
  pub as_of : Time

-- `Result.Source`
pub data Source : Type 0 where
  redis_live postgres_snapshot postgres_final : Source

-- `domain.Result`
pub record PollResult : Type 0 where
  pub poll_id : Str
  pub status : PollStatus
  pub source : Source
  pub as_of : Time
  pub finalized_at : Option Time
  pub participants : ℕ
  pub options : Dict ℕ
