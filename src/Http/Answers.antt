-- ===== src/Http/Answers.antt =====
-- internal/httpapi/response.go `handleDomainError`, and metrics.go `Reject`.
use mipttest_task.Base.{ℕ, suc, ◌+◌, Option, none, [], ◌∷◌, Str, codes}
use mipttest_task.Base.Dict.{Dict, insert, get_or}
use mipttest_task.Domain.Errors.{
  Error, not_found, invalid_selection, not_active, already_finalized, temporarily_unavailable,
  invalid_input, invalid_transition, other,
}

-- What a handler writes: the status, the code of the body, the cookie that it sets.
pub record Response : Type 0 where
  pub status : ℕ
  pub code : Str
  pub cookie : Option Str

abbrev pub write_error : ℕ → Str → Response
write_error status code = record { status = status; code = code; cookie = none }

abbrev pub unavailable : Response
unavailable = write_error 503 (codes "temporarily_unavailable")

-- `handleDomainError`
abbrev pub handle_domain_error : Error → Response
handle_domain_error not_found = write_error 404 (codes "poll_not_found")
handle_domain_error not_active = write_error 409 (codes "poll_not_active")
handle_domain_error invalid_selection = write_error 422 (codes "invalid_selection")
handle_domain_error (invalid_input _) = write_error 400 (codes "invalid_request")
handle_domain_error (invalid_transition _) = write_error 409 (codes "invalid_transition")
handle_domain_error already_finalized = unavailable
handle_domain_error temporarily_unavailable = unavailable
handle_domain_error (other _) = unavailable

-- `voteRejectionReason`
abbrev pub vote_rejection_reason : Error → Str
vote_rejection_reason not_active = codes "not_active"
vote_rejection_reason not_found = codes "not_found"
vote_rejection_reason invalid_selection = codes "invalid_selection"
vote_rejection_reason _ = codes "dependency_error"

-- The counters of votes of `Metrics`.
pub record Metrics : Type 0 where
  pub rejections : Dict ℕ
  pub recorded : ℕ
  pub duplicates : ℕ

-- `Metrics.Reject`
unfoldable pub reject : Str → Metrics → Metrics
reject reason m = record m {
  rejections = insert reason (suc (get_or m.rejections reason 0)) m.rejections;
}

abbrev pub sum_of : Dict ℕ → ℕ
sum_of [] = 0
sum_of ((_, n) ∷ d) = n + sum_of d

-- How many votes the counters account for.
abbrev pub accounted : Metrics → ℕ
accounted m = m.recorded + (m.duplicates + sum_of m.rejections)
