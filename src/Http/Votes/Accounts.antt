-- ===== src/Http/Votes/Accounts.antt =====
-- Every request for a vote is answered and accounted for once.
use mipttest_task.Base.{
  ℕ, suc, ◌≤◌, ◌≡◌, refl, ◌⊎◌, inl, inr, Bool, true, false, Option, none, some, List, [], ◌∷◌,
  arith, Str, codes,
}
use mipttest_task.Base.Dict.{Dict, lookup, insert, get_or}
use mipttest_task.Domain.Errors.{
  Result, ok, err, Error, not_found, invalid_selection, not_active, already_finalized,
  temporarily_unavailable, invalid_input, invalid_transition, other,
}
use mipttest_task.Domain.Poll.{Time, VoteStatus, recorded, already_recorded}
use mipttest_task.Domain.Uuid.{is_uuid}
use mipttest_task.Store.Wire.{Wire}
use mipttest_task.Store.Locks.{allow_rate}
use mipttest_task.Service.World.{World, Replica, Events}
use mipttest_task.Service.Votes.{vote}
use mipttest_task.Http.Answers.{
  Response, write_error, unavailable, handle_domain_error, vote_rejection_reason, Metrics, reject,
  sum_of, accounted,
}
use mipttest_task.Http.Votes.{
  VoteRequest, check_option_ids, answer_vote, vote_by_device, vote_if_allowed, vote_checked,
  vote_body, vote_media, vote_at, post_vote,
}

sum_of-insert : (k : Str) (d : Dict ℕ) → sum_of (insert k (suc (get_or d k 0)) d) ≡ suc (sum_of d)
unfolding lookup insert
sum_of-insert k [] = refl
sum_of-insert k ((j, n) ∷ d) = ground (arith, sum_of-insert k d)

accounted-reject : (reason : Str) (m : Metrics) → accounted (reject reason m) ≡ suc (accounted m)
unfolding reject
accounted-reject reason m = omega (arith, sum_of-insert reason m.rejections)

pub error_status : (e : Error) → 400 ≤ (handle_domain_error e).status
error_status not_found = omega arith
error_status invalid_selection = omega arith
error_status not_active = omega arith
error_status already_finalized = omega arith
error_status temporarily_unavailable = omega arith
error_status (invalid_input _) = omega arith
error_status (invalid_transition _) = omega arith
error_status (other _) = omega arith

-- What the answer says of the counters.
abbrev pub IsAccounted : Metrics → Response → Metrics → Type 0
IsAccounted m response m' =
    (accounted m' ≡ suc (accounted m))
    × (((response.status ≡ 201) × (m' ≡ record m { recorded = suc m.recorded }))
        ⊎ ((response.status ≡ 200) × (m' ≡ record m { duplicates = suc m.duplicates }))
        ⊎ ((400 ≤ response.status)
            × (response.cookie ≡ none)
            × (m'.recorded ≡ m.recorded)
            × (m'.duplicates ≡ m.duplicates)))

refused :
    (m : Metrics) (response : Response) (reason : Str)
    → 400 ≤ response.status
    → response.cookie ≡ none
    → IsAccounted m response (reject reason m)
refused m response reason h c =
    (accounted-reject reason m, inr (inr (h, c, unfold reject in refl, unfold reject in refl)))

error_cookie : (e : Error) → (handle_domain_error e).cookie ≡ none
error_cookie not_found = refl
error_cookie invalid_selection = refl
error_cookie not_active = refl
error_cookie already_finalized = refl
error_cookie temporarily_unavailable = refl
error_cookie (invalid_input _) = refl
error_cookie (invalid_transition _) = refl
error_cookie (other _) = refl

module _ {Db : Type 0} (r : Replica Db) (limited : Time × Wire) (limit : ℕ) (ev : Events)
    (now : Time) where
  answer_vote-IsAccounted :
      (cookie : Option Str) (status : Result VoteStatus) (w : World Db) (m : Metrics)
      → let out = answer_vote cookie status (w, m) in IsAccounted m out.0 out.2
  answer_vote-IsAccounted cookie (err e) w m =
      refused m (handle_domain_error e) (vote_rejection_reason e) (error_status e) (error_cookie e)
  answer_vote-IsAccounted cookie (ok recorded) w m = (omega arith, inl (refl, refl))
  answer_vote-IsAccounted cookie (ok already_recorded) w m = (omega arith, inr (inl (refl, refl)))

  by_device-IsAccounted :
      (q : VoteRequest) (ids : List Str) (w : World Db) (m : Metrics)
      (device : Result (Str × Option Str))
      → let out = vote_by_device r ev now q ids w m device in IsAccounted m out.0 out.2
  by_device-IsAccounted q ids w m (err e) =
      refused m unavailable (codes "identity_error") (omega arith) refl
  by_device-IsAccounted q ids w m (ok (device, cookie)) =
      let (status, w') = vote r ev now q.id device ids w in
      answer_vote-IsAccounted cookie status w' m

  if_allowed-IsAccounted :
      (q : VoteRequest) (ids : List Str) (w : World Db) (m : Metrics) (allowed : Result Bool)
      → let out = vote_if_allowed r ev now q ids w m allowed in IsAccounted m out.0 out.2
  if_allowed-IsAccounted q ids w m (err e) =
      refused m unavailable (codes "dependency_error") (omega arith) refl
  if_allowed-IsAccounted q ids w m (ok false) =
      refused m (write_error 429 (codes "rate_limited")) (codes "rate_limited") (omega arith) refl
  if_allowed-IsAccounted q ids w m (ok true) = by_device-IsAccounted q ids w m q.device

  checked-IsAccounted :
      (q : VoteRequest) (ids : List Str) (w : World Db) (m : Metrics) (wrong : Option Str)
      → let out = vote_checked r limited limit ev now q ids w m wrong in IsAccounted m out.0 out.2
  checked-IsAccounted q ids w m (some code) =
      refused m (write_error 400 code) (codes "validation") (omega arith) refl
  checked-IsAccounted q ids w m none =
      let (allowed, d) = allow_rate r.redis limited.1 limited.0 q.network_hash limit w.db in
      if_allowed-IsAccounted q ids (record w { db = d }) m allowed

  body-IsAccounted :
      (q : VoteRequest) (w : World Db) (m : Metrics) (body : Option (List Str))
      → let out = vote_body r limited limit ev now q w m body in IsAccounted m out.0 out.2
  body-IsAccounted q w m none =
      refused m (write_error 400 (codes "invalid_request")) (codes "invalid_json") (omega arith)
        refl
  body-IsAccounted q w m (some ids) = checked-IsAccounted q ids w m (check_option_ids [] ids)

  media-IsAccounted :
      (q : VoteRequest) (w : World Db) (m : Metrics) (b : Bool)
      → let out = vote_media r limited limit ev now q w m b in IsAccounted m out.0 out.2
  media-IsAccounted q w m false =
      refused m (write_error 415 (codes "invalid_content_type")) (codes "content_type")
        (omega arith) refl
  media-IsAccounted q w m true = body-IsAccounted q w m q.body

  at-IsAccounted :
      (q : VoteRequest) (w : World Db) (m : Metrics) (b : Bool)
      → let out = vote_at r limited limit ev now q w m b in IsAccounted m out.0 out.2
  at-IsAccounted q w m false =
      refused m (write_error 400 (codes "invalid_request")) (codes "validation") (omega arith) refl
  at-IsAccounted q w m true = media-IsAccounted q w m q.is_json

  -- Every request for a vote adds exactly one to the counters of votes: a 201 to the recorded votes, a
  -- 200 to the duplicates, and any other answer, which is an error of 400 or above and sets no cookie, to
  -- the rejections alone.
  pub post_vote-IsAccounted :
      (q : VoteRequest) (w : World Db) (m : Metrics)
      → let out = post_vote r limited limit ev now q w m in IsAccounted m out.0 out.2
  unfolding post_vote
  post_vote-IsAccounted q w m = at-IsAccounted q w m (is_uuid q.id)
