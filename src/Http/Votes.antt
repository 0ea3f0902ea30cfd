-- ===== src/Http/Votes.antt =====
-- internal/httpapi/public_handlers.go `vote`.
pub mod Accounts
pub mod Shut
use mipttest_task.Base.{
  ℕ, suc, Bool, true, false, not, Option, none, some, List, [], ◌∷◌, if◌then◌else◌, Str, codes,
}
use mipttest_task.Domain.Errors.{Result, ok, err, Error}
use mipttest_task.Domain.Poll.{Time, VoteStatus, recorded, already_recorded, contains}
use mipttest_task.Domain.Uuid.{is_uuid}
use mipttest_task.Store.Wire.{Wire}
use mipttest_task.Store.Locks.{allow_rate}
use mipttest_task.Service.World.{World, Replica, Events}
use mipttest_task.Service.Votes.{vote}
use mipttest_task.Http.Answers.{
  Response, write_error, unavailable, handle_domain_error, vote_rejection_reason, Metrics, reject,
}

-- A request as the handler reads it: the identifier in the path, whether `requireJSON` accepts its
-- header, what `decodeJSON` makes of its body, the hash of its network, and what `DeviceID` returns for
-- it: the device with a cookie to set, if it had none.
pub record VoteRequest : Type 0 where
  pub id : Str
  pub is_json : Bool
  pub body : Option (List Str)
  pub network_hash : Str
  pub device : Result (Str × Option Str)

-- The loop over the options: `none` where it finds nothing wrong.
unfoldable pub check_option_ids : List Str → List Str → Option Str
check_option_ids seen [] = none
check_option_ids seen (id ∷ ids) =
    let rest = check_option_ids (id ∷ seen) ids in
    if not (is_uuid id)
    then some (codes "invalid_request")
    else if contains seen id
    then some (codes "invalid_request")
    else rest

abbrev pub refuse : {S : Type 0} → Response → Str → S × Metrics → Response × S × Metrics
refuse response reason (s, m) = (response, s, reject reason m)

-- The answer to what the service made of the vote.
abbrev pub answer_vote :
    {S : Type 0} → Option Str → Result VoteStatus → S × Metrics → Response × S × Metrics
answer_vote cookie (err e) (s, m) = refuse (handle_domain_error e) (vote_rejection_reason e) (s, m)
answer_vote cookie (ok already_recorded) (s, m) = (
  record { status = 200; code = codes "already_recorded"; cookie = cookie },
  s,
  record m { duplicates = suc m.duplicates },
)
answer_vote cookie (ok recorded) (s, m) = (
  record { status = 201; code = codes "recorded"; cookie = cookie },
  s,
  record m { recorded = suc m.recorded },
)

module _ {Db : Type 0} (r : Replica Db) where
  abbrev pub vote_by_device :
      Events
      → Time
      → VoteRequest
      → List Str
      → World Db
      → Metrics
      → Result (Str × Option Str)
      → Response × World Db × Metrics
  vote_by_device ev now q ids w m (err e) = refuse unavailable (codes "identity_error") (w, m)
  vote_by_device ev now q ids w m (ok (device, cookie)) =
      let (status, w') = vote r ev now q.id device ids w in answer_vote cookie status (w', m)

  abbrev pub vote_if_allowed :
      Events
      → Time
      → VoteRequest
      → List Str
      → World Db
      → Metrics
      → Result Bool
      → Response × World Db × Metrics
  vote_if_allowed ev now q ids w m (err e) = refuse unavailable (codes "dependency_error") (w, m)
  vote_if_allowed ev now q ids w m (ok false) =
      refuse (write_error 429 (codes "rate_limited")) (codes "rate_limited") (w, m)
  vote_if_allowed ev now q ids w m (ok true) = vote_by_device ev now q ids w m q.device

  -- Behind the checks of the request: the rate limit, with the time and the outcome of its call, then
  -- the vote.
  abbrev pub vote_checked :
      Time × Wire
      → ℕ
      → Events
      → Time
      → VoteRequest
      → List Str
      → World Db
      → Metrics
      → Option Str
      → Response × World Db × Metrics
  vote_checked limited limit ev now q ids w m (some code) =
      refuse (write_error 400 code) (codes "validation") (w, m)
  vote_checked limited limit ev now q ids w m none =
      let (allowed, d) = allow_rate r.redis limited.1 limited.0 q.network_hash limit w.db in
      vote_if_allowed ev now q ids (record w { db = d }) m allowed

  abbrev pub vote_body :
      Time × Wire
      → ℕ
      → Events
      → Time
      → VoteRequest
      → World Db
      → Metrics
      → Option (List Str)
      → Response × World Db × Metrics
  vote_body limited limit ev now q w m none =
      refuse (write_error 400 (codes "invalid_request")) (codes "invalid_json") (w, m)
  vote_body limited limit ev now q w m (some ids) =
      vote_checked limited limit ev now q ids w m (check_option_ids [] ids)

  abbrev pub vote_media :
      Time × Wire
      → ℕ
      → Events
      → Time
      → VoteRequest
      → World Db
      → Metrics
      → Bool
      → Response × World Db × Metrics
  vote_media limited limit ev now q w m false =
      refuse (write_error 415 (codes "invalid_content_type")) (codes "content_type") (w, m)
  vote_media limited limit ev now q w m true = vote_body limited limit ev now q w m q.body

  abbrev pub vote_at :
      Time × Wire
      → ℕ
      → Events
      → Time
      → VoteRequest
      → World Db
      → Metrics
      → Bool
      → Response × World Db × Metrics
  vote_at limited limit ev now q w m false =
      refuse (write_error 400 (codes "invalid_request")) (codes "validation") (w, m)
  vote_at limited limit ev now q w m true = vote_media limited limit ev now q w m q.is_json

  -- The handler of `POST /api/v1/polls/{id}/votes`.
  unfoldable pub post_vote :
      Time × Wire
      → ℕ
      → Events
      → Time
      → VoteRequest
      → World Db
      → Metrics
      → Response × World Db × Metrics
  unfolding check_option_ids allow_rate vote
  post_vote limited limit ev now q w m = vote_at limited limit ev now q w m (is_uuid q.id)
