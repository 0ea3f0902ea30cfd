-- ===== src/Http/Admin.antt =====
-- internal/httpapi/admin_handlers.go, qr_handler.go, and `adminAuth` of middleware.go.
pub mod Guarded
use mipttest_task.Base.{
  ℕ, ◌+◌, ◌*◌, ◌/◌, ◌%◌, ◌<◌, Bool, true, false, not, ◌&&◌, ◌||◌, Option, none, some, List, [], ◌∷◌,
  ◌++◌, map, leb, ltb, ◌==◌, if◌then◌else◌, Str, codes, eq_str, drop, has_prefix,
}
use mipttest_task.Base.Int.{ℤ, pos, pos_part, ltb_ℤ}
use mipttest_task.Base.Decimal.{parse_int}
use mipttest_task.Base.Dict.{Dict, lookup, insert, get_or}
use mipttest_task.Domain.Errors.{Result, ok, err, Error}
use mipttest_task.Domain.Poll.{
  Time, PollStatus, draft, is_status, Poll, PollOption, PollResult, Source, CreatePoll,
}
use mipttest_task.Domain.Uuid.{is_uuid}
use mipttest_task.Postgres.Calls.{Calls}
use mipttest_task.Postgres.Tables.{Tables}
use mipttest_task.Postgres.Reads.{list_recent, get_by_id}
use mipttest_task.Postgres.Polls.{create}
use mipttest_task.Service.World.{World, Replica, Events}
use mipttest_task.Service.Polls.{publish_poll}
use mipttest_task.Service.Results.{close, results}
use mipttest_task.Http.Answers.{Response, write_error, unavailable, handle_domain_error}

-- `optionResult`. The percentage is the quotient of two floats, which is kept as its operands: 100 times
-- the count, and the participants; none where there are no participants.
pub record OptionResult : Type 0 where
  pub id : Str
  pub text : Str
  pub count : ℕ
  pub participant_percent : Option (ℕ × ℕ)

-- `resultsResponse`. `FinalizationPending` is never set.
pub record ResultsResponse : Type 0 where
  pub poll_id : Str
  pub status : PollStatus
  pub source : Source
  pub as_of : Time
  pub participants : ℕ
  pub options : List OptionResult

abbrev pub percent_of : ℕ → ℕ → Option (ℕ × ℕ)
percent_of count participants =
    if ltb 0 participants then some (count * 100, participants) else none

abbrev pub option_result : PollResult → PollOption → OptionResult
option_result r o =
    let count = get_or r.options o.id 0 in
    record {
      id = o.id;
      text = o.text;
      count = count;
      participant_percent = percent_of count r.participants;
    }

-- `resultResponse`
abbrev pub result_response : Poll → PollResult → ResultsResponse
result_response p r = record {
  poll_id = p.id;
  status = r.status;
  source = r.source;
  as_of = r.as_of;
  participants = r.participants;
  options = map (option_result r) p.options;
}

-- What is written behind the status.
pub data Body : Type 0 where
  failure : Str → Body
  poll_list : List Poll → Body
  one_poll : Poll → Body
  poll_results : ResultsResponse → Body
  qr_code : Str → Body

pub record Answer : Type 0 where
  pub status : ℕ
  pub body : Body

abbrev pub failed : Response → Answer
failed r = record { status = r.status; body = failure r.code }

abbrev pub invalid_request : Answer
invalid_request = failed (write_error 400 (codes "invalid_request"))

-- `if err != nil { handleDomainError(w, r, err); return }`, then `writeJSON`.
abbrev pub answer_with : {A : Type 0} → ℕ → (A → Body) → Result A → Answer
answer_with status body (err e) = failed (handle_domain_error e)
answer_with status body (ok a) = record { status = status; body = body a }

abbrev pub in_limits : Option ℤ → Option ℕ
in_limits none = none
in_limits (some n) = if ltb_ℤ n (pos 1) || ltb_ℤ (pos 100) n then none else some (pos_part n)

-- The parameter `limit`, `none` where it is refused.
unfoldable pub limit_of : Str → Option ℕ
unfolding parse_int
limit_of [] = some 50
limit_of (c ∷ raw) = in_limits (parse_int (c ∷ raw))

abbrev pub list_up_to : Calls → Tables → Option ℕ → Answer
list_up_to calls t none = invalid_request
list_up_to calls t (some limit) = answer_with 200 poll_list (list_recent calls 0 limit t)

-- `API.listPolls`
abbrev pub list_polls : Calls → Str → Tables → Answer
list_polls calls raw t = list_up_to calls t (limit_of raw)

-- `hex` digits of `url.PathEscape`.
abbrev upper_hex : ℕ → ℕ
upper_hex d = if ltb d 10 then b'0' + d else d + 55

-- The bytes that a path segment may hold.
abbrev is_segment_byte : ℕ → Bool
is_segment_byte c =
    (leb b'a' c && leb c b'z')
    || (leb b'A' c && leb c b'Z')
    || (leb b'0' c && leb c b'9')
    || (c == b'-')
    || (c == b'_')
    || (c == b'.')
    || (c == b'~')
    || (c == b'$')
    || (c == b'&')
    || (c == b'+')
    || (c == b':')
    || (c == b'=')
    || (c == b'@')

-- `url.PathEscape`
unfoldable pub path_escape : Str → Str
path_escape [] = []
path_escape (c ∷ s) =
    if is_segment_byte c
    then c ∷ path_escape s
    else b'%' ∷ upper_hex (c / 16) ∷ upper_hex (c % 16) ∷ path_escape s

-- What the API serves from: the replica's world, and its cache of QR codes by their URL.
pub record Site (Db : Type 0) : Type 0 where
  pub world : World Db
  pub qr_cache : Dict Str

-- What is the same for all requests: the generator of QR codes, which may be absent, the public base
-- URL, the administrator's token and SHA-256.
pub record Setup : Type 0 where
  pub qr : Option (Str → Option Str)
  pub public_base_url : Str
  pub admin_token : Str
  pub sum256 : Str → List ℕ

-- `strings.TrimPrefix(header, "Bearer ")`
unfoldable pub provided : Str → Str
unfolding has_prefix
provided header = if has_prefix header (codes "Bearer ") then drop 7 header else header

abbrev pub is_none_given : Str → Bool
is_none_given [] = true
is_none_given (c ∷ s) = false

-- `provided == "" || subtle.ConstantTimeCompare(want[:], got[:]) != 1`
abbrev pub is_refused : Setup → Str → Bool
is_refused setup given =
    is_none_given given || not (eq_str (setup.sum256 setup.admin_token) (setup.sum256 given))

-- A request that the administrator's routes match, as its handler reads it.
pub data AdminRequest : Type 0 where
  get_polls : Str → AdminRequest
  post_poll : Bool → Option CreatePoll → AdminRequest
  post_publish post_close get_results get_qr : Str → AdminRequest

module _ {Db : Type 0} (r : Replica Db) (setup : Setup) where
  abbrev pub create_body :
      (ℕ → Option (List ℕ)) → Events → Option CreatePoll → Site Db → Answer × Site Db
  create_body random ev none s = (invalid_request, s)
  create_body random ev (some c) s =
      let (made, t) = create random ev.calls r.store.buckets c (ev.clock 0) s.world.tables in
      (answer_with 201 one_poll made, record s { world = record s.world { tables = t } })

  -- `API.createPoll`; the body is `none` where `decodeJSON` fails.
  abbrev pub create_poll :
      (ℕ → Option (List ℕ)) → Events → Bool → Option CreatePoll → Site Db → Answer × Site Db
  create_poll random ev false body s = (failed (write_error 415 (codes "invalid_content_type")), s)
  create_poll random ev true body s = create_body random ev body s

  -- `if !domain.IsUUID(id) { … return }`
  abbrev pub with_id : Str → Site Db → Answer × Site Db → Answer × Site Db
  with_id id s next = if is_uuid id then next else (invalid_request, s)

  -- `API.publishPoll`
  abbrev pub publish_answer : Events → Str → Site Db → Answer × Site Db
  publish_answer ev id s =
      let (reply, w) = publish_poll r ev id s.world in
      with_id id s (answer_with 200 one_poll reply, record s { world = w })

  abbrev pub results_body : Poll × PollResult → Body
  results_body (p, res) = poll_results (result_response p res)

  -- `API.closePoll`
  abbrev pub close_answer : Events → Str → Site Db → Answer × Site Db
  close_answer ev id s =
      let (reply, w) = close r ev id s.world in
      with_id id s (answer_with 200 results_body reply, record s { world = w })

  -- `API.resultsPoll`
  abbrev pub results_answer : Events → Str → Site Db → Answer × Site Db
  results_answer ev id s = with_id id s (answer_with 200 results_body (results r ev id s.world), s)

  abbrev pub store_qr : Str → Site Db → Option Str → Answer × Site Db
  store_qr url s none = (failed unavailable, s)
  store_qr url s (some svg) = (
    record { status = 200; body = qr_code svg },
    record s { qr_cache = insert url svg s.qr_cache },
  )

  abbrev pub generated : Option (Str → Option Str) → Str → Option Str
  generated none url = none
  generated (some generate) url = generate url

  abbrev pub qr_from : Str → Site Db → Option Str → Answer × Site Db
  qr_from url s (some svg) = (record { status = 200; body = qr_code svg }, s)
  qr_from url s none = store_qr url s (generated setup.qr url)

  abbrev pub qr_of : Site Db → Result Poll → Answer × Site Db
  qr_of s (err e) = (failed (handle_domain_error e), s)
  qr_of s (ok p) =
      if is_status p.status draft
      then (failed (write_error 409 (codes "invalid_transition")), s)
      else (let url = setup.public_base_url ++ codes "/p/" ++ path_escape p.slug in
          qr_from url s (lookup url s.qr_cache))

  -- `API.qrPoll`
  abbrev pub qr_answer : Events → Str → Site Db → Answer × Site Db
  qr_answer ev id s = with_id id s (qr_of s (get_by_id ev.calls 0 id s.world.tables))

  -- The handlers behind the administrator's routes.
  unfoldable pub admin_answer :
      (ℕ → Option (List ℕ)) → Events → AdminRequest → Site Db → Answer × Site Db
  unfolding list_recent create publish_poll close results is_uuid limit_of path_escape lookup
  admin_answer random ev (get_polls raw) s = (list_polls ev.calls raw s.world.tables, s)
  admin_answer random ev (post_poll is_json body) s = create_poll random ev is_json body s
  admin_answer random ev (post_publish id) s = publish_answer ev id s
  admin_answer random ev (post_close id) s = close_answer ev id s
  admin_answer random ev (get_results id) s = results_answer ev id s
  admin_answer random ev (get_qr id) s = qr_answer ev id s

  -- `adminAuth` in front of the handlers.
  unfoldable pub admin :
      (ℕ → Option (List ℕ)) → Events → Str → AdminRequest → Site Db → Answer × Site Db
  unfolding provided eq_str admin_answer
  admin random ev authorization q s =
      if is_refused setup (provided authorization)
      then (failed (write_error 401 (codes "unauthorized")), s)
      else admin_answer random ev q s
