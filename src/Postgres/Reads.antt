-- ===== src/Postgres/Reads.antt =====
-- internal/postgres/polls.go: the queries (`get`, `GetByID`, `GetBySlug`, `ListRecent`, `ListActive`,
-- `ValidateActiveBuckets`).
pub mod Found
pub mod Sorted
pub mod Recent
use mipttest_task.Base.{
  ℕ, zero, suc, Bool, true, false, not, ◌&&◌, ◌||◌, Option, none, some, List, [], ◌∷◌, ◌++◌, map,
  ltb, leb, ◌==◌, if◌then◌else◌, Str, eq_str, take, filter, count_p,
}
use mipttest_task.Domain.Errors.{Result, ok, err, Error, not_found, other, ◌>>=◌, fail_if}
use mipttest_task.Domain.Poll.{Time, active, is_status, Poll, PollOption}
use mipttest_task.Postgres.Tables.{uuid_of, PollRow, OptionRow, Tables}
use mipttest_task.Postgres.Calls.{Calls, answer}

-- A row of `polls p JOIN poll_options o ON o.poll_id=p.id`.
abbrev pub Joined : Type 0
Joined = PollRow × OptionRow

-- `ORDER BY`: an insertion sort, stable, by a test whether one row goes behind another.
unfoldable pub insert_by {ℓ} : {A : Type ℓ} → (A → A → Bool) → A → List A → List A
insert_by behind a [] = a ∷ []
insert_by behind a (b ∷ bs) = if behind a b then b ∷ insert_by behind a bs else a ∷ b ∷ bs

unfoldable pub order_by {ℓ} : {A : Type ℓ} → (A → A → Bool) → List A → List A
unfolding insert_by
order_by behind [] = []
order_by behind (a ∷ rest) = insert_by behind a (order_by behind rest)

abbrev pub by_position : Joined → Joined → Bool
by_position a b = ltb b.1.position a.1.position

abbrev pub options_of : Str → List OptionRow → List OptionRow
options_of id rows = filter (λ o. eq_str o.poll_id id) rows

unfoldable pub join : List OptionRow → List PollRow → List Joined
join os [] = []
join os (p ∷ ps) = map (λ o. (p, o)) (options_of p.id os) ++ join os ps

abbrev pub option_of : OptionRow → PollOption
option_of o = record { id = o.id; text = o.text; position = o.position }

abbrev pub poll_of : PollRow → List PollOption → Poll
poll_of p options = record {
  id = p.id;
  slug = p.slug;
  question = p.question;
  type = p.poll_type;
  max_choices = p.max_choices;
  status = p.status;
  starts_at = p.starts_at;
  ends_at = p.ends_at;
  created_at = p.created_at;
  updated_at = p.updated_at;
  published_at = p.published_at;
  closed_at = p.closed_at;
  options = options;
}

-- The options gathered so far; the zero value of the poll is `none`.
abbrev pub gathered : Option Poll → List PollOption
gathered none = []
gathered (some p) = p.options

-- `for rows.Next()` of `get`: each row overwrites the poll's fields and adds its option.
unfoldable pub scan_poll : Option Poll → List Joined → Option Poll
scan_poll p [] = p
scan_poll p ((row, o) ∷ rows) =
    scan_poll (some (poll_of row (gathered p ++ (option_of o ∷ [])))) rows

-- `p.ID == ""`, where no row was read.
abbrev pub found : Option Poll → Result Poll
found none = err not_found
found (some p) = ok p

unfoldable pub get : Calls → ℕ → (PollRow → Bool) → Tables → Result Poll
unfolding scan_poll order_by join
get calls i predicate t =
    answer (calls i) (ok (order_by by_position (join t.poll_options (filter predicate t.polls))))
    >>= (λ rows. found (scan_poll none rows))

abbrev pub get_by_id : Calls → ℕ → Str → Tables → Result Poll
get_by_id calls i id t = get calls i (λ p. eq_str p.id (uuid_of id)) t

abbrev pub get_by_slug : Calls → ℕ → Str → Tables → Result Poll
get_by_slug calls i slug t = get calls i (λ p. eq_str p.slug slug) t

-- The order of identifiers: the database compares their 16 bytes, which their texts in lower case
-- compare alike.
unfoldable pub str_before : Str → Str → Bool
str_before [] [] = false
str_before [] (d ∷ t) = true
str_before (c ∷ s) [] = false
str_before (c ∷ s) (d ∷ t) = ltb c d || (c == d && str_before s t)

-- `ORDER BY created_at DESC,id DESC`
abbrev pub is_older : PollRow → PollRow → Bool
is_older p q =
    ltb p.created_at q.created_at || (p.created_at == q.created_at && str_before p.id q.id)

-- `ORDER BY p.created_at DESC,p.id DESC,o.position`
abbrev pub recent_behind : Joined → Joined → Bool
recent_behind (p, o) (q, r) = is_older p q || (eq_str p.id q.id && ltb r.position o.position)

-- `polls[len(polls)-1]`, with the polls kept from the last one on.
abbrev pub starts_poll : PollRow → List Poll → Bool
starts_poll row [] = true
starts_poll row (p ∷ ps) = not (eq_str p.id row.id)

abbrev pub add_option_to : PollOption → List Poll → List Poll
add_option_to o [] = []
add_option_to o (p ∷ ps) = record p { options = p.options ++ (o ∷ []) } ∷ ps

unfoldable pub scan_recent : List Poll → List Joined → List Poll
scan_recent polls [] = polls
scan_recent polls ((row, o) ∷ rows) =
    scan_recent
      (add_option_to (option_of o)
        (if starts_poll row polls then poll_of row [] ∷ polls else polls))
      rows

unfoldable pub in_order : List Poll → List Poll → List Poll
in_order [] out = out
in_order (p ∷ ps) out = in_order ps (p ∷ out)

unfoldable pub list_recent : Calls → ℕ → ℕ → Tables → Result (List Poll)
unfolding order_by join scan_recent in_order str_before
list_recent calls i limit t =
    answer (calls i)
      (ok (order_by recent_behind (join t.poll_options (take limit (order_by is_older t.polls)))))
    >>= (λ rows. ok (in_order (scan_recent [] rows) []))

-- `ListActive`: the identifiers, then a query for each.
abbrev pub active_ids : List PollRow → List Str
active_ids ps = map (λ p. p.id) (filter (λ p. is_status p.status active) ps)

unfoldable pub get_each : Calls → ℕ → List Str → Tables → Result (List Poll)
get_each calls i [] t = ok []
get_each calls i (id ∷ ids) t = do
  p ← get_by_id calls i id t
  ps ← get_each calls (suc i) ids t
  ok (p ∷ ps)

unfoldable pub list_active : Calls → ℕ → Tables → Result (List Poll)
unfolding get_each get
list_active calls i t = do
  ids ← answer (calls i) (ok (active_ids t.polls))
  get_each calls (suc i) ids t

-- `WHERE status='active' AND vote_buckets<>$1`
abbrev pub uses_other : ℕ → PollRow → Bool
uses_other buckets p = is_status p.status active && not (p.vote_buckets == buckets)

unfoldable pub validate_active_buckets : Calls → ℕ → ℕ → Tables → Result (Unit {0})
validate_active_buckets calls i buckets t =
    answer (calls i) (ok (count_p (uses_other buckets) t.polls))
    >>= (λ n. fail_if (ltb 0 n) (other "active polls use a different VOTE_BUCKETS value"))
