-- ===== src/Postgres/Polls.antt =====
-- internal/postgres/polls.go: the statements (`Create`, `Publish`, `RevertPublish`), and the
-- constraints of internal/postgres/migrations/001_init.sql on what they insert.
pub mod Status
pub mod Reverted
pub mod Named
pub mod Created
use mipttest_task.Base.{
  ℕ, zero, suc, ◌+◌, Bool, true, false, not, ◌&&◌, ◌||◌, Option, none, some, List, [], ◌∷◌, ◌++◌,
  leb, ltb, ◌==◌, if◌then◌else◌, Str, codes, eq_str, trim_space, length, take, all, count_p,
}
use mipttest_task.Base.Int.{ℤ, pos, negsuc}
use mipttest_task.Domain.Errors.{
  Result, ok, err, Error, not_found, invalid_transition, ◌>>=◌, ◌>>◌, fail_if,
}
use mipttest_task.Domain.Poll.{
  Time, PollType, single_choice, multiple_choice, unknown, PollStatus, draft, active, closed,
  is_status, Poll, PollOption, CreatePoll, validate,
}
use mipttest_task.Domain.Uuid.{new_uuid, strip_dashes}
use mipttest_task.Postgres.Tables.{
  uuid_of, to_micro, PollRow, OptionRow, RuntimeRow, Tables, find_poll, update_poll,
}
use mipttest_task.Store.Wire.{Wire}
use mipttest_task.Postgres.Calls.{Calls, answer, commit, exec, database_error}
use mipttest_task.Postgres.Reads.{get, get_by_id, poll_of}
use mipttest_task.Postgres.Results.{select_status}

-- The CHECKs of `polls` and of `poll_options`.
abbrev pub known_type : PollType → Bool
known_type (unknown _) = false
known_type _ = true

abbrev pub up_to : ℕ → ℕ → Bool
up_to most n = leb 1 n && leb n most

abbrev pub choices_fit : ℤ → Bool
choices_fit (pos n) = up_to 20 n
choices_fit (negsuc _) = false

abbrev pub row_is_valid : PollRow → Bool
row_is_valid p =
    up_to 500 (length p.question)
    && known_type p.poll_type
    && choices_fit p.max_choices
    && up_to 4096 p.vote_buckets
    && ltb p.starts_at p.ends_at

abbrev pub option_is_valid : OptionRow → Bool
option_is_valid o = up_to 200 (length o.text)

-- `INSERT`: a row that a constraint refuses is an error of the statement.
unfoldable pub insert_poll : PollRow → Tables → Result Tables
insert_poll p t =
    fail_if
      (not (row_is_valid p)
        || not (all (λ q. not (eq_str q.id p.id) && not (eq_str q.slug p.slug)) t.polls))
      database_error
    >> ok (record t { polls = p ∷ t.polls })

abbrev pub clashes : OptionRow → OptionRow → Bool
clashes o r = eq_str r.id o.id || (eq_str r.poll_id o.poll_id && r.position == o.position)

unfoldable pub insert_option : OptionRow → Tables → Result Tables
insert_option o t =
    fail_if
      (not (option_is_valid o)
        || (count_p (λ p. eq_str p.id o.poll_id) t.polls == 0)
        || not (count_p (clashes o) t.poll_options == 0))
      database_error
    >> ok (record t { poll_options = o ∷ t.poll_options })

-- The loop over the texts from position `i` on; `random i` is what `NewUUID` reads for it.
unfoldable pub insert_options :
    (ℕ → Option (List ℕ)) → Calls → Str → ℕ → List Str → Tables → Result (List PollOption × Tables)
unfolding insert_option
insert_options random calls poll_id i [] t = ok ([], t)
insert_options random calls poll_id i (text ∷ texts) t = do
  id ← new_uuid (random (suc i))
  let o : OptionRow = record { id = id; poll_id = poll_id; text = trim_space text; position = i }
  t1 ← answer (calls (2 + i)) (insert_option o t)
  (os, t2) ← insert_options random calls poll_id (suc i) texts t1
  ok (record { id = id; text = o.text; position = i } ∷ os, t2)

abbrev pub slug_of : Str → Str
slug_of id = codes "poll-" ++ take 8 (strip_dashes id)

abbrev pub new_row : ℕ → CreatePoll → Time → Str → PollRow
new_row buckets c now id = record {
  id = id;
  slug = slug_of id;
  question = trim_space c.question;
  poll_type = c.type;
  max_choices = c.max_choices;
  vote_buckets = buckets;
  status = draft;
  starts_at = c.starts_at;
  ends_at = c.ends_at;
  created_at = now;
  updated_at = now;
  published_at = none;
  closed_at = none;
}

-- The row as the table holds it, whose instants are whole microseconds.
abbrev pub stored_row : PollRow → PollRow
stored_row p = record p {
  starts_at = to_micro p.starts_at;
  ends_at = to_micro p.ends_at;
  created_at = to_micro p.created_at;
  updated_at = to_micro p.updated_at;
}

-- What the statements of `Create` make of the tables, before the commit. Call 0 begins the
-- transaction, 1 inserts the poll.
unfoldable pub created :
    (ℕ → Option (List ℕ)) → Calls → ℕ → CreatePoll → Time → Tables → Result (Poll × Tables)
unfolding validate new_uuid insert_poll insert_options strip_dashes
created random calls buckets c now t = do
  validate c
  id ← new_uuid (random 0)
  answer (calls 0) (ok tt)
  t1 ← answer (calls 1) (insert_poll (stored_row (new_row buckets c now id)) t)
  (os, t2) ← insert_options random calls id 0 c.options t1
  ok (poll_of (new_row buckets c now id) os, t2)

abbrev pub committed : Wire → Tables → Result (Poll × Tables) → Result Poll × Tables
committed w before (err e) = (err e, before)
committed w before (ok (p, after)) = let (done, t) = commit w before after in (done >> ok p, t)

unfoldable pub create :
    (ℕ → Option (List ℕ)) → Calls → ℕ → CreatePoll → Time → Tables → Result Poll × Tables
unfolding created
create random calls buckets c now t =
    committed (calls (2 + length c.options)) t (created random calls buckets c now t)

-- `UPDATE polls SET status='active',published_at=$2,updated_at=$2,vote_buckets=$3 WHERE id=$1`
abbrev pub publish_row : ℕ → Time → PollRow → PollRow
publish_row buckets now p = record p {
  status = active;
  published_at = some (to_micro now);
  updated_at = to_micro now;
  vote_buckets = buckets;
}

-- A commit, and the poll read behind it.
abbrev pub commit_and_get : Calls → ℕ → Str → Tables → Tables → Result Poll × Tables
commit_and_get calls i id before after =
    let (done, t) = commit (calls i) before after in (done >> get_by_id calls (suc i) id t, t)

abbrev pub end_publish : Calls → Str → Tables → Result Tables → Result Poll × Tables
end_publish calls id before (err e) = (err e, before)
end_publish calls id before (ok after) = commit_and_get calls 3 id before after

-- What follows the `SELECT … FOR UPDATE`.
abbrev pub publish_from : Calls → ℕ → Str → Time → Tables → Result PollStatus → Result Poll × Tables
publish_from calls buckets id now t (err e) = (err e, t)
publish_from calls buckets id now t (ok active) = commit_and_get calls 2 id t t
publish_from calls buckets id now t (ok closed) = (err (invalid_transition ""), t)
publish_from calls buckets id now t (ok draft) = end_publish calls id t (
    answer (calls 2)
      (ok (record t { polls = update_poll (uuid_of id) (publish_row buckets now) t.polls })))

-- `Publish`. Call 0 begins the transaction, 1 is the `SELECT`.
unfoldable pub publish : Calls → ℕ → Str → Time → Tables → Result Poll × Tables
unfolding find_poll update_poll get
publish calls buckets id now t =
    publish_from calls buckets id now t
      (answer (calls 0) (ok tt) >> answer (calls 1) (select_status (uuid_of id) t))

-- `AND status='active' AND published_at=$2`
abbrev pub is_published_at : Time → PollRow → Bool
is_published_at at p =
    is_status p.status active && elim p.published_at [ none ↦ false | some u ↦ u == to_micro at ]

abbrev pub revert_row : Time → Time → PollRow → PollRow
revert_row at now p =
    if is_published_at at p
    then record p { status = draft; published_at = none; updated_at = now }
    else p

abbrev pub matched : Str → Time → Tables → ℕ
matched id at t = count_p (λ p. eq_str p.id (uuid_of id) && is_published_at at p) t.polls

-- `RevertPublish`, at the server's time `now`.
unfoldable pub revert_publish : Wire → Str → Time → Time → Tables → Result (Unit {0}) × Tables
unfolding update_poll
revert_publish w id at now t =
    let (n, t') = exec w t (
      matched id at t,
      record t { polls = update_poll (uuid_of id) (revert_row at now) t.polls },
    ) in
    (n >>= (λ k. fail_if (k == 0) (invalid_transition "publish compensation")), t')
