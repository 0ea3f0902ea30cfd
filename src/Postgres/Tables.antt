-- ===== src/Postgres/Tables.antt =====
-- internal/postgres/migrations/001_init.sql: the rows of the tables, and the selections of rows that
-- the statements make. A table is the list of its rows.
use mipttest_task.Base.{
  map, leb, ◌&&◌, ◌+◌, ap₂, ◌≡◌, refl, arith, ℕ, ◌*◌, ◌/◌, Option, none, some, List, [], ◌∷◌,
  if◌then◌else◌, Str, eq_str,
}
use mipttest_task.Base.Int.{ℤ}
use mipttest_task.Domain.Poll.{Time, PollType, PollStatus}

-- A `timestamptz` holds whole microseconds: the driver cuts the rest of an instant off.
abbrev pub to_micro : Time → Time
to_micro t = t / 1000 * 1000

-- The value of a UUID that a statement passes as a text: PostgreSQL takes digits of either case and
-- compares and returns them in lower case.
abbrev pub lower : ℕ → ℕ
lower c = if leb 65 c && leb c 90 then c + 32 else c

abbrev pub uuid_of : Str → Str
uuid_of id = map lower id

pub lower_twice : (c : ℕ) → lower (lower c) ≡ lower c
lower_twice c = ground arith

pub uuid_of_twice : (id : Str) → uuid_of (uuid_of id) ≡ uuid_of id
uuid_of_twice [] = refl
uuid_of_twice (c ∷ id) = ap₂ (λ a b. a ∷ b) (lower_twice c) (uuid_of_twice id)

pub record PollRow : Type 0 where
  pub id : Str
  pub slug : Str
  pub question : Str
  pub poll_type : PollType
  pub max_choices : ℤ
  pub vote_buckets : ℕ
  pub status : PollStatus
  pub starts_at : Time
  pub ends_at : Time
  pub created_at : Time
  pub updated_at : Time
  pub published_at : Option Time
  pub closed_at : Option Time

pub record OptionRow : Type 0 where
  pub id : Str
  pub poll_id : Str
  pub text : Str
  pub position : ℕ

pub record RuntimeRow : Type 0 where
  pub poll_id : Str
  pub participants_count : ℕ
  pub captured_at : Time
  pub finalized_at : Option Time

pub record OptionResultRow : Type 0 where
  pub poll_id : Str
  pub option_id : Str
  pub vote_count : ℕ
  pub captured_at : Time

pub record Tables : Type 0 where
  pub polls : List PollRow
  pub poll_options : List OptionRow
  pub poll_runtime_results : List RuntimeRow
  pub poll_option_results : List OptionResultRow

-- `SELECT … WHERE id=$1` on the primary key.
unfoldable pub find_poll : Str → List PollRow → Option PollRow
find_poll id [] = none
find_poll id (p ∷ ps) = if eq_str p.id id then some p else find_poll id ps

unfoldable pub find_runtime : Str → List RuntimeRow → Option RuntimeRow
find_runtime id [] = none
find_runtime id (r ∷ rs) = if eq_str r.poll_id id then some r else find_runtime id rs

-- `UPDATE polls SET … WHERE id=$1`
unfoldable pub update_poll : Str → (PollRow → PollRow) → List PollRow → List PollRow
update_poll id f [] = []
update_poll id f (p ∷ ps) = (if eq_str p.id id then f p else p) ∷ update_poll id f ps
