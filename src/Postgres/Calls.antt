-- ===== src/Postgres/Calls.antt =====
-- How the calls of a transaction end. A statement that fails ends its transaction without effect;
-- a commit whose reply is lost has taken effect all the same.
use mipttest_task.Base.{ℕ, ◌≡◌}
use mipttest_task.Domain.Errors.{Result, ok, err, Error, other}
use mipttest_task.Store.Wire.{Wire, answered, lost, unacknowledged}

-- The outcome of each call of an operation, by its place in the order of the calls.
abbrev pub Calls : Type 0
Calls = ℕ → Wire

-- Every call is answered.
abbrev pub no_faults : Calls
no_faults i = answered

abbrev pub database_error : Error
database_error = other "postgres"

-- A statement inside a transaction, or a query.
abbrev pub answer : {A : Type 0} → Wire → Result A → Result A
answer answered reply = reply
answer _ reply = err database_error

abbrev pub commit : {T : Type 0} → Wire → T → T → Result (Unit {0}) × T
commit answered before after = (ok tt, after)
commit lost before after = (err database_error, before)
commit unacknowledged before after = (err database_error, after)

-- A statement outside a transaction, which commits by itself.
abbrev pub exec : {A T : Type 0} → Wire → T → A × T → Result A × T
exec answered before (a, after) = (ok a, after)
exec lost before (a, after) = (err database_error, before)
exec unacknowledged before (a, after) = (err database_error, after)

pub answer-ok : {A : Type 0} (w : Wire) (r : Result A) (a : A) → answer w r ≡ ok a → r ≡ ok a
answer-ok answered r a h = h
answer-ok lost r a h = cc
answer-ok unacknowledged r a h = cc
