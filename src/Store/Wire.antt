-- ===== src/Store/Wire.antt =====
-- How a call of a service ends. A call can fail before it reaches the server, and the reply can be
-- lost after the server has done the work: the caller sees the same error.
use mipttest_task.Base.{ℕ}
use mipttest_task.Domain.Errors.{Result, ok, err, Error, other}

pub data Wire : Type 0 where
  answered lost unacknowledged : Wire

-- The error of a call that got no answer.
abbrev pub unreachable : Error
unreachable = other "redis"

-- A call on a server's state: what the server did stays done, also where the reply is lost.
abbrev pub call : {A Db : Type 0} → Wire → Db → A × Db → Result A × Db
call answered d (a, d') = (ok a, d')
call lost d (a, d') = (err unreachable, d)
call unacknowledged d (a, d') = (err unreachable, d')

-- A pipeline: all of its commands were run and answered, or the connection failed behind the first
-- so many of them.
pub data Pipeline : Type 0 where
  complete : Pipeline
  broken_after : ℕ → Pipeline
