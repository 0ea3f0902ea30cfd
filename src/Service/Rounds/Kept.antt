-- ===== src/Service/Rounds/Kept.antt =====
-- What the rounds of the worker leave alone, and what they count.
use mipttest_task.Base.{◌++◌, ℕ, ◌+◌, ◌≡◌, Bool, true, false, List, [], ◌∷◌, length}
use mipttest_task.Domain.Errors.{Result, ok, err}
use mipttest_task.Domain.Poll.{Poll}
use mipttest_task.Postgres.Tables.{Tables}
use mipttest_task.Postgres.Calls.{Calls}
use mipttest_task.Postgres.Reads.{list_active}
use mipttest_task.Service.World.{World, Replica}
use mipttest_task.Service.Results.{snapshot_all}
use mipttest_task.Service.Rounds.{Round}

abbrev pub is_ok : Result (Unit {0}) → Bool
is_ok (ok _) = true
is_ok (err _) = false

abbrev pub is_err : Result (Unit {0}) → Bool
is_err (ok _) = false
is_err (err _) = true

-- Tables with the same polls and options.
abbrev HaveSamePolls : Tables → Tables → Type 0
HaveSamePolls t' t = (t'.polls ≡ t.polls) × (t'.poll_options ≡ t.poll_options)

module _ {Db : Type 0} (r : Replica Db) where
  -- Worlds with the same polls and options and the same cache.
  abbrev IsKept : World Db → World Db → Type 0
  IsKept w' w = HaveSamePolls w'.tables w.tables × (w'.cache ≡ w.cache)

  -- How many outcomes a round has: one for each poll that it lists, or the failure of the listing.
  abbrev pub attempts : Result (List Poll) → ℕ
  attempts (err e) = 1
  attempts (ok ps) = length ps

  -- The outcomes of rounds: of each the failure of its listing, or the outcomes of the snapshots of the
  -- polls that it lists.
  abbrev pub outcomes : List Round → World Db → List (Result (Unit {0}))
  outcomes [] w = []
  outcomes (x ∷ xs) w = elim (list_active x.calls 0 w.tables) [
    | err e ↦ err e ∷ outcomes xs w
    | ok ps ↦ let (replies, w') = snapshot_all r x.events 0 ps w in replies ++ outcomes xs w'
  ]

  -- How many outcomes the rounds have that start from these polls.
  abbrev pub all_attempts : List Round → Tables → ℕ
  all_attempts [] t = 0
  all_attempts (x ∷ xs) t = attempts (list_active x.calls 0 t) + all_attempts xs t
