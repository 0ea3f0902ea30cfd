-- ===== src/Postgres/Migrations.antt =====
-- internal/postgres/migrate.go: `Migrate`. The files that the build embeds and the effect of a script
-- on the database are parameters.
pub mod Rounds
pub mod Loop
pub mod Resumed
use mipttest_task.Base.{
  ℕ, suc, ◌+◌, Bool, true, false, not, ◌&&◌, ◌||◌, List, [], ◌∷◌, map, if◌then◌else◌, Str, codes,
  eq_str, has_suffix, filter,
}
use mipttest_task.Domain.Errors.{Result, ok, err, ◌>>=◌, ◌>>◌, fail_if}
use mipttest_task.Store.Wire.{Wire}
use mipttest_task.Postgres.Calls.{Calls, answer, commit, exec, database_error}
use mipttest_task.Postgres.Reads.{order_by, str_before}

-- `fs.DirEntry`
pub record Entry : Type 0 where
  pub name : Str
  pub is_dir : Bool

-- `migrations.Files`
pub record Files : Type 0 where
  pub read_dir : Result (List Entry)
  pub read_file : Str → Result Str

-- The table `schema_migrations`, with its versions, and the rest of the database.
pub record Schema (D : Type 0) : Type 0 where
  pub has_table : Bool
  pub versions : List Str
  pub db : D

-- `SELECT EXISTS(…)`
abbrev pub is_in : Str → List Str → Bool
is_in name [] = false
is_in name (v ∷ vs) = eq_str v name || is_in name vs

-- `sort.Strings`
abbrev pub goes_behind : Str → Str → Bool
goes_behind s t = str_before t s

-- The names of the scripts, in the order in which they are applied.
unfoldable pub script_names : List Entry → List Str
unfolding has_suffix order_by str_before
script_names entries =
    order_by goes_behind
      (map (λ e. e.name) (filter (λ e. not e.is_dir && has_suffix e.name (codes ".sql")) entries))

-- `CREATE TABLE IF NOT EXISTS`
abbrev pub create_table : {D : Type 0} → Schema D → Schema D
create_table s = record s { has_table = true }

-- `INSERT INTO schema_migrations`, with its primary key.
abbrev pub insert_version : {D : Type 0} → Str → D → Schema D → Result (Schema D)
insert_version name after s =
    fail_if (is_in name s.versions) database_error
    >> ok (record s { versions = name ∷ s.versions; db = after })

abbrev pub end_script :
    {D : Type 0} → Wire → Schema D → Result (Schema D) → Result (Unit {0}) × Schema D
end_script w s (ok after) = commit w s after
end_script w s (err e) = (err e, s)

abbrev pub after_script :
    {D : Type 0}
    → Result (Unit {0})
    → Schema D
    → Result (Unit {0}) × Schema D
    → Result (Unit {0}) × Schema D
after_script (ok _) s rest = rest
after_script (err e) s rest = (err e, s)

module _ {D : Type 0} (run : Str → D → Result D) (files : Files) where
  -- The transaction of one script, before its commit: call 1 begins it, 2 is the script, 3 the `INSERT`.
  abbrev pub script_applied : Calls → ℕ → Str → Schema D → Result (Schema D)
  script_applied calls i name s = do
    script ← files.read_file name
    answer (calls (1 + i)) (ok tt)
    after ← answer (calls (2 + i)) (run script s.db)
    answer (calls (3 + i)) (insert_version name after s)

  abbrev pub unless_applied :
      Calls → ℕ → Str → Schema D → Result Bool → Result (Unit {0}) × Schema D
  unless_applied calls i name s (err e) = (err e, s)
  unless_applied calls i name s (ok true) = (ok tt, s)
  unless_applied calls i name s (ok false) =
      end_script (calls (4 + i)) s (script_applied calls i name s)

  -- One round of the loop; call 0 looks for the version.
  abbrev pub migrate_script : Calls → ℕ → Str → Schema D → Result (Unit {0}) × Schema D
  migrate_script calls i name s =
      unless_applied calls i name s (answer (calls i) (ok (is_in name s.versions)))

  -- `for _, name := range names`; each name has five calls.
  unfoldable pub migrate_scripts : Calls → ℕ → List Str → Schema D → Result (Unit {0}) × Schema D
  migrate_scripts calls i [] s = (ok tt, s)
  migrate_scripts calls i (name ∷ names) s =
      let (reply, s') = migrate_script calls i name s in
      after_script reply s' (migrate_scripts calls (5 + i) names s')

  abbrev pub migrate_from : Calls → Schema D → Result (List Entry) → Result (Unit {0}) × Schema D
  migrate_from calls s (err e) = (err e, s)
  migrate_from calls s (ok entries) = migrate_scripts calls 3 (script_names entries) s

  -- `Migrate`. Call 0 creates the table, 1 takes a connection, 2 the advisory lock.
  unfoldable pub migrate : Calls → Schema D → Result (Unit {0}) × Schema D
  unfolding migrate_scripts script_names
  migrate calls s =
      let (reply, s') = exec (calls 0) s (tt, create_table s) in
      migrate_from calls s'
        (reply >> answer (calls 1) (ok tt) >> answer (calls 2) (ok tt) >> files.read_dir)

  -- Runs one behind the other, each cut short somewhere or not.
  unfoldable pub attempts : List Calls → Schema D → Schema D
  attempts [] s = s
  attempts (calls ∷ more) s = attempts more (migrate calls s).1
