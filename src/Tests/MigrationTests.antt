-- ===== src/Tests/MigrationTests.antt =====
-- Migrations at concrete inputs: two scripts whose effect on the database is to be listed in it.
use mipttest_task.Base.{
  ◌≡◌, refl, true, false, List, [], ◌∷◌, Str, codes, has_suffix, eq_str, All, ◌==◌, if◌then◌else◌,
}
use mipttest_task.Base.{has_prefix}
use mipttest_task.Domain.Errors.{Result, ok}
use mipttest_task.Store.Wire.{answered, unacknowledged}
use mipttest_task.Postgres.Calls.{Calls, no_faults}
use mipttest_task.Postgres.Reads.{order_by, insert_by, str_before}
use mipttest_task.Postgres.Migrations.{
  Entry, Files, Schema, is_in, script_names, migrate_scripts, migrate, attempts,
}
use mipttest_task.Postgres.Migrations.Loop.{replay}
use mipttest_task.Postgres.Migrations.Resumed.{migrate-attempts, migrate-again}

abbrev entries : List Entry
entries =
    record { name = codes "002.sql"; is_dir = false }
    ∷ record { name = codes "embed.go"; is_dir = false }
    ∷ record { name = codes "001.sql"; is_dir = false }
    ∷ []

abbrev files : Files
files = record { read_dir = ok entries; read_file = λ name. ok name }

abbrev run : Str → List Str → Result (List Str)
run script db = ok (script ∷ db)

abbrev new_schema : Schema (List Str)
new_schema = record { has_table = false; versions = []; db = [] }

-- The commit of the second script is not acknowledged.
abbrev cut_short : Calls
cut_short i = if i == 12 then unacknowledged else answered

migrate_test :
    (migrate run files no_faults new_schema).1.db ≡ codes "002.sql" ∷ codes "001.sql" ∷ []
unfolding migrate migrate_scripts script_names has_suffix has_prefix order_by insert_by str_before
    eq_str
migrate_test = refl

migrate-attempts_example :
    migrate run files no_faults (attempts run files (cut_short ∷ []) new_schema)
    ≡ migrate run files no_faults new_schema
migrate-attempts_example = migrate-attempts run files (cut_short ∷ []) new_schema

migrate-again_example :
    let s1 = (migrate run files no_faults new_schema).1 in
    All (λ n. is_in n s1.versions ≡ true) (script_names entries)
    × (replay run files (script_names entries) [] [] ≡ ok s1.db)
    × ((migrate run files cut_short s1).1 ≡ s1)
    × (migrate run files no_faults s1 ≡ (ok tt, s1))
migrate-again_example = migrate-again run files no_faults cut_short new_schema entries refl (
    unfold migrate migrate_scripts script_names has_suffix has_prefix order_by insert_by str_before
      eq_str in
    refl)
