-- ===== src/Postgres/Migrations/Resumed.antt =====
-- A migration that was cut short is completed by the next run, and a complete one changes nothing.
use mipttest_task.Base.{◌≡◌, refl, sym, ap, subst, ◌∙◌, true, List, [], ◌∷◌, Str, All}
use mipttest_task.Domain.Errors.{Result, ok, err, ◌>>◌, ok-injective}
use mipttest_task.Store.Wire.{Wire, answered, lost, unacknowledged}
use mipttest_task.Postgres.Calls.{Calls, no_faults, answer, exec}
use mipttest_task.Postgres.Migrations.{
  Entry, Files, Schema, is_in, script_names, create_table, migrate_scripts, migrate_from, migrate,
  attempts,
}
use mipttest_task.Postgres.Migrations.Rounds.{IsApplied}
use mipttest_task.Postgres.Migrations.Loop.{
  migrate_scripts-Keeps, replay, migrate_scripts-replays, migrate_scripts-resumes,
  migrate_scripts-done,
}

module _ {D : Type 0} (run : Str → D → Result D) (files : Files) where
  resumed_from :
      (calls : Calls) (s : Schema D) (v w : Wire) (entries : Result (List Entry))
      → let (reply, s') = exec (calls 0) s (tt, create_table s) in
        migrate_from run files no_faults
          (create_table
            (migrate_from run files calls s'
              (reply >> answer v (ok tt) >> answer w (ok tt) >> entries)).1)
          entries
        ≡ migrate_from run files no_faults (create_table s) entries
  resumed_from calls s v w entries = by_create (calls 0) v w entries
    where
      by_create :
          (u v w : Wire) (entries : Result (List Entry))
          → let (reply, s') = exec u s (tt, create_table s) in
            migrate_from run files no_faults
              (create_table
                (migrate_from run files calls s'
                  (reply >> answer v (ok tt) >> answer w (ok tt) >> entries)).1)
              entries
            ≡ migrate_from run files no_faults (create_table s) entries
      by_create lost v w entries = refl
      by_create unacknowledged v w entries = refl
      by_create answered lost w entries = refl
      by_create answered unacknowledged w entries = refl
      by_create answered answered lost entries = refl
      by_create answered answered unacknowledged entries = refl
      by_create answered answered answered (err e) = refl
      by_create answered answered answered (ok entries) =
          let names = script_names entries in
          let s0 = create_table s in
          let s1 = (migrate_scripts run files calls 3 names s0).1 in
          ap (λ b. migrate_scripts run files no_faults 3 names (record s1 { has_table = b }))
            (sym (migrate_scripts-Keeps run files calls 3 names s0).0)
          ∙ migrate_scripts-resumes run files calls 3 3 3 names s0

  migrate-resumes :
      (calls : Calls) (s : Schema D)
      → migrate run files no_faults (migrate run files calls s).1 ≡ migrate run files no_faults s
  unfolding migrate
  migrate-resumes calls s = resumed_from calls s (calls 1) (calls 2) files.read_dir

  -- However many runs were cut short, and wherever, an undisturbed run behind them replies and leaves
  -- the database as one undisturbed run from the start does: no script takes effect twice and none is
  -- left out.
  pub migrate-attempts :
      (cut_short : List Calls) (s : Schema D)
      → migrate run files no_faults (attempts run files cut_short s) ≡ migrate run files no_faults s
  unfolding attempts
  migrate-attempts [] s = refl
  migrate-attempts (calls ∷ more) s =
      migrate-attempts more (migrate run files calls s).1 ∙ migrate-resumes calls s

  migrated :
      (calls : Calls) (s : Schema D) (u v w : Wire) (r : Result (List Entry)) (entries : List Entry)
      → r ≡ ok entries
      → let (reply, s') = exec u s (tt, create_table s) in
        let (done, s1) =
          migrate_from run files calls s' (reply >> answer v (ok tt) >> answer w (ok tt) >> r) in
        done ≡ ok tt
        → (s1.has_table ≡ true)
          × All (λ n. IsApplied n s1) (script_names entries)
          × (replay run files (script_names entries) s.versions s.db ≡ ok s1.db)
  migrated calls s lost v w r entries e h = cc
  migrated calls s unacknowledged v w r entries e h = cc
  migrated calls s answered lost w r entries e h = cc
  migrated calls s answered unacknowledged w r entries e h = cc
  migrated calls s answered answered lost r entries e h = cc
  migrated calls s answered answered unacknowledged r entries e h = cc
  migrated calls s answered answered answered (err x) entries e h = cc
  migrated calls s answered answered answered (ok found) entries e h =
      let s0 = create_table s in
      let s1 = (migrate_scripts run files calls 3 (script_names found) s0).1 in
      let (table, _, all_there) = migrate_scripts-Keeps run files calls 3 (script_names found) s0 in
      (
        table,
        subst (λ es. All (λ n. IsApplied n s1) (script_names es)) (ok-injective e) (all_there h),
        subst (λ es. replay run files (script_names es) s.versions s.db ≡ ok s1.db) (ok-injective e)
            (migrate_scripts-replays run files calls 3 (script_names found) s0 h),
      )

  undisturbed :
      (later : Calls) (s : Schema D) (u v w : Wire) (r : Result (List Entry)) (entries : List Entry)
      → r ≡ ok entries
      → s.has_table ≡ true
      → All (λ n. IsApplied n s) (script_names entries)
      → let (reply, s') = exec u s (tt, create_table s) in
        ((migrate_from run files later s' (reply >> answer v (ok tt) >> answer w (ok tt) >> r)).1
          ≡ s)
        × (migrate_from run files no_faults (create_table s) r ≡ (ok tt, s))
  undisturbed later s u v w r entries e table there =
      let same : create_table s ≡ s = ap (λ b. record s { has_table = b }) (sym table) in
      let (kept, done) = migrate_scripts-done run files later 3 3 (script_names entries) s there in
      (
        by_wire same kept u v w,
        ap (λ x. migrate_from run files no_faults x r) same
            ∙ ap (migrate_from run files no_faults s) e
            ∙ done,
      )
    where
      by_wire :
          create_table s ≡ s
          → (migrate_scripts run files later 3 (script_names entries) s).1 ≡ s
          → (u v w : Wire)
          → let (reply, s') = exec u s (tt, create_table s) in
            (migrate_from run files later s' (reply >> answer v (ok tt) >> answer w (ok tt) >> r)).1
            ≡ s
      by_wire same kept lost v w = refl
      by_wire same kept unacknowledged v w = same
      by_wire same kept answered lost w = same
      by_wire same kept answered unacknowledged w = same
      by_wire same kept answered answered lost = same
      by_wire same kept answered answered unacknowledged = same
      by_wire same kept answered answered answered =
          ap (λ x. (migrate_from run files later (create_table s) x).1) e
          ∙ ap (λ x. (migrate_scripts run files later 3 (script_names entries) x).1) same
          ∙ kept

  -- Behind a run that replies without an error, whatever its calls, each script's version is
  -- recorded and the database is what the scripts whose versions were not there before make of it, one
  -- behind the other; a later run changes nothing, however its calls end; an undisturbed one succeeds. The
  -- directory of scripts can be read.
  pub migrate-again :
      (calls later : Calls) (s : Schema D) (entries : List Entry)
      → files.read_dir ≡ ok entries
      → (migrate run files calls s).0 ≡ ok tt
      → let s1 = (migrate run files calls s).1 in
        All (λ n. is_in n s1.versions ≡ true) (script_names entries)
        × (replay run files (script_names entries) s.versions s.db ≡ ok s1.db)
        × ((migrate run files later s1).1 ≡ s1)
        × (migrate run files no_faults s1 ≡ (ok tt, s1))
  unfolding migrate
  migrate-again calls later s entries e h =
      let s1 = (migrate run files calls s).1 in
      let (table, there, ran) =
        migrated calls s (calls 0) (calls 1) (calls 2) files.read_dir entries e h in
      let (kept, done) =
        undisturbed later s1 (later 0) (later 1) (later 2) files.read_dir entries e table there in
      (there, ran, kept, done)
