-- ===== src/Postgres/Migrations/Loop.antt =====
-- The loop over the scripts, behind one that was cut short.
use mipttest_task.Base.{
  ℕ, ◌+◌, ◌≡◌, refl, sym, ap, subst, ◌∙◌, inl, inr, Bool, if◌then◌else◌, true, List, [], ◌∷◌, Str,
  All,
}
use mipttest_task.Domain.Errors.{Result, ok, err, ◌>>=◌}
use mipttest_task.Store.Wire.{Wire, answered, lost, unacknowledged}
use mipttest_task.Postgres.Calls.{Calls, no_faults, answer}
use mipttest_task.Postgres.Migrations.{
  Files, Schema, is_in, unless_applied, migrate_script, after_script, migrate_scripts,
}
use mipttest_task.Postgres.Migrations.Rounds.{
  IsApplied, Ends, migrate_script-Ends, applied-own, migrate_script-keeps,
}

module _ {D : Type 0} (run : Str → D → Result D) (files : Files) where
  abbrev pub Keeps : List Str → Schema D → Result (Unit {0}) × Schema D → Type 0
  Keeps names s (reply, s') =
      (s'.has_table ≡ s.has_table)
      × ((n : Str) → IsApplied n s → IsApplied n s')
      × (reply ≡ ok tt → All (λ n. IsApplied n s') names)

  -- The loop keeps the table and the versions; where it replies without an error, all are there.
  pub migrate_scripts-Keeps :
      (calls : Calls) (i : ℕ) (names : List Str) (s : Schema D)
      → Keeps names s (migrate_scripts run files calls i names s)
  unfolding migrate_scripts
  migrate_scripts-Keeps calls i [] s = (refl, λ n h. h, λ done. tt)
  migrate_scripts-Keeps calls i (name ∷ names) s =
      let round = migrate_script run files calls i name s in
      behind round.0 round.1 (migrate_script-keeps run files calls i name s) _
        (migrate_scripts-Keeps calls (5 + i) names round.1)
    where
      behind :
          (reply : Result (Unit {0})) (s' : Schema D)
          → (s'.has_table ≡ s.has_table)
            × ((n : Str) → IsApplied n s → IsApplied n s')
            × (reply ≡ ok tt → IsApplied name s')
          → (rest : Result (Unit {0}) × Schema D) → Keeps names s' rest
          → Keeps (name ∷ names) s (after_script reply s' rest)
      behind (err e) s' (table, keeps, own) rest _ = (table, keeps, λ done. cc)
      behind (ok x) s' (table, keeps, own) (r, s2) (table2, keeps2, all_there) = (
        table2 ∙ table,
        λ n h. keeps2 n (keeps n h),
        λ done. (keeps2 name (own refl), all_there done),
      )

  migrate_scripts-skip :
      (i : ℕ) (name : Str) (names : List Str) (s : Schema D)
      → IsApplied name s
      → migrate_scripts run files no_faults i (name ∷ names) s
        ≡ migrate_scripts run files no_faults (5 + i) names s
  unfolding migrate_scripts
  migrate_scripts-skip i name names s there =
      ap
        (λ b.
          let (reply, s') = unless_applied run files no_faults i name s (ok b) in
          after_script reply s' (migrate_scripts run files no_faults (5 + i) names s'))
        there

  migrate_scripts-index :
      (i j : ℕ) (names : List Str) (s : Schema D)
      → migrate_scripts run files no_faults i names s
        ≡ migrate_scripts run files no_faults j names s
  unfolding migrate_scripts
  migrate_scripts-index i j [] s = refl
  migrate_scripts-index i j (name ∷ names) s =
      let (reply, s') = migrate_script run files no_faults 0 name s in
      ap (after_script reply s') (migrate_scripts-index (5 + i) (5 + j) names s')

  -- An undisturbed loop behind one that was cut short does what it does from the start.
  pub migrate_scripts-resumes :
      (calls : Calls) (i j k : ℕ) (names : List Str) (s : Schema D)
      → migrate_scripts run files no_faults j names (migrate_scripts run files calls i names s).1
        ≡ migrate_scripts run files no_faults k names s
  unfolding migrate_scripts
  migrate_scripts-resumes calls i j k [] s = refl
  migrate_scripts-resumes calls i j k (name ∷ names) s =
      by_end _ (migrate_script-Ends run files calls i name s)
        (migrate_scripts-resumes calls (5 + i) (5 + j) (5 + k) names)
    where
      rest : Schema D → Result (Unit {0}) × Schema D
      rest x = migrate_scripts run files calls (5 + i) names x

      again : ℕ → Schema D → Result (Unit {0}) × Schema D
      again n x = migrate_scripts run files no_faults n (name ∷ names) x

      through :
          (x : Schema D)
          → IsApplied name x
          → migrate_scripts run files no_faults (5 + j) names (rest x).1
            ≡ migrate_scripts run files no_faults (5 + k) names x
          → again j (rest x).1 ≡ migrate_scripts run files no_faults (5 + k) names x
      through x there more =
          migrate_scripts-skip j name names (rest x).1
            ((migrate_scripts-Keeps calls (5 + i) names x).1 name there)
          ∙ more

      fresh :
          (x : Schema D)
          → migrate_script run files no_faults 0 name s ≡ (ok tt, x)
          → again k s ≡ migrate_scripts run files no_faults (5 + k) names x
      fresh x u =
          ap
            (λ (r : Result (Unit {0}) × Schema D).
              after_script r.0 r.1 (migrate_scripts run files no_faults (5 + k) names r.1))
            u

      by_end :
          (r : Result (Unit {0}) × Schema D)
          → Ends run files name s r
          → ((x : Schema D)
              → migrate_scripts run files no_faults (5 + j) names (rest x).1
                ≡ migrate_scripts run files no_faults (5 + k) names x)
          → again j (after_script r.0 r.1 (rest r.1)).1 ≡ again k s
      by_end (reply, s') (inl (same, (e, failed))) more =
          ap (λ x. again j (after_script x s' (rest s')).1) failed
          ∙ ap (again j) same
          ∙ migrate_scripts-index j k (name ∷ names) s
      by_end (reply, s') (inr (inl (same, done, there))) more =
          ap (λ x. again j (after_script x s' (rest s')).1) done
          ∙ ap (λ x. again j (rest x).1) same
          ∙ through s there (more s)
          ∙ sym (migrate_scripts-skip k name names s there)
      by_end (ok x, s') (inr (inr (u, (after, is, _)))) more =
          through s' (subst (IsApplied name) (sym is) (applied-own run files name after s))
            (more s')
          ∙ sym (fresh s' u)
      by_end (err e, s') (inr (inr (u, (after, is, _)))) more =
          migrate_scripts-skip j name names s'
            (subst (IsApplied name) (sym is) (applied-own run files name after s))
          ∙ migrate_scripts-index (5 + j) (5 + k) names s'
          ∙ sym (fresh s' u)

  -- The scripts of these names one behind the other, without those of the versions that are there.
  abbrev pub replay : List Str → List Str → D → Result D
  replay [] versions db = ok db
  replay (name ∷ names) versions db =
      if is_in name versions
      then replay names versions db
      else files.read_file name
        >>= (λ script. run script db)
        >>= (λ after. replay names (name ∷ versions) after)

  -- A loop that replies without an error leaves what the scripts make of the database.
  pub migrate_scripts-replays :
      (calls : Calls) (i : ℕ) (names : List Str) (s : Schema D)
      → (migrate_scripts run files calls i names s).0 ≡ ok tt
      → replay names s.versions s.db ≡ ok (migrate_scripts run files calls i names s).1.db
  unfolding migrate_scripts
  migrate_scripts-replays calls i [] s h = refl
  migrate_scripts-replays calls i (name ∷ names) s h =
      by_end (migrate_script run files calls i name s)
        (migrate_script-Ends run files calls i name s) (migrate_scripts-replays calls (5 + i) names)
        h
    where
      rest : Schema D → Result (Unit {0}) × Schema D
      rest x = migrate_scripts run files calls (5 + i) names x

      choose : Bool → Result D
      choose b =
          if b
          then replay names s.versions s.db
          else files.read_file name
            >>= (λ script. run script s.db)
            >>= (λ after. replay names (name ∷ s.versions) after)

      by_end :
          (r : Result (Unit {0}) × Schema D)
          → Ends run files name s r
          → ((x : Schema D) → (rest x).0 ≡ ok tt → replay names x.versions x.db ≡ ok (rest x).1.db)
          → (after_script r.0 r.1 (rest r.1)).0 ≡ ok tt
          → replay (name ∷ names) s.versions s.db ≡ ok (after_script r.0 r.1 (rest r.1)).1.db
      by_end (err e, s') ends more h = cc
      by_end (ok x, s') (inl (_, (e, failed))) more h = cc
      by_end (ok x, s') (inr (inl (same, _, there))) more h =
          ap choose there
          ∙ ap (λ (y : Schema D). replay names y.versions y.db) (sym same)
          ∙ more s' h
      by_end (ok x, s') (inr (inr (_, (after, is, (new, ran))))) more h =
          ap choose new
          ∙ ap (λ d. d >>= (λ y. replay names (name ∷ s.versions) y)) ran
          ∙ ap (λ (y : Schema D). replay names y.versions y.db) (sym is)
          ∙ more s' h

  pub migrate_scripts-done :
      (calls : Calls) (i j : ℕ) (names : List Str) (s : Schema D)
      → All (λ n. IsApplied n s) names
      → ((migrate_scripts run files calls i names s).1 ≡ s)
        × (migrate_scripts run files no_faults j names s ≡ (ok tt, s))
  unfolding migrate_scripts
  migrate_scripts-done calls i j [] s h = (refl, refl)
  migrate_scripts-done calls i j (name ∷ names) s (there, h) =
      let (kept, done) = migrate_scripts-done calls (5 + i) (5 + j) names s h in
      (
        ap
              (λ b.
                let (reply, s') =
                  unless_applied run files calls i name s (answer (calls i) (ok b)) in
                (after_script reply s' (migrate_scripts run files calls (5 + i) names s')).1)
              there
            ∙ by_wire (calls i) kept,
        migrate_scripts-skip j name names s there ∙ done,
      )
    where
      by_wire :
          (w : Wire)
          → (migrate_scripts run files calls (5 + i) names s).1 ≡ s
          → (let (reply, s') = unless_applied run files calls i name s (answer w (ok true)) in
              (after_script reply s' (migrate_scripts run files calls (5 + i) names s')).1)
            ≡ s
      by_wire answered kept = kept
      by_wire lost kept = refl
      by_wire unacknowledged kept = refl
