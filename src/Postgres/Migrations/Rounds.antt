-- ===== src/Postgres/Migrations/Rounds.antt =====
-- How the round of one script can end.
use mipttest_task.Base.{
  ℕ, ◌+◌, ◌≡◌, refl, sym, ap, subst, ◌∙◌, ◌⊎◌, inl, inr, Bool, true, false, ◌∷◌, arith, Str,
  eq_str_refl,
}
use mipttest_task.Domain.Errors.{Result, ok, err, Error, ◌>>=◌, bind-ok}
use mipttest_task.Store.Wire.{Wire, answered, lost, unacknowledged}
use mipttest_task.Postgres.Calls.{Calls, no_faults, answer, answer-ok}
use mipttest_task.Postgres.Migrations.{
  Files, Schema, is_in, insert_version, script_applied, end_script, unless_applied, migrate_script,
}

abbrev pub IsApplied : {D : Type 0} → Str → Schema D → Type 0
IsApplied name s = is_in name s.versions ≡ true

-- The state behind a script.
abbrev pub applied : {D : Type 0} → Str → D → Schema D → Schema D
applied name after s = record s { versions = name ∷ s.versions; db = after }

module _ {D : Type 0} (run : Str → D → Result D) (files : Files) where
  insert_version-ok :
      (name : Str) (after : D) (s s' : Schema D)
      → insert_version name after s ≡ ok s'
      → s' ≡ applied name after s
  insert_version-ok name after s s' h = ground arith

  -- What the script of a name makes of a database.
  abbrev pub script_run : Str → D → Result D
  script_run name db = files.read_file name >>= (λ script. run script db)

  -- The script was not applied before, and this is what it makes of the database.
  abbrev pub IsNew : Str → Schema D → D → Type 0
  IsNew name s after = (is_in name s.versions ≡ false) × (script_run name s.db ≡ ok after)

  -- A script that was applied up to its commit is applied so by calls that are answered.
  script_applied-again :
      (calls : Calls) (i : ℕ) (name : Str) (s s' : Schema D)
      → script_applied run files calls i name s ≡ ok s'
      → (script_applied run files no_faults 0 name s ≡ ok s')
        × ((after : D) × (s' ≡ applied name after s) × (script_run name s.db ≡ ok after))
  script_applied-again calls i name s s' h =
      let (script, read, h1) = bind-ok (files.read_file name) _ s' h in
      let (_, _, h2) = bind-ok (answer (calls (1 + i)) (ok tt)) _ s' h1 in
      let (after, ran, h3) = bind-ok (answer (calls (2 + i)) (run script s.db)) _ s' h2 in
      let stored = answer-ok (calls (3 + i)) (insert_version name after s) s' h3 in
      (
        ap (λ r. r >>= (λ text. run text s.db >>= (λ x. insert_version name x s))) read
            ∙ ap (λ r. r >>= (λ x. insert_version name x s))
                (answer-ok (calls (2 + i)) (run script s.db) after ran)
            ∙ stored,
        (
          after,
          insert_version-ok name after s s' stored,
          ap (λ r. r >>= (λ text. run text s.db)) read
              ∙ answer-ok (calls (2 + i)) (run script s.db) after ran,
        ),
      )

  -- How a script's round can end: without effect and with an error, with the script there already, or
  -- in the state that an undisturbed round leaves, whatever the reply says.
  abbrev pub Ends : Str → Schema D → Result (Unit {0}) × Schema D → Type 0
  Ends name s (reply, s') =
      ((s' ≡ s) × ((e : Error) × (reply ≡ err e)))
      ⊎ (((s' ≡ s) × (reply ≡ ok tt) × IsApplied name s)
          ⊎ ((migrate_script run files no_faults 0 name s ≡ (ok tt, s'))
              × ((after : D) × (s' ≡ applied name after s) × IsNew name s after)))

  module _ (calls : Calls) (i : ℕ) (name : Str) (s : Schema D) where
    end_script-Ends :
        is_in name s.versions ≡ false
        → (w : Wire) (r : Result (Schema D)) → script_applied run files calls i name s ≡ r
        → Ends name s (end_script w s r)
    end_script-Ends new w (err e) h = inl (refl, (e, refl))
    end_script-Ends new w (ok s') h =
        let (again, (after, is, ran)) = script_applied-again calls i name s s' h in
        let undisturbed : migrate_script run files no_faults 0 name s ≡ (ok tt, s') =
          ap (λ b. unless_applied run files no_faults 0 name s (ok b)) new
          ∙ ap (end_script answered s) again in
        by_commit undisturbed (after, is, (new, ran)) w
      where
        by_commit :
            migrate_script run files no_faults 0 name s ≡ (ok tt, s')
            → ((after : D) × (s' ≡ applied name after s) × IsNew name s after)
            → (v : Wire) → Ends name s (end_script v s (ok s'))
        by_commit u is answered = inr (inr (u, is))
        by_commit u is lost = inl (refl, (_, refl))
        by_commit u is unacknowledged = inr (inr (u, is))

    unless_applied-Ends :
        (b : Bool) (w : Wire)
        → is_in name s.versions ≡ b
        → Ends name s (unless_applied run files calls i name s (answer w (ok b)))
    unless_applied-Ends b lost e = inl (refl, (_, refl))
    unless_applied-Ends b unacknowledged e = inl (refl, (_, refl))
    unless_applied-Ends true answered e = inr (inl (refl, refl, e))
    unless_applied-Ends false answered e = end_script-Ends e (calls (4 + i)) _ refl

    pub migrate_script-Ends : Ends name s (migrate_script run files calls i name s)
    migrate_script-Ends = unless_applied-Ends _ (calls i) refl

  applied-keeps :
      (name n : Str) (after : D) (s : Schema D) → IsApplied n s → IsApplied n (applied name after s)
  applied-keeps name n after s h = ground arith

  pub applied-own : (name : Str) (after : D) (s : Schema D) → IsApplied name (applied name after s)
  applied-own name after s = rw (eq_str_refl name)

  -- A round keeps the table and the versions that are there; one that replies without an error leaves
  -- its own version.
  pub migrate_script-keeps :
      (calls : Calls) (i : ℕ) (name : Str) (s : Schema D)
      → let (reply, s') = migrate_script run files calls i name s in
        (s'.has_table ≡ s.has_table)
        × ((n : Str) → IsApplied n s → IsApplied n s')
        × (reply ≡ ok tt → IsApplied name s')
  migrate_script-keeps calls i name s = by_end _ (migrate_script-Ends calls i name s)
    where
      by_end :
          (r : Result (Unit {0}) × Schema D)
          → Ends name s r
          → (r.1.has_table ≡ s.has_table)
            × ((n : Str) → IsApplied n s → IsApplied n r.1)
            × (r.0 ≡ ok tt → IsApplied name r.1)
      by_end (reply, s') (inl (same, (e, failed))) = (
        ap (λ (x : Schema D). x.has_table) same,
        λ n h. subst (IsApplied n) (sym same) h,
        λ done. cc,
      )
      by_end (reply, s') (inr (inl (same, _, there))) = (
        ap (λ (x : Schema D). x.has_table) same,
        λ n h. subst (IsApplied n) (sym same) h,
        λ done. subst (IsApplied name) (sym same) there,
      )
      by_end (reply, s') (inr (inr (_, (after, is, _)))) = (
        ap (λ (x : Schema D). x.has_table) is,
        λ n h. subst (IsApplied n) (sym is) (applied-keeps name n after s h),
        λ done. subst (IsApplied name) (sym is) (applied-own name after s),
      )
