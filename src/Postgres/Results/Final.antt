-- ===== src/Postgres/Results/Final.antt =====
-- Snapshots only move forward, a final result never changes, and each call writes all or nothing.
use mipttest_task.Base.{
  map, not, ℕ, suc, ap₂, ◌+◌, ◌≤◌, ◌≡◌, ◌≢◌, refl, sym, ap, ◌∙◌, ◌⊎◌, inl, inr, Bool, true, false,
  ◌&&◌, Option, none, some, List, [], ◌∷◌, arith, leb, if◌then◌else◌, Str, eq_str, eq_str_refl,
  Bool-cases, length,
}
use mipttest_task.Base.Dict.{get_or}
use mipttest_task.Domain.Errors.{
  Result, ok, err, ◌>>◌, bind-ok, ok-injective, fail_if_iff, invalid_transition,
}
use mipttest_task.Domain.Poll.{
  Time, PollStatus, active, closed, is_status, PollOption, Poll, Totals,
}
use mipttest_task.Store.Wire.{Wire, answered, lost, unacknowledged}
use mipttest_task.Postgres.Tables.{
  uuid_of, PollRow, RuntimeRow, OptionResultRow, Tables, find_poll, find_runtime, update_poll,
}
use mipttest_task.Postgres.Calls.{Calls, answer, answer-ok, commit}
use mipttest_task.Postgres.Results.Upserts.{
  replaced, upsert_runtime-replaced, upsert_option-replaced, update_poll-closed,
}
use mipttest_task.Postgres.Results.{
  select_status, final_time, is_open, upsert_runtime, runtime_row, final_at, written, save_snapshot,
  save_known, finish, save_options, option_row, upsert_option, coalesce, close_row, close_poll,
}

-- The row that the upsert leaves for a poll.
abbrev pub merged : RuntimeRow → Option RuntimeRow → RuntimeRow
merged new none = new
merged new (some r) = if is_open r && leb r.captured_at new.captured_at then new else r

pub find_runtime-upsert_runtime :
    (new : RuntimeRow) (rs : List RuntimeRow)
    → find_runtime new.poll_id (upsert_runtime new rs)
      ≡ some (merged new (find_runtime new.poll_id rs))
unfolding find_runtime upsert_runtime
find_runtime-upsert_runtime new [] = rw (eq_str_refl new.poll_id)
find_runtime-upsert_runtime new (r ∷ rs) = elim (Bool-cases (eq_str r.poll_id new.poll_id)) [
  | inl same ↦ ground (arith, eq_str_refl new.poll_id)
  | inr other ↦ ground (arith, find_runtime-upsert_runtime new rs)
]

pub find_poll-update_poll :
    (id : Str) (f : PollRow → PollRow) (ps : List PollRow) (p : PollRow)
    → (f p).id ≡ p.id
    → find_poll id ps ≡ some p
    → find_poll id (update_poll id f ps) ≡ some (f p)
unfolding find_poll update_poll
find_poll-update_poll id f [] p k h = cc
find_poll-update_poll id f (q ∷ ps) p k h = elim (Bool-cases (eq_str q.id id)) [
  | inl same ↦ ground arith
  | inr other ↦ ground (arith, find_poll-update_poll id f ps p k)
]

merged-le : (new r : RuntimeRow) → r.captured_at ≤ (merged new (some r)).captured_at
merged-le new r = ground arith

merged-open :
    (new r : RuntimeRow) → (merged new (some r)).captured_at ≢ r.captured_at → r.finalized_at ≡ none
merged-open new r ne = ground arith

pub commit_same : {T : Type 0} (w : Wire) (t : T) → (commit w t t).1 ≡ t
commit_same answered t = refl
commit_same lost t = refl
commit_same unacknowledged t = refl

pub commit-cases :
    {T : Type 0} (w : Wire) (before after : T)
    → ((commit w before after).1 ≡ before) ⊎ ((commit w before after).1 ≡ after)
commit-cases answered before after = inr refl
commit-cases lost before after = inl refl
commit-cases unacknowledged before after = inr refl

final_time_lem :
    (o : Option RuntimeRow) (r : RuntimeRow) (f : Time)
    → o ≡ some r
    → r.finalized_at ≡ some f
    → final_time o ≡ some f
final_time_lem o r f e g = rw e g

module _ (calls : Calls) (p : Poll) (totals : Totals) (t : Tables) where
  save_known-final :
      (finalized : Bool) (f : Time) (status : Result PollStatus) (w : Wire)
      → (save_known calls finalized p totals t status (answer w (ok (some f)))).1 ≡ t
  save_known-final finalized f (err e) w = refl
  save_known-final finalized f (ok status) answered = commit_same (calls 3) t
  save_known-final finalized f (ok status) lost = refl
  save_known-final finalized f (ok status) unacknowledged = refl

  -- Once a poll's result is final, every later snapshot or close leaves all tables as they are,
  -- whatever totals it brings and however its calls end.
  pub save_snapshot-final :
      (finalized : Bool) (r : RuntimeRow) (f : Time)
      → find_runtime (uuid_of p.id) t.poll_runtime_results ≡ some r
      → r.finalized_at ≡ some f
      → (save_snapshot calls p totals finalized t).1 ≡ t
  unfolding save_snapshot
  save_snapshot-final finalized r f e g =
      rw (final_time_lem _ r f e g) (save_known-final finalized f _ (calls 2))

  finish-cases :
      (i : ℕ) (w : Result Tables)
      → ((finish calls i p.id t w).1 ≡ t) ⊎ (w ≡ ok (finish calls i p.id t w).1)
  finish-cases i (err e) = inl refl
  finish-cases i (ok after) = elim (commit-cases (calls i) t after) [
    | inl same ↦ inl same
    | inr done ↦ inr (ap ok (sym done))
  ]

  save_known-cases :
      (finalized : Bool) (status : Result PollStatus) (final : Result (Option Time))
      → let t' = (save_known calls finalized p totals t status final).1 in
        (t' ≡ t)
        ⊎ ((s : PollStatus) × (status ≡ ok s) × (written calls finalized s p totals t ≡ ok t'))
  save_known-cases finalized (err e) final = inl refl
  save_known-cases finalized (ok s) (err e) = inl refl
  save_known-cases finalized (ok s) (ok (some f)) = inl (commit_same (calls 3) t)
  save_known-cases finalized (ok s) (ok none) =
      elim (finish-cases (5 + length p.options) (written calls finalized s p totals t)) [
        | inl same ↦ inl same
        | inr done ↦ inr (s, refl, done)
      ]

  answered-ok :
      {A : Type 0} (v w : Wire) (reply : Result A) (a : A)
      → (answer v (ok tt) >> answer w reply) ≡ ok a
      → reply ≡ ok a
  answered-ok v w reply a h = ground arith

  -- A snapshot writes all that its statements make of the tables, or nothing.
  pub save_snapshot-written :
      (finalized : Bool)
      → let t' = (save_snapshot calls p totals finalized t).1 in
        (t' ≡ t)
        ⊎ ((s : PollStatus) × (select_status (uuid_of p.id) t ≡ ok s)
            × (written calls finalized s p totals t ≡ ok t'))
  unfolding save_snapshot
  save_snapshot-written finalized = elim (save_known-cases finalized _ _) [
    | inl same ↦ inl same
    | inr (s, known, done) ↦ inr (s, answered-ok (calls 0) (calls 1) _ s known, done)
  ]

  -- What the statements leave in the runtime row.
  pub written-runtime :
      (finalized : Bool) (s : PollStatus) (t' : Tables)
      → written calls finalized s p totals t ≡ ok t'
      → t'.poll_runtime_results
        ≡ upsert_runtime
            (runtime_row p totals (final_at finalized totals.as_of))
            t.poll_runtime_results
  unfolding written
  written-runtime true s t' h = ground arith
  written-runtime false s t' h = ground arith

  -- The rows of the options behind a snapshot: for each of its options a row of its count, in place of
  -- the stored row of the option, if that is no newer.
  abbrev pub stored_options : List PollOption → List OptionResultRow → List OptionResultRow
  stored_options [] rows = rows
  stored_options (o ∷ os) rows = stored_options os (
      upsert_option
        (record {
          poll_id = uuid_of p.id;
          option_id = o.id;
          vote_count = get_or totals.options o.id 0;
          captured_at = totals.as_of;
        })
        rows)

  -- All that the statements of a snapshot write, and of a close.
  abbrev upserted : Bool → Tables
  upserted finalized = record t {
    polls =
        if finalized
        then update_poll (uuid_of p.id)
            (λ q. record q {
              status = closed;
              closed_at = coalesce q.closed_at totals.as_of;
              updated_at = totals.as_of;
            })
            t.polls
        else t.polls;
    poll_runtime_results =
        upsert_runtime
          (record {
            poll_id = uuid_of p.id;
            participants_count = totals.participants;
            captured_at = totals.as_of;
            finalized_at = if finalized then some totals.as_of else none;
          })
          t.poll_runtime_results;
    poll_option_results = stored_options p.options t.poll_option_results;
  }

  pub save_options-stored :
      (i : ℕ) (os : List PollOption) (rows rows' : List OptionResultRow)
      → save_options calls i p totals os rows ≡ ok rows'
      → rows' ≡ stored_options os rows
  unfolding save_options
  save_options-stored i [] rows rows' h = sym (ok-injective h)
  save_options-stored i (o ∷ os) rows rows' h =
      let row = option_row p totals o in
      let (next, e, rest) =
        bind-ok (answer (calls i) (ok (upsert_option row rows)))
          (save_options calls (suc i) p totals os) rows' h in
      save_options-stored (suc i) os next rows' rest
      ∙ ap (stored_options os) (sym (ok-injective (answer-ok (calls i) _ next e)))

  written-upserted :
      (finalized : Bool) (s : PollStatus) (t' : Tables)
      → written calls finalized s p totals t ≡ ok t'
      → t' ≡ upserted finalized
  unfolding written
  written-upserted finalized s t' h =
      let new = runtime_row p totals (final_at finalized totals.as_of) in
      let (runtime, e, h1) =
        bind-ok (answer (calls 3) (ok (upsert_runtime new t.poll_runtime_results))) _ t' h in
      let (options, f, h2) =
        bind-ok (save_options calls 4 p totals p.options t.poll_option_results) _ t' h1 in
      by_final finalized runtime options (sym (ok-injective (answer-ok (calls 3) _ runtime e)))
        (save_options-stored 4 p.options t.poll_option_results options f) h2
    where
      by_final :
          (b : Bool) (runtime : List RuntimeRow) (options : List OptionResultRow)
          → runtime
            ≡ upsert_runtime (runtime_row p totals (final_at b totals.as_of)) t.poll_runtime_results
          → options ≡ stored_options p.options t.poll_option_results
          → close_poll calls
              (4 + length p.options)
              b
              s
              p
              totals
              (record t { poll_runtime_results = runtime; poll_option_results = options })
            ≡ ok t'
          → t' ≡ upserted b
      by_final false runtime options e f h =
          sym (ok-injective h)
          ∙ ap₂ (λ r o. record t { poll_runtime_results = r; poll_option_results = o }) e f
      by_final true runtime options e f h =
          let after : Tables = record t {
            polls = update_poll (uuid_of p.id) (close_row totals.as_of) t.polls;
            poll_runtime_results = runtime;
            poll_option_results = options;
          } in
          let (_, done) =
            (fail_if_iff (not (is_status s active) && not (is_status s closed))
                (invalid_transition "") (answer (calls (4 + length p.options)) (ok after)) t').0
              h in
          sym (ok-injective (answer-ok (calls (4 + length p.options)) (ok after) t' done))
          ∙ ap₂
              (λ r o. record t {
                polls = update_poll (uuid_of p.id) (close_row totals.as_of) t.polls;
                poll_runtime_results = r;
                poll_option_results = o;
              })
              e f

  -- The rows of the options with those of these totals: the row of an option stays if it is newer.
  abbrev counted : List PollOption → List OptionResultRow → List OptionResultRow
  counted [] rows = rows
  counted (o ∷ os) rows =
      let new : OptionResultRow = record {
        poll_id = uuid_of p.id;
        option_id = o.id;
        vote_count = get_or totals.options o.id 0;
        captured_at = totals.as_of;
      } in
      counted os (
        replaced (λ r. eq_str r.poll_id new.poll_id && eq_str r.option_id new.option_id)
          (λ r. if leb r.captured_at new.captured_at then new else r) new rows)

  -- The tables with these totals: the runtime row stays if it is newer or final, and a close closes the
  -- poll, at the time at which it was closed before, if it was.
  abbrev pub saved : Bool → Tables
  saved finalized =
      let new : RuntimeRow = record {
        poll_id = uuid_of p.id;
        participants_count = totals.participants;
        captured_at = totals.as_of;
        finalized_at = if finalized then some totals.as_of else none;
      } in
      record t {
        polls =
            if finalized
            then map
                (λ q.
                  if eq_str q.id (uuid_of p.id)
                  then record q {
                    status = closed;
                    closed_at = elim q.closed_at [
                      | none ↦ some totals.as_of
                      | some before ↦ some before
                    ];
                    updated_at = totals.as_of;
                  }
                  else q)
                t.polls
            else t.polls;
        poll_runtime_results =
            replaced (λ r. eq_str r.poll_id new.poll_id)
              (λ r. elim r.finalized_at [
                | none ↦ if leb r.captured_at new.captured_at then new else r
                | some _ ↦ r
              ])
              new t.poll_runtime_results;
        poll_option_results = counted p.options t.poll_option_results;
      }

  stored_options-counted :
      (os : List PollOption) (rows : List OptionResultRow)
      → stored_options os rows ≡ counted os rows
  stored_options-counted [] rows = refl
  stored_options-counted (o ∷ os) rows =
      stored_options-counted os _ ∙ ap (counted os) (upsert_option-replaced _ rows)

  upserted-saved : (finalized : Bool) → upserted finalized ≡ saved finalized
  upserted-saved true =
      ap₂
        (λ ps rs. record t {
          polls = ps;
          poll_runtime_results = rs;
          poll_option_results = stored_options p.options t.poll_option_results;
        })
        (update_poll-closed (uuid_of p.id) totals.as_of t.polls)
        (upsert_runtime-replaced _ t.poll_runtime_results)
      ∙ ap (λ os. record (saved true) { poll_option_results = os })
          (stored_options-counted p.options t.poll_option_results)
  upserted-saved false =
      ap₂ (λ rs os. record t { poll_runtime_results = rs; poll_option_results = os })
        (upsert_runtime-replaced _ t.poll_runtime_results)
        (stored_options-counted p.options t.poll_option_results)

  -- A snapshot or a close is all or nothing, however its calls end: the tables are as before, or they
  -- hold the poll's runtime row, a row for each of its options, and, for a close, the closed poll.
  pub save_snapshot-atomic :
      (finalized : Bool)
      → let t' = (save_snapshot calls p totals finalized t).1 in (t' ≡ t) ⊎ (t' ≡ saved finalized)
  save_snapshot-atomic finalized = elim (save_snapshot-written finalized) [
    | inl same ↦ inl same
    | inr (s, known, done) ↦ inr (written-upserted finalized s _ done ∙ upserted-saved finalized)
  ]

  -- A poll's stored capture time never goes back, whatever totals a writer brings and however its calls
  -- end; a final row stays.
  pub save_snapshot-monotone :
      (finalized : Bool) (r : RuntimeRow)
      → find_runtime (uuid_of p.id) t.poll_runtime_results ≡ some r
      → let t' = (save_snapshot calls p totals finalized t).1 in
        (r' : RuntimeRow) × (find_runtime (uuid_of p.id) t'.poll_runtime_results ≡ some r')
        × (r.captured_at ≤ r'.captured_at)
        × (r'.captured_at ≢ r.captured_at → r.finalized_at ≡ none)
  save_snapshot-monotone finalized r e = elim (save_snapshot-written finalized) [
    | inl same ↦ (
      r,
      ap (λ (x : Tables). find_runtime (uuid_of p.id) x.poll_runtime_results) same ∙ e,
      omega arith,
      λ ne. absurd (ne refl),
    )
    | inr (s, known, done) ↦
        let new = runtime_row p totals (final_at finalized totals.as_of) in
        (
          merged new (some r),
          ap (find_runtime (uuid_of p.id)) (written-runtime finalized s _ done)
              ∙ find_runtime-upsert_runtime new t.poll_runtime_results
              ∙ ap (λ o. some (merged new o)) e,
          merged-le new r,
          merged-open new r,
        )
  ]
