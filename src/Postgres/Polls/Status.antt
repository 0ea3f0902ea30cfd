-- ===== src/Postgres/Polls/Status.antt =====
-- The transitions of a poll's status in the database: what a publication and its compensation do.
use mipttest_task.Base.{
  map, subst, All, Bool, true, false, if◌then◌else◌, ◌*◌, ◌/◌, ℕ, ◌<◌, ◌≡◌, refl, sym, ap, ◌∙◌, ◌⊎◌,
  inl, inr, true, false, Option, none, some, List, [], ◌∷◌, arith, if◌then◌else◌, Str, eq_str,
  length,
}
use mipttest_task.Domain.Errors.{Result, ok, err, not_found, invalid_transition, ◌>>◌}
use mipttest_task.Domain.Poll.{Time, PollStatus, draft, active, closed}
use mipttest_task.Store.Wire.{Wire, answered, lost, unacknowledged}
use mipttest_task.Postgres.Tables.{uuid_of, PollRow, Tables, find_poll, update_poll}
use mipttest_task.Postgres.Calls.{Calls, no_faults, answer}
use mipttest_task.Postgres.Reads.{options_of, poll_of}
use mipttest_task.Postgres.Reads.Found.{AreKeyed, sorted_options, get_by_id-found}
use mipttest_task.Postgres.Results.{select_status}
use mipttest_task.Postgres.Results.Upserts.{update_poll-map}
use mipttest_task.Postgres.Results.Final.{find_poll-update_poll, commit-cases, commit_same}
use mipttest_task.Postgres.Results.Closed.{find_poll-id, select_status_lem}
use mipttest_task.Postgres.Polls.{publish, publish_from, publish_row, end_publish}

select_status-found :
    (id : Str) (t : Tables) (s : PollStatus)
    → select_status id t ≡ ok s
    → (q : PollRow) × (find_poll id t.polls ≡ some q) × (q.status ≡ s)
select_status-found id t s h = found_in (find_poll id t.polls) refl h
  where
    found_in :
        (o : Option PollRow)
        → find_poll id t.polls ≡ o
        → (elim o [ none ↦ err not_found | some p ↦ ok p.status ]) ≡ ok s
        → (q : PollRow) × (find_poll id t.polls ≡ some q) × (q.status ≡ s)
    found_in none e k = cc
    found_in (some q) e k = (q, e, cc)

-- The row of a poll that is published: active, since this microsecond, with this number of buckets.
abbrev pub as_published : ℕ → Time → PollRow → PollRow
as_published buckets now q = record q {
  status = active;
  published_at = some (now / 1000 * 1000);
  updated_at = now / 1000 * 1000;
  vote_buckets = buckets;
}

module _ (calls : Calls) (buckets : ℕ) (id : Str) (now : Time) (t : Tables) where
  abbrev pub published : Tables
  published = record t { polls = update_poll (uuid_of id) (as_published buckets now) t.polls }

  end_publish-cases :
      (w : Wire)
      → let t' = (end_publish calls id t (answer w (ok published))).1 in (t' ≡ t) ⊎ (t' ≡ published)
  end_publish-cases answered = commit-cases (calls 3) t published
  end_publish-cases lost = inl refl
  end_publish-cases unacknowledged = inl refl

  publish_from-cases :
      (s : Result PollStatus)
      → let t' = (publish_from calls buckets id now t s).1 in
        (t' ≡ t) ⊎ ((s ≡ ok draft) × (t' ≡ published))
  publish_from-cases (err e) = inl refl
  publish_from-cases (ok active) = inl (commit_same (calls 2) t)
  publish_from-cases (ok closed) = inl refl
  publish_from-cases (ok draft) = elim (end_publish-cases (calls 2)) [
    | inl same ↦ inl same
    | inr done ↦ inr (refl, done)
  ]

  -- The tables behind a publication, by the statement that it runs.
  pub publish-published_row :
      let t' = (publish calls buckets id now t).1 in
      (t' ≡ t)
      ⊎ ((q : PollRow) × (find_poll (uuid_of id) t.polls ≡ some q)
          × (q.status ≡ draft)
          × (t' ≡ published)
          × (find_poll (uuid_of id) t'.polls ≡ some (as_published buckets now q)))
  unfolding publish
  publish-published_row =
      elim (publish_from-cases
        (answer (calls 0) (ok tt) >> answer (calls 1) (select_status (uuid_of id) t))) [
          | inl same ↦ inl same
          | inr (from_draft, done) ↦
              let (q, e, s) = select_status-found (uuid_of id) t draft (status_known from_draft) in
              inr (
                q,
                e,
                s,
                done,
                ap (λ (x : Tables). find_poll (uuid_of id) x.polls) done
                    ∙ find_poll-update_poll (uuid_of id) (publish_row buckets now) t.polls q refl e,
              )
        ]
    where
      status_known :
          (answer (calls 0) (ok tt) >> answer (calls 1) (select_status (uuid_of id) t)) ≡ ok draft
          → select_status (uuid_of id) t ≡ ok draft
      status_known h = ground arith

  -- However its calls end, a publication leaves the tables as they are, or the poll was a draft and its
  -- row alone has become active, published and updated at the microsecond of the given time, with the
  -- configured number of buckets.
  pub publish-transition :
      let t' = (publish calls buckets id now t).1 in
      (t' ≡ t)
      ⊎ ((q : PollRow) × (find_poll (uuid_of id) t.polls ≡ some q)
          × (q.status ≡ draft)
          × (t' ≡ record t {
            polls =
                map
                  (λ p. if eq_str p.id (uuid_of id) then as_published buckets now p else p)
                  t.polls;
          })
          × (find_poll (uuid_of id) t'.polls ≡ some (as_published buckets now q)))
  publish-transition = elim publish-published_row [
    | inl same ↦ inl same
    | inr (q, e, s, done, row) ↦ inr (
      q,
      e,
      s,
      done
          ∙ ap (λ ps. record t { polls = ps })
              (update_poll-map (uuid_of id) (as_published buckets now) t.polls),
      row,
    )
  ]

update_poll-All :
    (i id : Str) (f : PollRow → PollRow) (ps : List PollRow)
    → ((p : PollRow) → (f p).id ≡ p.id)
    → All (λ q. eq_str q.id i ≡ false) ps
    → All (λ q. eq_str q.id i ≡ false) (update_poll id f ps)
unfolding update_poll
update_poll-All i id f [] keeps h = tt
update_poll-All i id f (p ∷ ps) keeps (h, g) =
    (own (eq_str p.id id), update_poll-All i id f ps keeps g)
  where
    own : (b : Bool) → eq_str (if b then f p else p).id i ≡ false
    own true = ap (λ j. eq_str j i) (keeps p) ∙ h
    own false = h

-- An update that keeps the identifiers keeps them distinct.
update_poll-AreKeyed :
    (id : Str) (f : PollRow → PollRow) (ps : List PollRow)
    → ((p : PollRow) → (f p).id ≡ p.id)
    → AreKeyed ps
    → AreKeyed (update_poll id f ps)
unfolding update_poll
update_poll-AreKeyed id f [] keeps h = tt
update_poll-AreKeyed id f (p ∷ ps) keeps (h, g) =
    (first (eq_str p.id id), update_poll-AreKeyed id f ps keeps g)
  where
    others : All (λ q. eq_str q.id p.id ≡ false) (update_poll id f ps)
    others = update_poll-All p.id id f ps keeps h

    first :
        (b : Bool) → All (λ q. eq_str q.id (if b then f p else p).id ≡ false) (update_poll id f ps)
    first true =
        subst (λ j. All (λ q. eq_str q.id j ≡ false) (update_poll id f ps)) (sym (keeps p)) others
    first false = others

module _ (buckets : ℕ) (id : Str) (now : Time) (t : Tables) (q : PollRow) where
  -- A publication whose calls are all answered, of a poll with options in a table of distinct
  -- identifiers, by its status: a draft becomes active and is returned as published in this
  -- microsecond; an active poll is returned as it is and nothing changes, so that a publication can be
  -- repeated; a closed one is refused and stays.
  pub publish-by_status :
      AreKeyed t.polls
      → find_poll (uuid_of id) t.polls ≡ some q
      → 0 < length (options_of (uuid_of id) t.poll_options)
      → ((q.status ≡ draft)
          → publish no_faults buckets id now t ≡ (
            ok (poll_of (as_published buckets now q) (sorted_options q.id t.poll_options)),
            published no_faults buckets id now t,
          ))
        × ((q.status ≡ active)
            → publish no_faults buckets id now t
              ≡ (ok (poll_of q (sorted_options q.id t.poll_options)), t))
        × ((q.status ≡ closed)
            → publish no_faults buckets id now t ≡ (err (invalid_transition ""), t))
  unfolding publish
  publish-by_status k e n =
      let k' = update_poll-AreKeyed (uuid_of id) (publish_row buckets now) t.polls (λ p. refl) k in
      let own : q.id ≡ uuid_of id = find_poll-id (uuid_of id) t.polls q e in
      let n' : 0 < length (options_of q.id t.poll_options) = rw own n in
      let run = λ (s : PollStatus) (h : q.status ≡ s).
        ap (publish_from no_faults buckets id now t)
          (select_status_lem (uuid_of id) t q e ∙ ap ok h) in
      (
        λ s.
            run draft s
            ∙ ap (λ r. (r, published no_faults buckets id now t))
                (get_by_id-found 4 id (published no_faults buckets id now t)
                  (publish_row buckets now q) k'
                  (find_poll-update_poll (uuid_of id) (publish_row buckets now) t.polls q refl e)
                  n'),
        λ s. run active s ∙ ap (λ r. (r, t)) (get_by_id-found 3 id t q k e n'),
        λ s. run closed s,
      )

select_status-missing :
    (id : Str) (t : Tables) → find_poll id t.polls ≡ none → select_status id t ≡ err not_found
select_status-missing id t e = ground arith

-- A poll that is not there is not found, and nothing changes.
pub publish-missing :
    (buckets : ℕ) (id : Str) (now : Time) (t : Tables)
    → find_poll (uuid_of id) t.polls ≡ none
    → publish no_faults buckets id now t ≡ (err not_found, t)
unfolding publish
publish-missing buckets id now t e =
    ap (publish_from no_faults buckets id now t) (select_status-missing (uuid_of id) t e)
