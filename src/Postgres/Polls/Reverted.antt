-- ===== src/Postgres/Polls/Reverted.antt =====
-- What the compensation of a publication does, in the database.
use mipttest_task.Base.{
  some-injective, ==_iff, Bool, Option, All, ◌*◌, ◌/◌, eq_str_iff, true, false, if◌then◌else◌, ℕ,
  ◌<◌, ◌≡◌, ◌≢◌, refl, sym, ap, ap₂, ◌∙◌, inl, inr, true, false, ◌&&◌, none, some, List, [], ◌∷◌,
  arith, ◌==◌, if◌then◌else◌, Str, eq_str, Bool-cases, count_p,
}
use mipttest_task.Domain.Errors.{ok, err, Error, invalid_transition, fail_if}
use mipttest_task.Domain.Poll.{Time, PollStatus, active, draft, closed, is_status}
use mipttest_task.Store.Wire.{Wire, answered, lost, unacknowledged}
use mipttest_task.Postgres.Tables.{uuid_of, to_micro, PollRow, Tables, find_poll, update_poll}
use mipttest_task.Postgres.Calls.{no_faults}
use mipttest_task.Postgres.Results.Final.{find_poll-update_poll}
use mipttest_task.Postgres.Results.Closed.{select_status_lem}
use mipttest_task.Postgres.Polls.{
  publish, publish_from, publish_row, revert_publish, revert_row, is_published_at, matched,
}
use mipttest_task.Postgres.Polls.Status.{published}

pub revert_row-other :
    (at now : Time) (p : PollRow) → is_published_at at p ≡ false → revert_row at now p ≡ p
revert_row-other at now p h =
    ap (λ b. if b then record p { status = draft; published_at = none; updated_at = now } else p) h

revert_row-own :
    (at now : Time) (p : PollRow)
    → is_published_at at p ≡ true
    → revert_row at now p ≡ record p { status = draft; published_at = none; updated_at = now }
revert_row-own at now p h =
    ap (λ b. if b then record p { status = draft; published_at = none; updated_at = now } else p) h

update_poll-unchanged :
    (id : Str) (at now : Time) (ps : List PollRow)
    → count_p (λ p. eq_str p.id id && is_published_at at p) ps ≡ 0
    → update_poll id (revert_row at now) ps ≡ ps
unfolding update_poll
update_poll-unchanged id at now [] h = refl
update_poll-unchanged id at now (p ∷ ps) h =
    let rest = update_poll-unchanged id at now ps in
    let keep = revert_row-other at now p in
    elim (Bool-cases (eq_str p.id id)) [
      | inl same ↦ elim (Bool-cases (is_published_at at p)) [
        | inl own ↦ absurd (ground (arith, h, same, own))
        | inr not_own ↦
            rw same (ap₂ (λ a b. a ∷ b) (keep not_own) (rest (ground (arith, h, same, not_own))))
      ]
      | inr other ↦ rw other (ap (λ b. p ∷ b) (rest (ground (arith, h, other))))
    ]

none_matched : (k : ℕ) (e : Error) → k ≡ 0 → fail_if (k == 0) e ≡ err e
none_matched k e h = rw h refl

some_matched : (k : ℕ) (e : Error) → 0 < k → fail_if (k == 0) e ≡ ok tt
some_matched k e h = ground arith

count_p-found :
    (id : Str) (at : Time) (ps : List PollRow) (q : PollRow)
    → find_poll id ps ≡ some q
    → is_published_at at q ≡ true
    → 0 < count_p (λ p. eq_str p.id id && is_published_at at p) ps
unfolding find_poll
count_p-found id at [] q e h = cc
count_p-found id at (p ∷ ps) q e h =
    let rest = count_p-found id at ps q in
    elim (Bool-cases (eq_str p.id id)) [
      | inl same ↦
          let own : p ≡ q =
            some-injective (ap (λ b. if b then some p else find_poll id ps) (sym same) ∙ e) in
          rw (same, own, h) (omega arith)
      | inr other ↦ rw other (rest (ground (arith, e, other)) h)
    ]

published_lem :
    (s : PollStatus) (o : Option Time) (at : Time)
    → (is_status s active && elim o [ none ↦ false | some u ↦ u == to_micro at ]) ≡ true
    → (s ≡ active) × (o ≡ some (at / 1000 * 1000))
published_lem active (some u) at h = (refl, ap some ((==_iff u (to_micro at)).0 h))
published_lem active none at h = cc
published_lem draft o at h = cc
published_lem closed o at h = cc

both_true : (a b : Bool) → (a && b) ≡ true → (a ≡ true) × (b ≡ true)
both_true true true h = (refl, refl)
both_true true false h = cc
both_true false b h = cc

none-matched :
    (id : Str) (at : Time) (ps : List PollRow)
    → All (λ p. p.id ≡ id → p.status ≡ active → p.published_at ≢ some (at / 1000 * 1000)) ps
    → count_p (λ p. eq_str p.id id && is_published_at at p) ps ≡ 0
none-matched id at [] h = refl
none-matched id at (p ∷ ps) (h, g) = elim (Bool-cases (eq_str p.id id && is_published_at at p)) [
  | inl own ↦
      let (same, at_it) = both_true _ _ own in
      let (is_active, published_then) = published_lem p.status p.published_at at at_it in
      absurd (h ((eq_str_iff p.id id).0 same) is_active published_then)
  | inr other ↦ rw other (none-matched id at ps g)
]

-- A compensation touches no poll but one that is active and was published at the very time it names:
-- where there is none, the answer is an invalid transition and the tables stay, however the call ends.
pub revert_publish-other :
    (w : Wire) (id : Str) (at now : Time) (t : Tables)
    → All
        (λ p. p.id ≡ uuid_of id → p.status ≡ active → p.published_at ≢ some (at / 1000 * 1000))
        t.polls
    → ((revert_publish w id at now t).1 ≡ t)
      × ((revert_publish w id at now t).0 ≢ ok tt)
      × (w ≡ answered
          → (revert_publish w id at now t).0 ≡ err (invalid_transition "publish compensation"))
unfolding revert_publish
revert_publish-other w id at now t others =
    let h : matched id at t ≡ 0 = none-matched (uuid_of id) at t.polls others in
    let same =
      ap (λ ps. record t { polls = ps }) (update_poll-unchanged (uuid_of id) at now t.polls h) in
    revert_none h w same
  where
    revert_none :
        matched id at t ≡ 0
        → (v : Wire) → record t { polls = update_poll (uuid_of id) (revert_row at now) t.polls } ≡ t
        → ((revert_publish v id at now t).1 ≡ t)
          × ((revert_publish v id at now t).0 ≢ ok tt)
          × (v ≡ answered
              → (revert_publish v id at now t).0 ≡ err (invalid_transition "publish compensation"))
    revert_none h answered same = (
      same,
      λ done. cc (none_matched (matched id at t) (invalid_transition "publish compensation") h),
      λ _. none_matched (matched id at t) _ h,
    )
    revert_none h lost same = (refl, λ done. cc, λ a. cc)
    revert_none h unacknowledged same = (same, λ done. cc, λ a. cc)

publish-published :
    (buckets : ℕ) (id : Str) (now : Time) (t : Tables) (q : PollRow)
    → find_poll (uuid_of id) t.polls ≡ some q
    → q.status ≡ draft
    → (publish no_faults buckets id now t).1 ≡ published no_faults buckets id now t
unfolding publish
publish-published buckets id now t q e s =
    ap (λ r. (publish_from no_faults buckets id now t r).1)
      (select_status_lem (uuid_of id) t q e ∙ ap ok s)

-- The compensation of the publication of a draft, behind it and at its time, with all calls answered: it
-- succeeds, and the poll is a draft again, with no time of publication and the number of buckets that the
-- publication set.
pub publish-revert_publish :
    (buckets : ℕ) (id : Str) (now later : Time) (t : Tables) (q : PollRow)
    → find_poll (uuid_of id) t.polls ≡ some q
    → q.status ≡ draft
    → let t1 = (publish no_faults buckets id now t).1 in
      let (reply, t2) = revert_publish answered id now later t1 in
      (reply ≡ ok tt)
      × (find_poll (uuid_of id) t2.polls
          ≡ some (record q {
            vote_buckets = buckets;
            status = draft;
            published_at = none;
            updated_at = later;
          }))
unfolding revert_publish
publish-revert_publish buckets id now later t q e s =
    let row = find_poll-update_poll (uuid_of id) (publish_row buckets now) t.polls q refl e in
    let own : is_published_at now (publish_row buckets now q) ≡ true = ground arith in
    let some_row =
      count_p-found (uuid_of id) now (published no_faults buckets id now t).polls
        (publish_row buckets now q) row own in
    let run = publish-published buckets id now t q e s in
    (
      ap
            (λ (x : Tables).
              fail_if (matched id now x == 0) (invalid_transition "publish compensation"))
            run
          ∙ some_matched (matched id now (published no_faults buckets id now t)) _ some_row,
      ap
            (λ (x : Tables).
              find_poll (uuid_of id) (update_poll (uuid_of id) (revert_row now later) x.polls))
            run
          ∙ find_poll-update_poll (uuid_of id) (revert_row now later)
              (published no_faults buckets id now t).polls (publish_row buckets now q)
              (ap (λ (x : PollRow). x.id)
                (revert_row-own now later (publish_row buckets now q) own))
              row
          ∙ ap some (revert_row-own now later (publish_row buckets now q) own),
    )
