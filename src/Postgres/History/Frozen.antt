-- ===== src/Postgres/History/Frozen.antt =====
-- A closed poll with a final result is frozen: no history of writes changes what is read of it.
use mipttest_task.Base.{
  ℕ, ◌+◌, ◌≡◌, refl, sym, ap, subst, ◌∙◌, ◌⊎◌, inl, inr, Bool, true, false, Option, some, List, [],
  ◌∷◌, arith, Str, eq_str, eq_str_iff, eq_str-false_iff, Bool-cases, length,
}
use mipttest_task.Base.Dict.{Dict}
use mipttest_task.Domain.Errors.{
  Result, ok, err, invalid_transition, fail_if_iff, bind-ok, ok-injective,
}
use mipttest_task.Domain.Poll.{Time, Poll, PollStatus, closed, CreatePoll, Totals}
use mipttest_task.Store.Wire.{Wire, answered, lost, unacknowledged}
use mipttest_task.Postgres.Tables.{
  uuid_of, PollRow, RuntimeRow, Tables, find_poll, find_runtime, update_poll,
}
use mipttest_task.Postgres.Calls.{Calls, no_faults, answer, answer-ok}
use mipttest_task.Postgres.Polls.{
  create, created, committed, new_row, stored_row, publish, publish_row, revert_publish, revert_row,
}
use mipttest_task.Postgres.Polls.Created.{insert_poll-ok, fresh-all, created-ok}
use mipttest_task.Postgres.Polls.Status.{publish-published_row}
use mipttest_task.Postgres.Polls.Reverted.{revert_row-other}
use mipttest_task.Postgres.Results.{
  option_counts, save_options, runtime_row, close_row, final_at, written, close_poll, save_snapshot,
  load_result, result_of,
}
use mipttest_task.Postgres.Results.Final.{
  save_snapshot-final, save_snapshot-written, written-runtime,
}
use mipttest_task.Postgres.Results.Closed.{find_poll-id, load_result-found}
use mipttest_task.Postgres.History.{
  Write, creates, publishes, reverts, saves, History, start, write,
}
use mipttest_task.Postgres.History.Kept.{
  find_poll-kept, find_poll-skip, revert_row-id, find_poll-fresh, find_runtime-other,
  option_counts-save_options, insert_options-keeps,
}

-- What is read of the poll: its row, its runtime row and the counts of its options.
pub record IsFrozen (id : Str) (q : PollRow) (r : RuntimeRow) (counts : Dict ℕ) (t : Tables)
    : Type 0 where
  pub poll : find_poll id t.polls ≡ some q
  pub runtime : find_runtime id t.poll_runtime_results ≡ some r
  pub options : option_counts id t.poll_option_results [] ≡ counts

committed-cases :
    (w : Wire) (t : Tables) (r : Result (Poll × Tables))
    → ((committed w t r).1 ≡ t) ⊎ ((p : Poll) × (r ≡ ok (p, (committed w t r).1)))
committed-cases w t (err e) = inl refl
committed-cases answered t (ok (p, after)) = inr (p, refl)
committed-cases lost t (ok (p, after)) = inl refl
committed-cases unacknowledged t (ok (p, after)) = inr (p, refl)

module _ (calls : Calls) (finalized : Bool) (s : PollStatus) (p : Poll) (totals : Totals)
    (t : Tables) where
  -- What a snapshot or a close writes besides the runtime row.
  written-parts :
      (t' : Tables)
      → written calls finalized s p totals t ≡ ok t'
      → (save_options calls 4 p totals p.options t.poll_option_results ≡ ok t'.poll_option_results)
        × ((t'.polls ≡ t.polls)
            ⊎ (t'.polls ≡ update_poll (uuid_of p.id) (close_row totals.as_of) t.polls))
  unfolding written
  written-parts t' h =
      let (runtime, _, h1) = bind-ok (answer (calls 3) (ok _)) _ t' h in
      let (rows, saved, h2) =
        bind-ok (save_options calls 4 p totals p.options t.poll_option_results) _ t' h1 in
      let (results, polls) =
        closed-parts (calls (4 + length p.options)) finalized s
          (record t { poll_runtime_results = runtime; poll_option_results = rows }) t' h2 in
      (saved ∙ ap ok (sym results), polls)
    where
      closed-parts :
          (w : Wire) (b : Bool) (st : PollStatus) (t1 t2 : Tables)
          → close_poll calls (4 + length p.options) b st p totals t1 ≡ ok t2
          → (t2.poll_option_results ≡ t1.poll_option_results)
            × ((t2.polls ≡ t1.polls)
                ⊎ (t2.polls ≡ update_poll (uuid_of p.id) (close_row totals.as_of) t1.polls))
      closed-parts w false st t1 t2 k =
          let same : t2 ≡ t1 = sym (ok-injective k) in
          (ap (λ (x : Tables). x.poll_option_results) same, inl (ap (λ (x : Tables). x.polls) same))
      closed-parts w true st t1 t2 k =
          let k1 = ((fail_if_iff _ (invalid_transition "") _ t2).0 k).1 in
          let same : t2
              ≡ record t1 { polls = update_poll (uuid_of p.id) (close_row totals.as_of) t1.polls } =
            sym (ok-injective (answer-ok (calls (4 + length p.options)) _ t2 k1)) in
          (ap (λ (x : Tables). x.poll_option_results) same, inr (ap (λ (x : Tables). x.polls) same))

IsFrozen-by :
    (id : Str) (q : PollRow) (r : RuntimeRow) (counts : Dict ℕ) (t t' : Tables)
    → find_poll id t'.polls ≡ some q
    → find_runtime id t'.poll_runtime_results ≡ find_runtime id t.poll_runtime_results
    → option_counts id t'.poll_option_results [] ≡ option_counts id t.poll_option_results []
    → IsFrozen id q r counts t
    → IsFrozen id q r counts t'
IsFrozen-by id q r counts t t' a b c frozen = record {
  poll = a;
  runtime = b ∙ frozen.runtime;
  options = c ∙ frozen.options;
}

module _ (id : Str) (q : PollRow) (r : RuntimeRow) (counts : Dict ℕ) (t : Tables)
    (frozen : IsFrozen id q r counts t) where
  IsFrozen-same : (t' : Tables) → t' ≡ t → IsFrozen id q r counts t'
  IsFrozen-same t' same = subst (IsFrozen id q r counts) (sym same) frozen

  create-IsFrozen :
      (random : ℕ → Option (List ℕ)) (calls : Calls) (buckets : ℕ) (c : CreatePoll) (now : Time)
      → IsFrozen id q r counts (create random calls buckets c now t).1
  unfolding create
  create-IsFrozen random calls buckets c now =
      elim (committed-cases (calls (2 + length c.options)) t
        (created random calls buckets c now t)) [
          | inl same ↦ IsFrozen-same _ same
          | inr (p, done) ↦ behind p _ done
        ]
    where
      behind :
          (p : Poll) (t3 : Tables)
          → created random calls buckets c now t ≡ ok (p, t3)
          → IsFrozen id q r counts t3
      behind p t3 done =
          let (_, (new, t1, os, inserted, rest, _, _)) =
            created-ok random calls buckets c now t p t3 done in
          let row = stored_row (new_row buckets c now new) in
          let (t1_is, fresh) = insert_poll-ok row t t1 inserted in
          let kept = insert_options-keeps random calls new 0 c.options t1 os t3 rest in
          let t3_is : t3 ≡ record t { polls = row ∷ t.polls; poll_options = t3.poll_options } =
            kept ∙ ap (λ (x : Tables). record x { poll_options = t3.poll_options }) t1_is in
          let not_new : eq_str q.id new ≡ false =
            find_poll-fresh id new t.polls q (fresh-all row t.polls fresh) frozen.poll in
          let not_own : eq_str new id ≡ false = (eq_str-false_iff new id).1 (λ k.
            cc
              (not_new, (eq_str_iff q.id new).1 (find_poll-id id t.polls q frozen.poll ∙ sym k))) in
          IsFrozen-by id q r counts t t3
            (ap (λ (x : Tables). find_poll id x.polls) t3_is
              ∙ find_poll-skip id row t.polls not_own
              ∙ frozen.poll)
            (ap (λ (x : Tables). find_runtime id x.poll_runtime_results) t3_is)
            (ap (λ (x : Tables). option_counts id x.poll_option_results []) t3_is) frozen

  publish-IsFrozen :
      (calls : Calls) (buckets : ℕ) (i : Str) (now : Time)
      → q.status ≡ closed
      → IsFrozen id q r counts (publish calls buckets i now t).1
  publish-IsFrozen calls buckets i now s = elim (publish-published_row calls buckets i now t) [
    | inl same ↦ IsFrozen-same _ same
    | inr (a, e, st, done, _) ↦
        IsFrozen-by id q r counts t _
          (ap (λ (x : Tables). find_poll id x.polls) done
            ∙ find_poll-kept id (uuid_of i) (publish_row buckets now) t.polls q (λ p. refl)
                (λ own. absurd (cc (ap (λ j. find_poll j t.polls) own, e, st, s, frozen.poll)))
                frozen.poll)
          (ap (λ (x : Tables). find_runtime id x.poll_runtime_results) done)
          (ap (λ (x : Tables). option_counts id x.poll_option_results []) done) frozen
  ]

  revert_publish-IsFrozen :
      (w : Wire) (i : Str) (at now : Time)
      → q.status ≡ closed
      → IsFrozen id q r counts (revert_publish w i at now t).1
  unfolding revert_publish
  revert_publish-IsFrozen w i at now s = by_wire w
    where
      reverted :
          IsFrozen id q r counts
            (record t { polls = update_poll (uuid_of i) (revert_row at now) t.polls })
      reverted =
          IsFrozen-by id q r counts t _
            (find_poll-kept id (uuid_of i) (revert_row at now) t.polls q (revert_row-id at now)
              (λ own. revert_row-other at now q (ground arith)) frozen.poll)
            refl refl frozen

      by_wire : (v : Wire) → IsFrozen id q r counts (revert_publish v i at now t).1
      by_wire answered = reverted
      by_wire lost = frozen
      by_wire unacknowledged = reverted

  save_snapshot-IsFrozen :
      (calls : Calls) (p : Poll) (totals : Totals) (finalized : Bool) (f : Time)
      → r.finalized_at ≡ some f
      → IsFrozen id q r counts (save_snapshot calls p totals finalized t).1
  save_snapshot-IsFrozen calls p totals finalized f e =
      elim (Bool-cases (eq_str (uuid_of p.id) id)) [
        | inl same ↦ IsFrozen-same _ (
            save_snapshot-final calls p totals t finalized r f
              (ap (λ j. find_runtime j t.poll_runtime_results)
                  ((eq_str_iff (uuid_of p.id) id).0 same)
                ∙ frozen.runtime)
              e)
        | inr other ↦ elim (save_snapshot-written calls p totals t finalized) [
          | inl same ↦ IsFrozen-same _ same
          | inr (s, _, done) ↦
              let t' = (save_snapshot calls p totals finalized t).1 in
              let (rows, polls) = written-parts calls finalized s p totals t t' done in
              IsFrozen-by id q r counts t t'
                (elim polls [
                  | inl same ↦ ap (find_poll id) same ∙ frozen.poll
                  | inr upd ↦
                      ap (find_poll id) upd
                      ∙ find_poll-kept id (uuid_of p.id) (close_row totals.as_of) t.polls q
                          (λ p. refl)
                          (λ own. absurd (cc (other, (eq_str_iff (uuid_of p.id) id).1 own)))
                          frozen.poll
                ])
                (ap (find_runtime id) (written-runtime calls p totals t finalized s t' done)
                  ∙ find_runtime-other id (runtime_row p totals (final_at finalized totals.as_of)) _
                      other)
                (option_counts-save_options id calls 4 p totals p.options _ _ other rows) frozen
        ]
      ]

module _ (id : Str) (q : PollRow) (r : RuntimeRow) (counts : Dict ℕ) (f : Time)
    (s : q.status ≡ closed) (e : r.finalized_at ≡ some f) where
  Write-IsFrozen :
      (t t' : Tables) → Write t t' → IsFrozen id q r counts t → IsFrozen id q r counts t'
  Write-IsFrozen t _ (creates random calls buckets c now) frozen =
      create-IsFrozen id q r counts t frozen random calls buckets c now
  Write-IsFrozen t _ (publishes calls buckets i now) frozen =
      publish-IsFrozen id q r counts t frozen calls buckets i now s
  Write-IsFrozen t _ (reverts w i at now) frozen =
      revert_publish-IsFrozen id q r counts t frozen w i at now s
  Write-IsFrozen t _ (saves calls p totals finalized) frozen =
      save_snapshot-IsFrozen id q r counts t frozen calls p totals finalized f e

  -- Once a poll is closed and its result is final, no sequence of creations, publications,
  -- compensations, snapshots and closes of any polls, however their calls end, changes its row, its
  -- runtime row or the counts of its options.
  pub history-IsFrozen :
      (t t' : Tables) → History t t' → IsFrozen id q r counts t → IsFrozen id q r counts t'
  history-IsFrozen t _ start frozen = frozen
  history-IsFrozen t t' (write {t1 = t1} w rest) frozen =
      history-IsFrozen t1 t' rest (Write-IsFrozen t t1 w frozen)

module _ (id : Str) (q : PollRow) (r : RuntimeRow) (counts : Dict ℕ) (f : Time)
    (s : q.status ≡ closed) (e : r.finalized_at ≡ some f) where
  -- Once a poll is closed and its result is final, the result that is read of it is the same after any
  -- sequence of creations, publications, compensations, snapshots and closes of any polls, however their
  -- calls end.
  pub history-load_result :
      (t t' : Tables) (i j : ℕ)
      → find_poll (uuid_of id) t.polls ≡ some q
      → find_runtime (uuid_of id) t.poll_runtime_results ≡ some r
      → option_counts (uuid_of id) t.poll_option_results [] ≡ counts
      → History t t'
      → (load_result no_faults j id t' ≡ ok (result_of q r counts))
        × (load_result no_faults i id t ≡ load_result no_faults j id t')
  history-load_result t t' i j a b c run =
      let before : IsFrozen (uuid_of id) q r counts t = record {
        poll = a;
        runtime = b;
        options = c;
      } in
      let after = history-IsFrozen (uuid_of id) q r counts f s e t t' run before in
      let later =
        load_result-found j id t' q r after.poll after.runtime
        ∙ ap (λ m. ok (result_of q r m)) after.options in
      (later, load_result-found i id t q r a b ∙ ap (λ m. ok (result_of q r m)) c ∙ sym later)
