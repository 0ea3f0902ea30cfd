-- ===== src/Postgres/History/Kept.antt =====
-- Rows of one poll that writes for other polls keep.
use mipttest_task.Base.{
  some-injective, ℕ, suc, ◌+◌, ◌≡◌, refl, sym, ap, subst, ◌∙◌, trim_space, inl, inr, Bool, true,
  false, ◌&&◌, Option, some, List, [], ◌∷◌, arith, leb, if◌then◌else◌, Str, eq_str, eq_str_iff,
  Bool-cases, All,
}
use mipttest_task.Base.Dict.{Dict, insert}
use mipttest_task.Domain.Errors.{ok, bind-ok, ok-injective}
use mipttest_task.Domain.Poll.{Time, Poll, PollOption, Totals}
use mipttest_task.Domain.Uuid.{new_uuid}
use mipttest_task.Postgres.Tables.{
  uuid_of, PollRow, OptionRow, RuntimeRow, OptionResultRow, Tables, find_poll, find_runtime,
  update_poll,
}
use mipttest_task.Postgres.Calls.{Calls, answer, answer-ok}
use mipttest_task.Postgres.Polls.{insert_options, insert_option, revert_row}
use mipttest_task.Postgres.Polls.Created.{insert_option-ok}
use mipttest_task.Postgres.Polls.Reverted.{}
use mipttest_task.Postgres.Results.{
  option_counts, upsert_runtime, upsert_option, save_options, option_row,
}

-- An update that leaves the poll's own row as it is leaves the poll.
pub find_poll-kept :
    (id i : Str) (f : PollRow → PollRow) (ps : List PollRow) (q : PollRow)
    → ((p : PollRow) → (f p).id ≡ p.id)
    → (i ≡ id → f q ≡ q)
    → find_poll id ps ≡ some q
    → find_poll id (update_poll i f ps) ≡ some q
unfolding find_poll update_poll
find_poll-kept id i f [] q keeps own e = cc
find_poll-kept id i f (p ∷ ps) q keeps own e = elim (Bool-cases (eq_str p.id id)) [
  | inl same ↦
      let p_is : p ≡ q =
        some-injective (ap (λ b. if b then some p else find_poll id ps) (sym same) ∙ e) in
      let p_id : p.id ≡ id = (eq_str_iff p.id id).0 same in
      ap (λ (x : PollRow). if eq_str x.id id then some x else find_poll id (update_poll i f ps))
        (head (λ k. subst (λ x. f x ≡ x) (sym p_is) (own (sym k ∙ p_id))))
      ∙ ap (λ b. if b then some p else find_poll id (update_poll i f ps)) same
      ∙ ap some p_is
  | inr other ↦
      ap
        (λ j.
          if eq_str j id
          then some (if eq_str p.id i then f p else p)
          else find_poll id (update_poll i f ps))
        (head_id (eq_str p.id i))
      ∙ ap
          (λ b.
            if b
            then some (if eq_str p.id i then f p else p)
            else find_poll id (update_poll i f ps))
          other
      ∙ find_poll-kept id i f ps q keeps own
          (ap (λ b. if b then some p else find_poll id ps) (sym other) ∙ e)
]
  where
    head_id : (b : Bool) → (if b then f p else p).id ≡ p.id
    head_id true = keeps p
    head_id false = refl

    head : (p.id ≡ i → f p ≡ p) → (if eq_str p.id i then f p else p) ≡ p
    head k = elim (Bool-cases (eq_str p.id i)) [
      | inl same ↦ ap (λ b. if b then f p else p) same ∙ k ((eq_str_iff p.id i).0 same)
      | inr other ↦ ap (λ b. if b then f p else p) other
    ]

pub find_poll-skip :
    (id : Str) (p : PollRow) (ps : List PollRow)
    → eq_str p.id id ≡ false
    → find_poll id (p ∷ ps) ≡ find_poll id ps
unfolding find_poll
find_poll-skip id p ps ne = ap (λ b. if b then some p else find_poll id ps) ne

pub revert_row-id : (at now : Time) (p : PollRow) → (revert_row at now p).id ≡ p.id
revert_row-id at now p = ground arith

pub find_poll-fresh :
    (id i : Str) (ps : List PollRow) (q : PollRow)
    → All (λ p. eq_str p.id i ≡ false) ps
    → find_poll id ps ≡ some q
    → eq_str q.id i ≡ false
unfolding find_poll
find_poll-fresh id i [] q h e = cc
find_poll-fresh id i (p ∷ ps) q (h, g) e = elim (Bool-cases (eq_str p.id id)) [
  | inl same ↦
      let p_is : p ≡ q =
        some-injective (ap (λ b. if b then some p else find_poll id ps) (sym same) ∙ e) in
      subst (λ x. eq_str x.id i ≡ false) p_is h
  | inr other ↦
      find_poll-fresh id i ps q g (ap (λ b. if b then some p else find_poll id ps) (sym other) ∙ e)
]

pub find_runtime-other :
    (id : Str) (new : RuntimeRow) (rs : List RuntimeRow)
    → eq_str new.poll_id id ≡ false
    → find_runtime id (upsert_runtime new rs) ≡ find_runtime id rs
unfolding find_runtime upsert_runtime
find_runtime-other id new [] ne = rw ne
find_runtime-other id new (r ∷ rs) ne = elim (Bool-cases (eq_str r.poll_id new.poll_id)) [
  | inl same ↦
      let e : r.poll_id ≡ new.poll_id = (eq_str_iff r.poll_id new.poll_id).0 same in
      let ne' : eq_str r.poll_id id ≡ false = ap (λ j. eq_str j id) e ∙ ne in ground arith
  | inr other ↦ ground (arith, find_runtime-other id new rs ne)
]

pub option_counts-skip :
    (id : Str) (x : OptionResultRow) (rs : List OptionResultRow) (m : Dict ℕ)
    → eq_str x.poll_id id ≡ false
    → option_counts id (x ∷ rs) m ≡ option_counts id rs m
unfolding option_counts
option_counts-skip id x rs m ne =
    ap (λ b. option_counts id rs (if b then insert x.option_id x.vote_count m else m)) ne

pub option_counts-behind :
    (id : Str) (x : OptionResultRow) (rs qs : List OptionResultRow) (m : Dict ℕ)
    → ((n : Dict ℕ) → option_counts id rs n ≡ option_counts id qs n)
    → option_counts id (x ∷ rs) m ≡ option_counts id (x ∷ qs) m
unfolding option_counts
option_counts-behind id x rs qs m same = same _

pub option_counts-other :
    (id : Str) (new : OptionResultRow) (rs : List OptionResultRow) (m : Dict ℕ)
    → eq_str new.poll_id id ≡ false
    → option_counts id (upsert_option new rs) m ≡ option_counts id rs m
unfolding upsert_option
option_counts-other id new [] m ne = option_counts-skip id new [] m ne
option_counts-other id new (r ∷ rs) m ne =
    elim (Bool-cases (eq_str r.poll_id new.poll_id && eq_str r.option_id new.option_id)) [
      | inl same ↦
          let e : r.poll_id ≡ new.poll_id = (eq_str_iff r.poll_id new.poll_id).0 (ground arith) in
          let ne' : eq_str r.poll_id id ≡ false = ap (λ j. eq_str j id) e ∙ ne in
          ap
            (λ b.
              option_counts id
                (if b
                  then (if leb r.captured_at new.captured_at then new else r) ∷ rs
                  else r ∷ upsert_option new rs)
                m)
            same
          ∙ merged_skip (leb r.captured_at new.captured_at) ne'
          ∙ sym (option_counts-skip id r rs m ne')
      | inr other ↦
          ap
            (λ b.
              option_counts id
                (if b
                  then (if leb r.captured_at new.captured_at then new else r) ∷ rs
                  else r ∷ upsert_option new rs)
                m)
            other
          ∙ option_counts-behind id r _ rs m (λ n. option_counts-other id new rs n ne)
    ]
  where
    merged_skip :
        (b : Bool)
        → eq_str r.poll_id id ≡ false
        → option_counts id ((if b then new else r) ∷ rs) m ≡ option_counts id rs m
    merged_skip true h = option_counts-skip id new rs m ne
    merged_skip false h = option_counts-skip id r rs m h

pub option_counts-save_options :
    (id : Str) (calls : Calls) (i : ℕ) (p : Poll) (totals : Totals) (os : List PollOption)
    (rows rows' : List OptionResultRow)
    → eq_str (uuid_of p.id) id ≡ false
    → save_options calls i p totals os rows ≡ ok rows'
    → option_counts id rows' [] ≡ option_counts id rows []
unfolding save_options
option_counts-save_options id calls i p totals [] rows rows' ne h =
    ap (λ r. option_counts id r []) (sym (ok-injective h))
option_counts-save_options id calls i p totals (o ∷ os) rows rows' ne h =
    let (rows1, saved, rest) =
      bind-ok (answer (calls i) (ok (upsert_option (option_row p totals o) rows))) _ rows' h in
    option_counts-save_options id calls (suc i) p totals os rows1 rows' ne rest
    ∙ ap (λ r. option_counts id r []) (sym (ok-injective (answer-ok (calls i) _ rows1 saved)))
    ∙ option_counts-other id (option_row p totals o) rows [] ne

pub insert_options-keeps :
    (random : ℕ → Option (List ℕ)) (calls : Calls) (id : Str) (i : ℕ) (texts : List Str)
    (t : Tables) (os : List PollOption) (t2 : Tables)
    → insert_options random calls id i texts t ≡ ok (os, t2)
    → t2 ≡ record t { poll_options = t2.poll_options }
unfolding insert_options
insert_options-keeps random calls id i [] t os t2 h =
    let same : t2 ≡ t = ap (λ x. x.1) (sym (ok-injective h)) in
    same ∙ ap (λ (x : Tables). record t { poll_options = x.poll_options }) (sym same)
insert_options-keeps random calls id i (text ∷ texts) t os t2 h =
    let (new_id, _, h1) = bind-ok (new_uuid (random (suc i))) _ (os, t2) h in
    let o : OptionRow = record {
      id = new_id;
      poll_id = id;
      text = trim_space text;
      position = i;
    } in
    let (t1, inserted, h2) = bind-ok (answer (calls (2 + i)) (insert_option o t)) _ (os, t2) h1 in
    let (more, rest, h3) =
      bind-ok (insert_options random calls id (suc i) texts t1) _ (os, t2) h2 in
    let t1_is = insert_option-ok o t t1 (answer-ok (calls (2 + i)) _ t1 inserted) in
    let last : more.1 ≡ t2 = ap (λ x. x.1) (ok-injective h3) in
    let kept = insert_options-keeps random calls id (suc i) texts t1 more.0 more.1 rest in
    subst (λ (x : Tables). x ≡ record t { poll_options = x.poll_options }) last
      (kept ∙ ap (λ (x : Tables). record x { poll_options = more.1.poll_options }) t1_is)
