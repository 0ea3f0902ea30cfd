-- ===== src/Postgres/Results/Upserts.antt =====
-- The rows that the upserts of internal/postgres/results.go and an UPDATE of a poll leave.
use mipttest_task.Base.{
  ap, ap₂, ◌≡◌, refl, Bool, true, false, ◌&&◌, Option, none, some, List, [], ◌∷◌, map, leb,
  if◌then◌else◌, Str, eq_str,
}
use mipttest_task.Domain.Poll.{Time, closed}
use mipttest_task.Postgres.Tables.{PollRow, RuntimeRow, OptionResultRow, update_poll}
use mipttest_task.Postgres.Results.{upsert_runtime, upsert_option, coalesce, close_row}

-- The rows with a new one: the first row that is its own gives way as `choose` says, and if there is
-- none, the new row is added.
abbrev pub replaced : {A : Type 0} → (A → Bool) → (A → A) → A → List A → List A
replaced own choose new [] = new ∷ []
replaced own choose new (r ∷ rs) = if own r then choose r ∷ rs else r ∷ replaced own choose new rs

pub upsert_runtime-replaced :
    (new : RuntimeRow) (rows : List RuntimeRow)
    → upsert_runtime new rows
      ≡ replaced
          (λ r. eq_str r.poll_id new.poll_id)
          (λ r. elim r.finalized_at [
            | none ↦ if leb r.captured_at new.captured_at then new else r
            | some _ ↦ r
          ])
          new
          rows
unfolding upsert_runtime
upsert_runtime-replaced new [] = refl
upsert_runtime-replaced new (r ∷ rs) =
    ap₂ (λ x ys. if eq_str r.poll_id new.poll_id then x ∷ rs else r ∷ ys) (by_final r.finalized_at)
      (upsert_runtime-replaced new rs)
  where
    by_final :
        (o : Option Time)
        → (if (elim o as (λ _. Bool) [ none ↦ true | some _ ↦ false ])
              && leb r.captured_at new.captured_at
            then new
            else r)
          ≡ (elim o as (λ _. RuntimeRow) [
            | none ↦ if leb r.captured_at new.captured_at then new else r
            | some _ ↦ r
          ])
    by_final none = refl
    by_final (some u) = refl

pub upsert_option-replaced :
    (new : OptionResultRow) (rows : List OptionResultRow)
    → upsert_option new rows
      ≡ replaced
          (λ r. eq_str r.poll_id new.poll_id && eq_str r.option_id new.option_id)
          (λ r. if leb r.captured_at new.captured_at then new else r)
          new
          rows
unfolding upsert_option
upsert_option-replaced new [] = refl
upsert_option-replaced new (r ∷ rs) =
    ap
      (λ ys.
        if eq_str r.poll_id new.poll_id && eq_str r.option_id new.option_id
        then (if leb r.captured_at new.captured_at then new else r) ∷ rs
        else r ∷ ys)
      (upsert_option-replaced new rs)

-- An update changes the rows of the identifier.
pub update_poll-map :
    (id : Str) (f : PollRow → PollRow) (ps : List PollRow)
    → update_poll id f ps ≡ map (λ q. if eq_str q.id id then f q else q) ps
unfolding update_poll
update_poll-map id f [] = refl
update_poll-map id f (p ∷ ps) =
    ap (λ qs. (if eq_str p.id id then f p else p) ∷ qs) (update_poll-map id f ps)

pub update_poll-closed :
    (id : Str) (t : Time) (ps : List PollRow)
    → update_poll id (close_row t) ps
      ≡ map
          (λ q.
            if eq_str q.id id
            then record q {
              status = closed;
              closed_at = elim q.closed_at [ none ↦ some t | some before ↦ some before ];
              updated_at = t;
            }
            else q)
          ps
unfolding update_poll
update_poll-closed id t [] = refl
update_poll-closed id t (p ∷ ps) =
    ap₂
      (λ c qs.
        (if eq_str p.id id then record p { status = closed; closed_at = c; updated_at = t } else p)
        ∷ qs)
      (by_time p.closed_at) (update_poll-closed id t ps)
  where
    by_time :
        (o : Option Time)
        → coalesce o t
          ≡ (elim o as (λ _. Option Time) [ none ↦ some t | some before ↦ some before ])
    by_time none = refl
    by_time (some u) = refl
