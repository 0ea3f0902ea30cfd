-- ===== src/Postgres/Results/Counted.antt =====
-- The counts of the options that are read behind a snapshot.
use mipttest_task.Base.{
  ap₂, ℕ, ◌≤◌, ◌≡◌, refl, sym, ap, subst, ◌∙◌, inl, inr, Bool, true, false, ◌&&◌, some, List, [],
  ◌∷◌, arith, leb, if◌then◌else◌, Str, eq_str, eq_str_iff, eq_str_refl, Bool-cases, All,
}
use mipttest_task.Base.Dict.{Dict, lookup, insert, get_or, lookup-insert}
use mipttest_task.Domain.Poll.{Time, Poll, PollOption, Totals}
use mipttest_task.Postgres.Tables.{uuid_of, OptionResultRow, Tables}
use mipttest_task.Postgres.Calls.{no_faults}
use mipttest_task.Postgres.Results.{option_counts, upsert_option}
use mipttest_task.Postgres.Results.Final.{stored_options}

abbrev is_row : Str → Str → OptionResultRow → Bool
is_row id option r = eq_str r.poll_id id && eq_str r.option_id option

-- The primary key of the table.
abbrev pub HaveKeys : List OptionResultRow → Type 0
HaveKeys [] = Unit {0}
HaveKeys (r ∷ rs) = All (λ x. is_row r.poll_id r.option_id x ≡ false) rs × HaveKeys rs

-- No row of the poll is newer.
abbrev pub AreOld : Str → Time → List OptionResultRow → Type 0
AreOld id as_of rows = All (λ x. x.poll_id ≡ id → x.captured_at ≤ as_of) rows

-- Options of distinct identifiers.
abbrev pub AreDistinct : List PollOption → Type 0
AreDistinct [] = Unit {0}
AreDistinct (o ∷ os) = All (λ x. eq_str x.id o.id ≡ false) os × AreDistinct os

abbrev with_row : Str → OptionResultRow → Dict ℕ → Dict ℕ
with_row id r m = if eq_str r.poll_id id then insert r.option_id r.vote_count m else m

module _ (id option : Str) where
  with_row-same :
      (r : OptionResultRow) (m n : Dict ℕ)
      → lookup option m ≡ lookup option n
      → lookup option (with_row id r m) ≡ lookup option (with_row id r n)
  with_row-same r m n h = elim (Bool-cases (eq_str r.poll_id id)) [
    | inl own ↦ rw own (
        lookup-insert r.option_id option r.vote_count m
        ∙ ap (λ x. if eq_str r.option_id option then some r.vote_count else x) h
        ∙ sym (lookup-insert r.option_id option r.vote_count n))
    | inr other ↦ rw other h
  ]

  with_row-other :
      (r : OptionResultRow) (m : Dict ℕ)
      → is_row id option r ≡ false
      → lookup option (with_row id r m) ≡ lookup option m
  with_row-other r m h = elim (Bool-cases (eq_str r.poll_id id)) [
    | inl own ↦ rw own (
        lookup-insert r.option_id option r.vote_count m
        ∙ ap (λ b. if b then some r.vote_count else lookup option m) (other_option own h))
    | inr other ↦ rw other refl
  ]
    where
      other_option :
          eq_str r.poll_id id ≡ true
          → is_row id option r ≡ false
          → eq_str r.option_id option ≡ false
      other_option own none_of = ground (arith, own, none_of)

  option_counts-same :
      (rs : List OptionResultRow) (m n : Dict ℕ)
      → lookup option m ≡ lookup option n
      → lookup option (option_counts id rs m) ≡ lookup option (option_counts id rs n)
  unfolding option_counts
  option_counts-same [] m n h = h
  option_counts-same (r ∷ rs) m n h = option_counts-same rs _ _ (with_row-same r m n h)

  option_counts-none :
      (rs : List OptionResultRow) (m : Dict ℕ)
      → All (λ x. is_row id option x ≡ false) rs
      → lookup option (option_counts id rs m) ≡ lookup option m
  unfolding option_counts
  option_counts-none [] m h = refl
  option_counts-none (r ∷ rs) m (h, g) =
      option_counts-none rs (with_row id r m) g ∙ with_row-other r m h

  is_row-other :
      (r : OptionResultRow) → eq_str r.option_id option ≡ false → is_row id option r ≡ false
  is_row-other r h = ground arith

  -- An upsert of the row of another option.
  upsert_option-other :
      (new : OptionResultRow) (rows : List OptionResultRow) (m : Dict ℕ)
      → eq_str new.option_id option ≡ false
      → lookup option (option_counts id (upsert_option new rows) m)
        ≡ lookup option (option_counts id rows m)
  unfolding option_counts upsert_option
  upsert_option-other new [] m ne = with_row-other new m (is_row-other new ne)
  upsert_option-other new (r ∷ rs) m ne =
      elim (Bool-cases (eq_str r.poll_id new.poll_id && eq_str r.option_id new.option_id)) [
        | inl same ↦
            let e : r.option_id ≡ new.option_id =
              (eq_str_iff r.option_id new.option_id).0 (ground (arith, same)) in
            let kept = with_row-other r m (is_row-other r (ap (λ j. eq_str j option) e ∙ ne)) in
            rw same (by_age (leb r.captured_at new.captured_at) kept)
        | inr other ↦ rw other (upsert_option-other new rs (with_row id r m) ne)
      ]
    where
      by_age :
          (b : Bool)
          → lookup option (with_row id r m) ≡ lookup option m
          → lookup option (option_counts id ((if b then new else r) ∷ rs) m)
            ≡ lookup option (option_counts id rs (with_row id r m))
      by_age true kept =
          option_counts-same rs _ _ (with_row-other new m (is_row-other new ne) ∙ sym kept)
      by_age false kept = refl

leb-true : (a b : ℕ) → a ≤ b → leb a b ≡ true
leb-true a b h = ground arith

with_row-own :
    (new : OptionResultRow) (m : Dict ℕ)
    → lookup new.option_id (with_row new.poll_id new m) ≡ some new.vote_count
with_row-own new m = rw (eq_str_refl new.poll_id) (
    lookup-insert new.option_id new.option_id new.vote_count m
    ∙ ap (λ b. if b then some new.vote_count else lookup new.option_id m)
        (eq_str_refl new.option_id))

-- An upsert of an option's row that is no older than the stored one.
upsert_option-own :
    (new : OptionResultRow) (rows : List OptionResultRow) (m : Dict ℕ)
    → HaveKeys rows
    → AreOld new.poll_id new.captured_at rows
    → lookup new.option_id (option_counts new.poll_id (upsert_option new rows) m)
      ≡ some new.vote_count
unfolding option_counts upsert_option
upsert_option-own new [] m keys old = with_row-own new m
upsert_option-own new (r ∷ rs) m (none_else, keys) (no_newer, old) =
    elim (Bool-cases (eq_str r.poll_id new.poll_id && eq_str r.option_id new.option_id)) [
      | inl same ↦
          let poll_same : r.poll_id ≡ new.poll_id =
            (eq_str_iff r.poll_id new.poll_id).0 (ground (arith, same)) in
          let option_same : r.option_id ≡ new.option_id =
            (eq_str_iff r.option_id new.option_id).0 (ground (arith, same)) in
          let newer : leb r.captured_at new.captured_at ≡ true =
            leb-true r.captured_at new.captured_at (no_newer poll_same) in
          let none_own : All (λ x. is_row new.poll_id new.option_id x ≡ false) rs =
            subst (λ a. All (λ x. is_row a new.option_id x ≡ false) rs) poll_same
              (subst (λ a. All (λ x. is_row r.poll_id a x ≡ false) rs) option_same none_else) in
          rw (same, newer)
            (option_counts-none new.poll_id new.option_id rs _ none_own ∙ with_row-own new m)
      | inr other ↦ rw other (upsert_option-own new rs (with_row new.poll_id r m) keys old)
    ]

eq_str_sym : (a b : Str) → eq_str a b ≡ eq_str b a
eq_str_sym a b = ground (arith, eq_str_iff a b, eq_str_iff b a)

is_row-swap :
    (r new : OptionResultRow)
    → is_row new.poll_id new.option_id r ≡ false
    → is_row r.poll_id r.option_id new ≡ false
is_row-swap r new h =
    ap₂ (λ a b. a && b) (eq_str_sym new.poll_id r.poll_id) (eq_str_sym new.option_id r.option_id)
    ∙ h

upsert_option-All :
    (P : OptionResultRow → Type 0) (new : OptionResultRow) (rows : List OptionResultRow)
    → P new
    → All P rows
    → All P (upsert_option new rows)
unfolding upsert_option
upsert_option-All P new [] own h = (own, tt)
upsert_option-All P new (r ∷ rs) own (h, g) =
    by_match (eq_str r.poll_id new.poll_id && eq_str r.option_id new.option_id)
      (leb r.captured_at new.captured_at) (upsert_option-All P new rs own g)
  where
    by_match :
        (same newer : Bool)
        → All P (upsert_option new rs)
        → All P (if same then (if newer then new else r) ∷ rs else r ∷ upsert_option new rs)
    by_match true true rest = (own, g)
    by_match true false rest = (h, g)
    by_match false newer rest = (h, rest)

upsert_option-HaveKeys :
    (new : OptionResultRow) (rows : List OptionResultRow)
    → HaveKeys rows
    → HaveKeys (upsert_option new rows)
unfolding upsert_option
upsert_option-HaveKeys new [] h = (tt, tt)
upsert_option-HaveKeys new (r ∷ rs) (none_else, keys) =
    elim (Bool-cases (eq_str r.poll_id new.poll_id && eq_str r.option_id new.option_id)) [
      | inl same ↦
          let poll_same : r.poll_id ≡ new.poll_id =
            (eq_str_iff r.poll_id new.poll_id).0 (ground (arith, same)) in
          let option_same : r.option_id ≡ new.option_id =
            (eq_str_iff r.option_id new.option_id).0 (ground (arith, same)) in
          let none_own : All (λ x. is_row new.poll_id new.option_id x ≡ false) rs =
            subst (λ a. All (λ x. is_row a new.option_id x ≡ false) rs) poll_same
              (subst (λ a. All (λ x. is_row r.poll_id a x ≡ false) rs) option_same none_else) in
          rw same (by_age (leb r.captured_at new.captured_at) none_own)
      | inr other ↦ rw other (
        upsert_option-All (λ x. is_row r.poll_id r.option_id x ≡ false) new rs
            (is_row-swap r new other) none_else,
        upsert_option-HaveKeys new rs keys,
      )
    ]
  where
    by_age :
        (newer : Bool)
        → All (λ x. is_row new.poll_id new.option_id x ≡ false) rs
        → HaveKeys ((if newer then new else r) ∷ rs)
    by_age true own = (own, keys)
    by_age false own = (none_else, keys)

module _ (p : Poll) (totals : Totals) (t : Tables) where
  stored_options-other :
      (option : Str) (os : List PollOption) (rows : List OptionResultRow)
      → All (λ x. eq_str x.id option ≡ false) os
      → lookup option
          (option_counts (uuid_of p.id) (stored_options no_faults p totals t os rows) [])
        ≡ lookup option (option_counts (uuid_of p.id) rows [])
  stored_options-other option [] rows h = refl
  stored_options-other option (o ∷ os) rows (h, g) =
      stored_options-other option os _ g ∙ upsert_option-other (uuid_of p.id) option _ rows [] h

  -- Behind the rows of a snapshot each of its options is read with its count.
  pub stored_options-counts :
      (os : List PollOption) (rows : List OptionResultRow)
      → AreDistinct os
      → HaveKeys rows
      → AreOld (uuid_of p.id) totals.as_of rows
      → All
          (λ o.
            lookup o.id
              (option_counts (uuid_of p.id) (stored_options no_faults p totals t os rows) [])
            ≡ some (get_or totals.options o.id 0))
          os
  stored_options-counts [] rows distinct keys old = tt
  stored_options-counts (o ∷ os) rows (others, distinct) keys old =
      let new : OptionResultRow = record {
        poll_id = uuid_of p.id;
        option_id = o.id;
        vote_count = get_or totals.options o.id 0;
        captured_at = totals.as_of;
      } in
      (
        stored_options-other o.id os (upsert_option new rows) others
            ∙ upsert_option-own new rows [] keys old,
        stored_options-counts os (upsert_option new rows) distinct
            (upsert_option-HaveKeys new rows keys)
            (upsert_option-All (λ x. x.poll_id ≡ uuid_of p.id → x.captured_at ≤ totals.as_of) new
              rows (λ same. omega arith) old),
      )
