-- ===== src/Domain/Poll/Selection.antt =====
-- `Poll.ValidateSelection` accepts exactly the selections that the poll's rules allow.
use mipttest_task.Base.{
  ◌≤◌, ◌≡◌, ◌↔◌, inl, inr, refl, true, false, List, [], ◌∷◌, arith, Str, eq_str_iff, length, All,
  In, sym,
}
use mipttest_task.Base.Int.{pos, ◌≤ℤ◌}
use mipttest_task.Domain.Errors.{ok, err, Error, invalid_selection}
use mipttest_task.Domain.Uuid.{is_uuid}
use mipttest_task.Domain.Poll.{
  Poll, single_choice, validate_selection, check_ids, contains, option_ids,
}

pub contains-In : (ks : List Str) (k : Str) → contains ks k ≡ true → In k ks
unfolding contains
contains-In [] k h = cc
contains-In (j ∷ js) k h = ground (arith, eq_str_iff j k, contains-In js k)

pub In-contains : (ks : List Str) (k : Str) → In k ks → contains ks k ≡ true
unfolding contains
In-contains [] k h = absurd h
In-contains (j ∷ js) k (inl e) = ground (arith, eq_str_iff j k)
In-contains (j ∷ js) k (inr m) = ground (arith, In-contains js k m)

pub contains-false : (ks : List Str) (k : Str) → contains ks k ≡ false → ¬ In k ks
contains-false ks k h m = cc (In-contains ks k m)

pub not-In-contains : (ks : List Str) (k : Str) → ¬ In k ks → contains ks k ≡ false
not-In-contains ks k h = ground (arith, contains-In ks k)

-- No item twice.
abbrev pub IsDistinct : List Str → Type 0
IsDistinct [] = Unit
IsDistinct (x ∷ xs) = (¬ In x xs) × IsDistinct xs

-- Every identifier is a UUID and one of the poll's options; none repeats and none is among those
-- seen before.
abbrev IsFresh : List Str → List Str → List Str → Type 0
IsFresh valid seen ids =
    All (λ id. (is_uuid id ≡ true) × In id valid × (¬ In id seen)) ids × IsDistinct ids

check_ids_step :
    (valid seen ids : List Str) (id : Str)
    → (check_ids valid seen (id ∷ ids) ≡ ok tt) ↔ (
        (is_uuid id ≡ true)
        × (contains seen id ≡ false)
        × (contains valid id ≡ true)
        × (check_ids valid (id ∷ seen) ids ≡ ok tt))
unfolding check_ids
check_ids_step valid seen ids id =
    ((λ h. (ground arith, ground arith, ground arith, ground arith)), λ (u, s, v, r). ground arith)

-- What is fresh beside one more seen identifier is other than it.
All-unseen :
    (valid seen ids : List Str) (id : Str)
    → All (λ j. (is_uuid j ≡ true) × In j valid × (¬ In j (id ∷ seen))) ids
    → All (λ j. (is_uuid j ≡ true) × In j valid × (¬ In j seen)) ids × (¬ In id ids)
All-unseen valid seen [] id h = (tt, λ m. m)
All-unseen valid seen (j ∷ ids) id ((u, v, n), h) =
    let (rest, absent) = All-unseen valid seen ids id h in
    (((u, v, λ m. n (inr m)), rest), elim [ inl e ↦ n (inl (sym e)) | inr m ↦ absent m ])

All-seen :
    (valid seen ids : List Str) (id : Str)
    → All (λ j. (is_uuid j ≡ true) × In j valid × (¬ In j seen)) ids
    → ¬ In id ids
    → All (λ j. (is_uuid j ≡ true) × In j valid × (¬ In j (id ∷ seen))) ids
All-seen valid seen [] id h absent = tt
All-seen valid seen (j ∷ ids) id ((u, v, n), h) absent = (
  (u, v, elim [ inl e ↦ absent (inl (sym e)) | inr m ↦ n m ]),
  All-seen valid seen ids id h (λ m. absent (inr m)),
)

check_ids-IsFresh :
    (valid seen ids : List Str) → check_ids valid seen ids ≡ ok tt → IsFresh valid seen ids
check_ids-IsFresh valid seen [] h = (tt, tt)
check_ids-IsFresh valid seen (id ∷ ids) h =
    let (u, s, v, r) = (check_ids_step valid seen ids id).0 h in
    let (fresh, distinct) = check_ids-IsFresh valid (id ∷ seen) ids r in
    let (rest, absent) = All-unseen valid seen ids id fresh in
    (((u, contains-In valid id v, contains-false seen id s), rest), (absent, distinct))

IsFresh-check_ids :
    (valid seen ids : List Str) → IsFresh valid seen ids → check_ids valid seen ids ≡ ok tt
unfolding check_ids
IsFresh-check_ids valid seen [] h = refl
IsFresh-check_ids valid seen (id ∷ ids) (((u, v, n), fresh), (absent, distinct)) =
    (check_ids_step valid seen ids id).1 (
      u,
      not-In-contains seen id n,
      In-contains valid id v,
      IsFresh-check_ids valid (id ∷ seen) ids (All-seen valid seen ids id fresh absent, distinct),
    )

pub record IsAllowed (p : Poll) (ids : List Str) : Type 0 where
  pub some_chosen : 1 ≤ length ids
  pub within : pos (length ids) ≤ℤ p.max_choices
  pub single : p.type ≡ single_choice → length ids ≡ 1
  pub owned : All (λ id. (is_uuid id ≡ true) × In id (option_ids p)) ids
  pub distinct : IsDistinct ids

All-owned :
    (valid ids : List Str)
    → All (λ j. (is_uuid j ≡ true) × In j valid × (¬ In j [])) ids
    → All (λ j. (is_uuid j ≡ true) × In j valid) ids
All-owned valid [] h = tt
All-owned valid (j ∷ ids) ((u, v, _), h) = ((u, v), All-owned valid ids h)

All-fresh :
    (valid ids : List Str)
    → All (λ j. (is_uuid j ≡ true) × In j valid) ids
    → All (λ j. (is_uuid j ≡ true) × In j valid × (¬ In j [])) ids
All-fresh valid [] h = tt
All-fresh valid (j ∷ ids) ((u, v), h) = ((u, v, λ m. m), All-fresh valid ids h)

head_checks :
    (p : Poll) (ids : List Str)
    → (validate_selection p ids ≡ ok tt) ↔ (
        (1 ≤ length ids)
        × (pos (length ids) ≤ℤ p.max_choices)
        × (p.type ≡ single_choice → length ids ≡ 1)
        × (check_ids (option_ids p) [] ids ≡ ok tt))
unfolding validate_selection
head_checks p ids = (
  (λ h. (ground arith, ground arith, (λ e. ground arith), ground arith)),
  λ (some_chosen, within, single, rest). ground arith,
)

-- A vote's selection is accepted exactly when it has at least one and at most `max_choices` options,
-- one alone for a single-choice poll, and all of them are UUIDs of the poll's options, none twice.
pub validate_selection_iff :
    (p : Poll) (ids : List Str) → (validate_selection p ids ≡ ok tt) ↔ IsAllowed p ids
validate_selection_iff p ids = (forward, backward)
  where
    forward : validate_selection p ids ≡ ok tt → IsAllowed p ids
    forward h =
        let (n, m, single, r) = (head_checks p ids).0 h in
        let (fresh, distinct) = check_ids-IsFresh (option_ids p) [] ids r in
        record {
          some_chosen = n;
          within = m;
          single = single;
          owned = All-owned (option_ids p) ids fresh;
          distinct = distinct;
        }

    backward : IsAllowed p ids → validate_selection p ids ≡ ok tt
    backward a = (head_checks p ids).1 (
      a.some_chosen,
      a.within,
      a.single,
      IsFresh-check_ids (option_ids p) [] ids (All-fresh (option_ids p) ids a.owned, a.distinct),
    )

check_ids-invalid :
    (valid seen ids : List Str) (e : Error)
    → check_ids valid seen ids ≡ err e
    → e ≡ invalid_selection
unfolding check_ids
check_ids-invalid valid seen [] e h = cc
check_ids-invalid valid seen (id ∷ ids) e h =
    ground (arith, check_ids-invalid valid (id ∷ seen) ids e)

-- A refused selection is always reported as `ErrInvalidSelection`.
pub validate_selection-error :
    (p : Poll) (ids : List Str) (e : Error)
    → validate_selection p ids ≡ err e
    → e ≡ invalid_selection
unfolding validate_selection
validate_selection-error p ids e h = ground (arith, check_ids-invalid (option_ids p) [] ids e)
