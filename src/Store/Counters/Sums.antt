-- ===== src/Store/Counters/Sums.antt =====
-- `addCounters` adds up what every field holds, while int64 holds the sums.
use mipttest_task.Base.{
  ℕ, ◌+◌, ◌≤◌, ◌≡◌, refl, sym, ap, subst, ◌∙◌, inl, inr, Bool, false, Option, none, some, List, [],
  ◌∷◌, arith, if◌then◌else◌, Str, eq_str, eq_str_iff, eq_str_refl, eq_of_eq_str, Bool-cases, In,
}
use mipttest_task.Base.Int.{max_int64}
use mipttest_task.Base.Dict.{Dict, lookup, insert, get_or, lookup-insert}
use mipttest_task.Domain.Errors.{Result, ok, ◌>>=◌}
use mipttest_task.Domain.Poll.{Totals, contains}
use mipttest_task.Domain.Poll.Selection.{contains-In, contains-false}
use mipttest_task.Store.Votes.{participants_field}
use mipttest_task.Store.Counters.{counter_value, add_counters, add_counter}
use mipttest_task.Store.Counters.Values.{
  AreNumbers, number, value_sum, counter_value-itoa, number-itoa,
}

-- The totals hold the numbers of `m` for the poll's options, and no other key.
abbrev pub OptionsAre : List Str → (Str → ℕ) → Dict ℕ → Type 0
OptionsAre valid m options =
    (id : Str)
    → (In id valid → lookup id options ≡ some (m id)) × (¬ In id valid → lookup id options ≡ none)

pub OptionsAre-cong :
    (valid : List Str) (m n : Str → ℕ) (options : Dict ℕ)
    → ((id : Str) → m id ≡ n id)
    → OptionsAre valid m options
    → OptionsAre valid n options
OptionsAre-cong valid m n options e h id = ((λ i. (h id).0 i ∙ ap some (e id)), (h id).1)

-- Adding to one option that is the poll's.
insert-OptionsAre :
    (valid : List Str) (m : Str → ℕ) (options : Dict ℕ) (f : Str) (n : ℕ)
    → In f valid
    → OptionsAre valid m options
    → OptionsAre valid
        (λ id. (if eq_str f id then n else 0) + m id)
        (insert f (get_or options f 0 + n) options)
insert-OptionsAre valid m options f n i h id = (there, missing)
  where
    there :
        In id valid
        → lookup id (insert f (get_or options f 0 + n) options)
          ≡ some ((if eq_str f id then n else 0) + m id)
    there j =
        lookup-insert f id (get_or options f 0 + n) options
        ∙ ground (arith, eq_str_iff f id, (h id).0 j, (h f).0 i)

    missing : ¬ In id valid → lookup id (insert f (get_or options f 0 + n) options) ≡ none
    missing j =
        let ne : eq_str f id ≡ false = elim (Bool-cases (eq_str f id)) [
          | inl same ↦ absurd (j (subst (λ x. In x valid) (eq_of_eq_str f id same) i))
          | inr other ↦ other
        ] in
        lookup-insert f id (get_or options f 0 + n) options ∙ rw ne ((h id).1 j)

skip-OptionsAre :
    (valid : List Str) (m : Str → ℕ) (options : Dict ℕ) (f : Str) (n : ℕ)
    → ¬ In f valid
    → OptionsAre valid m options
    → OptionsAre valid (λ id. (if eq_str f id then n else 0) + m id) options
skip-OptionsAre valid m options f n absent h id = (
  (λ i.
      let ne : eq_str f id ≡ false = elim (Bool-cases (eq_str f id)) [
        | inl same ↦ absurd (absent (subst (λ x. In x valid) (sym (eq_of_eq_str f id same)) i))
        | inr other ↦ other
      ] in
      rw ne ((h id).0 i ∙ ap some (omega arith))),
  (h id).1,
)

own :
    (f : Str) (n : ℕ) (raw : Str) (rest old : ℕ)
    → number raw ≡ n
    → (if eq_str f f then number raw else 0) + rest + old ≤ max_int64
    → n + old ≤ max_int64
own f n raw rest old e h = ground (arith, eq_str_refl f)

-- What a stretch of the loop has done to the totals.
abbrev pub Adds : List Str → Totals → (ℕ × (Str → ℕ)) → Result Totals → Type 0
Adds valid t (p, m) result =
    (t' : Totals) × (result ≡ ok t')
    × (t'.participants ≡ p)
    × OptionsAre valid m t'.options
    × (t'.as_of ≡ t.as_of)

module _ (valid : List Str) (reserved : ¬ In participants_field valid) where
  add_counter-Adds :
      (f : Str) (n : ℕ) (m : Str → ℕ) (t : Totals)
      → OptionsAre valid m t.options
      → (if eq_str f participants_field then n else 0) + t.participants ≤ max_int64
      → (In f valid → n + m f ≤ max_int64)
      → Adds valid t
          (
            (if eq_str f participants_field then n else 0) + t.participants,
            λ id. (if eq_str f id then n else 0) + m id,
          )
          (add_counter valid f (some n) t)
  unfolding add_counter
  add_counter-Adds f n m t h p o = elim (Bool-cases (eq_str f participants_field)) [
    | inl same ↦
        let e = eq_of_eq_str f participants_field same in
        (
          record t { participants = t.participants + n },
          ground arith,
          rw same (omega arith),
          skip-OptionsAre valid m t.options f n (subst (λ x. ¬ In x valid) (sym e) reserved) h,
          refl,
        )
    | inr other ↦ elim (Bool-cases (contains valid f)) [
      | inl known ↦
          let i = contains-In valid f known in
          let small : get_or t.options f 0 + n ≤ max_int64 = ground (arith, (h f).0 i, o i) in
          (
            record t { options = insert f (get_or t.options f 0 + n) t.options },
            ground arith,
            rw other (omega arith),
            insert-OptionsAre valid m t.options f n i h,
            refl,
          )
      | inr unknown ↦ (
        t,
        ground arith,
        rw other (omega arith),
        skip-OptionsAre valid m t.options f n (contains-false valid f unknown) h,
        refl,
      )
    ]
  ]

  -- A whole hash of counters.
  pub add_counters-Adds :
      (h : Dict Str) (m : Str → ℕ) (t : Totals)
      → AreNumbers h
      → OptionsAre valid m t.options
      → value_sum participants_field h + t.participants ≤ max_int64
      → ((id : Str) → In id valid → value_sum id h + m id ≤ max_int64)
      → Adds valid t
          (value_sum participants_field h + t.participants, λ id. value_sum id h + m id)
          (add_counters valid h t)
  unfolding add_counters
  add_counters-Adds [] m t a o p q =
      (t, refl, omega arith, OptionsAre-cong valid m _ t.options (λ id. omega arith) o, refl)
  add_counters-Adds ((f, raw) ∷ h) m t ((n, e, small), a) o p q =
      let cv : counter_value raw ≡ some n = ap counter_value e ∙ counter_value-itoa n small in
      let nr : number raw ≡ n = ap number e ∙ number-itoa n small in
      let head = λ (b : Bool). ap (λ (x : ℕ). if b then x else 0) nr in
      let (t1, r1, p1, o1, s1) =
        add_counter-Adds f n m t o (omega (arith, p, head (eq_str f participants_field)))
          (λ i. own f n raw (value_sum f h) (m f) nr (q f i)) in
      let (t2, r2, p2, o2, s2) =
        add_counters-Adds h (λ id. (if eq_str f id then n else 0) + m id) t1 a o1
          (omega (arith, p, p1, head (eq_str f participants_field)))
          (λ id i. omega (arith, q id i, head (eq_str f id))) in
      (
        t2,
        ap (λ (v : Option ℕ). add_counter valid f v t >>= add_counters valid h) cv
            ∙ ap (λ (x : Result Totals). x >>= add_counters valid h) r1
            ∙ r2,
        omega (arith, p2, p1, head (eq_str f participants_field)),
        OptionsAre-cong valid _ _ t2.options (λ id. omega (arith, head (eq_str f id))) o2,
        s2 ∙ s1,
      )
