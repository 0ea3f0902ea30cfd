-- ===== src/Postgres/Reads/Sorted.antt =====
-- `ORDER BY` puts rows in order, and the order of recent polls is one.
use mipttest_task.Base.{
  ℕ, zero, suc, ◌≡◌, refl, sym, inl, inr, Bool, Bool-cases, true, false, List, [], ◌∷◌, arith, Str,
  eq_str, eq_str-false_iff, All, take, All-take,
}
use mipttest_task.Postgres.Tables.{PollRow}
use mipttest_task.Postgres.Reads.{insert_by, order_by, str_before, is_older}
use mipttest_task.Postgres.Reads.Found.{AreKeyed, insert_by-All, order_by-All}

-- No row goes behind one that follows it.
abbrev pub IsSorted : {A : Type 0} → (A → A → Bool) → List A → Type 0
IsSorted behind [] = Unit
IsSorted behind (a ∷ rest) = All (λ b. behind a b ≡ false) rest × IsSorted behind rest

module _ {A : Type 0} (behind : A → A → Bool)
    (asym : (a b : A) → behind a b ≡ true → behind b a ≡ false)
    (trans : (a b c : A) → behind a b ≡ false → behind b c ≡ false → behind a c ≡ false) where
  All-further :
      (a b : A) (bs : List A)
      → behind a b ≡ false
      → All (λ c. behind b c ≡ false) bs
      → All (λ c. behind a c ≡ false) bs
  All-further a b [] h g = tt
  All-further a b (c ∷ bs) h (g, rest) = (trans a b c h g, All-further a b bs h rest)

  insert_by-IsSorted :
      (a : A) (bs : List A) → IsSorted behind bs → IsSorted behind (insert_by behind a bs)
  unfolding insert_by
  insert_by-IsSorted a [] h = (tt, tt)
  insert_by-IsSorted a (b ∷ bs) (h, g) = elim (Bool-cases (behind a b)) [
    | inl later ↦ rw later (
      insert_by-All behind (λ c. behind b c ≡ false) a bs (asym a b later) h,
      insert_by-IsSorted a bs g,
    )
    | inr before ↦ rw before ((before, All-further a b bs before h), (h, g))
  ]

  pub order_by-IsSorted : (xs : List A) → IsSorted behind (order_by behind xs)
  unfolding order_by
  order_by-IsSorted [] = tt
  order_by-IsSorted (a ∷ xs) = insert_by-IsSorted a (order_by behind xs) (order_by-IsSorted xs)

pub take-IsSorted :
    {A : Type 0} (behind : A → A → Bool) (n : ℕ) (xs : List A)
    → IsSorted behind xs
    → IsSorted behind (take n xs)
take-IsSorted behind zero xs h = tt
take-IsSorted behind (suc n) [] h = tt
take-IsSorted behind (suc n) (a ∷ xs) (h, g) =
    (All-take (λ b. behind a b ≡ false) n xs h, take-IsSorted behind n xs g)

str_before_asym : (s t : Str) → str_before s t ≡ true → str_before t s ≡ false
unfolding str_before
str_before_asym [] [] h = cc
str_before_asym [] (d ∷ t) h = refl
str_before_asym (c ∷ s) [] h = cc
str_before_asym (c ∷ s) (d ∷ t) h = ground (arith, str_before_asym s t)

str_before_trans :
    (s t u : Str) → str_before s t ≡ false → str_before t u ≡ false → str_before s u ≡ false
unfolding str_before
str_before_trans [] [] u h g = g
str_before_trans [] (d ∷ t) u h g = cc
str_before_trans (c ∷ s) t [] h g = refl
str_before_trans (c ∷ s) [] (e ∷ u) h g = cc
str_before_trans (c ∷ s) (d ∷ t) (e ∷ u) h g = ground (arith, str_before_trans s t u)

str_before_irrefl : (s : Str) → str_before s s ≡ false
unfolding str_before
str_before_irrefl [] = refl
str_before_irrefl (c ∷ s) = ground (arith, str_before_irrefl s)

is_older_asym : (p q : PollRow) → is_older p q ≡ true → is_older q p ≡ false
is_older_asym p q h = ground (arith, str_before_asym p.id q.id)

is_older_trans :
    (p q r : PollRow) → is_older p q ≡ false → is_older q r ≡ false → is_older p r ≡ false
is_older_trans p q r h g = ground (arith, str_before_trans p.id q.id r.id)

pub is_older_irrefl : (p : PollRow) → is_older p p ≡ false
is_older_irrefl p = ground (arith, str_before_irrefl p.id)

pub recent-IsSorted : (ps : List PollRow) → IsSorted is_older (order_by is_older ps)
recent-IsSorted ps = order_by-IsSorted is_older is_older_asym is_older_trans ps

pub eq_str_sym : (s t : Str) → eq_str s t ≡ false → eq_str t s ≡ false
eq_str_sym s t h = (eq_str-false_iff t s).1 (λ e. (eq_str-false_iff s t).0 h (sym e))

module _ (behind : PollRow → PollRow → Bool) where
  insert_by-AreKeyed :
      (p : PollRow) (ps : List PollRow)
      → All (λ q. eq_str q.id p.id ≡ false) ps
      → AreKeyed ps
      → AreKeyed (insert_by behind p ps)
  unfolding insert_by
  insert_by-AreKeyed p [] d k = (tt, tt)
  insert_by-AreKeyed p (q ∷ ps) (d, ds) (h, k) = elim (Bool-cases (behind p q)) [
    | inl later ↦ rw later (
      insert_by-All behind (λ x. eq_str x.id q.id ≡ false) p ps (eq_str_sym q.id p.id d) h,
      insert_by-AreKeyed p ps ds k,
    )
    | inr before ↦ rw before ((d, ds), (h, k))
  ]

  -- Sorting keeps the identifiers distinct.
  pub order_by-AreKeyed : (ps : List PollRow) → AreKeyed ps → AreKeyed (order_by behind ps)
  unfolding order_by
  order_by-AreKeyed [] k = tt
  order_by-AreKeyed (p ∷ ps) (d, k) =
      insert_by-AreKeyed p (order_by behind ps)
        (order_by-All behind (λ q. eq_str q.id p.id ≡ false) ps d) (order_by-AreKeyed ps k)

pub take-AreKeyed : (n : ℕ) (ps : List PollRow) → AreKeyed ps → AreKeyed (take n ps)
take-AreKeyed zero ps k = tt
take-AreKeyed (suc n) [] k = tt
take-AreKeyed (suc n) (p ∷ ps) (d, k) =
    (All-take (λ q. eq_str q.id p.id ≡ false) n ps d, take-AreKeyed n ps k)
