-- ===== src/Postgres/Reads/Found.antt =====
-- What a query for one poll returns: the poll's row with its options, in the order of their positions.
use mipttest_task.Base.{
  ℕ, suc, ◌<◌, ◌≡◌, refl, sym, ap, subst, ◌∙◌, inl, inr, Bool, true, false, Option, none, some,
  List, [], ◌∷◌, ◌++◌, map, arith, ltb, Str, eq_str, eq_str_iff, Bool-cases, length, filter,
  count_p, All, All-append, length-map, append_assoc, append-nil,
}
use mipttest_task.Domain.Errors.{ok, ◌>>=◌}
use mipttest_task.Domain.Poll.{Poll, PollOption}
use mipttest_task.Store.Wire.{Wire, answered, lost, unacknowledged}
use mipttest_task.Postgres.Tables.{uuid_of, PollRow, OptionRow, Tables, find_poll}
use mipttest_task.Postgres.Calls.{Calls, answer, no_faults}
use mipttest_task.Postgres.Reads.{
  Joined, insert_by, order_by, by_position, options_of, join, option_of, poll_of, gathered,
  scan_poll, found, get, get_by_id,
}

module _ {ℓ} {A : Type ℓ} (behind : A → A → Bool) where
  count_p-insert_by :
      (p : A → Bool) (a : A) (bs : List A) → count_p p (insert_by behind a bs) ≡ count_p p (a ∷ bs)
  unfolding insert_by
  count_p-insert_by p a [] = refl
  count_p-insert_by p a (b ∷ bs) = ground (arith, count_p-insert_by p a bs)

  -- Sorting keeps every row as often as it stands there.
  pub count_p-order_by :
      (p : A → Bool) (xs : List A) → count_p p (order_by behind xs) ≡ count_p p xs
  unfolding order_by
  count_p-order_by p [] = refl
  count_p-order_by p (a ∷ rest) =
      count_p-insert_by p a (order_by behind rest) ∙ ground (arith, count_p-order_by p rest)

  pub insert_by-All {κ} :
      (P : A → Type κ) (a : A) (bs : List A) → P a → All P bs → All P (insert_by behind a bs)
  unfolding insert_by
  insert_by-All P a [] h _ = (h, tt)
  insert_by-All P a (b ∷ bs) h (g, rest) = elim (Bool-cases (behind a b)) [
    | inl later ↦ rw later (g, insert_by-All P a bs h rest)
    | inr before ↦ rw before (h, (g, rest))
  ]

  pub order_by-All {κ} : (P : A → Type κ) (xs : List A) → All P xs → All P (order_by behind xs)
  unfolding order_by
  order_by-All P [] h = tt
  order_by-All P (a ∷ rest) (h, g) = insert_by-All P a _ h (order_by-All P rest g)

  -- A row that goes behind all others.
  pub insert_by-last :
      (a : A) (bs : List A)
      → All (λ b. behind a b ≡ true) bs
      → insert_by behind a bs ≡ bs ++ (a ∷ [])
  unfolding insert_by
  insert_by-last a [] h = refl
  insert_by-last a (b ∷ bs) (h, g) = rw h (ap (λ cs. b ∷ cs) (insert_by-last a bs g))

scan_poll-same :
    (q : PollRow) (acc : Option Poll) (row : Joined) (rows : List Joined)
    → All (λ r. r.0 ≡ q) (row ∷ rows)
    → scan_poll acc (row ∷ rows)
      ≡ some (poll_of q (gathered acc ++ map (λ r. option_of r.1) (row ∷ rows)))
unfolding scan_poll
scan_poll-same q acc (p, o) [] (h, _) =
    ap (λ x. some (poll_of x (gathered acc ++ (option_of o ∷ [])))) h
scan_poll-same q acc (p, o) (next ∷ rows) (h, g) =
    scan_poll-same q (some (poll_of p (gathered acc ++ (option_of o ∷ [])))) next rows g
    ∙ ap (λ os. some (poll_of q os))
        (append_assoc (gathered acc) (option_of o ∷ []) (map (λ r. option_of r.1) (next ∷ rows)))

-- The polls have different identifiers: the primary key.
abbrev pub AreKeyed : List PollRow → Type 0
AreKeyed [] = Unit
AreKeyed (p ∷ ps) = All (λ q. eq_str q.id p.id ≡ false) ps × AreKeyed ps

pub filter-none :
    (id : Str) (ps : List PollRow)
    → All (λ q. eq_str q.id id ≡ false) ps
    → filter (λ p. eq_str p.id id) ps ≡ []
filter-none id [] h = refl
filter-none id (p ∷ ps) (h, g) = rw h (filter-none id ps g)

filter-key :
    (id : Str) (ps : List PollRow) (q : PollRow)
    → AreKeyed ps
    → find_poll id ps ≡ some q
    → filter (λ p. eq_str p.id id) ps ≡ q ∷ []
unfolding find_poll
filter-key id [] q k h = cc
filter-key id (p ∷ ps) q (d, k) h = elim (Bool-cases (eq_str p.id id)) [
  | inl same ↦
      let own : p.id ≡ id = (eq_str_iff p.id id).0 same in
      let none_left = filter-none id ps (subst (λ i. All (λ r. eq_str r.id i ≡ false) ps) own d) in
      ground (arith, none_left)
  | inr other ↦ ground (arith, filter-key id ps q k)
]

abbrev pub option_behind : OptionRow → OptionRow → Bool
option_behind a b = ltb b.position a.position

-- The options of a poll in the order in which its query returns them.
abbrev pub sorted_options : Str → List OptionRow → List PollOption
sorted_options id os = map option_of (order_by option_behind (options_of id os))

abbrev pub pair_with : PollRow → List OptionRow → List Joined
pair_with q os = map (λ o. (q, o)) os

insert_by-pair_with :
    (q : PollRow) (o : OptionRow) (os : List OptionRow)
    → insert_by by_position (q, o) (pair_with q os) ≡ pair_with q (insert_by option_behind o os)
unfolding insert_by
insert_by-pair_with q o [] = refl
insert_by-pair_with q o (r ∷ os) = elim (Bool-cases (ltb r.position o.position)) [
  | inl later ↦ rw later (ap (λ rs. (q, r) ∷ rs) (insert_by-pair_with q o os))
  | inr before ↦ rw before refl
]

order_by-pair_with :
    (q : PollRow) (os : List OptionRow)
    → order_by by_position (pair_with q os) ≡ pair_with q (order_by option_behind os)
unfolding order_by
order_by-pair_with q [] = refl
order_by-pair_with q (o ∷ os) =
    ap (insert_by by_position (q, o)) (order_by-pair_with q os)
    ∙ insert_by-pair_with q o (order_by option_behind os)

map-pair_with :
    (q : PollRow) (os : List OptionRow)
    → map (λ r. option_of r.1) (pair_with q os) ≡ map option_of os
map-pair_with q [] = refl
map-pair_with q (o ∷ os) = ap (λ rest. option_of o ∷ rest) (map-pair_with q os)

map-All :
    (q : PollRow) (os : List OptionRow) → All (λ r. r.0 ≡ q) (map {B = Joined} (λ o. (q, o)) os)
map-All q [] = tt
map-All q (o ∷ os) = (refl, map-All q os)

join-one :
    (os : List OptionRow) (q : PollRow) → join os (q ∷ []) ≡ map (λ o. (q, o)) (options_of q.id os)
unfolding join
join-one os q = append-nil _

scanned :
    (q : PollRow) (rows : List Joined)
    → All (λ r. r.0 ≡ q) rows
    → 0 < length rows
    → scan_poll none rows ≡ some (poll_of q (map (λ r. option_of r.1) rows))
scanned q [] h n = absurd (omega arith)
scanned q (row ∷ rows) h n = scan_poll-same q none row rows h

pub length-count : {A : Type 0} (xs : List A) → count_p (λ x. true) xs ≡ length xs
length-count [] = refl
length-count (x ∷ xs) = ap suc (length-count xs)

pub length-sorted_options :
    (id : Str) (os : List OptionRow) → length (sorted_options id os) ≡ length (options_of id os)
length-sorted_options id os =
    length-map _ _
    ∙ sym (length-count (order_by option_behind (options_of id os)))
    ∙ count_p-order_by option_behind (λ x. true) (options_of id os)
    ∙ length-count (options_of id os)

pub get_by_id_unique :
    (i : ℕ) (id : Str) (t : Tables) (q : PollRow)
    → filter (λ p. eq_str p.id (uuid_of id)) t.polls ≡ q ∷ []
    → 0 < length (options_of q.id t.poll_options)
    → get_by_id no_faults i id t ≡ ok (poll_of q (sorted_options q.id t.poll_options))
unfolding get
get_by_id_unique i id t q only n =
    let os = options_of q.id t.poll_options in
    let sorted = order_by option_behind os in
    let count : length (pair_with q sorted) ≡ length os =
      length-map _ _
      ∙ sym (length-map option_of sorted)
      ∙ length-sorted_options q.id t.poll_options in
    rw
      (
        only,
        join-one t.poll_options q,
        order_by-pair_with q os,
        scanned q (pair_with q sorted) (map-All q sorted) (omega arith),
        map-pair_with q sorted,
      )
      refl

-- A query by identifier finds the poll's row and its options, sorted by position.
pub get_by_id-found :
    (i : ℕ) (id : Str) (t : Tables) (q : PollRow)
    → AreKeyed t.polls
    → find_poll (uuid_of id) t.polls ≡ some q
    → 0 < length (options_of q.id t.poll_options)
    → get_by_id no_faults i id t ≡ ok (poll_of q (sorted_options q.id t.poll_options))
get_by_id-found i id t q k h n = get_by_id_unique i id t q (filter-key (uuid_of id) t.polls q k h) n

filter-own : (id : Str) (ps : List PollRow) → All (λ q. q.id ≡ id) (filter (λ p. eq_str p.id id) ps)
filter-own id [] = tt
filter-own id (p ∷ ps) = elim (Bool-cases (eq_str p.id id)) [
  | inl same ↦ rw same ((eq_str_iff p.id id).0 same, filter-own id ps)
  | inr other ↦ rw other (filter-own id ps)
]

-- What holds of each poll holds of each row of the join.
module _ (P : PollRow → Type 0) where
  pair_with-All : (q : PollRow) (os : List OptionRow) → P q → All (λ r. P r.0) (pair_with q os)
  pair_with-All q [] h = tt
  pair_with-All q (o ∷ os) h = (h, pair_with-All q os h)

  pub join-All :
      (os : List OptionRow) (ps : List PollRow) → All P ps → All (λ r. P r.0) (join os ps)
  unfolding join
  join-All os [] h = tt
  join-All os (p ∷ ps) (h, g) =
      All-append (λ (r : Joined). P r.0) _ _ (pair_with-All p (options_of p.id os) h)
        (join-All os ps g)

scan_poll-id :
    (id : Str) (rows : List Joined) (acc : Poll)
    → All (λ r. r.0.id ≡ id) rows
    → acc.id ≡ id
    → (p : Poll) × (scan_poll (some acc) rows ≡ some p) × (p.id ≡ id)
unfolding scan_poll
scan_poll-id id [] acc h e = (acc, refl, e)
scan_poll-id id ((row, o) ∷ rows) acc (h, g) e =
    scan_poll-id id rows (poll_of row (acc.options ++ (option_of o ∷ []))) g h

found-id :
    (id : Str) (rows : List Joined) (p : Poll)
    → All (λ r. r.0.id ≡ id) rows
    → found (scan_poll none rows) ≡ ok p
    → p.id ≡ id
unfolding scan_poll
found-id id [] p h e = cc
found-id id ((row, o) ∷ rows) p (h, g) e =
    let (q, scanned_to, own) = scan_poll-id id rows (poll_of row (option_of o ∷ [])) g h in
    let same : q ≡ p = ok-same (sym (ap found scanned_to) ∙ e) in
    ap (λ (x : Poll). x.id) (sym same) ∙ own
  where
    ok-same : {x y : Poll} → ok x ≡ ok y → x ≡ y
    ok-same k = cc

-- A poll that a query by identifier returns has that identifier, in lower case.
pub get_by_id-id :
    (calls : Calls) (i : ℕ) (id : Str) (t : Tables) (p : Poll)
    → get_by_id calls i id t ≡ ok p
    → p.id ≡ uuid_of id
unfolding get
get_by_id-id calls i id t p h =
    let rows =
      order_by by_position (join t.poll_options (filter (λ q. eq_str q.id (uuid_of id)) t.polls)) in
    found-id (uuid_of id) rows p
      (order_by-All by_position (λ r. r.0.id ≡ uuid_of id) _
        (join-All (λ q. q.id ≡ uuid_of id) t.poll_options _ (filter-own (uuid_of id) t.polls)))
      (read rows (calls i) h)
  where
    read :
        (rs : List Joined) (w : Wire)
        → (answer w (ok rs) >>= (λ x. found (scan_poll none x))) ≡ ok p
        → found (scan_poll none rs) ≡ ok p
    read rs answered k = k
    read rs lost k = cc
    read rs unacknowledged k = cc
