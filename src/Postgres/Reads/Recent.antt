-- ===== src/Postgres/Reads/Recent.antt =====
-- `ListRecent` returns the newest polls that have options, newest first, each with its options.
use mipttest_task.Base.{
  ℕ, ◌≡◌, refl, sym, ap, ◌∙◌, inl, inr, Bool, Bool-cases, true, false, not, List, [], ◌∷◌, ◌++◌,
  map, arith, eq_str, eq_str_refl, if◌then◌else◌, All, take, append-nil, append_assoc, count_p,
}
use mipttest_task.Domain.Errors.{ok}
use mipttest_task.Domain.Poll.{Poll, PollOption}
use mipttest_task.Postgres.Tables.{PollRow, OptionRow, Tables}
use mipttest_task.Postgres.Calls.{no_faults}
use mipttest_task.Postgres.Reads.{
  Joined, insert_by, order_by, options_of, join, option_of, poll_of, is_older, recent_behind,
  starts_poll, add_option_to, scan_recent, in_order, list_recent,
}
use mipttest_task.Postgres.Reads.Found.{
  AreKeyed, option_behind, sorted_options, pair_with, order_by-All, count_p-order_by, join-All,
}
use mipttest_task.Postgres.Reads.Sorted.{
  IsSorted, take-IsSorted, is_older_irrefl, recent-IsSorted, eq_str_sym, order_by-AreKeyed,
  take-AreKeyed,
}

-- The polls that have options, each with them.
abbrev pub with_options : PollRow → List PollOption → List Poll → List Poll
with_options p [] rest = rest
with_options p (o ∷ os) rest = poll_of p (o ∷ os) ∷ rest

abbrev pub listed : List OptionRow → List PollRow → List Poll
listed os [] = []
listed os (p ∷ ps) = with_options p (sorted_options p.id os) (listed os ps)

-- The rows of the join in their order.
abbrev grouped : List OptionRow → List PollRow → List Joined
grouped os [] = []
grouped os (p ∷ ps) = pair_with p (order_by option_behind (options_of p.id os)) ++ grouped os ps

module _ (p : PollRow) where
  -- Polls that come behind this one.
  abbrev Follows : PollRow → Type 0
  Follows q = (is_older p q ≡ false) × (eq_str p.id q.id ≡ false)

  Follows-row : (o : OptionRow) (row : Joined) → Follows row.0 → recent_behind (p, o) row ≡ false
  Follows-row o (q, r) (h, g) = ground arith

  own_row : (o r : OptionRow) (b : Bool) → option_behind o r ≡ b → recent_behind (p, o) (p, r) ≡ b
  own_row o r b h = ground (arith, is_older_irrefl p, eq_str_refl p.id)

  insert_by-group :
      (o : OptionRow) (os : List OptionRow) (rest : List Joined)
      → All (λ row. Follows row.0) rest
      → insert_by recent_behind (p, o) (pair_with p os ++ rest)
        ≡ pair_with p (insert_by option_behind o os) ++ rest
  unfolding insert_by
  insert_by-group o [] [] h = refl
  insert_by-group o [] (row ∷ rest) (h, g) =
      ap (λ b. if b then row ∷ insert_by recent_behind (p, o) rest else (p, o) ∷ row ∷ rest)
        (Follows-row o row h)
  insert_by-group o (r ∷ os) rest h = elim (Bool-cases (option_behind o r)) [
    | inl later ↦
        ap
          (λ b.
            if b
            then (p, r) ∷ insert_by recent_behind (p, o) (pair_with p os ++ rest)
            else (p, o) ∷ (p, r) ∷ (pair_with p os ++ rest))
          (own_row o r true later)
        ∙ ap (λ rows. (p, r) ∷ rows) (insert_by-group o os rest h)
        ∙ ap (λ b. pair_with p (if b then r ∷ insert_by option_behind o os else o ∷ r ∷ os) ++ rest)
            (sym later)
    | inr before ↦
        ap
          (λ b.
            if b
            then (p, r) ∷ insert_by recent_behind (p, o) (pair_with p os ++ rest)
            else (p, o) ∷ (p, r) ∷ (pair_with p os ++ rest))
          (own_row o r false before)
        ∙ ap (λ b. pair_with p (if b then r ∷ insert_by option_behind o os else o ∷ r ∷ os) ++ rest)
            (sym before)
  ]

  order_by-group :
      (os : List OptionRow) (rest : List Joined)
      → All (λ row. Follows row.0) rest
      → order_by recent_behind (pair_with p os ++ rest)
        ≡ pair_with p (order_by option_behind os) ++ order_by recent_behind rest
  unfolding order_by
  order_by-group [] rest h = refl
  order_by-group (o ∷ os) rest h =
      ap (insert_by recent_behind (p, o)) (order_by-group os rest h)
      ∙ insert_by-group o (order_by option_behind os) (order_by recent_behind rest)
          (order_by-All recent_behind (λ row. Follows row.0) rest h)

  All-Follows :
      (ps : List PollRow)
      → All (λ q. is_older p q ≡ false) ps
      → All (λ q. eq_str q.id p.id ≡ false) ps
      → All Follows ps
  All-Follows [] h g = tt
  All-Follows (q ∷ ps) (h, hs) (g, gs) = ((h, eq_str_sym q.id p.id g), All-Follows ps hs gs)

order_by-join :
    (os : List OptionRow) (ps : List PollRow)
    → IsSorted is_older ps
    → AreKeyed ps
    → order_by recent_behind (join os ps) ≡ grouped os ps
unfolding join
order_by-join os [] s k = unfold order_by in refl
order_by-join os (p ∷ ps) (s, ss) (k, ks) =
    order_by-group p (options_of p.id os) (join os ps)
      (join-All (Follows p) os ps (All-Follows p ps s k))
    ∙ ap (λ rows. pair_with p (order_by option_behind (options_of p.id os)) ++ rows)
        (order_by-join os ps ss ks)

-- Further rows of the poll that was read last.
scan_recent-more :
    (p : PollRow) (acc : List PollOption) (polls : List Poll) (os : List OptionRow)
    (rest : List Joined)
    → scan_recent (poll_of p acc ∷ polls) (pair_with p os ++ rest)
      ≡ scan_recent (poll_of p (acc ++ map option_of os) ∷ polls) rest
unfolding scan_recent
scan_recent-more p acc polls [] rest =
    ap (λ options. scan_recent (poll_of p options ∷ polls) rest) (sym (append-nil acc))
scan_recent-more p acc polls (o ∷ os) rest =
    ap
      (λ b.
        scan_recent
          (add_option_to (option_of o)
            (if not b then poll_of p [] ∷ poll_of p acc ∷ polls else poll_of p acc ∷ polls))
          (pair_with p os ++ rest))
      (eq_str_refl p.id)
    ∙ scan_recent-more p (acc ++ option_of o ∷ []) polls os rest
    ∙ ap (λ options. scan_recent (poll_of p options ∷ polls) rest)
        (append_assoc acc (option_of o ∷ []) (map option_of os))

scan_recent-group :
    (p : PollRow) (polls : List Poll) (os : List OptionRow) (rest : List Joined)
    → starts_poll p polls ≡ true
    → scan_recent polls (pair_with p os ++ rest)
      ≡ scan_recent (with_options p (map option_of os) [] ++ polls) rest
unfolding scan_recent
scan_recent-group p polls [] rest h = refl
scan_recent-group p polls (o ∷ os) rest h =
    ap
      (λ b.
        scan_recent (add_option_to (option_of o) (if b then poll_of p [] ∷ polls else polls))
          (pair_with p os ++ rest))
      h
    ∙ scan_recent-more p (option_of o ∷ []) polls os rest

starts_behind :
    (p : PollRow) (options : List PollOption) (polls : List Poll) (ps : List PollRow)
    → All (λ q. eq_str q.id p.id ≡ false) ps
    → All (λ q. starts_poll q polls ≡ true) ps
    → All (λ q. starts_poll q (with_options p options [] ++ polls) ≡ true) ps
starts_behind p options polls [] k h = tt
starts_behind p options polls (q ∷ ps) (k, ks) (h, hs) =
    (by_options options, starts_behind p options polls ps ks hs)
  where
    by_options : (os : List PollOption) → starts_poll q (with_options p os [] ++ polls) ≡ true
    by_options [] = h
    by_options (o ∷ os) = ap not (eq_str_sym q.id p.id k)

-- Scanning the rows in their order leaves the polls from the last one on.
scan_recent-grouped :
    (os : List OptionRow) (ps : List PollRow) (polls : List Poll)
    → AreKeyed ps
    → All (λ q. starts_poll q polls ≡ true) ps
    → scan_recent polls (grouped os ps) ≡ in_order (listed os ps) polls
unfolding in_order
scan_recent-grouped os [] polls k h = unfold scan_recent in_order in refl
scan_recent-grouped os (p ∷ ps) polls (k, ks) (h, hs) =
    let options = sorted_options p.id os in
    scan_recent-group p polls (order_by option_behind (options_of p.id os)) (grouped os ps) h
    ∙ scan_recent-grouped os ps (with_options p options [] ++ polls) ks
        (starts_behind p options polls ps k hs)
    ∙ by_options options
  where
    by_options :
        (options : List PollOption)
        → in_order (listed os ps) (with_options p options [] ++ polls)
          ≡ in_order (with_options p options (listed os ps)) polls
    by_options [] = refl
    by_options (o ∷ options) = refl

in_order_twice : (xs ys zs : List Poll) → in_order (in_order xs ys) zs ≡ in_order ys (xs ++ zs)
unfolding in_order
in_order_twice [] ys zs = refl
in_order_twice (x ∷ xs) ys zs = in_order_twice xs (x ∷ ys) zs

no_polls_yet : (ps : List PollRow) → All (λ q. starts_poll q [] ≡ true) ps
no_polls_yet [] = tt
no_polls_yet (p ∷ ps) = (refl, no_polls_yet ps)

-- In a table of distinct identifiers, an answered listing returns the first `limit` polls of the table's
-- polls from the newest on, less those without options, each with its options by their positions. The
-- polls from the newest on are those of the table, each as often, and none of them is newer than one
-- before it.
pub list_recent-listed :
    (i limit : ℕ) (t : Tables)
    → AreKeyed t.polls
    → let newest = order_by is_older t.polls in
      (list_recent no_faults i limit t ≡ ok (listed t.poll_options (take limit newest)))
      × IsSorted is_older newest
      × ((test : PollRow → Bool) → count_p test newest ≡ count_p test t.polls)
unfolding list_recent
list_recent-listed i limit t k =
    let newest = order_by is_older t.polls in
    let ps = take limit newest in
    let keyed = take-AreKeyed limit newest (order_by-AreKeyed is_older t.polls k) in
    let sorted = recent-IsSorted t.polls in
    let polls = listed t.poll_options ps in
    (
      ap (λ rows. ok (in_order (scan_recent [] rows) []))
            (order_by-join t.poll_options ps (take-IsSorted is_older limit newest sorted) keyed)
          ∙ ap (λ scanned. ok (in_order scanned []))
              (scan_recent-grouped t.poll_options ps [] keyed (no_polls_yet ps))
          ∙ ap ok (in_order_twice polls [] [] ∙ unfold in_order in append-nil polls),
      sorted,
      λ test. count_p-order_by is_older test t.polls,
    )
