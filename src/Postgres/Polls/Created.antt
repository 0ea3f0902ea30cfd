-- ===== src/Postgres/Polls/Created.antt =====
-- A created poll is stored as it was returned.
use mipttest_task.Base.{
  ℕ, suc, ◌+◌, ◌*◌, ◌/◌, ◌<◌, ◌≡◌, refl, sym, ap, subst, ◌∙◌, inl, inr, true, false, ◌&&◌, not,
  Option, List, [], ◌∷◌, ◌++◌, map, arith, if◌then◌else◌, Str, eq_str, eq_str_iff, eq_str_refl,
  Bool-cases, trim_space, length, ◌≤◌, filter, All, All-append, append_assoc, append-nil, all,
  count_p,
}
use mipttest_task.Postgres.Polls.Named.{uuid_of-new_uuid}
use mipttest_task.Domain.Errors.{Result, ok, err, bind-ok, ok-injective}
use mipttest_task.Domain.Poll.{Time, Poll, PollOption, CreatePoll, validate}
use mipttest_task.Domain.Poll.Validation.{validate_iff}
use mipttest_task.Domain.Uuid.{new_uuid}
use mipttest_task.Store.Wire.{Wire, answered, lost, unacknowledged}
use mipttest_task.Postgres.Tables.{uuid_of, PollRow, OptionRow, Tables}
use mipttest_task.Postgres.Calls.{Calls, no_faults, answer, answer-ok}
use mipttest_task.Postgres.Reads.{order_by, options_of, option_of, get_by_id, poll_of}
use mipttest_task.Postgres.Reads.Found.{
  option_behind, sorted_options, insert_by-last, get_by_id_unique, filter-none,
  length-sorted_options,
}
use mipttest_task.Postgres.Polls.{
  insert_poll, insert_option, insert_options, new_row, stored_row, created, committed, create,
}

pub insert_option-ok :
    (o : OptionRow) (t t1 : Tables)
    → insert_option o t ≡ ok t1
    → t1 ≡ record t { poll_options = o ∷ t.poll_options }
unfolding insert_option
insert_option-ok o t t1 h = ground arith

options_of-own :
    (id : Str) (o : OptionRow) (os : List OptionRow)
    → o.poll_id ≡ id
    → options_of id (o ∷ os) ≡ o ∷ options_of id os
options_of-own id o os h =
    ap (λ b. if b then o ∷ options_of id os else options_of id os) ((eq_str_iff o.poll_id id).1 h)

abbrev sorted_rows : Str → List OptionRow → List OptionRow
sorted_rows id os = order_by option_behind (options_of id os)

map-append :
    (xs ys : List OptionRow) → map option_of (xs ++ ys) ≡ map option_of xs ++ map option_of ys
map-append [] ys = refl
map-append (x ∷ xs) ys = ap (λ rest. option_of x ∷ rest) (map-append xs ys)

All-behind :
    (o : OptionRow) (os : List OptionRow)
    → All (λ r. r.position < o.position) os
    → All (λ r. option_behind o r ≡ true) os
All-behind o [] h = tt
All-behind o (r ∷ os) (h, g) = (ground arith, All-behind o os g)

All-raise :
    (i : ℕ) (os : List OptionRow) → All (λ r. r.position < i) os → All (λ r. r.position < suc i) os
All-raise i [] h = tt
All-raise i (r ∷ os) (h, g) = (omega arith, All-raise i os g)

-- A row of the highest position comes last.
sorted_rows-cons :
    (id : Str) (o : OptionRow) (os : List OptionRow)
    → o.poll_id ≡ id
    → All (λ r. r.position < o.position) (sorted_rows id os)
    → sorted_rows id (o ∷ os) ≡ sorted_rows id os ++ (o ∷ [])
unfolding order_by
sorted_rows-cons id o os own low =
    ap (order_by option_behind) (options_of-own id o os own)
    ∙ insert_by-last option_behind o (sorted_rows id os) (All-behind o _ low)

module _ (random : ℕ → Option (List ℕ)) (calls : Calls) (id : Str) where
  -- The options that a loop from position `i` on inserts stand behind those of lower positions.
  insert_options-sorted :
      (i : ℕ) (texts : List Str) (t : Tables) (os : List PollOption) (t2 : Tables)
      → insert_options random calls id i texts t ≡ ok (os, t2)
      → All (λ o. o.position < i) (sorted_rows id t.poll_options)
      → (t2.polls ≡ t.polls)
        × (sorted_options id t2.poll_options ≡ sorted_options id t.poll_options ++ os)
        × (length os ≡ length texts)
  unfolding insert_options
  insert_options-sorted i [] t os t2 h low =
      let pair = ok-injective h in
      let no_options : os ≡ [] = ap (λ x. x.0) (sym pair) in
      let same : t2 ≡ t = ap (λ x. x.1) (sym pair) in
      rw (no_options, same) (refl, sym (append-nil _), refl)
  insert_options-sorted i (text ∷ texts) t os t2 h low =
      let (new_id, _, h1) = bind-ok (new_uuid (random (suc i))) _ (os, t2) h in
      let o : OptionRow = record {
        id = new_id;
        poll_id = id;
        text = trim_space text;
        position = i;
      } in
      let (t1, inserted, h2) = bind-ok (answer (calls (2 + i)) (insert_option o t)) _ (os, t2) h1 in
      let (more, rest, h3) =
        bind-ok (insert_options random calls id (suc i) texts t1) _ (os, t2) h2 in
      let t1_is = insert_option-ok o t t1 (answer-ok (calls (2 + i)) _ t1 inserted) in
      let rows : sorted_rows id t1.poll_options ≡ sorted_rows id t.poll_options ++ (o ∷ []) =
        ap (λ (x : Tables). sorted_rows id x.poll_options) t1_is
        ∙ sorted_rows-cons id o t.poll_options refl low in
      let low1 : All (λ r. r.position < suc i) (sorted_rows id t1.poll_options) =
        subst (All (λ r. r.position < suc i)) (sym rows) (
          All-append (λ (r : OptionRow). r.position < suc i) _ (o ∷ []) (All-raise i _ low)
            (omega arith, tt)) in
      let (polls, sorted, count) = insert_options-sorted (suc i) texts t1 more.0 more.1 rest low1 in
      let pair = ok-injective h3 in
      let all_options : os ≡ option_of o ∷ more.0 = ap (λ x. x.0) (sym pair) in
      let same : t2 ≡ more.1 = ap (λ x. x.1) (sym pair) in
      (
        ap (λ (x : Tables). x.polls) same ∙ polls ∙ ap (λ (x : Tables). x.polls) t1_is,
        ap (λ (x : Tables). sorted_options id x.poll_options) same
            ∙ sorted
            ∙ ap (λ r. map option_of r ++ more.0) rows
            ∙ ap (λ r. r ++ more.0) (map-append (sorted_rows id t.poll_options) (o ∷ []))
            ∙ append_assoc (sorted_options id t.poll_options) (option_of o ∷ []) more.0
            ∙ ap (λ r. sorted_options id t.poll_options ++ r) (sym all_options),
        ap length all_options ∙ ap suc count,
      )

order_by_nil : order_by option_behind [] ≡ []
unfolding order_by
order_by_nil = refl

filter_cons :
    (row : PollRow) (ps : List PollRow)
    → filter (λ p. eq_str p.id row.id) ps ≡ []
    → filter (λ p. eq_str p.id row.id) (row ∷ ps) ≡ row ∷ []
filter_cons row ps h = rw (eq_str_refl row.id, h) refl

-- Every option belongs to a poll that is there: the foreign key.
abbrev pub HaveOwners : Tables → Type 0
HaveOwners t = All (λ o. 0 < count_p (λ p. eq_str p.id o.poll_id) t.polls) t.poll_options

pub insert_poll-ok :
    (p : PollRow) (t t1 : Tables)
    → insert_poll p t ≡ ok t1
    → (t1 ≡ record t { polls = p ∷ t.polls })
      × (all (λ q. not (eq_str q.id p.id) && not (eq_str q.slug p.slug)) t.polls ≡ true)
unfolding insert_poll
insert_poll-ok p t t1 h = ground arith

pub fresh-all :
    (p : PollRow) (ps : List PollRow)
    → all (λ q. not (eq_str q.id p.id) && not (eq_str q.slug p.slug)) ps ≡ true
    → All (λ q. eq_str q.id p.id ≡ false) ps
fresh-all p [] h = tt
fresh-all p (q ∷ ps) h = (ground arith, fresh-all p ps (ground arith))

none_own :
    (id : Str) (ps : List PollRow)
    → All (λ q. eq_str q.id id ≡ false) ps
    → count_p (λ p. eq_str p.id id) ps ≡ 0
none_own id [] h = refl
none_own id (p ∷ ps) (h, g) = rw h (none_own id ps g)

options_of-fresh :
    (id : Str) (ps : List PollRow) (os : List OptionRow)
    → count_p (λ p. eq_str p.id id) ps ≡ 0
    → All (λ o. 0 < count_p (λ p. eq_str p.id o.poll_id) ps) os
    → options_of id os ≡ []
options_of-fresh id ps [] z h = refl
options_of-fresh id ps (o ∷ os) z (h, g) = elim (Bool-cases (eq_str o.poll_id id)) [
  | inl same ↦
      let own : o.poll_id ≡ id = (eq_str_iff o.poll_id id).0 same in
      absurd (omega (arith, z, subst (λ i. 0 < count_p (λ p. eq_str p.id i) ps) own h))
  | inr other ↦ rw other (options_of-fresh id ps os z g)
]

committed-ok :
    (w : Wire) (t : Tables) (r : Result (Poll × Tables)) (p : Poll)
    → (committed w t r).0 ≡ ok p
    → r ≡ ok (p, (committed w t r).1)
committed-ok answered t (ok (q, after)) p h = ap (λ x. ok (x, after)) (ok-injective h)
committed-ok lost t (ok r) p h = cc
committed-ok unacknowledged t (ok r) p h = cc
committed-ok w t (err e) p h = cc

module _ (random : ℕ → Option (List ℕ)) (calls : Calls) (buckets : ℕ) (c : CreatePoll) (now : Time)
    (t : Tables) where
  pub created-ok :
      (p : Poll) (t3 : Tables)
      → created random calls buckets c now t ≡ ok (p, t3)
      → (validate c ≡ ok tt)
        × ((id : Str) × (t1 : Tables) × (os : List PollOption) × (insert_poll
                (stored_row (new_row buckets c now id))
                t
              ≡ ok t1)
            × (insert_options random calls id 0 c.options t1 ≡ ok (os, t3))
            × (p ≡ poll_of (new_row buckets c now id) os)
            × (uuid_of id ≡ id))
  unfolding created
  created-ok p t3 made =
      let (_, accepted, h1) = bind-ok (validate c) _ (p, t3) made in
      let (id, named, h2) = bind-ok (new_uuid (random 0)) _ (p, t3) h1 in
      let (_, _, h3) = bind-ok (answer (calls 0) (ok tt)) _ (p, t3) h2 in
      let (t1, inserted, h4) =
        bind-ok (answer (calls 1) (insert_poll (stored_row (new_row buckets c now id)) t)) _ (p, t3)
          h3 in
      let (more, rest, h5) = bind-ok (insert_options random calls id 0 c.options t1) _ (p, t3) h4 in
      let pair = ok-injective h5 in
      (
        accepted,
        (
          id,
          t1,
          more.0,
          answer-ok (calls 1) _ t1 inserted,
          rest ∙ ap (λ x. ok (more.0, x)) (ap (λ x. x.1) pair),
          sym (ap (λ x. x.0) pair),
          uuid_of-new_uuid (random 0) id named,
        ),
      )

  stored :
      (id : Str) (t1 t3 : Tables) (os : List PollOption) (i : ℕ)
      → uuid_of id ≡ id
      → HaveOwners t
      → 0 < length c.options
      → insert_poll (stored_row (new_row buckets c now id)) t ≡ ok t1
      → insert_options random calls id 0 c.options t1 ≡ ok (os, t3)
      → (get_by_id no_faults i id t3 ≡ ok (poll_of (stored_row (new_row buckets c now id)) os))
        × (length os ≡ length c.options)
  stored id t1 t3 os i canonical owners n inserted rest =
      let row = stored_row (new_row buckets c now id) in
      let (t1_is, fresh) = insert_poll-ok row t t1 inserted in
      let others = fresh-all row t.polls fresh in
      let no_options : options_of id t1.poll_options ≡ [] =
        ap (λ (x : Tables). options_of id x.poll_options) t1_is
        ∙ options_of-fresh id t.polls t.poll_options (none_own id t.polls others) owners in
      let none_sorted : sorted_rows id t1.poll_options ≡ [] =
        ap (order_by option_behind) no_options ∙ order_by_nil in
      let (polls, sorted, count) =
        insert_options-sorted random calls id 0 c.options t1 os t3 rest
          (subst (All (λ o. o.position < 0)) (sym none_sorted) tt) in
      let only : filter (λ p. eq_str p.id id) t3.polls ≡ row ∷ [] =
        ap (filter (λ p. eq_str p.id id)) (polls ∙ ap (λ (x : Tables). x.polls) t1_is)
        ∙ filter_cons row t.polls (filter-none id t.polls others) in
      let options : sorted_options id t3.poll_options ≡ os =
        sorted ∙ ap (λ r. map option_of r ++ os) none_sorted in
      let some_option : 0 < length (options_of id t3.poll_options) =
        subst (λ k. 0 < k)
          (sym count ∙ ap length (sym options) ∙ length-sorted_options id t3.poll_options) n in
      (
        get_by_id_unique i id t3 row
              (ap (λ k. filter (λ p. eq_str p.id k) t3.polls) canonical ∙ only) some_option
            ∙ ap (λ r. ok (poll_of row r)) options,
        count,
      )

  abbrev in_microseconds : Poll → Poll
  in_microseconds p = record p {
    starts_at = p.starts_at / 1000 * 1000;
    ends_at = p.ends_at / 1000 * 1000;
    created_at = p.created_at / 1000 * 1000;
    updated_at = p.updated_at / 1000 * 1000;
  }

  -- Whatever the random bytes and however the calls end, a poll that `Create` returns is the one that a
  -- query by its identifier reads behind it, its instants cut to microseconds, with the same options in
  -- the same order, as many as the request names, if every option that was there had its poll.
  pub create-get_by_id :
      (p : Poll) (i : ℕ)
      → HaveOwners t
      → (create random calls buckets c now t).0 ≡ ok p
      → (get_by_id no_faults i p.id (create random calls buckets c now t).1
          ≡ ok (record p {
            starts_at = p.starts_at / 1000 * 1000;
            ends_at = p.ends_at / 1000 * 1000;
            created_at = p.created_at / 1000 * 1000;
            updated_at = p.updated_at / 1000 * 1000;
          }))
        × (length p.options ≡ length c.options)
  unfolding create
  create-get_by_id p i owners h =
      let made =
        committed-ok (calls (2 + length c.options)) t (created random calls buckets c now t) p h in
      let t3 = (create random calls buckets c now t).1 in
      let (accepted, (id, t1, os, inserted, rest, p_is, canonical)) = created-ok p t3 made in
      let many : 2 ≤ length c.options = ((validate_iff c).0 accepted).few in
      let (read, count) = stored id t1 t3 os i canonical owners (omega arith) inserted rest in
      (
        ap (λ (x : Poll). get_by_id no_faults i x.id t3) p_is
            ∙ read
            ∙ ap (λ (x : Poll). ok (in_microseconds x)) (sym p_is),
        ap (λ (x : Poll). length x.options) p_is ∙ count,
      )
