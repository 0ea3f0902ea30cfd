-- ===== src/Service/Votes/Guarded.antt =====
-- What a vote has to pass before the store sees it.
use mipttest_task.Base.{
  ℕ, ◌+◌, ◌≤◌, ◌<◌, ◌≡◌, refl, sym, ap, ◌∙◌, ◌⊎◌, inl, inr, Bool, true, false, not, Option, none,
  some, List, arith, ltb, Str, eq_str, eq_str_iff, Bool-cases,
}
use mipttest_task.Base.Dict.{lookup, insert, lookup-insert}
use mipttest_task.Domain.Errors.{Result, ok, err, Error, not_active, ◌>>◌, fail_if}
use mipttest_task.Domain.Poll.{
  Time, PollStatus, active, draft, closed, is_status, Poll, VoteStatus, validate_selection,
}
use mipttest_task.Domain.Poll.Selection.{validate_selection_iff, IsAllowed}
use mipttest_task.Store.Votes.{record_vote}
use mipttest_task.Postgres.Reads.{get_by_id}
use mipttest_task.Postgres.Reads.Found.{get_by_id-id}
use mipttest_task.Postgres.Tables.{uuid_of, Tables}
use mipttest_task.Postgres.Calls.{Calls}
use mipttest_task.Service.World.{Loaded, Cache, World, Replica, Events}
use mipttest_task.Service.Cache.{cache_get, get_from, store_loaded, ensure, fresh, entry_of}
use mipttest_task.Service.Votes.{if_active, is_shut, command_for, checked, vote_on, vote}

is_status-active : (s : PollStatus) → is_status s active ≡ true → s ≡ active
is_status-active draft h = cc
is_status-active active h = refl
is_status-active closed h = cc

-- A poll that is open for votes.
pub is_shut_lem :
    (now : Time) (p : Poll)
    → is_shut now p ≡ false
    → (p.status ≡ active) × (p.starts_at ≤ now) × (now < p.ends_at)
is_shut_lem now p h = (is_status-active p.status (ground arith), ground arith, ground arith)

-- Where the cache got the poll that it answers with: it held it, not expired, or the loader returned it.
pub cache_get-source :
    (ttl : ℕ) (now later : Time) (id : Str) (loaded : Result Poll) (c : Cache) (p : Poll)
    → (cache_get ttl now later id loaded c).0 ≡ ok p
    → ((e : Loaded) × (lookup id c ≡ some (some e)) × (now < e.expires) × (e.poll ≡ p))
      ⊎ (loaded ≡ ok p)
unfolding cache_get
cache_get-source ttl now later id loaded c p h = from_entry (lookup id c) refl h
  where
    from_store :
        (result : Result Poll) (d : Cache)
        → (store_loaded ttl later id result d).0 ≡ ok p
        → result ≡ ok p
    from_store (ok q) d k = k
    from_store (err e) d k = cc

    from_entry :
        (o : Option (Option Loaded))
        → lookup id c ≡ o
        → (get_from ttl later id loaded (ensure id c) (fresh now (entry_of o))).0 ≡ ok p
        → ((e : Loaded) × (lookup id c ≡ some (some e)) × (now < e.expires) × (e.poll ≡ p))
          ⊎ (loaded ≡ ok p)
    from_entry none e k = inr (from_store loaded (ensure id c) k)
    from_entry (some none) e k = inr (from_store loaded (ensure id c) k)
    from_entry (some (some held)) e k = elim (Bool-cases (ltb now held.expires)) [
      | inl young ↦ inl (held, e, ground arith, ground arith)
      | inr old ↦ inr (from_store loaded (ensure id c) (ground arith))
    ]

module _ {Db : Type 0} (r : Replica Db) where
  checked-cases :
      (b : Bool) (v : Result (Unit {0})) (d : Db) (called : Result VoteStatus × Db)
      → let out = checked r b v d called in
        (((e : Error) × (out.0 ≡ err e)) × (out.1 ≡ d))
        ⊎ ((b ≡ false) × (v ≡ ok tt) × (out ≡ called))
  checked-cases true v d called = inl ((not_active, refl), refl)
  checked-cases false (err e) d called = inl ((e, refl), refl)
  checked-cases false (ok _) d called = inr (refl, refl, refl)

  vote_on-guarded :
      (ev : Events) (now : Time) (device_id : Str) (ids : List Str) (d : Db) (found : Result Poll)
      → let out = vote_on r ev now device_id ids d found in
        (((e : Error) × (out.0 ≡ err e)) × (out.1 ≡ d))
        ⊎ ((p : Poll) × (found ≡ ok p)
            × (p.status ≡ active)
            × (p.starts_at ≤ now)
            × (now < p.ends_at)
            × IsAllowed p ids
            × (out
                ≡ record_vote r.redis r.sum256 r.store
                    (ev.wire 0)
                    (ev.clock 2)
                    (command_for r p device_id ids)
                    d))
  vote_on-guarded ev now device_id ids d (err e) = inl ((e, refl), refl)
  vote_on-guarded ev now device_id ids d (ok p) =
      elim (checked-cases (is_shut now p) (validate_selection p ids) d (
        record_vote r.redis r.sum256 r.store (ev.wire 0) (ev.clock 2)
          (command_for r p device_id ids) d)) [
            | inl refused ↦ inl refused
            | inr (shut, valid, out) ↦
                let (s, low, high) = is_shut_lem now p shut in
                inr (p, refl, s, low, high, (validate_selection_iff p ids).0 valid, out)
          ]

  -- A vote is either refused with an error and leaves Redis as it is, or the poll that the cache answers
  -- with is active, the time is within its period and the selection is allowed, and what happens is what
  -- the store makes of the command. The database stays in either case.
  pub vote-guarded :
      (ev : Events) (now : Time) (poll_id device_id : Str) (ids : List Str) (w : World Db)
      → let (reply, w') = vote r ev now poll_id device_id ids w in
        let found =
          (cache_get r.cache_ttl
            (ev.clock 0)
            (ev.clock 1)
            poll_id
            (if_active (get_by_id ev.calls 0 poll_id w.tables))
            w.cache).0 in
        (w'.tables ≡ w.tables)
        × ((((e : Error) × (reply ≡ err e)) × (w'.db ≡ w.db))
            ⊎ ((p : Poll) × (found ≡ ok p)
                × (p.status ≡ active)
                × (p.starts_at ≤ now)
                × (now < p.ends_at)
                × IsAllowed p ids
                × ((reply, w'.db)
                    ≡ record_vote r.redis r.sum256 r.store
                        (ev.wire 0)
                        (ev.clock 2)
                        (command_for r p device_id ids)
                        w.db)))
  unfolding vote
  vote-guarded ev now poll_id device_id ids w = (refl, vote_on-guarded ev now device_id ids w.db _)

-- Every poll in the cache is held under a text of its identifier, in either case, and was active when it
-- was put there.
abbrev pub AreActive : Cache → Type 0
AreActive c =
    (id : Str) (e : Loaded)
    → lookup id c ≡ some (some e)
    → (e.poll.status ≡ active) × (e.poll.id ≡ uuid_of id)

pub insert-AreActive :
    (c : Cache) (id : Str) (o : Option Loaded)
    → AreActive c
    → ((e : Loaded) → o ≡ some e → (e.poll.status ≡ active) × (e.poll.id ≡ uuid_of id))
    → AreActive (insert id o c)
insert-AreActive c id o inv new j e h = elim (Bool-cases (eq_str id j)) [
  | inl same ↦
      let (a, b) = new e (ground (arith, lookup-insert id j o c)) in
      (a, b ∙ ap uuid_of ((eq_str_iff id j).0 same))
  | inr other ↦ inv j e (ground (arith, lookup-insert id j o c))
]

ensure-AreActive : (c : Cache) (id : Str) → AreActive c → AreActive (ensure id c)
ensure-AreActive c id inv = by_entry (lookup id c)
  where
    by_entry :
        (o : Option (Option Loaded)) → AreActive (elim o [ none ↦ insert id none c | some _ ↦ c ])
    by_entry none = insert-AreActive c id none inv (λ e h. cc)
    by_entry (some e) = inv

-- The cache keeps the invariant through a `Get` whose loader returns active polls of the
-- identifier, and the poll that it answers with is such a poll.
pub cache_get-AreActive :
    (ttl : ℕ) (now later : Time) (id : Str) (loaded : Result Poll) (c : Cache)
    → AreActive c
    → ((p : Poll) → loaded ≡ ok p → (p.status ≡ active) × (p.id ≡ uuid_of id))
    → let (reply, c') = cache_get ttl now later id loaded c in
      AreActive c' × ((p : Poll) → reply ≡ ok p → (p.status ≡ active) × (p.id ≡ uuid_of id))
unfolding cache_get
cache_get-AreActive ttl now later id loaded c inv good = (
  kept (fresh now (entry_of (lookup id c))) loaded good,
  λ p h. elim (cache_get-source ttl now later id loaded c p h) [
    | inl (e, held, young, same) ↦
        let (a, b) = inv id e held in
        (ap (λ (x : Poll). x.status) (sym same) ∙ a, ap (λ (x : Poll). x.id) (sym same) ∙ b)
    | inr returned ↦ good p returned
  ],
)
  where
    kept :
        (o : Option Poll) (result : Result Poll)
        → ((p : Poll) → result ≡ ok p → (p.status ≡ active) × (p.id ≡ uuid_of id))
        → AreActive (get_from ttl later id result (ensure id c) o).1
    kept (some p) result g = ensure-AreActive c id inv
    kept none (err e) g = ensure-AreActive c id inv
    kept none (ok p) g =
        insert-AreActive (ensure id c) id (some (record { poll = p; expires = later + ttl }))
          (ensure-AreActive c id inv)
          (λ e h.
            let own : e.poll ≡ p = ap (λ o. elim o [ none ↦ p | some x ↦ x.poll ]) (sym h) in
            let (a, b) = g p refl in
            (ap (λ (x : Poll). x.status) own ∙ a, ap (λ (x : Poll). x.id) own ∙ b))

-- The loader of a vote returns active polls alone.
pub if_active-good :
    (calls : Calls) (i : ℕ) (id : Str) (t : Tables) (p : Poll)
    → if_active (get_by_id calls i id t) ≡ ok p
    → (p.status ≡ active) × (p.id ≡ uuid_of id)
if_active-good calls i id t p h = by_reply (get_by_id calls i id t) refl h
  where
    by_status :
        (q : Poll) (b : Bool)
        → get_by_id calls i id t ≡ ok q
        → is_status q.status active ≡ b
        → (fail_if (not b) not_active >> ok q) ≡ ok p
        → (p.status ≡ active) × (p.id ≡ uuid_of id)
    by_status q false e f k = cc
    by_status q true e f k =
        let same : q ≡ p = ap (λ x. elim x [ err _ ↦ q | ok y ↦ y ]) k in
        (
          ap (λ (x : Poll). x.status) (sym same) ∙ is_status-active q.status f,
          ap (λ (x : Poll). x.id) (sym same) ∙ get_by_id-id calls i id t q e,
        )

    by_reply :
        (reply : Result Poll)
        → get_by_id calls i id t ≡ reply
        → if_active reply ≡ ok p
        → (p.status ≡ active) × (p.id ≡ uuid_of id)
    by_reply (err e) f k = cc
    by_reply (ok q) f k = by_status q (is_status q.status active) f refl k

module _ {Db : Type 0} (r : Replica Db) (ev : Events) (now : Time) (poll_id device_id : Str)
    (ids : List Str) where
  abbrev pub found_by : World Db → Result Poll
  found_by w =
      (cache_get r.cache_ttl (ev.clock 0) (ev.clock 1) poll_id
        (if_active (get_by_id ev.calls 0 poll_id w.tables)) w.cache).0

  -- Where the cache holds active polls alone, each under a text of its identifier, in either
  -- case, a vote keeps it so, and the poll that it gets is active and has the identifier of the vote in
  -- lower case: a draft is never cached.
  pub vote-AreActive :
      (w : World Db)
      → AreActive w.cache
      → AreActive (vote r ev now poll_id device_id ids w).1.cache
        × ((p : Poll) → found_by w ≡ ok p → (p.status ≡ active) × (p.id ≡ uuid_of poll_id))
  unfolding vote
  vote-AreActive w inv =
      cache_get-AreActive r.cache_ttl (ev.clock 0) (ev.clock 1) poll_id _ w.cache inv
        (if_active-good ev.calls 0 poll_id w.tables)
