-- ===== src/Store/Locks/Exclusion.antt =====
-- A lock has one holder at a time, only its holder releases it, and a window admits a bounded number of
-- requests.
use mipttest_task.Base.{
  ℕ, suc, ◌+◌, ◌*◌, ◌<◌, ◌^◌, ◌≡◌, refl, ap, ap₂, All, length, ◌∙◌, Bool, true, false, Option, none,
  some, List, [], ◌∷◌, ltb, ◌==◌, if◌then◌else◌, arith, Str, eq_str, eq_str_refl,
}
use mipttest_task.Base.Decimal.{itoa}
use mipttest_task.Domain.Errors.{ok}
use mipttest_task.Domain.Poll.{Time}
use mipttest_task.Redis.{Redis, RedisLaws, Entry, str, live, as_str, second}
use mipttest_task.Store.Wire.{answered}
use mipttest_task.Store.Locks.{
  lock_key, holds, acquire_lock, unlock_script, release_lock, rate_script,
}

ok_lem : {b : Bool} → ok b ≡ ok true → b ≡ true
ok_lem h = cc

module _ {Db : Type 0} (r : Redis Db) where
  -- Requests against one window, at the given times.
  unfoldable pub run_rate : Str → ℕ → List Time → Db → List ℕ × Db
  run_rate key limit [] d = ([], d)
  run_rate key limit (t ∷ ts) d =
      let (reply, d1) = rate_script r t key limit 65 d in
      let (replies, d2) = run_rate key limit ts d1 in (reply ∷ replies, d2)

abbrev pub verdicts : ℕ → ℕ → List Time → List ℕ
verdicts limit n [] = []
verdicts limit n (t ∷ ts) = (if ltb limit (suc n) then 0 else 1) ∷ verdicts limit (suc n) ts

module _ {Db : Type 0} (r : Redis Db) (laws : RedisLaws r) where
  abbrev lock_entry : Str → Time → ℕ → Entry
  lock_entry token now n = record { value = str token; deadline = some (now + r.lifetime n) }

  set_nx-state :
      (d : Db) (now : Time) (k token : Str) (n : ℕ) (o : Option Entry)
      → live now (r.entry d k) ≡ o
      → (r.set_nx d now k token n).0 ≡ true
      → (r.set_nx d now k token n).1 ≡ r.set d now k token n
  set_nx-state d now k token n none e h = ap (λ x. x.1) (laws.set_nx_free d now k token n e)
  set_nx-state d now k token n (some old) e h = cc (laws.set_nx_taken d now k token n old e)

  live_until :
      (later : Time) (e : Entry) (g : Time)
      → e.deadline ≡ some g
      → later < g
      → live later (some e) ≡ some e
  live_until later e g h l = ground arith

  -- What a caller that got the lock has stored.
  acquired :
      (d : Db) (now : Time) (k token : Str) (n : ℕ) (later : Time)
      → (r.set_nx d now k token n).0 ≡ true
      → later < now + r.lifetime n
      → live later (r.entry (r.set_nx d now k token n).1 k) ≡ some (lock_entry token now n)
  acquired d now k token n later h in_time =
      ap (λ x. live later (r.entry x k)) (set_nx-state d now k token n _ refl h)
      ∙ ap (live later) (
          laws.set_lem d now k token n k
          ∙ ap (λ b. if b then some (lock_entry token now n) else r.entry d k) (eq_str_refl k))
      ∙ live_until later (lock_entry token now n) _ refl in_time

  -- While a lock has not expired, no caller with another token acquires it or releases it.
  pub acquire_lock-excludes :
      (d : Db) (poll_id token other : Str) (now later : Time) (n m : ℕ)
      → (acquire_lock r answered now poll_id token n d).0 ≡ ok true
      → later < now + r.lifetime n
      → eq_str token other ≡ false
      → let d1 = (acquire_lock r answered now poll_id token n d).1 in
        (acquire_lock r answered later poll_id other m d1 ≡ (ok false, d1))
        × (release_lock r answered later poll_id other d1 ≡ (ok tt, d1))
  unfolding acquire_lock release_lock unlock_script
  acquire_lock-excludes d poll_id token other now later n m h in_time differ =
      let k = lock_key poll_id in
      let d1 = (r.set_nx d now k token n).1 in
      let held = acquired d now k token n later (ok_lem h) in_time in
      (
        ap (λ x. (ok x.0, x.1))
            (laws.set_nx_taken d1 later k other m (lock_entry token now n) held),
        ap (λ b. (ok tt, if b then r.del d1 k else d1))
            (ap (holds other) (laws.get_lem d1 later k ∙ ap as_str held) ∙ differ),
      )

  -- The holder itself releases its lock, while it has not expired: then the next caller acquires it.
  pub release_lock-frees :
      (d : Db) (poll_id token other : Str) (now later : Time) (n m : ℕ)
      → (acquire_lock r answered now poll_id token n d).0 ≡ ok true
      → later < now + r.lifetime n
      → let d1 = (acquire_lock r answered now poll_id token n d).1 in
        let d2 = (release_lock r answered later poll_id token d1).1 in
        (acquire_lock r answered later poll_id other m d2).0 ≡ ok true
  unfolding acquire_lock release_lock unlock_script
  release_lock-frees d poll_id token other now later n m h in_time =
      let k = lock_key poll_id in
      let d1 = (r.set_nx d now k token n).1 in
      let held = acquired d now k token n later (ok_lem h) in_time in
      let released : unlock_script r later k token d1 ≡ r.del d1 k =
        unfold unlock_script in
        ap (λ b. if b then r.del d1 k else d1)
          (ap (holds token) (laws.get_lem d1 later k ∙ ap as_str held) ∙ eq_str_refl token) in
      let gone : live later (r.entry (r.del d1 k) k) ≡ none =
        ap (live later)
          (laws.del_lem d1 k k ∙ ap (λ b. if b then none else r.entry d1 k) (eq_str_refl k)) in
      ap (λ x. ok (r.set_nx x later k other m).0) released
      ∙ ap (λ x. ok x.0) (laws.set_nx_free (r.del d1 k) later k other m gone)

  -- The counter of a window, as long as it lives.
  abbrev Counts : Str → ℕ → Time → Db → Type 0
  Counts key n g d = r.entry d key ≡ some (record { value = str (itoa n); deadline = some g })

  rate_step :
      (key : Str) (limit n : ℕ) (g t : Time) (d : Db)
      → Counts key (suc n) g d
      → t < g
      → suc (suc n) < 2 ^ 63
      → ((rate_script r t key limit 65 d).0 ≡ (if ltb limit (suc (suc n)) then 0 else 1))
        × Counts key (suc (suc n)) g (rate_script r t key limit 65 d).1
  unfolding rate_script
  rate_step key limit n g t d c in_time small =
      let e : Entry = record { value = str (itoa (suc n)); deadline = some g } in
      let (count, kept) =
        laws.incr_old d t key e (suc n) (ap (live t) c ∙ live_until t e g refl in_time) refl
          small in
      let further : (suc (suc n) == 1) ≡ false = ground arith in rw (count, further) (refl, kept)

  run_rate-counting :
      (key : Str) (limit n : ℕ) (g : Time) (ts : List Time) (d : Db)
      → Counts key (suc n) g d
      → All (λ t. t < g) ts
      → suc n + length ts < 2 ^ 63
      → (run_rate r key limit ts d).0 ≡ verdicts limit (suc n) ts
  unfolding run_rate
  run_rate-counting key limit n g [] d c in_time small = refl
  run_rate-counting key limit n g (t ∷ ts) d c (h, in_time) small =
      let (reply, kept) = rate_step key limit n g t d c h (omega arith) in
      ap₂ (λ a b. a ∷ b) reply
        (run_rate-counting key limit (suc n) g ts (rate_script r t key limit 65 d).1 kept in_time
          (omega arith))

  rate_first :
      (key : Str) (limit : ℕ) (t : Time) (d : Db)
      → live t (r.entry d key) ≡ none
      → ((rate_script r t key limit 65 d).0 ≡ (if ltb limit 1 then 0 else 1))
        × Counts key 1 (t + 65 * second) (rate_script r t key limit 65 d).1
  unfolding rate_script
  rate_first key limit t d free =
      let (count, made) = laws.incr_new d t key free in
      rw count (
        refl,
        laws.expire_self (r.incr d t key).1 t key 65
            (record { value = str (itoa 1); deadline = none }) (ap (live t) made),
      )

  -- Of fewer than 2^63 requests of one window, whose key is free at the first and which all come within
  -- the 65 seconds that its counter lives, exactly the first `limit` are allowed.
  pub run_rate-limits :
      (key : Str) (limit : ℕ) (t : Time) (ts : List Time) (d : Db)
      → live t (r.entry d key) ≡ none
      → All (λ u. u < t + 65 * second) ts
      → 1 + length ts < 2 ^ 63
      → (run_rate r key limit (t ∷ ts) d).0 ≡ verdicts limit 0 (t ∷ ts)
  unfolding run_rate
  run_rate-limits key limit t ts d free in_time small =
      let (reply, kept) = rate_first key limit t d free in
      ap₂ (λ a b. a ∷ b) reply
        (run_rate-counting key limit 0 (t + 65 * second) ts (rate_script r t key limit 65 d).1 kept
          in_time (omega arith))
