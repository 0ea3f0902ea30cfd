-- ===== src/Postgres/Results/Loaded.antt =====
-- What a snapshot or a close returns is what is stored behind it.
use mipttest_task.Base.{[], ℕ, suc, ◌+◌, ◌≡◌, refl, ap, ◌∙◌, Bool, Option, none, some, Str, length}
use mipttest_task.Domain.Errors.{Result, ok, err, ◌>>=◌, ◌>>◌}
use mipttest_task.Domain.Poll.{Time, PollStatus, Poll, Totals, PollResult}
use mipttest_task.Store.Wire.{Wire, answered, lost, unacknowledged}
use mipttest_task.Postgres.Tables.{uuid_of, Tables, find_poll, find_runtime}
use mipttest_task.Postgres.Calls.{Calls, no_faults, answer, commit, answer-ok}
use mipttest_task.Postgres.Results.{
  joined, option_counts, load_result, commit_and_load, finish, save_known, save_snapshot, written,
}

bound :
    {A B : Type 0} (w : Wire) (r : Result A) (f : A → Result B) (b : B)
    → (answer w r >>= f) ≡ ok b
    → (a : A) × (r ≡ ok a) × (f a ≡ ok b)
bound answered (ok a) f b h = (a, refl, h)
bound answered (err e) f b h = cc
bound lost r f b h = cc
bound unacknowledged r f b h = cc

-- A result that was read is read again by calls that are answered.
pub load_result-again :
    (calls : Calls) (i j : ℕ) (id : Str) (t : Tables) (res : PollResult)
    → load_result calls i id t ≡ ok res
    → load_result no_faults j id t ≡ ok res
unfolding load_result
load_result-again calls i j id t res h =
    let (first, read, h1) = bound (calls i) _ _ res h in
    ap
      (λ r. r >>= (λ _.
        joined (find_poll (uuid_of id) t.polls) (find_runtime (uuid_of id) t.poll_runtime_results)
          (option_counts (uuid_of id) t.poll_option_results [])))
      read
    ∙ answer-ok (calls (suc i)) _ res h1

-- The result is read by any text of the identifier.
pub load_result-same :
    (j : ℕ) (i k : Str) (t : Tables)
    → uuid_of i ≡ uuid_of k
    → load_result no_faults j i t ≡ load_result no_faults j k t
unfolding load_result
load_result-same j i k t h =
    ap
      (λ x. joined (find_poll x t.polls) (find_runtime x t.poll_runtime_results) [] >>= (λ _.
        joined (find_poll x t.polls) (find_runtime x t.poll_runtime_results)
          (option_counts x t.poll_option_results [])))
      h

module _ (calls : Calls) (p : Poll) (totals : Totals) (finalized : Bool) where
  commit_and_load-stored :
      (i j : ℕ) (before after : Tables) (res : PollResult)
      → (commit_and_load calls i p.id before after).0 ≡ ok res
      → load_result no_faults j p.id (commit_and_load calls i p.id before after).1 ≡ ok res
  commit_and_load-stored i j before after res h = by_commit (calls i) h
    where
      by_commit :
          (w : Wire)
          → ((commit w before after).0 >> load_result calls (suc i) p.id (commit w before after).1)
            ≡ ok res
          → load_result no_faults j p.id (commit w before after).1 ≡ ok res
      by_commit answered k = load_result-again calls (suc i) j p.id after res k
      by_commit lost k = cc
      by_commit unacknowledged k = cc

  finish-stored :
      (i j : ℕ) (before : Tables) (after : Result Tables) (res : PollResult)
      → (finish calls i p.id before after).0 ≡ ok res
      → load_result no_faults j p.id (finish calls i p.id before after).1 ≡ ok res
  finish-stored i j before (err e) res h = cc
  finish-stored i j before (ok after) res h = commit_and_load-stored i j before after res h

  save_known-stored :
      (j : ℕ) (t : Tables) (status : Result PollStatus) (final : Result (Option Time))
      (res : PollResult)
      → (save_known calls finalized p totals t status final).0 ≡ ok res
      → load_result no_faults j p.id (save_known calls finalized p totals t status final).1 ≡ ok res
  save_known-stored j t (err e) final res h = cc
  save_known-stored j t (ok s) (err e) res h = cc
  save_known-stored j t (ok s) (ok (some f)) res h = commit_and_load-stored 3 j t t res h
  save_known-stored j t (ok s) (ok none) res h =
      finish-stored (5 + length p.options) j t (written calls finalized s p totals t) res h

  -- However its calls end, a result that a snapshot or a close returns is the one that `LoadResult` reads
  -- behind it.
  pub save_snapshot-load_result :
      (j : ℕ) (t : Tables) (res : PollResult)
      → (save_snapshot calls p totals finalized t).0 ≡ ok res
      → load_result no_faults j p.id (save_snapshot calls p totals finalized t).1 ≡ ok res
  unfolding save_snapshot
  save_snapshot-load_result j t res h = save_known-stored j t _ _ res h
