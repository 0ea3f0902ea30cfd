-- ===== src/Store/Votes/Ledger.antt =====
-- The abstract view of a poll's keys: a ledger of ballots, one from each device. The script refines
-- the entry of a ballot into the ledger.
pub mod Refines
use mipttest_task.Base.{
  ℕ, zero, suc, ◌+◌, ◌≤◌, ◌<◌, ◌≡◌, Bool, true, false, Option, some, none, List, [], ◌∷◌, map, ◌==◌,
  if◌then◌else◌, Str, codes, eq_str, In,
}
use mipttest_task.Domain.Poll.{Time, VoteStatus, recorded, already_recorded, VoteCommand, contains}
use mipttest_task.Redis.{Redis, Entry, live, as_str}
use mipttest_task.Store.Keys.{bucket, gate_key, dedup_key, counts_key}
use mipttest_task.Store.Ttl.{Store}
use mipttest_task.Store.Votes.{participants_field}
use mipttest_task.Store.Votes.Script.{Counts, occurrences}

pub record Ballot : Type 0 where
  pub device : Str
  pub choices : List Str

abbrev pub ballot_of : VoteCommand → Ballot
ballot_of cmd = record { device = cmd.device_hash; choices = cmd.option_ids }

abbrev pub devices : List Ballot → List Str
devices ledger = map (λ b. b.device) ledger

-- A ballot is entered unless its device has one already.
unfoldable pub cast : Ballot → List Ballot → VoteStatus × List Ballot
cast b ledger =
    if contains (devices ledger) b.device
    then (already_recorded, ledger)
    else (recorded, b ∷ ledger)

-- The fields that a ballot counts, and what a ledger adds up to, in one bucket and in all.
abbrev pub fields : Ballot → List Str
fields b = participants_field ∷ b.choices

abbrev pub tally : (Str → ℕ) → ℕ → Str → List Ballot → ℕ
tally place n f [] = 0
tally place n f (b ∷ bs) =
    (if place b.device == n then occurrences f (fields b) else 0) + tally place n f bs

abbrev pub total : Str → List Ballot → ℕ
total f [] = 0
total f (b ∷ bs) = occurrences f (fields b) + total f bs

abbrev pub place : (Str → List ℕ) → Store → Str → ℕ
place sum256 s device = bucket sum256 device s.buckets

module _ {Db : Type 0} (r : Redis Db) (sum256 : Str → List ℕ) (s : Store) (poll_id : Str)
    (until : Time) where
  -- The keys of the poll hold the ledger, at every time before `until`.
  pub record Represents (d : Db) (ledger : List Ballot) : Type 0 where
    pub gates :
        (t : Time) (n : ℕ)
        → t < until
        → n < s.buckets
        → as_str (live t (r.entry d (gate_key poll_id n))) ≡ some (codes "active")
    pub voted :
        (t : Time) (x : Str)
        → t < until
        → In x (devices ledger)
        → (e : Entry) × (live t (r.entry d (dedup_key poll_id (place sum256 s x) x)) ≡ some e)
    pub fresh :
        (t : Time) (x : Str)
        → t < until
        → ¬ In x (devices ledger)
        → live t (r.entry d (dedup_key poll_id (place sum256 s x) x)) ≡ none
    pub counts :
        (t : Time) (n : ℕ)
        → t < until
        → n < s.buckets
        → Counts
            (live t (r.entry d (counts_key poll_id n)))
            (λ f. tally (place sum256 s) n f ledger)
