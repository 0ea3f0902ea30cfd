-- ===== src/Service/Votes.antt =====
-- internal/service/vote_service.go, and `DeviceHash` of internal/identity/device.go.
pub mod Guarded
use mipttest_task.Base.{
  ℕ, Bool, true, false, not, ◌||◌, Option, none, some, List, [], ◌∷◌, ◌++◌, ltb, if◌then◌else◌, Str,
  codes,
}
use mipttest_task.Domain.Errors.{Result, ok, err, not_active, ◌>>=◌, ◌>>◌, fail_if}
use mipttest_task.Domain.Poll.{
  Time, active, is_status, Poll, VoteStatus, VoteCommand, validate_selection,
}
use mipttest_task.Domain.Uuid.{hex_encode}
use mipttest_task.Store.Votes.{record_vote}
use mipttest_task.Postgres.Reads.{get, get_by_id}
use mipttest_task.Service.World.{Loaded, Cache, World, Replica, Events}
use mipttest_task.Service.Cache.{cache_get}

-- `identity.DeviceHash`
unfoldable pub device_hash : (List ℕ → Str → List ℕ) → List ℕ → Str → Str → Str
unfolding hex_encode
device_hash mac key poll_id device_id = hex_encode (mac key (poll_id ++ (codes "\n" ++ device_id)))

-- The loader: a poll that is not active is an error, so that it is not cached.
abbrev pub if_active : Result Poll → Result Poll
if_active (err e) = err e
if_active (ok p) = fail_if (not (is_status p.status active)) not_active >> ok p

-- `p.Status != Active || now.Before(p.StartsAt) || !now.Before(p.EndsAt)`
abbrev pub is_shut : Time → Poll → Bool
is_shut now p = not (is_status p.status active) || ltb now p.starts_at || not (ltb now p.ends_at)

module _ {Db : Type 0} (r : Replica Db) where
  abbrev pub command_for : Poll → Str → List Str → VoteCommand
  command_for p device_id ids = record {
    poll_id = p.id;
    device_hash = device_hash r.mac r.dedup_secret p.id device_id;
    option_ids = ids;
    ends_at = p.ends_at;
  }

  -- The early returns on a poll that is shut and on a selection that it refuses, then the call of the
  -- store.
  abbrev pub checked :
      Bool → Result (Unit {0}) → Db → Result VoteStatus × Db → Result VoteStatus × Db
  checked true selection d called = (err not_active, d)
  checked false (err e) d called = (err e, d)
  checked false (ok _) d called = called

  abbrev pub vote_on : Events → Time → Str → List Str → Db → Result Poll → Result VoteStatus × Db
  vote_on ev now device_id ids d (err e) = (err e, d)
  vote_on ev now device_id ids d (ok p) = checked (is_shut now p) (validate_selection p ids) d (
      record_vote r.redis r.sum256 r.store (ev.wire 0) (ev.clock 2) (command_for p device_id ids) d)

  -- `VoteService.Vote`. `now` is the time of the request.
  unfoldable pub vote :
      Events → Time → Str → Str → List Str → World Db → Result VoteStatus × World Db
  unfolding cache_get get validate_selection record_vote device_hash
  vote ev now poll_id device_id ids w =
      let (p, cache) =
        cache_get r.cache_ttl (ev.clock 0) (ev.clock 1) poll_id
          (if_active (get_by_id ev.calls 0 poll_id w.tables)) w.cache in
      let (reply, d) = vote_on ev now device_id ids w.db p in
      (reply, record w { db = d; cache = cache })
