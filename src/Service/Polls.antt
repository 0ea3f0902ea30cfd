-- ===== src/Service/Polls.antt =====
-- internal/service/poll_service.go
pub mod Publication
use mipttest_task.Base.{
  ℕ, ◌*◌, ◌/◌, ◌+◌, Bool, true, false, not, ◌||◌, Option, none, some, List, ◌==◌, ltb,
  if◌then◌else◌, Str,
}
use mipttest_task.Domain.Errors.{Result, ok, err, not_found, ◌>>=◌, ◌>>◌, fail_if}
use mipttest_task.Domain.Poll.{Time, active, is_status, Poll}
use mipttest_task.Store.Gates.{setup_gates, delete_gates}
use mipttest_task.Postgres.Tables.{Tables}
use mipttest_task.Postgres.Calls.{Calls}
use mipttest_task.Postgres.Reads.{get, get_by_slug}
use mipttest_task.Postgres.Polls.{publish, revert_publish}
use mipttest_task.Service.World.{Cache, World, Replica, Events}
use mipttest_task.Service.Cache.{cache_put}
use mipttest_task.Service.Votes.{is_shut}

-- `Truncate(time.Microsecond)`
abbrev pub truncated : Time → Time
truncated t = t / 1000 * 1000

-- `p.PublishedAt != nil && p.PublishedAt.Equal(now)`
abbrev pub is_published_now : Poll → Time → Bool
is_published_now p now = elim p.published_at [ none ↦ false | some u ↦ u == now ]

module _ {Db : Type 0} (r : Replica Db) where
  -- `if revertErr == nil { _ = s.gates.DeleteGates(ctx, p.ID) }`
  abbrev pub delete_if : Events → Str → Result (Unit {0}) → Db → Db
  delete_if ev id (ok _) d = (delete_gates r.redis r.store (ev.wire 0) id d).1
  delete_if ev id (err e) d = d

  -- The compensation of a publication whose gates are not all set up. Calls 0 to 4 are those of
  -- `Publish` in the database.
  unfoldable pub compensate : Events → Time → Poll → World Db → World Db
  unfolding revert_publish delete_gates
  compensate ev now p w =
      if is_published_now p now
      then (let (reverted, t) = revert_publish (ev.calls 5) p.id now (ev.clock 2) w.tables in
          record w { tables = t; db = delete_if ev p.id reverted w.db })
      else w

  abbrev pub open_gates :
      Events → Time → Poll → World Db → Result (Unit {0}) → Result Poll × World Db
  open_gates ev now p w (ok _) =
      (ok p, record w { cache = cache_put r.cache_ttl (ev.clock 2) p w.cache })
  open_gates ev now p w (err e) = (err e, compensate ev now p w)

  abbrev pub publish_with : Events → Time → World Db → Result Poll → Result Poll × World Db
  publish_with ev now w (err e) = (err e, w)
  publish_with ev now w (ok p) =
      let (reply, d) = setup_gates r.redis r.store ev.gates (ev.clock 1) p.id p.ends_at w.db in
      open_gates ev now p (record w { db = d }) reply

  -- `PollService.Publish`
  unfoldable pub publish_poll : Events → Str → World Db → Result Poll × World Db
  unfolding publish setup_gates cache_put compensate
  publish_poll ev id w =
      let now = truncated (ev.clock 0) in
      let (reply, t) = publish ev.calls r.store.buckets id now w.tables in
      publish_with ev now (record w { tables = t }) reply

-- `PollService.PublicBySlug`
unfoldable pub public_by_slug : Calls → Str → Time → Tables → Result Poll
unfolding get
public_by_slug calls slug now t = do
  p ← get_by_slug calls 0 slug t
  fail_if (is_shut now p) not_found
  ok p
