-- ===== src/Service/Cache.antt =====
-- internal/service/cache.go
use mipttest_task.Base.{ℕ, ◌+◌, Option, none, some, ltb, if◌then◌else◌, Str}
use mipttest_task.Base.Dict.{lookup, insert, erase}
use mipttest_task.Domain.Errors.{Result, ok, err}
use mipttest_task.Domain.Poll.{Time, Poll}
use mipttest_task.Service.World.{Loaded, Cache}

-- `e.loaded && time.Now().Before(e.expires)`
abbrev pub fresh : Time → Option Loaded → Option Poll
fresh now none = none
fresh now (some e) = if ltb now e.expires then some e.poll else none

abbrev pub entry_of : Option (Option Loaded) → Option Loaded
entry_of none = none
entry_of (some e) = e

-- The entry that `Get` adds for a missing key.
abbrev pub ensure : Str → Cache → Cache
ensure id c = elim (lookup id c) [ none ↦ insert id none c | some _ ↦ c ]

-- What the loader's answer makes of the entry; a failure leaves it.
abbrev pub store_loaded : ℕ → Time → Str → Result Poll → Cache → Result Poll × Cache
store_loaded ttl later id (ok p) c =
    (ok p, insert id (some (record { poll = p; expires = later + ttl })) c)
store_loaded ttl later id (err e) c = (err e, c)

abbrev pub get_from : ℕ → Time → Str → Result Poll → Cache → Option Poll → Result Poll × Cache
get_from ttl later id loaded c (some p) = (ok p, c)
get_from ttl later id loaded c none = store_loaded ttl later id loaded c

-- `PollCache.Get`, with what its loader would answer. The clock reads `now` before the loader and
-- `later` behind it.
unfoldable pub cache_get : ℕ → Time → Time → Str → Result Poll → Cache → Result Poll × Cache
unfolding lookup insert
cache_get ttl now later id loaded c =
    get_from ttl later id loaded (ensure id c) (fresh now (entry_of (lookup id c)))

-- `PollCache.Put`
unfoldable pub cache_put : ℕ → Time → Poll → Cache → Cache
cache_put ttl now p c = insert p.id (some (record { poll = p; expires = now + ttl })) c

-- `PollCache.Delete`
unfoldable pub cache_delete : Str → Cache → Cache
cache_delete id c = erase id c
