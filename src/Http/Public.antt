-- ===== src/Http/Public.antt =====
-- internal/httpapi/public_handlers.go `getPoll`, router.go `live` and `ready`, and the pages of web.go.
pub mod Shown
use mipttest_task.Base.{
  ℕ, ◌++◌, ◌&&◌, ◌||◌, Option, none, some, List, if◌then◌else◌, Str, codes, eq_str, has_suffix,
}
use mipttest_task.Base.Int.{ℤ}
use mipttest_task.Domain.Errors.{Result, ok, err}
use mipttest_task.Domain.Poll.{Time, PollType, Poll, PollOption}
use mipttest_task.Postgres.Calls.{Calls}
use mipttest_task.Postgres.Tables.{Tables}
use mipttest_task.Service.Polls.{public_by_slug}
use mipttest_task.Http.Answers.{Response, write_error, unavailable, handle_domain_error}

-- `publicPoll`
pub record PublicPoll : Type 0 where
  pub id : Str
  pub slug : Str
  pub question : Str
  pub type : PollType
  pub max_choices : ℤ
  pub ends_at : Time
  pub options : List PollOption

abbrev pub public_poll : Poll → PublicPoll
public_poll p = record {
  id = p.id;
  slug = p.slug;
  question = p.question;
  type = p.type;
  max_choices = p.max_choices;
  ends_at = p.ends_at;
  options = p.options;
}

-- What a public page or poll is answered with.
pub data Content : Type 0 where
  refused : Str → Content
  poll : PublicPoll → Content
  state : Str → Content
  redirect : Str → Content
  asset : Str → Str → Str → Content

pub record View : Type 0 where
  pub status : ℕ
  pub cookie : Option Str
  pub content : Content

abbrev pub refuse_with : Response → View
refuse_with r = record { status = r.status; cookie = none; content = refused r.code }

abbrev pub show : Poll → Option Str → View
show p cookie = record { status = 200; cookie = cookie; content = poll (public_poll p) }

abbrev pub show_to : Poll → Result (Str × Option Str) → View
show_to p (err e) = refuse_with unavailable
show_to p (ok (_, cookie)) = show p cookie

abbrev pub show_found : Result (Str × Option Str) → Result Poll → View
show_found device (err e) = refuse_with (handle_domain_error e)
show_found device (ok p) = show_to p device

-- `API.getPoll`, with what `DeviceID` returns for the request: the device and the cookie to set, if it
-- had none.
unfoldable pub get_poll : Calls → Str → Time → Result (Str × Option Str) → Tables → View
unfolding public_by_slug
get_poll calls slug now device t = show_found device (public_by_slug calls slug now t)

abbrev answer_state : Str → View
answer_state s = record { status = 200; cookie = none; content = state s }

-- `API.live`
abbrev pub live_page : View
live_page = answer_state (codes "ok")

abbrev pub ping_redis : Result (Unit {0}) → View
ping_redis (err e) = refuse_with (write_error 503 (codes "not_ready"))
ping_redis (ok _) = answer_state (codes "ready")

-- `API.ready`, with the replies of PostgreSQL and of Redis to a ping.
abbrev pub ready : Result (Unit {0}) → Result (Unit {0}) → View
ready (err e) redis = refuse_with (write_error 503 (codes "not_ready"))
ready (ok _) redis = ping_redis redis

-- `API.home`
abbrev pub home : View
home = record { status = 302; cookie = none; content = redirect (codes "/admin") }

-- The embedded files by their names, which go:embed fills.
module _ (embedded : Str → Option Str) where
  abbrev pub serve_read : Str → Str → Option Str → View
  serve_read content_type cache_control none =
      refuse_with (write_error 500 (codes "asset unavailable"))
  serve_read content_type cache_control (some content) = record {
    status = 200;
    cookie = none;
    content = asset content_type cache_control content;
  }

  -- `serveEmbedded`
  abbrev pub serve_embedded : Str → Str → Str → View
  serve_embedded name content_type cache_control =
      serve_read content_type cache_control (embedded name)

  -- `API.pollPage`
  abbrev pub poll_page : View
  poll_page =
      serve_embedded (codes "web/templates/poll.html") (codes "text/html; charset=utf-8")
        (codes "no-store")

  abbrev serve_static : Str → Str → View
  serve_static name content_type =
      serve_embedded (codes "web/static/" ++ name) content_type
        (codes "public, max-age=31536000, immutable")

  -- `API.staticAsset`
  unfoldable pub static_asset : Str → View
  unfolding eq_str has_suffix
  static_asset name =
      if eq_str name (codes "app.css")
      then serve_static name (codes "text/css; charset=utf-8")
      else if has_suffix name (codes ".js")
          && (eq_str name (codes "poll.js") || eq_str name (codes "admin.js"))
      then serve_static name (codes "text/javascript; charset=utf-8")
      else refuse_with (write_error 404 (codes "404 page not found"))
