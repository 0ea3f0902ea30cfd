-- ===== src/Tests/AdminTests.antt =====
-- The routes of the administrator and of the public, and the middleware, at concrete inputs.
use mipttest_task.Base.{
  ◌≤◌, ◌⊎◌, Str, Option, ◌≡◌, ◌≢◌, refl, true, false, none, some, List, [], ◌∷◌, codes, eq_str,
  has_prefix, has_suffix,
}
use mipttest_task.Base.Dict.{lookup}
use mipttest_task.Http.Answers.{write_error}
use mipttest_task.Http.Admin.{
  Site, Setup, post_close, failed, provided, limit_of, admin_answer, admin,
}
use mipttest_task.Http.Admin.Guarded.{admin-guarded}
use mipttest_task.Http.Middleware.{
  Served, write_header, write_body, route_pattern, middleware, recovered, status_of, observe_http,
  count_into, count_request, histogram_or_new, serve_all,
}
use mipttest_task.Http.Middleware.Observed.{
  histogram_of, durations_of, requests_in, serve_all-counts,
}
use mipttest_task.Redis.Keyspace.{Keyspace}
use mipttest_task.Domain.Poll.{Poll, active, draft}
use mipttest_task.Domain.Errors.{ok}
use mipttest_task.Postgres.Calls.{no_faults}
use mipttest_task.Postgres.Reads.{get, join, order_by, insert_by, scan_poll}
use mipttest_task.Service.Polls.{public_by_slug}
use mipttest_task.Http.Public.{get_poll, refused, refuse_with, static_asset}
use mipttest_task.Http.Public.Shown.{IsOpen, public_view, get_poll_iff}
use mipttest_task.Tests.PostgresTests.{tables}
use mipttest_task.Tests.ServiceTests.{replica, quiet, world}

abbrev pub setup : Setup
setup = record {
  qr = none;
  public_base_url = codes "http://localhost:8080";
  admin_token = codes "secret";
  sum256 = λ s. s;
}

abbrev site : Site Keyspace
site = record { world = world active; qr_cache = [] }

admin-guarded_example :
    (codes "secret" ≢ provided (codes "Bearer public")
      → admin replica setup (λ _. none) quiet (codes "Bearer public") (post_close (codes "p")) site
        ≡ (failed (write_error 401 (codes "unauthorized")), site))
    × (codes "secret" ≡ provided (codes "Bearer public")
        → admin replica setup
            (λ _. none)
            quiet
            (codes "Bearer public")
            (post_close (codes "p"))
            site
          ≡ admin_answer replica setup (λ _. none) quiet (post_close (codes "p")) site)
    × (admin replica setup (λ _. none) quiet (codes "Bearer secret") (post_close (codes "p")) site
        ≡ admin_answer replica setup (λ _. none) quiet (post_close (codes "p")) site)
admin-guarded_example =
    admin-guarded replica setup (λ _. none) quiet (post_close (codes "p")) site
      (codes "Bearer public") (λ h. cc) (λ h. h)

limit_test :
    (limit_of [] ≡ some 50) × (limit_of (codes "100") ≡ some 100) × (limit_of (codes "101") ≡ none)
unfolding limit_of
limit_test = (refl, refl, refl)

abbrev requests : List Served
requests =
    record {
      path = codes "/api/v1/polls/p/votes";
      method = codes "POST";
      handled = record { writes = []; panics = true };
      duration = 6000000;
    }
    ∷ record {
      path = codes "/api/v1/polls/q/votes";
      method = codes "POST";
      handled = record {
        writes = write_header 201 ∷ write_body (codes "recorded") ∷ [];
        panics = false;
      };
      duration = 20000000;
    }
    ∷ []

-- The panic is answered and observed as the error 500.
panic_test :
    (serve_all requests (record { requests = []; durations = [] })).requests
    ≡ ((codes "/api/v1/polls/{id}/votes", codes "POST", 500), 1)
      ∷ ((codes "/api/v1/polls/{id}/votes", codes "POST", 201), 1)
      ∷ []
unfolding serve_all middleware recovered status_of observe_http count_into count_request
    route_pattern has_prefix has_suffix eq_str
panic_test = refl

serve_all-counts_example :
    let m = serve_all requests (record { requests = []; durations = [] }) in
    (histogram_or_new (lookup (codes "/api/v1/polls/{id}/votes") m.durations)
      ≡ histogram_of (durations_of (codes "/api/v1/polls/{id}/votes") requests))
    × (requests_in m.requests ≡ 2)
serve_all-counts_example = serve_all-counts (codes "/api/v1/polls/{id}/votes") requests

get_poll_iff_example :
    let reply =
      get_poll no_faults (codes "poll-p") 20 (ok (codes "device", none)) (tables active []) in
    let is_open =
      IsOpen no_faults (codes "poll-p") 20 (ok (codes "device", none)) (tables active []) in
    (((400 ≤ reply.status)
        × (reply.cookie ≡ none)
        × ((code : Str) × (reply.content ≡ refused code)))
      ⊎ ((p : Poll) × (x : Str × Option Str) × is_open p
          × (ok (codes "device", none) ≡ ok x)
          × (reply ≡ public_view p x.1)))
    × ((p : Poll) (x : Str × Option Str)
        → is_open p
        → ok (codes "device", none) ≡ ok x
        → reply ≡ public_view p x.1)
get_poll_iff_example =
    get_poll_iff no_faults (codes "poll-p") 20 (ok (codes "device", none)) (tables active [])

shown_test :
    (get_poll no_faults (codes "poll-p") 20 (ok (codes "device", none)) (tables active [])).status
    ≡ 200
unfolding get_poll public_by_slug get join order_by insert_by scan_poll eq_str
shown_test = refl

draft_test :
    get_poll no_faults (codes "poll-p") 20 (ok (codes "device", none)) (tables draft [])
    ≡ refuse_with (write_error 404 (codes "poll_not_found"))
unfolding get_poll public_by_slug get join order_by insert_by scan_poll eq_str
draft_test = refl

static_asset_test :
    static_asset (λ name. some name) (codes "../poll.html")
    ≡ refuse_with (write_error 404 (codes "404 page not found"))
unfolding static_asset eq_str has_suffix has_prefix
static_asset_test = refl
