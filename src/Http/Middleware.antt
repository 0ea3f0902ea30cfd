-- ===== src/Http/Middleware.antt =====
-- internal/httpapi/middleware.go: `statusWriter`, `middleware`, `routePattern`, `randomID`, and
-- metrics.go `ObserveHTTP`.
pub mod Observed
use mipttest_task.Base.{
  ℕ, suc, ◌+◌, ◌*◌, Bool, true, false, not, ◌&&◌, ◌||◌, Option, none, some, List, [], ◌∷◌, ◌++◌,
  map, leb, ltb, ◌==◌, if◌then◌else◌, String, Str, codes, eq_str, has_prefix, has_suffix, length,
  filter,
}
use mipttest_task.Base.Dict.{Dict, lookup, insert}
use mipttest_task.Domain.Uuid.{hex_encode}

-- `routePattern`
abbrev pub is_below : String → String → Str → Bool
is_below prefix suffix p = has_prefix p (codes prefix) && has_suffix p (codes suffix)

abbrev pub is_any_of : List String → Str → Bool
is_any_of [] p = false
is_any_of (w ∷ ws) p = eq_str p (codes w) || is_any_of ws p

unfoldable pub route_pattern : Str → Str
unfolding has_prefix has_suffix eq_str
route_pattern p =
    if is_below "/api/v1/admin/polls/" "/publish" p
    then codes "/api/v1/admin/polls/{id}/publish"
    else if is_below "/api/v1/admin/polls/" "/close" p
    then codes "/api/v1/admin/polls/{id}/close"
    else if is_below "/api/v1/admin/polls/" "/results" p
    then codes "/api/v1/admin/polls/{id}/results"
    else if is_below "/api/v1/admin/polls/" "/qr.svg" p
    then codes "/api/v1/admin/polls/{id}/qr.svg"
    else if eq_str p (codes "/api/v1/admin/polls")
    then p
    else if is_below "/api/v1/polls/" "/votes" p
    then codes "/api/v1/polls/{id}/votes"
    else if has_prefix p (codes "/api/v1/polls/")
    then codes "/api/v1/polls/{slug}"
    else if has_prefix p (codes "/p/")
    then codes "/p/{slug}"
    else if has_prefix p (codes "/static/")
    then codes "/static/{name}"
    else if is_any_of
        ("/" ∷ "/admin" ∷ "/openapi.yaml" ∷ "/health/live" ∷ "/health/ready" ∷ "/metrics" ∷ []) p
    then p
    else codes "/unmatched"

-- `randomID`, from what `rand.Read` put into its 12 bytes.
abbrev pub random_id : Option (List ℕ) → Str
random_id none = codes "unknown"
random_id (some b) = hex_encode b

-- The identifier of a request, from its header `X-Request-ID`.
unfoldable pub request_id : Str → Option (List ℕ) → Str
unfolding hex_encode
request_id header random =
    if (length header == 0) || ltb 128 (length header) then random_id random else header

-- What a handler does to its `ResponseWriter`.
pub data WriteOp : Type 0 where
  write_header : ℕ → WriteOp
  write_body : Str → WriteOp

-- How a handler ends.
pub record Handled : Type 0 where
  pub writes : List WriteOp
  pub panics : Bool

-- `statusWriter`: the status that it holds behind a write, 0 at the start.
abbrev pub status_after : ℕ → WriteOp → ℕ
status_after status (write_header code) = code
status_after status (write_body _) = if status == 0 then 200 else status

unfoldable pub status_of : ℕ → List WriteOp → ℕ
status_of status [] = status
status_of status (w ∷ ws) = status_of (status_after status w) ws

-- The status on the wire: the first that is written.
abbrev pub sent_by : WriteOp → ℕ
sent_by (write_header code) = code
sent_by (write_body _) = 200

abbrev pub sent_status : List WriteOp → ℕ
sent_status [] = 200
sent_status (w ∷ ws) = sent_by w

-- The deferred function: after a panic that wrote nothing, the error 500.
unfoldable pub recovered : Handled → List WriteOp
unfolding status_of
recovered h =
    if h.panics && (status_of 0 h.writes == 0)
    then h.writes ++ write_header 500 ∷ write_body (codes "internal_error") ∷ []
    else h.writes

-- `durationHistogram`. Durations are their nanoseconds, and the sum of the seconds, a float in the code,
-- is that of the nanoseconds here.
pub record Histogram : Type 0 where
  pub buckets : List ℕ
  pub count : ℕ
  pub sum : ℕ

-- `durationBuckets`, in nanoseconds.
abbrev pub duration_buckets : List ℕ
duration_buckets =
    5000000 ∷ 10000000 ∷ 25000000 ∷ 50000000 ∷ 100000000 ∷ 250000000 ∷ 500000000 ∷ 1000000000
    ∷ 2500000000 ∷ 5000000000 ∷ []

abbrev pub no_durations : Histogram
no_durations = record { buckets = map (λ _. 0) duration_buckets; count = 0; sum = 0 }

-- The loop over the bounds.
unfoldable pub count_into : ℕ → List ℕ → List ℕ → List ℕ
count_into d [] counts = counts
count_into d (upper ∷ uppers) [] = []
count_into d (upper ∷ uppers) (n ∷ counts) =
    (if leb d upper then suc n else n) ∷ count_into d uppers counts

abbrev pub observed_in : ℕ → Histogram → Histogram
observed_in d h = record {
  buckets = count_into d duration_buckets h.buckets;
  count = suc h.count;
  sum = h.sum + d;
}

abbrev pub RequestKey : Type 0
RequestKey = Str × Str × ℕ

abbrev pub same_key : RequestKey → RequestKey → Bool
same_key (route, method, status) (route', method', status') =
    eq_str route route' && eq_str method method' && (status == status')

-- `m.requests[key]++`
unfoldable pub count_request : RequestKey → List (RequestKey × ℕ) → List (RequestKey × ℕ)
count_request key [] = (key, 1) ∷ []
count_request key ((k, n) ∷ rest) =
    if same_key k key then (k, suc n) ∷ rest else (k, n) ∷ count_request key rest

-- The maps of `Metrics` that requests go into.
pub record HttpMetrics : Type 0 where
  pub requests : List (RequestKey × ℕ)
  pub durations : Dict Histogram

abbrev pub histogram_or_new : Option Histogram → Histogram
histogram_or_new none = no_durations
histogram_or_new (some h) = h

-- `ObserveHTTP`
unfoldable pub observe_http : Str → Str → ℕ → ℕ → HttpMetrics → HttpMetrics
unfolding count_into count_request lookup insert
observe_http route method status d m = record {
  requests = count_request (route, method, status) m.requests;
  durations =
      insert route (observed_in d (histogram_or_new (lookup route m.durations))) m.durations;
}

-- A request that a handler served, with the time that it took.
pub record Served : Type 0 where
  pub path : Str
  pub method : Str
  pub handled : Handled
  pub duration : ℕ

abbrev pub status_or_ok : ℕ → ℕ
status_or_ok status = if status == 0 then 200 else status

-- `middleware`: what goes to the client, and what is observed.
unfoldable pub middleware : Served → HttpMetrics → List WriteOp × HttpMetrics
unfolding route_pattern recovered observe_http
middleware q m =
    let writes = recovered q.handled in
    (
      writes,
      observe_http (route_pattern q.path) q.method (status_or_ok (status_of 0 writes)) q.duration m,
    )

-- Requests one behind the other.
unfoldable pub serve_all : List Served → HttpMetrics → HttpMetrics
unfolding middleware
serve_all [] m = m
serve_all (q ∷ qs) m = serve_all qs (middleware q m).1
