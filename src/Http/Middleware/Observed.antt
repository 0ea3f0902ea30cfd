-- ===== src/Http/Middleware/Observed.antt =====
-- What the metrics show of the requests that were served.
use mipttest_task.Base.{
  ℕ, suc, ◌+◌, ◌≡◌, refl, sym, ap, ap₂, ◌∙◌, inl, inr, Bool, true, false, some, List, [], ◌∷◌, ◌++◌,
  map, arith, leb, if◌then◌else◌, Str, eq_str, eq_str_iff, Bool-cases, length, length-append,
  filter, count_p, append-nil, append_assoc,
}
use mipttest_task.Base.Dict.{lookup, lookup-insert}
use mipttest_task.Http.Middleware.{
  route_pattern, Histogram, duration_buckets, count_into, observed_in, RequestKey, same_key,
  count_request, HttpMetrics, histogram_or_new, observe_http, Served, status_or_ok, status_of,
  recovered, middleware, serve_all,
}

abbrev pub sum_of_durations : List ℕ → ℕ
sum_of_durations [] = 0
sum_of_durations (d ∷ ds) = d + sum_of_durations ds

-- A histogram from its durations: for each bound, how many are within it.
abbrev pub histogram_of : List ℕ → Histogram
histogram_of ds = record {
  buckets = map (λ upper. count_p (λ d. leb d upper) ds) duration_buckets;
  count = length ds;
  sum = sum_of_durations ds;
}

-- The durations of the requests that a route's label stands for.
abbrev pub durations_of : Str → List Served → List ℕ
durations_of route qs = map (λ q. q.duration) (filter (λ q. eq_str (route_pattern q.path) route) qs)

abbrev pub requests_in : List (RequestKey × ℕ) → ℕ
requests_in [] = 0
requests_in ((_, n) ∷ rest) = n + requests_in rest

count_p-snoc :
    (f : ℕ → Bool) (ds : List ℕ) (d : ℕ)
    → count_p f (ds ++ d ∷ []) ≡ (if f d then suc (count_p f ds) else count_p f ds)
count_p-snoc f [] d = refl
count_p-snoc f (e ∷ ds) d = ground (arith, count_p-snoc f ds d)

count_into-counts :
    (d : ℕ) (ds uppers : List ℕ)
    → count_into d uppers (map (λ upper. count_p (λ e. leb e upper) ds) uppers)
      ≡ map (λ upper. count_p (λ e. leb e upper) (ds ++ d ∷ [])) uppers
unfolding count_into
count_into-counts d ds [] = refl
count_into-counts d ds (upper ∷ uppers) =
    ap₂ (λ n rest. n ∷ rest) (sym (count_p-snoc (λ e. leb e upper) ds d))
      (count_into-counts d ds uppers)

sum_of_durations-snoc :
    (ds : List ℕ) (d : ℕ) → sum_of_durations (ds ++ d ∷ []) ≡ sum_of_durations ds + d
sum_of_durations-snoc [] d = omega arith
sum_of_durations-snoc (e ∷ ds) d = omega (arith, sum_of_durations-snoc ds d)

observed_in-histogram_of :
    (d : ℕ) (ds : List ℕ) → observed_in d (histogram_of ds) ≡ histogram_of (ds ++ d ∷ [])
observed_in-histogram_of d ds =
    let buckets = count_into-counts d ds duration_buckets in
    let count : suc (length ds) ≡ length (ds ++ d ∷ []) =
      omega (arith, length-append ds (d ∷ [])) in
    let sum = sym (sum_of_durations-snoc ds d) in
    ap (λ b. record { buckets = b; count = suc (length ds); sum = sum_of_durations ds + d }) buckets
    ∙ ap₂ (λ n x. record { buckets = (histogram_of (ds ++ d ∷ [])).buckets; count = n; sum = x })
        count sum

count_request-total :
    (key : RequestKey) (rs : List (RequestKey × ℕ))
    → requests_in (count_request key rs) ≡ suc (requests_in rs)
unfolding count_request
count_request-total key [] = omega arith
count_request-total key ((k, n) ∷ rs) = elim (Bool-cases (same_key k key)) [
  | inl same ↦
      ap (λ b. requests_in (if b then (k, suc n) ∷ rs else (k, n) ∷ count_request key rs)) same
      ∙ omega arith
  | inr other ↦
      ap (λ b. requests_in (if b then (k, suc n) ∷ rs else (k, n) ∷ count_request key rs)) other
      ∙ omega (arith, count_request-total key rs)
]

module _ (route : Str) where
  observe_http-durations :
      (label method : Str) (status d : ℕ) (m : HttpMetrics) (b : Bool)
      → eq_str label route ≡ b
      → histogram_or_new (lookup route (observe_http label method status d m).durations) ≡ (
          if b
          then observed_in d (histogram_or_new (lookup route m.durations))
          else histogram_or_new (lookup route m.durations))
  unfolding observe_http
  observe_http-durations label method status d m b e =
      ap histogram_or_new (
        lookup-insert label route (observed_in d (histogram_or_new (lookup label m.durations)))
          m.durations)
      ∙ ap
          (λ c. histogram_or_new (
            if c
            then some (observed_in d (histogram_or_new (lookup label m.durations)))
            else lookup route m.durations))
          e
      ∙ by_label b e
    where
      by_label :
          (c : Bool)
          → eq_str label route ≡ c
          → histogram_or_new (
              if c
              then some (observed_in d (histogram_or_new (lookup label m.durations)))
              else lookup route m.durations)
            ≡ (if c
                then observed_in d (histogram_or_new (lookup route m.durations))
                else histogram_or_new (lookup route m.durations))
      by_label true own =
          ap (λ l. observed_in d (histogram_or_new (lookup l m.durations)))
            ((eq_str_iff label route).0 own)
      by_label false other = refl

  durations_of-cons :
      (q : Served) (qs : List Served) (b : Bool)
      → eq_str (route_pattern q.path) route ≡ b
      → durations_of route (q ∷ qs)
        ≡ (if b then q.duration ∷ durations_of route qs else durations_of route qs)
  durations_of-cons q qs b e =
      ap
        (λ c.
          map (λ (x : Served). x.duration)
            (if c
              then q ∷ filter (λ x. eq_str (route_pattern x.path) route) qs
              else filter (λ x. eq_str (route_pattern x.path) route) qs))
        e
      ∙ by_label b
    where
      by_label :
          (c : Bool)
          → map
              (λ (x : Served). x.duration)
              (if c
                then q ∷ filter (λ x. eq_str (route_pattern x.path) route) qs
                else filter (λ x. eq_str (route_pattern x.path) route) qs)
            ≡ (if c then q.duration ∷ durations_of route qs else durations_of route qs)
      by_label true = refl
      by_label false = refl

  serve_all-from :
      (qs : List Served) (m : HttpMetrics) (ds : List ℕ)
      → histogram_or_new (lookup route m.durations) ≡ histogram_of ds
      → histogram_or_new (lookup route (serve_all qs m).durations)
        ≡ histogram_of (ds ++ durations_of route qs)
  unfolding serve_all
  serve_all-from [] m ds h = h ∙ ap histogram_of (sym (append-nil ds))
  serve_all-from (q ∷ qs) m ds h = elim (Bool-cases (eq_str (route_pattern q.path) route)) [
    | inl own ↦
        serve_all-from qs (middleware q m).1 (ds ++ q.duration ∷ []) (
          observed true own
          ∙ ap (observed_in q.duration) h
          ∙ observed_in-histogram_of q.duration ds)
        ∙ ap histogram_of (
            append_assoc ds (q.duration ∷ []) (durations_of route qs)
            ∙ ap (λ rest. ds ++ rest) (sym (durations_of-cons q qs true own)))
    | inr different ↦
        serve_all-from qs (middleware q m).1 ds (observed false different ∙ h)
        ∙ ap (λ rest. histogram_of (ds ++ rest)) (sym (durations_of-cons q qs false different))
  ]
    where
      observed :
          (b : Bool)
          → eq_str (route_pattern q.path) route ≡ b
          → histogram_or_new (lookup route (middleware q m).1.durations) ≡ (
              if b
              then observed_in q.duration (histogram_or_new (lookup route m.durations))
              else histogram_or_new (lookup route m.durations))
      observed b e =
          unfold middleware in
          observe_http-durations (route_pattern q.path) q.method
            (status_or_ok (status_of 0 (recovered q.handled))) q.duration m b e

  serve_all-total :
      (qs : List Served) (m : HttpMetrics)
      → requests_in (serve_all qs m).requests ≡ requests_in m.requests + length qs
  unfolding serve_all
  serve_all-total [] m = omega arith
  serve_all-total (q ∷ qs) m =
      let one : requests_in (middleware q m).1.requests ≡ suc (requests_in m.requests) =
        unfold middleware observe_http in count_request-total _ m.requests in
      omega (arith, serve_all-total qs (middleware q m).1, one)

  -- Of requests served from the start on, whatever their handlers wrote and whether they panicked, each
  -- is observed once: the counters of requests add up to their number, and the histogram of a route's
  -- label is that of the durations of the requests that the label stands for: each bucket holds how many
  -- are within its bound.
  pub serve_all-counts :
      (qs : List Served)
      → let m = serve_all qs (record { requests = []; durations = [] }) in
        (histogram_or_new (lookup route m.durations) ≡ histogram_of (durations_of route qs))
        × (requests_in m.requests ≡ length qs)
  serve_all-counts qs = (
    serve_all-from qs (record { requests = []; durations = [] }) [] (unfold lookup in refl),
    serve_all-total qs (record { requests = []; durations = [] }) ∙ omega arith,
  )
