-- ===== src/Http/Public/Shown.antt =====
-- What the public sees of polls.
use mipttest_task.Base.{
  ◌≤◌, ◌<◌, ◌≡◌, refl, ap, ◌∙◌, ◌⊎◌, inl, inr, false, not, ◌||◌, ltb, Option, none, arith, Str,
}
use mipttest_task.Domain.Errors.{Result, ok, err, not_found, ◌>>=◌, ◌>>◌, fail_if}
use mipttest_task.Domain.Poll.{Time, active, is_status, Poll}
use mipttest_task.Postgres.Calls.{Calls}
use mipttest_task.Postgres.Tables.{Tables}
use mipttest_task.Postgres.Reads.{get_by_slug}
use mipttest_task.Service.Votes.{is_shut}
use mipttest_task.Service.Polls.{public_by_slug}
use mipttest_task.Service.Polls.Publication.{public_by_slug_lem}
use mipttest_task.Http.Votes.Accounts.{error_status}
use mipttest_task.Http.Public.{View, refused, poll, show_found, get_poll}

is_shut-open :
    (now : Time) (p : Poll)
    → p.status ≡ active
    → p.starts_at ≤ now
    → now < p.ends_at
    → is_shut now p ≡ false
is_shut-open now p is_active low high =
    ap (λ s. not (is_status s active) || ltb now p.starts_at || not (ltb now p.ends_at)) is_active
    ∙ ground arith

-- The public part of a poll, with a cookie.
abbrev pub public_view : Poll → Option Str → View
public_view p cookie = record {
  status = 200;
  cookie = cookie;
  content = poll (record {
    id = p.id;
    slug = p.slug;
    question = p.question;
    type = p.type;
    max_choices = p.max_choices;
    ends_at = p.ends_at;
    options = p.options;
  });
}

module _ (calls : Calls) (slug : Str) (now : Time) (device : Result (Str × Option Str))
    (t : Tables) where
  abbrev pub IsOpen : Poll → Type 0
  IsOpen p =
      (get_by_slug calls 0 slug t ≡ ok p)
      × (p.status ≡ active)
      × (p.starts_at ≤ now)
      × (now < p.ends_at)

  shown_open : (p : Poll) → IsOpen p → public_by_slug calls slug now t ≡ ok p
  unfolding public_by_slug
  shown_open p (found, is_active, low, high) =
      ap (λ x. x >>= (λ q. fail_if (is_shut now q) not_found >> ok q)) found
      ∙ ap (λ b. fail_if b not_found >> ok p) (is_shut-open now p is_active low high)

  abbrev IsRefused : View → Type 0
  IsRefused s = (400 ≤ s.status) × (s.cookie ≡ none) × ((code : Str) × (s.content ≡ refused code))

  abbrev IsShown : View → Type 0
  IsShown s =
      (p : Poll) × (x : Str × Option Str) × IsOpen p × (device ≡ ok x) × (s ≡ public_view p x.1)

  by_device :
      (p : Poll) (d : Result (Str × Option Str))
      → IsOpen p
      → device ≡ d
      → IsRefused (show_found d (ok p)) ⊎ IsShown (show_found d (ok p))
  by_device p (err e) is_open h = inl (omega arith, refl, (_, refl))
  by_device p (ok x) is_open h = inr (p, x, is_open, h, refl)

  by_poll :
      (reply : Result Poll)
      → public_by_slug calls slug now t ≡ reply
      → IsRefused (show_found device reply) ⊎ IsShown (show_found device reply)
  by_poll (err e) h = inl (error_status e, refl, (_, refl))
  by_poll (ok p) h = by_device p device (public_by_slug_lem calls slug now t p h) refl

  -- GET of a poll's slug either answers with an error, of status 400 or above, that sets no cookie and
  -- says nothing of a poll, or the slug is that of a stored poll that is active and within its period
  -- and the device is known, and the answer is that poll's public part with the device's cookie, if it
  -- is new. In the latter case the poll is always answered.
  pub get_poll_iff :
      (((400 ≤ (get_poll calls slug now device t).status)
          × ((get_poll calls slug now device t).cookie ≡ none)
          × ((code : Str) × ((get_poll calls slug now device t).content ≡ refused code)))
        ⊎ ((p : Poll) × (x : Str × Option Str) × IsOpen p
            × (device ≡ ok x)
            × (get_poll calls slug now device t ≡ public_view p x.1)))
      × ((p : Poll) (x : Str × Option Str)
          → IsOpen p
          → device ≡ ok x
          → get_poll calls slug now device t ≡ public_view p x.1)
  unfolding get_poll
  get_poll_iff = (
    by_poll (public_by_slug calls slug now t) refl,
    λ p x is_open d.
        ap (show_found device) (shown_open p is_open) ∙ ap (λ v. show_found v (ok p)) d,
  )
