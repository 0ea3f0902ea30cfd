-- ===== src/Http/Admin/Guarded.antt =====
-- Who reaches the administrator's handlers.
use mipttest_task.Base.{
  ℕ, ◌≡◌, ◌≢◌, refl, sym, ap, ◌∙◌, inl, inr, Bool, Bool-cases, true, false, not, ◌||◌, Option, List,
  [], ◌∷◌, ◌++◌, if◌then◌else◌, Str, codes, eq_str, eq_str_iff, eq_str_refl, has_prefix,
}
use mipttest_task.Service.World.{Replica, Events}
use mipttest_task.Http.Answers.{write_error}
use mipttest_task.Http.Admin.{
  Site, Setup, AdminRequest, failed, provided, is_none_given, is_refused, admin_answer, admin,
}

module _ {Db : Type 0} (r : Replica Db) (setup : Setup) (random : ℕ → Option (List ℕ)) (ev : Events)
    (q : AdminRequest) (s : Site Db) where
  is_refused-other :
      (given : Str)
      → (setup.sum256 setup.admin_token ≡ setup.sum256 given → setup.admin_token ≡ given)
      → setup.admin_token ≢ given
      → is_refused setup given ≡ true
  is_refused-other given no_collision ne =
      elim (Bool-cases (eq_str (setup.sum256 setup.admin_token) (setup.sum256 given))) [
        | inl same ↦ absurd (ne (no_collision ((eq_str_iff _ _).0 same)))
        | inr differ ↦ by_first (is_none_given given) differ
      ]
    where
      by_first :
          (b : Bool)
          → eq_str (setup.sum256 setup.admin_token) (setup.sum256 given) ≡ false
          → (b || not (eq_str (setup.sum256 setup.admin_token) (setup.sum256 given))) ≡ true
      by_first true h = refl
      by_first false h = ap not h

  is_refused-own : setup.admin_token ≢ [] → is_refused setup setup.admin_token ≡ false
  is_refused-own ne =
      ap (λ b. is_none_given setup.admin_token || not b)
        (eq_str_refl (setup.sum256 setup.admin_token))
      ∙ given setup.admin_token ne
    where
      given : (token : Str) → token ≢ [] → (is_none_given token || false) ≡ false
      given [] h = absurd (h refl)
      given (c ∷ token) h = refl

  by_token :
      (b : Bool) (authorization : Str)
      → is_refused setup (provided authorization) ≡ b
      → admin r setup random ev authorization q s ≡ (
          if b
          then (failed (write_error 401 (codes "unauthorized")), s)
          else admin_answer r setup random ev q s)
  unfolding admin
  by_token b authorization h =
      ap
        (λ x.
          if x
          then (failed (write_error 401 (codes "unauthorized")), s)
          else admin_answer r setup random ev q s)
        h

  provided_bearer : provided (codes "Bearer " ++ setup.admin_token) ≡ setup.admin_token
  unfolding provided has_prefix
  provided_bearer = refl

  -- Where there is a token, and SHA-256 tells it from what the request brings: a request whose
  -- `Authorization`, less a leading `Bearer`, is another text is answered 401 and changes nothing, and one
  -- that brings the token, with the prefix or without, is answered as its handler answers it.
  pub admin-guarded :
      (authorization : Str)
      → setup.admin_token ≢ []
      → ((setup.sum256 setup.admin_token ≡ setup.sum256 (provided authorization)
          → setup.admin_token ≡ provided authorization))
      → ((setup.admin_token ≢ provided authorization
            → admin r setup random ev authorization q s
              ≡ (failed (write_error 401 (codes "unauthorized")), s))
          × (setup.admin_token ≡ provided authorization
              → admin r setup random ev authorization q s ≡ admin_answer r setup random ev q s)
          × (admin r setup random ev (codes "Bearer " ++ setup.admin_token) q s
              ≡ admin_answer r setup random ev q s))
  admin-guarded authorization some_token no_collision = (
    λ ne. by_token true authorization (is_refused-other (provided authorization) no_collision ne),
    λ own.
        by_token false authorization (ap (is_refused setup) (sym own) ∙ is_refused-own some_token),
    by_token false (codes "Bearer " ++ setup.admin_token)
        (ap (is_refused setup) provided_bearer ∙ is_refused-own some_token),
  )
