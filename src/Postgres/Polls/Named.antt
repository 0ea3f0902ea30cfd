-- ===== src/Postgres/Polls/Named.antt =====
-- Identifiers that `NewUUID` makes are stored as they are.
use mipttest_task.Base.{
  ℕ, ◌≡◌, refl, ap, ap₂, subst, ◌∙◌, Option, none, some, List, [], ◌∷◌, ◌++◌, arith, Str,
}
use mipttest_task.Domain.Errors.{ok, ok-injective}
use mipttest_task.Domain.Uuid.{hex_digit, hex_encode, new_uuid, slice, uuid_text}
use mipttest_task.Postgres.Tables.{lower, uuid_of}

lower-hex_digit : (d : ℕ) → lower (hex_digit d) ≡ hex_digit d
lower-hex_digit d = ground arith

uuid_of-hex_encode : (bs : List ℕ) → uuid_of (hex_encode bs) ≡ hex_encode bs
unfolding hex_encode
uuid_of-hex_encode [] = refl
uuid_of-hex_encode (b ∷ bs) =
    ap₂ (λ x y. x ∷ y) (lower-hex_digit _)
      (ap₂ (λ x y. x ∷ y) (lower-hex_digit _) (uuid_of-hex_encode bs))

uuid_of-append : (s t : Str) → uuid_of (s ++ t) ≡ uuid_of s ++ uuid_of t
uuid_of-append [] t = refl
uuid_of-append (c ∷ s) t = ap (λ x. lower c ∷ x) (uuid_of-append s t)

-- A group of digits in front of a text.
uuid_of-group :
    (bs : List ℕ) (t : Str) → uuid_of t ≡ t → uuid_of (hex_encode bs ++ t) ≡ hex_encode bs ++ t
uuid_of-group bs t h =
    uuid_of-append (hex_encode bs) t ∙ ap₂ (λ x y. x ++ y) (uuid_of-hex_encode bs) h

uuid_of-dash : (t : Str) → uuid_of t ≡ t → uuid_of (b'-' ∷ t) ≡ b'-' ∷ t
uuid_of-dash t h = ap (λ x. b'-' ∷ x) h

uuid_of-uuid_text : (b : List ℕ) → uuid_of (uuid_text b) ≡ uuid_text b
uuid_of-uuid_text b = uuid_of-group (slice b 0 4) _ (
    uuid_of-dash _ (
      uuid_of-group (slice b 4 6) _ (
        uuid_of-dash _ (
          uuid_of-group (slice b 6 8) _ (
            uuid_of-dash _ (
              uuid_of-group (slice b 8 10) _
                (uuid_of-dash _ (uuid_of-hex_encode (slice b 10 16)))))))))

pub uuid_of-new_uuid :
    (random : Option (List ℕ)) (id : Str) → new_uuid random ≡ ok id → uuid_of id ≡ id
unfolding new_uuid
uuid_of-new_uuid none id h = cc
uuid_of-new_uuid (some b) id h = subst (λ x. uuid_of x ≡ x) (ok-injective h) (uuid_of-uuid_text _)
