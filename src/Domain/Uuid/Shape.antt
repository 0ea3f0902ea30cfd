-- ===== src/Domain/Uuid/Shape.antt =====
-- What `IsUUID` accepts, and that `NewUUID` passes it.
use mipttest_task.Base.{
  ℕ, ◌+◌, ◌%◌, ◌<◌, ◌≡◌, ◌≢◌, refl, ◌∙◌, true, none, some, List, [], ◌∷◌, ◌++◌, arith, Str, codes,
  length, get_elem?, All, All-append, length-append, get_elem?-skip,
}
use mipttest_task.Domain.Uuid.{hex_encode, hex_value, hex_decode, strip_dashes, is_uuid}

abbrev pub IsHex : ℕ → Type 0
IsHex c = hex_value c ≢ none

-- The canonical form: groups of 8, 4, 4, 4 and 12 hex digits between dashes.
abbrev pub join_groups : Str → Str → Str → Str → Str → Str
join_groups a b c d e = a ++ (b'-' ∷ (b ++ (b'-' ∷ (c ++ (b'-' ∷ (d ++ (b'-' ∷ e)))))))

strip_dashes-append : (s t : Str) → All IsHex s → strip_dashes (s ++ t) ≡ s ++ strip_dashes t
unfolding strip_dashes
strip_dashes-append [] t h = refl
strip_dashes-append (c ∷ s) t (p, h) = ground (arith, strip_dashes-append s t h)

strip_dashes_of_All : (s : Str) → All IsHex s → strip_dashes s ≡ s
unfolding strip_dashes
strip_dashes_of_All [] h = refl
strip_dashes_of_All (c ∷ s) (p, h) = ground (arith, strip_dashes_of_All s h)

strip_dashes-dash : (t : Str) → strip_dashes (b'-' ∷ t) ≡ strip_dashes t
unfolding strip_dashes
strip_dashes-dash t = refl

-- An even number of hex digits is decoded.
hex_decode_total : (s : Str) → All IsHex s → length s % 2 ≡ 0 → hex_decode s ≢ none
unfolding hex_decode
hex_decode_total [] h e = ground arith
hex_decode_total (c ∷ []) h e = absurd (omega arith)
hex_decode_total (c ∷ d ∷ s) (p, (q, h)) e = ground (arith, hex_decode_total s h (omega arith))

strip_dashes-join_groups :
    (a b c d e : Str)
    → All IsHex a
    → All IsHex b
    → All IsHex c
    → All IsHex d
    → All IsHex e
    → strip_dashes (join_groups a b c d e) ≡ a ++ (b ++ (c ++ (d ++ e)))
strip_dashes-join_groups a b c d e ha hb hc hd he = rw (
  strip_dashes-append a _ ha,
  strip_dashes-dash,
  strip_dashes-append b _ hb,
  strip_dashes-dash,
  strip_dashes-append c _ hc,
  strip_dashes-dash,
  strip_dashes-append d _ hd,
  strip_dashes-dash,
  strip_dashes_of_All e he,
)

pub hex_encode-IsHex : (bs : List ℕ) → All (λ b. b < 256) bs → All IsHex (hex_encode bs)
unfolding hex_encode
hex_encode-IsHex [] h = tt
hex_encode-IsHex (b ∷ bs) (p, h) = (ground arith, (ground arith, hex_encode-IsHex bs h))

pub length-hex_encode : (bs : List ℕ) → length (hex_encode bs) ≡ length bs + length bs
unfolding hex_encode
length-hex_encode [] = omega arith
length-hex_encode (b ∷ bs) = omega (arith, length-hex_encode bs)

length-join_groups :
    (a b c d e : Str)
    → length (join_groups a b c d e) ≡ length a + length b + length c + length d + length e + 4
length-join_groups a b c d e = omega (arith, length-append {0})

is_uuid_of_dashes :
    (s : Str)
    → length s ≡ 36
    → get_elem? s 8 ≡ some b'-'
    → get_elem? s 13 ≡ some b'-'
    → get_elem? s 18 ≡ some b'-'
    → get_elem? s 23 ≡ some b'-'
    → hex_decode (strip_dashes s) ≢ none
    → is_uuid s ≡ true
unfolding is_uuid
is_uuid_of_dashes s l p q r t h = ground arith

-- Groups of 8, 4, 4 and 4 characters put a dash where `IsUUID` looks for one.
module _ (a b c d e : Str) (la : length a ≡ 8) (lb : length b ≡ 4) (lc : length c ≡ 4)
    (ld : length d ≡ 4) where
  dash_8 : get_elem? (join_groups a b c d e) 8 ≡ some b'-'
  dash_8 = get_elem?-skip a _ 8 0 (omega arith)

  dash_13 : get_elem? (join_groups a b c d e) 13 ≡ some b'-'
  dash_13 = get_elem?-skip a _ 13 5 (omega arith) ∙ get_elem?-skip b _ 4 0 (omega arith)

  dash_18 : get_elem? (join_groups a b c d e) 18 ≡ some b'-'
  dash_18 =
      get_elem?-skip a _ 18 10 (omega arith)
      ∙ get_elem?-skip b _ 9 5 (omega arith)
      ∙ get_elem?-skip c _ 4 0 (omega arith)

  dash_23 : get_elem? (join_groups a b c d e) 23 ≡ some b'-'
  dash_23 =
      get_elem?-skip a _ 23 15 (omega arith)
      ∙ get_elem?-skip b _ 14 10 (omega arith)
      ∙ get_elem?-skip c _ 9 5 (omega arith)
      ∙ get_elem?-skip d _ 4 0 (omega arith)

  is_uuid_of_groups :
      length e ≡ 12
      → hex_decode (strip_dashes (join_groups a b c d e)) ≢ none
      → is_uuid (join_groups a b c d e) ≡ true
  is_uuid_of_groups le h =
      is_uuid_of_dashes _ (omega (arith, length-join_groups a b c d e)) dash_8 dash_13 dash_18
        dash_23 h

-- A string of five groups of 8, 4, 4, 4 and 12 hex digits, in either case, joined by dashes is
-- accepted.
pub is_uuid-join_groups :
    (a b c d e : Str)
    → length a ≡ 8
    → length b ≡ 4
    → length c ≡ 4
    → length d ≡ 4
    → length e ≡ 12
    → All IsHex a
    → All IsHex b
    → All IsHex c
    → All IsHex d
    → All IsHex e
    → is_uuid (join_groups a b c d e) ≡ true
is_uuid-join_groups a b c d e la lb lc ld le ha hb hc hd he =
    is_uuid_of_groups a b c d e la lb lc ld le (
      rw (strip_dashes-join_groups a b c d e ha hb hc hd he) (
        hex_decode_total _
          (All-append IsHex a _ ha
            (All-append IsHex b _ hb (All-append IsHex c _ hc (All-append IsHex d _ hd he))))
          (omega (arith, length-append {0}))))

strip_dashes-join_last :
    (a b c d e : Str)
    → All IsHex a
    → All IsHex b
    → All IsHex c
    → All IsHex d
    → strip_dashes (join_groups a b c d e) ≡ a ++ (b ++ (c ++ (d ++ strip_dashes e)))
strip_dashes-join_last a b c d e ha hb hc hd = rw (
  strip_dashes-append a _ ha,
  strip_dashes-dash,
  strip_dashes-append b _ hb,
  strip_dashes-dash,
  strip_dashes-append c _ hc,
  strip_dashes-dash,
  strip_dashes-append d _ hd,
  strip_dashes-dash,
)

-- `IsUUID` removes every dash before it reads the digits, so a string whose last group is ten hex
-- digits and two dashes is accepted too, though it is no UUID.
pub is_uuid-extra_dashes :
    (a b c d e : Str)
    → length a ≡ 8
    → length b ≡ 4
    → length c ≡ 4
    → length d ≡ 4
    → length e ≡ 10
    → All IsHex a
    → All IsHex b
    → All IsHex c
    → All IsHex d
    → All IsHex e
    → is_uuid (join_groups a b c d (e ++ codes "--")) ≡ true
is_uuid-extra_dashes a b c d e la lb lc ld le ha hb hc hd he =
    is_uuid_of_groups a b c d (e ++ codes "--") la lb lc ld
      (omega (arith, length-append e (codes "--")))
      (rw (strip_dashes-join_last a b c d _ ha hb hc hd, strip_dashes-append e (codes "--") he)
        (unfold strip_dashes in
          (hex_decode_total _
            (All-append IsHex a _ ha (
              All-append IsHex b _ hb
                (All-append IsHex c _ hc (All-append IsHex d _ hd (All-append IsHex e [] he tt)))))
            (omega (arith, length-append {0})))))
