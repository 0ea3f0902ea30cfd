-- ===== src/Domain/Uuid.antt =====
-- internal/domain/poll.go: `NewUUID` and `IsUUID`.
pub mod Shape
pub mod Fresh
use Prim.Native.Nat.{bit_and, bit_or}
use mipttest_task.Base.{
  ℕ, zero, suc, ◌+◌, ◌-◌, ◌*◌, ◌/◌, ◌%◌, ◌≡◌, refl, Bool, true, false, not, ◌&&◌, ◌||◌, Option,
  none, some, List, [], ◌∷◌, ◌++◌, arith, ltb, leb, ◌==◌, if◌then◌else◌, Str, codes, length,
  get_elem?, take, drop, filter,
}
use mipttest_task.Domain.Errors.{Result, ok, err, other}

-- `hex.EncodeToString`
abbrev pub hex_digit : ℕ → ℕ
hex_digit d = if ltb d 10 then b'0' + d else b'a' + (d - 10)

unfoldable pub hex_encode : List ℕ → Str
hex_encode [] = []
hex_encode (b ∷ bs) = hex_digit (b / 16) ∷ hex_digit (b % 16) ∷ hex_encode bs

-- The value of a hex digit, in either case.
abbrev pub hex_value : ℕ → Option ℕ
hex_value c =
    if leb b'0' c && leb c b'9'
    then some (c - b'0')
    else if leb b'a' c && leb c b'f'
    then some (c - b'a' + 10)
    else if leb b'A' c && leb c b'F'
    then some (c - b'A' + 10)
    else none

abbrev hex_byte : Option ℕ → Option ℕ → Option (List ℕ) → Option (List ℕ)
hex_byte (some high) (some low) (some bs) = some ((high * 16 + low) ∷ bs)
hex_byte _ _ _ = none

-- `hex.DecodeString`: `none` is `InvalidByteError` or `ErrLength`.
unfoldable pub hex_decode : Str → Option (List ℕ)
hex_decode [] = some []
hex_decode (c ∷ []) = none
hex_decode (c ∷ d ∷ s) = hex_byte (hex_value c) (hex_value d) (hex_decode s)

abbrev pub is_dash : ℕ → Bool
is_dash c = c == b'-'

-- `strings.ReplaceAll(s, "-", "")`
unfoldable pub strip_dashes : Str → Str
strip_dashes [] = []
strip_dashes (c ∷ s) = if is_dash c then strip_dashes s else c ∷ strip_dashes s

abbrev dash_at : Str → ℕ → Bool
dash_at s i = elim (get_elem? s i) [ none ↦ false | some c ↦ is_dash c ]

abbrev is_some : Option (List ℕ) → Bool
is_some none = false
is_some (some _) = true

unfoldable pub is_uuid : Str → Bool
unfolding strip_dashes hex_decode
is_uuid s =
    if not (length s == 36)
      || not (dash_at s 8)
      || not (dash_at s 13)
      || not (dash_at s 18)
      || not (dash_at s 23)
    then false
    else is_some (hex_decode (strip_dashes s))

abbrev pub slice : List ℕ → ℕ → ℕ → List ℕ
slice b low high = take (high - low) (drop low b)

-- `b[i] = f(b[i])` on the byte array
abbrev pub update_at : List ℕ → ℕ → (ℕ → ℕ) → List ℕ
update_at [] i f = []
update_at (b ∷ bs) zero f = f b ∷ bs
update_at (b ∷ bs) (suc i) f = b ∷ update_at bs i f

abbrev pub version_bits : ℕ → ℕ
version_bits x = bit_or (bit_and x 0x0f) 0x40

abbrev pub variant_bits : ℕ → ℕ
variant_bits x = bit_or (bit_and x 0x3f) 0x80

abbrev pub uuid_text : List ℕ → Str
uuid_text b =
    hex_encode (slice b 0 4)
    ++ (b'-'
        ∷ (hex_encode (slice b 4 6)
            ++ (b'-'
                ∷ (hex_encode (slice b 6 8)
                    ++ (b'-'
                        ∷ (hex_encode (slice b 8 10) ++ (b'-' ∷ hex_encode (slice b 10 16))))))))

-- The argument is what `rand.Read` put into the 16 bytes, `none` where it fails.
unfoldable pub new_uuid : Option (List ℕ) → Result Str
unfolding hex_encode
new_uuid none = err (other "rand")
new_uuid (some b) = ok (uuid_text (update_at (update_at b 6 version_bits) 8 variant_bits))
