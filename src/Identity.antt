-- ===== src/Identity.antt =====
-- internal/identity/cookie.go: the cookie that names a device, signed with HMAC-SHA-256.
pub mod Signed
pub mod Network
use mipttest_task.Base.{
  ℕ, Bool, true, false, not, ◌||◌, Option, none, some, List, [], ◌∷◌, ◌++◌, ◌==◌, if◌then◌else◌,
  Str, codes, eq_str, length,
}
use mipttest_task.Domain.Errors.{Result, ok, err, Error, other}

-- `strings.Split(value, ".")`
abbrev pub push : ℕ → List Str → List Str
push c [] = (c ∷ []) ∷ []
push c (part ∷ parts) = (c ∷ part) ∷ parts

unfoldable pub split_dots : Str → List Str
split_dots [] = [] ∷ []
split_dots (c ∷ s) = if c == b'.' then [] ∷ split_dots s else push c (split_dots s)

abbrev pub invalid_cookie : Error
invalid_cookie = other "invalid cookie"

-- `base64.RawURLEncoding`, and the HMAC.
pub record Crypto : Type 0 where
  pub encode : List ℕ → Str
  pub decode : Str → Option (List ℕ)
  pub mac : List ℕ → Str → List ℕ

module _ (c : Crypto) (key : List ℕ) where
  abbrev pub payload_of : Str → Str
  payload_of id = codes "v1." ++ id

  -- `CookieManager.sign`
  unfoldable pub sign : Str → Str
  sign id = payload_of id ++ (b'.' ∷ c.encode (c.mac key (payload_of id)))

  -- `err != nil || len(idRaw) != 16`
  abbrev pub is_id : Option (List ℕ) → Bool
  is_id none = false
  is_id (some raw) = length raw == 16

  -- The comparison in constant time.
  abbrev pub is_signature : Str → Option (List ℕ) → Bool
  is_signature signed none = false
  is_signature signed (some sig) = eq_str sig (c.mac key signed)

  abbrev pub verify_parts : List Str → Result Str
  verify_parts (version ∷ id ∷ sig ∷ []) =
      if not (eq_str version (codes "v1"))
      then err invalid_cookie
      else if not (is_id (c.decode id))
      then err invalid_cookie
      else if not (is_signature (version ++ (b'.' ∷ id)) (c.decode sig))
      then err invalid_cookie
      else ok id
  verify_parts _ = err invalid_cookie

  -- `CookieManager.verify`
  unfoldable pub verify : Str → Result Str
  unfolding split_dots
  verify value = verify_parts (split_dots value)

  -- A new device, from the bytes that `rand.Read` put into the 16 bytes.
  abbrev pub new_device : Option (List ℕ) → Result (Str × Option Str)
  new_device none = err (other "rand")
  new_device (some b) = ok (c.encode b, some (sign (c.encode b)))

  abbrev pub device_from : Option (List ℕ) → Result Str → Result (Str × Option Str)
  device_from random (ok id) = ok (id, none)
  device_from random (err e) = new_device random

  -- `CookieManager.DeviceID`: the device of the request, with the cookie to set where it had none that
  -- is valid.
  unfoldable pub device_id : Option (List ℕ) → Option Str → Result (Str × Option Str)
  unfolding sign verify
  device_id random none = new_device random
  device_id random (some value) = device_from random (verify value)
