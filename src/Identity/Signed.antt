-- ===== src/Identity/Signed.antt =====
-- A signed cookie is accepted again, and an accepted cookie carries the HMAC of its device.
use mipttest_task.Base.{
  ℕ, ◌≡◌, refl, sym, ap, ap₂, ◌∙◌, Bool, true, false, not, Option, none, some, List, [], ◌∷◌, ◌++◌,
  ◌==◌, ==_iff, if◌then◌else◌, Str, codes, eq_str, eq_str_refl, eq_str_iff, All, length,
}
use mipttest_task.Domain.Errors.{Result, ok, err}
use mipttest_task.Identity.{
  push, split_dots, invalid_cookie, Crypto, payload_of, sign, is_id, is_signature, verify_parts,
  verify, new_device, device_id, device_from,
}

abbrev NoDots : Str → Type 0
NoDots s = All (λ x. (x == b'.') ≡ false) s

split_dots-dot : (s t : Str) → NoDots s → split_dots (s ++ (b'.' ∷ t)) ≡ s ∷ split_dots t
unfolding split_dots
split_dots-dot [] t h = refl
split_dots-dot (x ∷ s) t (h, g) = rw h (ap (push x) (split_dots-dot s t g))

split_dots-whole : (s : Str) → NoDots s → split_dots s ≡ s ∷ []
unfolding split_dots
split_dots-whole [] h = refl
split_dots-whole (x ∷ s) (h, g) = rw h (ap (push x) (split_dots-whole s g))

-- What the code relies on of base64: what was encoded is decoded again, and no code of it is a dot.
pub record CryptoLaws (c : Crypto) : Type 0 where
  pub decode-encode : (b : List ℕ) → c.decode (c.encode b) ≡ some b
  pub encode_undotted : (b : List ℕ) → All (λ x. (x == b'.') ≡ false) (c.encode b)

module _ (c : Crypto) (laws : CryptoLaws c) (key : List ℕ) where
  signed_parts :
      (id : Str)
      → NoDots id
      → split_dots (sign c key id)
        ≡ codes "v1" ∷ id ∷ c.encode (c.mac key (payload_of c key id)) ∷ []
  unfolding sign split_dots
  signed_parts id h =
      ap (λ parts. codes "v1" ∷ parts)
        (split_dots-dot id (c.encode (c.mac key (payload_of c key id))) h
          ∙ ap (λ parts. id ∷ parts)
              (split_dots-whole _ (laws.encode_undotted (c.mac key (payload_of c key id)))))

  pub verify-sign :
      (b : List ℕ) → length b ≡ 16 → verify c key (sign c key (c.encode b)) ≡ ok (c.encode b)
  unfolding verify eq_str
  verify-sign b n =
      let id = c.encode b in
      let signature = c.mac key (payload_of c key id) in
      let known : is_id c key (c.decode id) ≡ true =
        ap (is_id c key) (laws.decode-encode b) ∙ (==_iff (length b) 16).1 n in
      let signed : is_signature c key (payload_of c key id) (c.decode (c.encode signature)) ≡ true =
        ap (is_signature c key (payload_of c key id)) (laws.decode-encode signature)
        ∙ eq_str_refl signature in
      ap (verify_parts c key) (signed_parts id (laws.encode_undotted b))
      ∙ ap₂
          (λ (x y : Bool).
            if not x then err invalid_cookie else if not y then err invalid_cookie else ok id)
          known signed

  -- Where a request without a cookie, or with one that is not valid, gets a new one from 16 random bytes,
  -- the request that brings this cookie back is taken for the same device and gets no further cookie.
  pub device_id-again :
      (random later : Option (List ℕ)) (before : Option Str) (id cookie : Str)
      → ((b : List ℕ) → random ≡ some b → length b ≡ 16)
      → device_id c key random before ≡ ok (id, some cookie)
      → device_id c key later (some cookie) ≡ ok (id, none)
  unfolding device_id
  device_id-again random later before id cookie size h = new_again random before size h
    where
      again :
          (o : Option (List ℕ))
          → ((b : List ℕ) → o ≡ some b → length b ≡ 16)
          → new_device c key o ≡ ok (id, some cookie)
          → device_from c key later (verify c key cookie) ≡ ok (id, none)
      again none n k = cc
      again (some b) n k =
          let same : c.encode b ≡ id = ap (λ x. elim x [ err _ ↦ id | ok y ↦ y.0 ]) k in
          let its : sign c key (c.encode b) ≡ cookie =
            ap (λ x. elim x [ err _ ↦ cookie | ok y ↦ elim y.1 [ none ↦ cookie | some v ↦ v ] ])
              k in
          ap (λ v. device_from c key later (verify c key v)) (sym its)
          ∙ ap (device_from c key later) (verify-sign b (n b refl))
          ∙ ap (λ x. ok (x, none)) same

      from_verdict :
          (o : Option (List ℕ))
          → ((b : List ℕ) → o ≡ some b → length b ≡ 16)
          → (r : Result Str) → device_from c key o r ≡ ok (id, some cookie)
          → device_from c key later (verify c key cookie) ≡ ok (id, none)
      from_verdict o n (ok x) k = cc
      from_verdict o n (err e) k = again o n k

      new_again :
          (o : Option (List ℕ)) (v : Option Str)
          → ((b : List ℕ) → o ≡ some b → length b ≡ 16)
          → device_id c key o v ≡ ok (id, some cookie)
          → device_from c key later (verify c key cookie) ≡ ok (id, none)
      new_again o none n k = again o n k
      new_again o (some value) n k = from_verdict o n (verify c key value) k

is_id_lem :
    (c : Crypto) (key : List ℕ) (o : Option (List ℕ))
    → is_id c key o ≡ true
    → (raw : List ℕ) × (o ≡ some raw) × (length raw ≡ 16)
is_id_lem c key none h = cc
is_id_lem c key (some raw) h = (raw, refl, (==_iff (length raw) 16).0 h)

is_signature_lem :
    (c : Crypto) (key : List ℕ) (signed : Str) (o : Option (List ℕ))
    → is_signature c key signed o ≡ true
    → o ≡ some (c.mac key signed)
is_signature_lem c key signed none h = cc
is_signature_lem c key signed (some sig) h = ap some ((eq_str_iff sig (c.mac key signed)).0 h)

all_hold :
    (x y z : Bool) (id id' : Str)
    → (if not x
        then err invalid_cookie
        else if not y
        then err invalid_cookie
        else if not z
        then err invalid_cookie
        else ok id)
      ≡ ok id'
    → (x ≡ true) × (y ≡ true) × (z ≡ true) × (id ≡ id')
all_hold false y z id id' h = cc
all_hold true false z id id' h = cc
all_hold true true false id id' h = cc
all_hold true true true id id' h = (refl, refl, refl, ap (λ x. elim x [ err _ ↦ id | ok y ↦ y ]) h)

module _ (c : Crypto) (key : List ℕ) where
  -- The parts of a cookie that is verified as a device.
  abbrev pub IsSigned : List Str → Str → Type 0
  IsSigned parts id =
      (sig : Str) × (raw : List ℕ) × (parts ≡ codes "v1" ∷ id ∷ sig ∷ [])
      × (c.decode id ≡ some raw)
      × (length raw ≡ 16)
      × (c.decode sig ≡ some (c.mac key (codes "v1" ++ (b'.' ∷ id))))

  verify_parts-IsSigned :
      (parts : List Str) (id : Str) → verify_parts c key parts ≡ ok id → IsSigned parts id
  verify_parts-IsSigned [] id h = cc
  verify_parts-IsSigned (a ∷ []) id h = cc
  verify_parts-IsSigned (a ∷ b ∷ []) id h = cc
  verify_parts-IsSigned (a ∷ b ∷ s ∷ x ∷ rest) id h = cc
  verify_parts-IsSigned (a ∷ b ∷ s ∷ []) id h =
      let (v, i, g, same) =
        all_hold (eq_str a (codes "v1")) (is_id c key (c.decode b))
          (is_signature c key (a ++ (b'.' ∷ b)) (c.decode s)) b id h in
      let version : a ≡ codes "v1" = (eq_str_iff a (codes "v1")).0 v in
      let (raw, decoded, size) = is_id_lem c key (c.decode b) i in
      (
        s,
        raw,
        ap₂ (λ p q. p ∷ q ∷ s ∷ []) version same,
        ap c.decode (sym same) ∙ decoded,
        size,
        is_signature_lem c key (a ++ (b'.' ∷ b)) (c.decode s) g
            ∙ ap₂ (λ p q. some (c.mac key (p ++ (b'.' ∷ q)))) version same,
      )

  -- A cookie is verified as a device only if it has three parts, the version, the device, which decodes
  -- to 16 bytes, and a third that decodes to the HMAC of the first two.
  pub verify-IsSigned :
      (value id : Str) → verify c key value ≡ ok id → IsSigned (split_dots value) id
  unfolding verify
  verify-IsSigned value id h = verify_parts-IsSigned (split_dots value) id h
