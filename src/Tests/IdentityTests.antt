-- ===== src/Tests/IdentityTests.antt =====
-- internal/identity at concrete inputs, with a plain code in place of base64.
use mipttest_task.Base.{
  ℕ, ◌+◌, ◌-◌, ◌≡◌, refl, ap, ap₂, ◌==◌, false, none, some, List, [], ◌∷◌, map, arith, Str, All,
  take, Bool, trim_space, length,
}
use mipttest_task.Domain.Errors.{ok}
use mipttest_task.Identity.{Crypto, sign, verify, device_id, split_dots}
use mipttest_task.Identity.Network.{ip4, ip16, Addresses, client_host, network_hash}
use mipttest_task.Identity.Network.Shared.{network_hash-shared}
use mipttest_task.Config.Values.{split_commas}
use mipttest_task.Identity.Signed.{
  CryptoLaws, IsSigned, verify-sign, device_id-again, verify-IsSigned,
}

abbrev plain : Crypto
plain = record {
  encode = λ b. map (λ x. x + 100) b;
  decode = λ s. some (map (λ x. x - 100) s);
  mac = λ key s. length s ∷ key;
}

lowered : (b : List ℕ) → map (λ x. x - 100) (map (λ x. x + 100) b) ≡ b
lowered [] = refl
lowered (x ∷ b) = let e : (x + 100) - 100 ≡ x = omega arith in ap₂ (λ y ys. y ∷ ys) e (lowered b)

undotted : (b : List ℕ) → All (λ x. (x == b'.') ≡ false) (map (λ x. x + 100) b)
undotted [] = tt
undotted (x ∷ b) = (ground arith, undotted b)

plain-laws : CryptoLaws plain
plain-laws = record { decode-encode = λ b. ap some (lowered b); encode_undotted = undotted }

abbrev sixteen : List ℕ
sixteen = 1 ∷ 2 ∷ 3 ∷ 4 ∷ 5 ∷ 6 ∷ 7 ∷ 8 ∷ 9 ∷ 10 ∷ 11 ∷ 12 ∷ 13 ∷ 14 ∷ 15 ∷ 16 ∷ []

abbrev cookie : Str
cookie = sign plain (7 ∷ []) (plain.encode sixteen)

device_id-again_example :
    device_id plain (7 ∷ []) none (some cookie) ≡ ok (plain.encode sixteen, none)
device_id-again_example =
    device_id-again plain plain-laws (7 ∷ []) (some sixteen) none none (plain.encode sixteen) cookie
      (λ b h. ap length (sym_some h)) (unfold device_id in refl)
  where
    sym_some : {b : List ℕ} → some sixteen ≡ some b → b ≡ sixteen
    sym_some h = cc

verified_test : verify plain (7 ∷ []) cookie ≡ ok (plain.encode sixteen)
verified_test = verify-sign plain plain-laws (7 ∷ []) sixteen refl

verify-IsSigned_example : IsSigned plain (7 ∷ []) (split_dots cookie) (plain.encode sixteen)
verify-IsSigned_example = verify-IsSigned plain (7 ∷ []) cookie (plain.encode sixteen) verified_test

-- Addresses as the list of their bytes, and networks of ten addresses by the first byte.
abbrev nets : Addresses ℕ
nets = record {
  split_host = λ s. some (take 4 s);
  parse_ip = λ s. some (ip4 s);
  holds_ip = λ n ip. elim ip [ ip4 bytes ↦ starts_with n bytes | ip16 bytes ↦ false ];
  ip_string = λ ip. elim ip [ ip4 bytes ↦ bytes | ip16 bytes ↦ bytes ];
}
  where
    starts_with : ℕ → List ℕ → Bool
    starts_with n [] = false
    starts_with n (b ∷ bytes) = b == n

network_hash-shared_example :
    network_hash nets plain (7 ∷ []) (10 ∷ []) (1 ∷ 2 ∷ 3 ∷ 4 ∷ 80 ∷ []) []
    ≡ network_hash nets plain (7 ∷ []) (10 ∷ []) (1 ∷ 2 ∷ 3 ∷ 9 ∷ 81 ∷ []) (5 ∷ 6 ∷ 7 ∷ 8 ∷ [])
network_hash-shared_example =
    network_hash-shared nets plain (7 ∷ []) (10 ∷ []) (1 ∷ 2 ∷ 3 ∷ 4 ∷ 80 ∷ [])
      (1 ∷ 2 ∷ 3 ∷ 9 ∷ 81 ∷ []) [] (5 ∷ 6 ∷ 7 ∷ 8 ∷ []) (ip4 (1 ∷ 2 ∷ 3 ∷ 4 ∷ []))
      (ip4 (1 ∷ 2 ∷ 3 ∷ 9 ∷ [])) refl refl (refl, tt) (refl, tt) refl

-- Behind the trusted proxy the header counts.
forwarded_test :
    client_host nets (10 ∷ []) (10 ∷ 0 ∷ 0 ∷ 1 ∷ 80 ∷ []) (5 ∷ 6 ∷ 7 ∷ 8 ∷ b',' ∷ 1 ∷ [])
    ≡ 5 ∷ 6 ∷ 7 ∷ 8 ∷ []
unfolding client_host trim_space split_commas
forwarded_test = refl
