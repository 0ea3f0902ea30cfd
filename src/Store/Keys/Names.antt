-- ===== src/Store/Keys/Names.antt =====
-- The keys of a poll do not collide: neither the kinds, nor the buckets, nor the devices, nor two polls
-- whose identifiers are equally long, as UUIDs are.
use mathlib.Core.List.{append_assoc, append-nil}
use mipttest_task.Base.{
  ℕ, ◌≡◌, ◌≢◌, refl, sym, ◌∙◌, true, false, [], ◌∷◌, ◌++◌, arith, Str, codes, length, All,
}
use mipttest_task.Base.Decimal.{itoa, itoa-All, itoa-injective, is_digit}
use mipttest_task.Store.Keys.{key_tag, gate_key, dedup_key, counts_key}

-- Texts of one length before the rest are equal, and so are the rests.
append_cancel : (s t u v : Str) → length s ≡ length t → s ++ u ≡ t ++ v → (s ≡ t) × (u ≡ v)
append_cancel [] [] u v l e = (refl, e)
append_cancel [] (b ∷ t) u v l e = absurd (omega arith)
append_cancel (a ∷ s) [] u v l e = absurd (omega arith)
append_cancel (a ∷ s) (b ∷ t) u v l e =
    let (p, q) = append_cancel s t u v (omega arith) (cc) in (cc, q)

-- Digits before a character that is none are determined.
digits_cancel :
    (s t u v : Str) (c : ℕ)
    → All (λ x. is_digit x ≡ true) s
    → All (λ x. is_digit x ≡ true) t
    → is_digit c ≡ false
    → s ++ (c ∷ u) ≡ t ++ (c ∷ v)
    → (s ≡ t) × (u ≡ v)
digits_cancel [] [] u v c hs ht h e = (refl, cc)
digits_cancel [] (b ∷ t) u v c hs (p, ht) h e = let x : c ≡ b = cc in absurd (ground arith)
digits_cancel (a ∷ s) [] u v c (p, hs) ht h e = let x : a ≡ c = cc in absurd (ground arith)
digits_cancel (a ∷ s) (b ∷ t) u v c (p, hs) (q, ht) h e =
    let (x, y) = digits_cancel s t u v c hs ht h (cc) in (cc, y)

cons_tail : {a b : ℕ} {s t : Str} → a ∷ s ≡ b ∷ t → s ≡ t
cons_tail e = cc

-- One literal before both sides.
literal_cancel : (s u v : Str) → s ++ u ≡ s ++ v → u ≡ v
literal_cancel s u v e = (append_cancel s s u v refl e).1

key_tag-append :
    (p u : Str) (b : ℕ) → key_tag p b ++ u ≡ b'{' ∷ (p ++ (b':' ∷ (itoa b ++ (b'}' ∷ u))))
key_tag-append p u b = simp append_assoc

key_tag-injective :
    (p q u v : Str) (b c : ℕ)
    → length p ≡ length q
    → key_tag p b ++ u ≡ key_tag q c ++ v
    → (p ≡ q) × (b ≡ c) × (u ≡ v)
key_tag-injective p q u v b c l e =
    let e' = sym (key_tag-append p u b) ∙ e ∙ key_tag-append q v c in
    let (x, y) = append_cancel p q _ _ l (cons_tail e') in
    let (z, w) =
      digits_cancel (itoa b) (itoa c) u v b'}' (itoa-All b) (itoa-All c) refl (cons_tail y) in
    (x, itoa-injective b c z, w)

module _ (p q : Str) (b c : ℕ) (l : length p ≡ length q) where
  tags_eq : key_tag p b ≡ key_tag q c → (p ≡ q) × (b ≡ c)
  tags_eq e =
      let (x, y, _) =
        key_tag-injective p q [] [] b c l
          (append-nil (key_tag p b) ∙ e ∙ sym (append-nil (key_tag q c))) in
      (x, y)

  -- The gates of two polls whose identifiers are equally long, or of two buckets, have different keys.
  pub gate_key-injective : gate_key p b ≡ gate_key q c → (p ≡ q) × (b ≡ c)
  unfolding gate_key
  gate_key-injective e = tags_eq (literal_cancel (codes "poll-gate:") _ _ e)

  pub counts_key-injective : counts_key p b ≡ counts_key q c → (p ≡ q) × (b ≡ c)
  unfolding counts_key
  counts_key-injective e = tags_eq (literal_cancel (codes "poll-counts:") _ _ e)

  pub dedup_key-injective :
      (x y : Str) → dedup_key p b x ≡ dedup_key q c y → (p ≡ q) × (b ≡ c) × (x ≡ y)
  unfolding dedup_key
  dedup_key-injective x y e =
      let (r, s, t) =
        key_tag-injective p q _ _ b c l (literal_cancel (codes "poll-dedup:") _ _ e) in
      (r, s, cons_tail t)

module _ (p q : Str) (b c : ℕ) where
  pub gate-ne-dedup : (y : Str) → gate_key p b ≢ dedup_key q c y
  unfolding gate_key dedup_key
  gate-ne-dedup y e = kinds (literal_cancel (codes "poll-") _ _ e)
    where
      kinds : {s t : Str} → b'g' ∷ s ≢ b'd' ∷ t
      kinds e = absurd (ground arith)

  pub gate-ne-counts : gate_key p b ≢ counts_key q c
  unfolding gate_key counts_key
  gate-ne-counts e = kinds (literal_cancel (codes "poll-") _ _ e)
    where
      kinds : {s t : Str} → b'g' ∷ s ≢ b'c' ∷ t
      kinds e = absurd (ground arith)

  pub dedup-ne-counts : (x : Str) → dedup_key p b x ≢ counts_key q c
  unfolding dedup_key counts_key
  dedup-ne-counts x e = kinds (literal_cancel (codes "poll-") _ _ e)
    where
      kinds : {s t : Str} → b'd' ∷ s ≢ b'c' ∷ t
      kinds e = absurd (ground arith)
