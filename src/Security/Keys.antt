-- ===== src/Security/Keys.antt =====
-- What the comparison of keys and the check of a signature decide.
use ss_common.Prelude.{
  is_upper, is_digit, is_space, is_solid, strip_solid, leb, ◌+◌, map, ◌||◌, ℕ, ◌≡◌, ◌≢◌, refl, sym,
  ap, ◌∙◌, Bool, true, false, not, ◌&&◌, Option, none, some, [], ◌∷◌, ◌++◌, Text, ◌==◌, list_eq,
  nat_eq, ==_iff, if◌then◌else◌, is_empty, arith, and_then, starts, Bool-cases, inl, inr,
}
use ss_common.Security.{
  Bytes, encode, Key, text, as_bytes, is_blank, is_ascii, same_bytes, keys_match, Digests,
  signature_prefix, sign_hmac_sha256, presented_hex, verified, verify_hmac_sha256,
}
use ss_common.Security.Utf8.{encode_injective}

some_same : {x y : Bytes} → some x ≡ some y → x ≡ y
some_same p = cc

encode_same : (a b : Text) (x y : Bytes) → encode a ≡ some x → encode b ≡ some y → a ≡ b → x ≡ y
encode_same a b x y h k p = some_same (sym h ∙ ap encode p ∙ k)

same_bytes-text :
    (a b : Text) (x y : Bytes)
    → encode a ≡ some x
    → encode b ≡ some y
    → same_bytes (encode a) (encode b) ≡ some (a == b)
same_bytes-text a b x y h k = elim (Bool-cases (x == y)) [
  | inl e ↦
      rw (h, k)
        (ap some (
          e
          ∙ sym ((==_iff a b).1 (encode_injective a b x h (k ∙ ap some (sym ((==_iff x y).0 e)))))))
  | inr e ↦ rw (h, k) (ground (arith, ==_iff a b, ==_iff x y, encode_same a b x y h k))
]

-- The comparison of two texts with UTF-8 bytes is their equality, but that nothing matches where no
-- key is configured.
pub keys_match-text :
    (presented expected : Text) (a b : Bytes)
    → encode presented ≡ some a
    → encode expected ≡ some b
    → keys_match (text presented) (text expected)
      ≡ some (not (is_empty expected) && presented == expected)
unfolding keys_match
keys_match-text presented expected a b h k =
    ground (arith, same_bytes-text presented expected a b h k)

-- The same texts match by their bytes.
keys_match-true : (a b : Text) → keys_match (text a) (text b) ≡ some true → (b ≢ []) × (a ≡ b)
unfolding keys_match
keys_match-true a [] h = cc
keys_match-true a (c ∷ b) h = elim (Bool-cases (is_ascii a && is_ascii (c ∷ b))) [
  | inl e ↦ ((λ n. cc), ground (arith, ==_iff a (c ∷ b)))
  | inr e ↦ ((λ n. cc), by_bytes a (c ∷ b) (encode a) (encode (c ∷ b)) refl refl (ground arith))
]
  where
    by_bytes :
        (a b : Text) (x y : Option Bytes)
        → encode a ≡ x
        → encode b ≡ y
        → same_bytes x y ≡ some true
        → a ≡ b
    by_bytes a b none y h k e = cc
    by_bytes a b (some x) none h k e = cc
    by_bytes a b (some x) (some y) h k e =
        encode_injective a b x h (k ∙ ap some (sym ((==_iff x y).0 (some_true e))))
      where
        some_true : {t : Bool} → some t ≡ some true → t ≡ true
        some_true p = cc

module _ (digests : Digests) where
  -- A signature that verifies is the one that signs the body, in any case, after white space and the
  -- optional prefix are taken off; the secret and the signature are not empty.
  pub verify_hmac_sha256-true :
      (secret : Key) (body : Bytes) (signature : Text)
      → verify_hmac_sha256 digests secret body signature ≡ some true
      → (is_blank secret ≡ false)
        × (is_empty signature ≡ false)
        × (sign_hmac_sha256 digests secret body
            ≡ some (digests.lower (presented_hex digests signature)))
  unfolding verify_hmac_sha256
  verify_hmac_sha256-true secret body signature h = elim (Bool-cases (is_blank secret)) [
    | inl e ↦ ground arith
    | inr e ↦ elim (Bool-cases (is_empty signature)) [
      | inl f ↦ ground arith
      | inr f ↦ (e, f, signed_as (sign_hmac_sha256 digests secret body) refl (ground arith))
    ]
  ]
    where
      signed_as :
          (o : Option Text)
          → sign_hmac_sha256 digests secret body ≡ o
          → verified (digests.lower (presented_hex digests signature)) o ≡ some true
          → o ≡ some (digests.lower (presented_hex digests signature))
      signed_as none e k = cc
      signed_as (some s) e k = ap some (sym (keys_match-true _ s k).1)

-- A digest is written in lower case hexadecimal digits.
abbrev pub is_hex_digit : ℕ → Bool
is_hex_digit c = is_digit c || leb b'a' c && leb c b'f'

abbrev pub is_hex : Text → Bool
is_hex [] = true
is_hex (c ∷ s) = is_hex_digit c && is_hex s

abbrev pub lower_char : ℕ → ℕ
lower_char c = if is_upper c then c + 32 else c

lower_hex : (s : Text) → is_hex s ≡ true → map lower_char s ≡ s
lower_hex [] h = refl
lower_hex (c ∷ s) h = ground (arith, lower_hex s)

hex_ascii : (s : Text) → is_hex s ≡ true → is_ascii s ≡ true
hex_ascii [] h = refl
hex_ascii (c ∷ s) h = ground (arith, hex_ascii s)

hex_char_solid : (c : ℕ) → is_hex_digit c ≡ true → is_space c ≡ false
unfolding is_space
hex_char_solid c h = ground (
  arith,
  ==_iff c 133,
  ==_iff c 160,
  ==_iff c 5760,
  ==_iff c 8232,
  ==_iff c 8233,
  ==_iff c 8239,
  ==_iff c 8287,
  ==_iff c 12288,
)

hex_solid : (s : Text) → is_hex s ≡ true → is_solid s ≡ true
hex_solid [] h = refl
hex_solid (c ∷ s) h = ground (arith, hex_solid s, hex_char_solid c)

hex_unprefixed : (s : Text) → is_hex s ≡ true → starts signature_prefix s ≡ false
unfolding starts
hex_unprefixed [] h = refl
hex_unprefixed (c ∷ s) h = ground (arith, ==_iff b's' c)

starts_prefix : (s : Text) → starts signature_prefix (signature_prefix ++ s) ≡ true
unfolding starts ◌==◌ nat_eq
starts_prefix s = refl

module _ (digests : Digests)
    (digest_hex : (key body : Bytes) → is_hex (digests.hmac_hex key body) ≡ true)
    (digest_some : (key body : Bytes) → is_empty (digests.hmac_hex key body) ≡ false)
    (lower_ascii : (s : Text) → is_ascii s ≡ true → digests.lower s ≡ map lower_char s) where
  lowered : (s : Text) → is_hex s ≡ true → digests.lower s ≡ s
  lowered s h = lower_ascii s (hex_ascii s h) ∙ lower_hex s h

  presented_plain : (s : Text) → is_hex s ≡ true → presented_hex digests s ≡ s
  unfolding presented_hex
  presented_plain s h = rw (strip_solid s (hex_solid s h), lowered s h, hex_unprefixed s h) refl

  presented_prefixed :
      (s : Text) → is_hex s ≡ true → presented_hex digests (signature_prefix ++ s) ≡ s
  unfolding presented_hex
  presented_prefixed s h =
      rw
        (
          strip_solid (signature_prefix ++ s) (prefixed_solid s h),
          prefixed_lower s h,
          starts_prefix s,
        )
        refl
    where
      prefixed_solid : (s : Text) → is_hex s ≡ true → is_solid (signature_prefix ++ s) ≡ true
      prefixed_solid s h = unfold is_space ◌==◌ nat_eq in hex_solid s h

      prefixed_lower :
          (s : Text)
          → is_hex s ≡ true
          → digests.lower (signature_prefix ++ s) ≡ (signature_prefix ++ s)
      prefixed_lower s h =
          lower_ascii (signature_prefix ++ s) (hex_ascii s h)
          ∙ ap (λ t. signature_prefix ++ t) (lower_hex s h)

  -- What the secret signs verifies, with the prefix and without.
  pub verify-sign_hmac_sha256 :
      (secret : Key) (body : Bytes) (signed : Text)
      → is_blank secret ≡ false
      → sign_hmac_sha256 digests secret body ≡ some signed
      → (verify_hmac_sha256 digests secret body signed ≡ some true)
        × (verify_hmac_sha256 digests secret body (signature_prefix ++ signed) ≡ some true)
  unfolding verify_hmac_sha256
  verify-sign_hmac_sha256 secret body signed set made = (
    rw (set, made, shown, presented_plain signed hex, lowered signed hex)
        (matches signed hex shown),
    rw (set, made, presented_prefixed signed hex, lowered signed hex) (matches signed hex shown),
  )
    where
      digest_of :
          (o : Option Bytes)
          → and_then o (λ key. some (digests.hmac_hex key body)) ≡ some signed
          → (is_hex signed ≡ true) × (is_empty signed ≡ false)
      digest_of none e = cc
      digest_of (some k) e = ground (arith, digest_hex k body, digest_some k body)

      of_secret : (is_hex signed ≡ true) × (is_empty signed ≡ false)
      of_secret = unfold sign_hmac_sha256 in digest_of (as_bytes secret) made

      hex : is_hex signed ≡ true
      hex = of_secret.0

      shown : is_empty signed ≡ false
      shown = of_secret.1

      matches :
          (s : Text)
          → is_hex s ≡ true
          → is_empty s ≡ false
          → keys_match (text s) (text s) ≡ some true
      matches s h n = unfold keys_match in ground (arith, hex_ascii s h, ==_iff s s)
