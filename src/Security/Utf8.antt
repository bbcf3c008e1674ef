-- ===== src/Security/Utf8.antt =====
-- UTF-8 tells texts apart.
use ss_common.Prelude.{
  ℕ, ◌≡◌, ◌≢◌, refl, sym, ap, ◌∙◌, some, [], ◌∷◌, ◌++◌, Text, ltb, ◌+◌, ◌*◌, ◌-◌, if◌then◌else◌,
  arith, Option-cases, inl, inr,
}
use ss_common.Security.{Bytes, encode_char, encode}

-- The code point of a first byte and the bytes that are left, with those bytes taken off.
two : ℕ → Bytes → ℕ × Bytes
two a (b ∷ s) = ((a - 192) * 64 + (b - 128), s)
two a [] = (0, [])

three : ℕ → Bytes → ℕ × Bytes
three a (b ∷ c ∷ s) = ((a - 224) * 4096 + (b - 128) * 64 + (c - 128), s)
three a _ = (0, [])

four : ℕ → Bytes → ℕ × Bytes
four a (b ∷ c ∷ d ∷ s) = ((a - 240) * 262144 + (b - 128) * 4096 + (c - 128) * 64 + (d - 128), s)
four a _ = (0, [])

first : Bytes → ℕ × Bytes
unfolding two three four
first [] = (0, [])
first (a ∷ s) =
    if ltb a 128
    then (a, s)
    else if ltb a 224
    then two a s
    else if ltb a 240
    then three a s
    else four a s

first-encode_char : (c : ℕ) (b s : Bytes) → encode_char c ≡ some b → first (b ++ s) ≡ (c, s)
unfolding first encode_char
first-encode_char c [] s h = ground arith
first-encode_char c (x ∷ []) s h = ground arith
first-encode_char c (x ∷ y ∷ []) s h = ground arith
first-encode_char c (x ∷ y ∷ z ∷ []) s h = ground arith
first-encode_char c (x ∷ y ∷ z ∷ w ∷ []) s h = ground arith
first-encode_char c (x ∷ y ∷ z ∷ w ∷ v ∷ b) s h = ground arith

encode_char-cons : (c : ℕ) (b : Bytes) → encode_char c ≡ some b → b ≢ []
unfolding encode_char
encode_char-cons c [] h e = ground arith
encode_char-cons c (x ∷ b) h e = cc

-- What a text's bytes come from.
encode-cons :
    (c : ℕ) (s : Text) (r : Bytes)
    → encode (c ∷ s) ≡ some r
    → (b : Bytes) × (t : Bytes) × (encode_char c ≡ some b) × (encode s ≡ some t) × (r ≡ b ++ t)
unfolding encode
encode-cons c s r h = elim (Option-cases (encode_char c)) [
  | inl e ↦ ground arith
  | inr (b, e) ↦ elim (Option-cases (encode s)) [
    | inl f ↦ ground arith
    | inr (t, f) ↦ (b, t, e, f, ground arith)
  ]
]

empty-cons : (b t : Bytes) → b ≢ [] → [] ≡ (b ++ t) → ⊥
empty-cons [] t n h = n refl
empty-cons (x ∷ b) t n h = cc

-- Texts with the same bytes are the same.
pub encode_injective : (s t : Text) (r : Bytes) → encode s ≡ some r → encode t ≡ some r → s ≡ t
encode_injective [] [] r h k = refl
encode_injective [] (d ∷ t) r h k =
    let (b, u, e, f, split) = encode-cons d t r k in
    elim (empty-cons b u (encode_char-cons d b e) (encode-nil r h ∙ split)) [ ]
  where
    encode-nil : (r : Bytes) → encode [] ≡ some r → [] ≡ r
    encode-nil r h = unfold encode in ground (arith, h)
encode_injective (c ∷ s) [] r h k =
    let (b, u, e, f, split) = encode-cons c s r h in
    elim (empty-cons b u (encode_char-cons c b e) (encode-nil r k ∙ split)) [ ]
  where
    encode-nil : (r : Bytes) → encode [] ≡ some r → [] ≡ r
    encode-nil r h = unfold encode in ground (arith, h)
encode_injective (c ∷ s) (d ∷ t) r h k =
    let (b, u, e, f, split) = encode-cons c s r h in
    let (b', u', e', f', split') = encode-cons d t r k in
    let heads =
      sym (first-encode_char c b u e)
      ∙ ap first (sym split ∙ split')
      ∙ first-encode_char d b' u' e' in
    rw (ap (λ p. p.0) heads)
      (ap (λ l. d ∷ l) (encode_injective s t u f (rw (ap (λ p. p.1) heads) f')))
