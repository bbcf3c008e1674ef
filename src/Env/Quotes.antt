-- ===== src/Env/Quotes.antt =====
-- Values between double quotes, written with escapes and read back.
use ss_common.Prelude.{
  ℕ, ◌≡◌, refl, ap, ◌∙◌, true, false, ◌||◌, none, [], ◌∷◌, ◌++◌, Text, ◌==◌, ==_iff, nat_eq,
  list_eq, if◌then◌else◌, lookup, arith, Bool-cases, contains, starts, Dict, inl, inr,
}
use ss_common.Result.{ok}
use ss_common.Env.{
  quote, backslash, unescaped, prepend, quoted_from, double_quoted, reference, expand_from,
  EnvValues,
}

-- A value with a backslash before each quote and backslash.
abbrev pub escaped : Text → Text
escaped [] = []
escaped (c ∷ s) = if c == quote || c == backslash then backslash ∷ c ∷ escaped s else c ∷ escaped s

unescaped-quote : unescaped quote ≡ quote ∷ []
unfolding unescaped lookup ◌==◌ nat_eq
unescaped-quote = refl

unescaped-backslash : unescaped backslash ≡ backslash ∷ []
unfolding unescaped lookup ◌==◌ nat_eq
unescaped-backslash = refl

unescaped_same : (c : ℕ) → (c == quote || c == backslash) ≡ true → unescaped c ≡ c ∷ []
unescaped_same c h = elim (Bool-cases (c == quote)) [
  | inl e ↦ rw ((==_iff c quote).0 e) unescaped-quote
  | inr e ↦ rw ((==_iff c backslash).0 (ground (arith, e))) unescaped-backslash
]

double_quoted-escape :
    (d : ℕ) (s : Text) → double_quoted (backslash ∷ d ∷ s) ≡ prepend (unescaped d) (double_quoted s)
unfolding quoted_from ◌==◌ nat_eq
double_quoted-escape d s = refl

double_quoted-plain :
    (c : ℕ) (s : Text)
    → (c == quote) ≡ false
    → (c == backslash) ≡ false
    → double_quoted (c ∷ s) ≡ prepend (c ∷ []) (double_quoted s)
unfolding quoted_from
double_quoted-plain c s q b = rw (quoted_from, b, q) refl

double_quoted-end : (s : Text) → double_quoted (quote ∷ s) ≡ ok ([], s)
unfolding quoted_from ◌==◌ nat_eq
double_quoted-end s = refl

-- An escaped value before a closing quote is read back, whatever follows.
pub double_quoted-escaped :
    (v after : Text) → double_quoted (escaped v ++ quote ∷ after) ≡ ok (v, after)
double_quoted-escaped [] after = double_quoted-end after
double_quoted-escaped (c ∷ s) after = elim (Bool-cases (c == quote || c == backslash)) [
  | inl e ↦ rw e (
      double_quoted-escape c (escaped s ++ quote ∷ after)
      ∙ ap (λ r. prepend (unescaped c) r) (double_quoted-escaped s after)
      ∙ rw (unescaped_same c e) refl)
  | inr e ↦ rw e (
      double_quoted-plain c (escaped s ++ quote ∷ after) (ground (arith, e)) (ground (arith, e))
      ∙ ap (λ r. prepend (c ∷ []) r) (double_quoted-escaped s after))
]

reference-none : (c : ℕ) (s : Text) → (c == b'$') ≡ false → reference (c ∷ s) ≡ none
unfolding reference starts
reference-none c s h = ground (arith, ==_iff c b'$', ==_iff b'$' c)

-- A value without a dollar is its own expansion.
pub expand_from_same :
    (defined : EnvValues) (environ : Dict Text Text) (v : Text)
    → contains v b'$' ≡ false
    → expand_from defined environ 0 v ≡ v
unfolding expand_from
expand_from_same defined environ [] h = refl
expand_from_same defined environ (c ∷ s) h =
    rw (expand_from, reference-none c s (ground (arith, ==_iff c b'$', ==_iff b'$' c)))
      (ap (λ t. c ∷ t) (expand_from_same defined environ s (ground arith)))
