-- ===== src/Env/Keys.antt =====
-- Keys at the start of a line, and what the parser makes of them.
use ss_common.Prelude.{
  ℕ, ◌-◌, ◌≡◌, refl, sym, ap, ◌∙◌, Bool, true, false, ◌&&◌, ◌||◌, none, some, [], ◌∷◌, ◌++◌, Text,
  codes, ◌==◌, ==_iff, nat_eq, list_eq, if◌then◌else◌, is_empty, all, length, is_space, strip,
  lstrip, rstrip, starts, drop, Dict, contains, arith, Bool-cases, inl, inr,
}
use ss_common.Env.{
  EnvValues, taken_by, left_by, is_blank, is_letter, is_key_char, rest_of_line, line_of,
}
use ss_common.Env.Lines.{name_at, exported, key_at, blank_first, keyed, line_values}

pub halves : (a b : Bool) → (a && b) ≡ true → (a ≡ true) × (b ≡ true)
halves true b h = (refl, h)
halves false b h = cc

first_of : {A : Type 0} (b : Bool) (x y : A) → b ≡ true → (if b then x else y) ≡ x
first_of true x y h = refl
first_of false x y h = cc

taken_by-key : (k s : Text) → all is_key_char k ≡ true → taken_by is_key_char (k ++ b'=' ∷ s) ≡ k
unfolding taken_by ◌==◌ nat_eq
taken_by-key [] s h = refl
taken_by-key (c ∷ k) s h =
    let (a, b) = halves _ _ h in
    first_of (is_key_char c) _ _ a ∙ ap (λ t. c ∷ t) (taken_by-key k s b)

left_by-key :
    (k s : Text) → all is_key_char k ≡ true → left_by is_key_char (k ++ b'=' ∷ s) ≡ b'=' ∷ s
unfolding left_by ◌==◌ nat_eq
left_by-key [] s h = refl
left_by-key (c ∷ k) s h =
    let (a, b) = halves _ _ h in first_of (is_key_char c) _ _ a ∙ left_by-key k s b

key_char_not_blank : (c : ℕ) → is_key_char c ≡ true → is_blank c ≡ false
key_char_not_blank c h =
    ground (arith, ==_iff c b' ', ==_iff c 9, ==_iff c b'_', ==_iff c b'.', ==_iff c b'-')

other_than : (q : ℕ) (p : Text) → contains (q ∷ p) b'=' ≡ false → (q == b'=') ≡ false
other_than q p h = ground (arith, ==_iff q b'=', ==_iff b'=' q)

-- No key is a word and blanks.
not_split :
    (p k s : Text)
    → contains p b'=' ≡ false
    → all is_key_char k ≡ true
    → (starts p (k ++ b'=' ∷ s) && blank_first (drop (length p) (k ++ b'=' ∷ s))) ≡ false
unfolding starts ◌==◌ nat_eq
not_split [] [] s n h = refl
not_split [] (c ∷ k) s n h = key_char_not_blank c (halves _ _ h).0
not_split (q ∷ p) [] s n h = rw (other_than q p n) refl
not_split (q ∷ p) (c ∷ k) s n h = elim (Bool-cases (q == c)) [
  | inl e ↦ rw e (not_split p k s (ground arith) (halves _ _ h).1)
  | inr e ↦ rw e refl
]

letter_key_char : (c : ℕ) → is_letter c ≡ true → is_key_char c ≡ true
letter_key_char c h = ground (arith, h)

second_of : {A : Type 0} (b : Bool) (x y : A) → b ≡ false → (if b then x else y) ≡ y
second_of true x y h = cc
second_of false x y h = refl

no_equals : contains (codes "export") b'=' ≡ false
unfolding ◌==◌ nat_eq
no_equals = refl

exported-key : (k s : Text) → all is_key_char k ≡ true → exported (k ++ b'=' ∷ s) ≡ none
unfolding exported
exported-key k s h = second_of _ _ _ (not_split (codes "export") k s no_equals h)

left_by-equals : (s : Text) → left_by is_blank (b'=' ∷ s) ≡ b'=' ∷ s
unfolding left_by ◌==◌ nat_eq
left_by-equals s = refl

name_at-key :
    (c : ℕ) (k s : Text)
    → is_letter c ≡ true
    → all is_key_char k ≡ true
    → name_at ((c ∷ k) ++ b'=' ∷ s) ≡ some (c ∷ k, b'=' ∷ s)
unfolding name_at
name_at-key c k s l h =
    first_of (is_letter c) _ _ l
    ∙ ap (λ n. some (c ∷ n, left_by is_blank (left_by is_key_char (k ++ b'=' ∷ s))))
        (taken_by-key k s h)
    ∙ ap (λ t. some (c ∷ k, t)) (ap (left_by is_blank) (left_by-key k s h) ∙ left_by-equals s)

key_at-name : (s : Text) → exported s ≡ none → key_at s ≡ name_at s
unfolding key_at exported name_at starts
key_at-name s h = rw h refl

pub key_at-key :
    (c : ℕ) (k s : Text)
    → is_letter c ≡ true
    → all is_key_char k ≡ true
    → key_at ((c ∷ k) ++ b'=' ∷ s) ≡ some (c ∷ k, b'=' ∷ s)
key_at-key c k s l h =
    key_at-name _ (exported-key (c ∷ k) s (rw (letter_key_char c l) h)) ∙ name_at-key c k s l h

newline_no_letter : is_letter 10 ≡ false
unfolding ◌==◌ nat_eq
newline_no_letter = refl

hash_no_letter : is_letter b'#' ≡ false
unfolding ◌==◌ nat_eq
hash_no_letter = refl

letter_space : (c : ℕ) → is_letter c ≡ true → is_space c ≡ false
unfolding is_space
letter_space c h = ground (
  arith,
  ==_iff c b'_',
  ==_iff c 133,
  ==_iff c 160,
  ==_iff c 5760,
  ==_iff c 8232,
  ==_iff c 8233,
  ==_iff c 8239,
  ==_iff c 8287,
  ==_iff c 12288,
)

letter_not : (c d : ℕ) → is_letter c ≡ true → is_letter d ≡ false → (c == d) ≡ false
letter_not c d h k = elim (Bool-cases (c == d)) [
  | inl e ↦ absurd (wrong (sym k ∙ ap is_letter (sym ((==_iff c d).0 e)) ∙ h))
  | inr e ↦ e
]
  where
    wrong : false ≡ true → ⊥
    wrong e = cc

line_of-letter : (c : ℕ) (t : Text) → is_letter c ≡ true → line_of (c ∷ t) ≡ c ∷ line_of t
unfolding line_of
line_of-letter c t h = second_of _ _ _ (letter_not c 10 h newline_no_letter)

lstrip-letter : (c : ℕ) (u : Text) → is_letter c ≡ true → lstrip (c ∷ u) ≡ c ∷ u
unfolding lstrip
lstrip-letter c u h = second_of (is_space c) _ _ (letter_space c h)

no_and : (a b : Bool) → a ≡ false → (a && b) ≡ false
no_and true b h = cc
no_and false b h = refl

rstrip-letter : (c : ℕ) (u : Text) → is_letter c ≡ true → rstrip (c ∷ u) ≡ c ∷ rstrip u
unfolding rstrip
rstrip-letter c u h =
    second_of (is_space c && is_empty (rstrip u)) _ _ (no_and _ _ (letter_space c h))

strip-letter : (c : ℕ) (u : Text) → is_letter c ≡ true → strip (c ∷ u) ≡ c ∷ rstrip u
unfolding strip
strip-letter c u h = ap lstrip (rstrip-letter c u h) ∙ lstrip-letter c (rstrip u) h

hash_off : (c : ℕ) (u : Text) → is_letter c ≡ true → starts (codes "#") (c ∷ u) ≡ false
unfolding starts
hash_off c u h = ground (arith, letter_not c b'#' h hash_no_letter, ==_iff c b'#', ==_iff b'#' c)

nothing_before :
    (c : ℕ) (t : Text)
    → is_letter c ≡ true
    → length (line_of (c ∷ t)) - length (lstrip (line_of (c ∷ t))) ≡ 0
nothing_before c t h = rw (line_of-letter c t h, lstrip-letter c (line_of t) h) (omega arith)

pub letter_line :
    (environ : Dict Text Text) (values : EnvValues) (c : ℕ) (t : Text)
    → is_letter c ≡ true
    → line_values environ values (c ∷ t)
      ≡ keyed environ values (rest_of_line (c ∷ t)) (key_at (c ∷ t))
unfolding line_values
letter_line environ values c t h =
    second_of (is_empty (strip (line_of (c ∷ t))) || starts (codes "#") (strip (line_of (c ∷ t)))) _
      _
      (rw (line_of-letter c t h, strip-letter c (line_of t) h, hash_off c (rstrip (line_of t)) h)
        refl)
    ∙ ap (λ n. keyed environ values (rest_of_line (c ∷ t)) (key_at (drop n (c ∷ t))))
        (nothing_before c t h)
