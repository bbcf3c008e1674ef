-- ===== src/Env/Written.antt =====
-- Environment files as written by lines `KEY="value"`, and read back.
use ss_common.Prelude.{
  ℕ, ◌-◌, ◌≡◌, refl, ap, ◌∙◌, Bool, true, false, ◌&&◌, some, [], ◌∷◌, ◌++◌, Text, ◌==◌, nat_eq,
  list_eq, all, length, length-append, starts, Dict, insert, contains, arith,
}
use mathlib.Core.List.{append_assoc}
use ss_common.Result.{ok, ◌>>=◌}
use ss_common.Env.{EnvValues, quote, left_by, is_letter, is_key_char, rest_of_line, value}
use ss_common.Env.Lines.{assigned, keyed, line_values, parse_lines}
use ss_common.Env.Quotes.{escaped, double_quoted-escaped, expand_from_same}
use ss_common.Env.Keys.{key_at-key, letter_line}

-- A key that the parser knows.
abbrev pub is_key : Text → Bool
is_key [] = false
is_key (c ∷ k) = is_letter c && all is_key_char k

abbrev pub written : Text → Text → Text
written k v = k ++ b'=' ∷ quote ∷ (escaped v ++ quote ∷ 10 ∷ [])

-- The loop passes over what a line took.
parse_lines_skip :
    (environ : Dict Text Text) (values : EnvValues) (p s : Text)
    → parse_lines environ (length p) values (p ++ s) ≡ parse_lines environ 0 values s
unfolding parse_lines
parse_lines_skip environ values [] s = refl
parse_lines_skip environ values (c ∷ p) [] = parse_lines_skip environ values p []
parse_lines_skip environ values (c ∷ p) (d ∷ s) = parse_lines_skip environ values p (d ∷ s)

written-append :
    (k v rest : Text) → written k v ++ rest ≡ k ++ b'=' ∷ quote ∷ (escaped v ++ quote ∷ 10 ∷ rest)
written-append k v rest =
    append_assoc k (b'=' ∷ quote ∷ (escaped v ++ quote ∷ 10 ∷ [])) rest
    ∙ ap (λ t. k ++ b'=' ∷ quote ∷ t) (append_assoc (escaped v) (quote ∷ 10 ∷ []) rest)

value-written :
    (v rest : Text) → value (quote ∷ (escaped v ++ quote ∷ 10 ∷ rest)) ≡ ok (v, true, rest)
unfolding value left_by rest_of_line ◌==◌ nat_eq
value-written v rest = rw (double_quoted-escaped v (10 ∷ rest)) refl

-- A line that was written sets its key.
pub line_values-written :
    (environ : Dict Text Text) (values : EnvValues) (c : ℕ) (k v rest : Text)
    → is_letter c ≡ true
    → all is_key_char k ≡ true
    → contains v b'$' ≡ false
    → line_values environ values (written (c ∷ k) v ++ rest)
      ≡ ok (insert (c ∷ k) (some v) values, rest)
unfolding keyed assigned starts ◌==◌ nat_eq
line_values-written environ values c k v rest l h d =
    let tail = quote ∷ (escaped v ++ quote ∷ 10 ∷ rest) in
    ap (line_values environ values) (written-append (c ∷ k) v rest)
    ∙ letter_line environ values c (k ++ b'=' ∷ tail) l
    ∙ ap (keyed environ values (rest_of_line ((c ∷ k) ++ b'=' ∷ tail))) (key_at-key c k tail l h)
    ∙ ap (assigned environ values (c ∷ k)) (value-written v rest)
    ∙ ap (λ w. ok (insert (c ∷ k) (some w) values, rest)) (expand_from_same values environ v d)

length-tail : (p s : Text) → length (p ++ s) - length s ≡ length p
length-tail p s = rw (length-append p s) (omega arith)

pub step_over :
    (environ : Dict Text Text) (values values' : EnvValues) (c : ℕ) (p rest : Text)
    → line_values environ values ((c ∷ p) ++ rest) ≡ ok (values', rest)
    → parse_lines environ 0 values ((c ∷ p) ++ rest) ≡ parse_lines environ 0 values' rest
unfolding parse_lines
step_over environ values values' c p rest h =
    ap (λ r. r >>= (λ x. parse_lines environ (length (p ++ rest) - length x.1) x.0 (p ++ rest))) h
    ∙ ap (λ n. parse_lines environ n values' (p ++ rest)) (length-tail p rest)
    ∙ parse_lines_skip environ values' p rest
