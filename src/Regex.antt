-- ===== src/Regex.antt =====
-- The shapes of regular expressions that the sources share, as `re.match` reads them.
use ss_common.Prelude.{
  ℕ, Bool, true, false, ◌&&◌, ◌||◌, [], ◌∷◌, Text, ◌==◌, nat_eq, is_empty, is_lower, is_digit,
}

abbrev pub newline : ℕ
newline = 10

-- `$` matches at the end of the text and before a newline that ends it.
abbrev pub at_end : Text → Bool
at_end [] = true
at_end (c ∷ s) = c == newline && is_empty s

-- `[class]*$`, for a class without the newline.
unfoldable pub run : (ℕ → Bool) → Text → Bool
run class [] = true
run class (c ∷ s) = class c && run class s || c == newline && is_empty s

-- `^[class]+$`.
abbrev pub run_some : (ℕ → Bool) → Text → Bool
run_some class [] = false
run_some class (c ∷ s) = class c && run class s

-- `^[first][class]*$`.
abbrev pub headed : (ℕ → Bool) → (ℕ → Bool) → Text → Bool
headed first class [] = false
headed first class (c ∷ s) = first c && run class s

-- `[a-z0-9_]`.
abbrev pub is_name_char : ℕ → Bool
is_name_char c = is_lower c || is_digit c || c == b'_'
