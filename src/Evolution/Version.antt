-- ===== src/Evolution/Version.antt =====
-- src/ss_contracts/tooling/evolution_policy.py: versions as texts and as tuples.
use ss_common.Prelude.{
  ℕ, ◌+◌, ◌*◌, ◌-◌, Bool, not, ◌&&◌, ◌||◌, List, [], ◌∷◌, map, Text, ◌==◌, nat_eq, ltb,
  if◌then◌else◌, is_digit, is_empty, all, split,
}

pub record Version : Type 0 where
  pub major : ℕ
  pub minor : ℕ
  pub patch : ℕ

abbrev pub dot : ℕ
dot = b'.'

-- `part.isdigit()`, for the digits of ASCII: VERSION_RE of rules.py lets a contract's version have no
-- other.
unfoldable pub is_digits : Text → Bool
is_digits s = not (is_empty s) && all is_digit s

-- `int(part)` of a text of digits, after the number read so far.
unfoldable pub read_digits : ℕ → Text → ℕ
read_digits n [] = n
read_digits n (c ∷ s) = read_digits (n * 10 + (c - b'0')) s

unfoldable pub part_number : Text → ℕ
unfolding is_digits read_digits
part_number part = if is_digits part then read_digits 0 part else 0

-- At most three parts count, and missing parts are 0.
abbrev pub version_of : List ℕ → Version
version_of [] = record { major = 0; minor = 0; patch = 0 }
version_of (a ∷ []) = record { major = a; minor = 0; patch = 0 }
version_of (a ∷ b ∷ []) = record { major = a; minor = b; patch = 0 }
version_of (a ∷ b ∷ c ∷ more) = record { major = a; minor = b; patch = c }

unfoldable pub parse_version : Text → Version
unfolding part_number
parse_version text = version_of (map part_number (split dot text))

-- Python compares tuples from the left.
unfoldable pub version_ltb : Version → Version → Bool
version_ltb a b =
    ltb a.major b.major
    || (a.major == b.major && (ltb a.minor b.minor || (a.minor == b.minor && ltb a.patch b.patch)))

-- `a[:2] <= b[:2]`.
unfoldable pub pair_leb : Version → Version → Bool
pair_leb a b = ltb a.major b.major || (a.major == b.major && not (ltb b.minor a.minor))
