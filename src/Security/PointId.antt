-- ===== src/Security/PointId.antt =====
-- src/ss_kit/security.py: `stable_point_id`. SHA-256 of bytes, in hexadecimal digits, is a parameter;
-- the parts are given as `str` writes them.
use ss_common.Prelude.{
  ℕ, ◌≡◌, refl, true, Option, some, List, [], ◌∷◌, ◌++◌, Text, ◌+◌, ◌*◌, ◌-◌, ◌^◌, ◌<◌, ◌≤◌, zero,
  suc, if◌then◌else◌, is_digit, take, arith, and_then, length, Option-cases, inl, inr,
}
use ss_common.Security.{Bytes, encode}
use ss_common.Security.Keys.{is_hex}

-- What `digest.update` is fed: each part and a terminator.
unfoldable pub fed : List Text → Option Bytes
fed [] = some []
fed (part ∷ parts) =
    and_then (encode part) (λ b. and_then (fed parts) (λ bs. some (b ++ (b'|' ∷ bs))))

abbrev pub digit_value : ℕ → ℕ
digit_value c = if is_digit c then c - b'0' else c - 87

-- `int(text, 16)` of lower case digits, after the number read so far.
unfoldable pub read_hex : ℕ → Text → ℕ
read_hex n [] = n
read_hex n (c ∷ s) = read_hex (n * 16 + digit_value c) s

-- `stable_point_id`; none is the UnicodeEncodeError of a surrogate.
unfoldable pub stable_point_id : (Bytes → Text) → List Text → Option ℕ
stable_point_id sha256_hex parts =
    and_then (fed parts) (λ b. some (read_hex 0 (take 16 (sha256_hex b))))

-- The bound grows with each digit.
room : ℕ → ℕ → ℕ
room m zero = m
room m (suc k) = room (m * 16) k

read_hex_lt : (s : Text) (n m : ℕ) → is_hex s ≡ true → n < m → read_hex n s < room m (length s)
unfolding read_hex room
read_hex_lt [] n m h b = b
read_hex_lt (c ∷ s) n m h b =
    read_hex_lt s (n * 16 + digit_value c) (m * 16) (ground arith) (ground arith)

room-le : (j k m l : ℕ) → m ≤ l → j ≤ k → room m j ≤ room l k
unfolding room
room-le zero zero m l h b = h
room-le zero (suc k) m l h b = room-le zero k m (l * 16) (omega arith) (omega arith)
room-le (suc j) zero m l h b = absurd (omega arith)
room-le (suc j) (suc k) m l h b = room-le j k (m * 16) (l * 16) (omega arith) (omega arith)

is_hex-take : (n : ℕ) (s : Text) → is_hex s ≡ true → is_hex (take n s) ≡ true
is_hex-take zero s h = refl
is_hex-take (suc n) [] h = refl
is_hex-take (suc n) (c ∷ s) h = ground (arith, is_hex-take n s)

length-take_le : (n : ℕ) (s : Text) → length (take n s) ≤ n
length-take_le zero s = omega arith
length-take_le (suc n) [] = omega arith
length-take_le (suc n) (c ∷ s) = omega (arith, length-take_le n s)

-- A point id is a number of 64 bits.
pub stable_point_id_lt :
    (sha256_hex : Bytes → Text)
    → ((b : Bytes) → is_hex (sha256_hex b) ≡ true)
    → (parts : List Text) (id : ℕ) → stable_point_id sha256_hex parts ≡ some id
    → id < 2 ^ 64
unfolding stable_point_id room
stable_point_id_lt sha256_hex hex parts id h = elim (Option-cases (fed parts)) [
  | inl e ↦ ground arith
  | inr (b, e) ↦ omega (
    arith,
    same_id b e,
    read_hex_lt (take 16 (sha256_hex b)) 0 1 (is_hex-take 16 (sha256_hex b) (hex b)) (omega arith),
    room-le (length (take 16 (sha256_hex b))) 16 1 1 (omega arith)
        (length-take_le 16 (sha256_hex b)),
  )
]
  where
    same_id : (b : Bytes) → fed parts ≡ some b → read_hex 0 (take 16 (sha256_hex b)) ≡ id
    same_id b e = ground arith
