-- ===== src/Security.antt =====
-- src/ss_kit/security.py, but for the rate limiter: comparison of keys, signatures, path allowlists
-- and point ids. `hmac` and SHA-256 are parameters, as are `str.lower`, and the file system's state
-- as far as `os.path` asks for it.
pub mod Utf8
pub mod Keys
pub mod Paths
pub mod PointId
use ss_common.Prelude.{
  ℕ, Bool, true, false, not, ◌&&◌, ◌||◌, Option, none, some, List, [], ◌∷◌, ◌++◌, Text, codes, ◌==◌,
  list_eq, nat_eq, option_eq, ltb, leb, ◌+◌, ◌*◌, ◌-◌, ◌/◌, ◌%◌, if◌then◌else◌, is_empty, is_lower,
  is_digit, strip, starts, drop, take, split, and_then,
}

abbrev pub Bytes : Type 0
Bytes = List ℕ

-- `str.encode("utf-8")` of a code point; a surrogate raises.
unfoldable pub encode_char : ℕ → Option Bytes
encode_char c =
    if ltb c 128
    then some (c ∷ [])
    else if ltb c 2048
    then some ((192 + c / 64) ∷ (128 + c % 64) ∷ [])
    else if leb 55296 c && ltb c 57344
    then none
    else if ltb c 65536
    then some ((224 + c / 4096) ∷ (128 + c / 64 % 64) ∷ (128 + c % 64) ∷ [])
    else some
        ((240 + c / 262144) ∷ (128 + c / 4096 % 64) ∷ (128 + c / 64 % 64) ∷ (128 + c % 64) ∷ [])

abbrev pub put : Bytes → Option Bytes → Option Bytes
put b none = none
put b (some bs) = some (b ++ bs)

unfoldable pub encode : Text → Option Bytes
encode [] = some []
encode (c ∷ s) = and_then (encode_char c) (λ b. put b (encode s))

pub data Key : Type 0 where
  text : Text → Key
  bytes : Bytes → Key

-- `_as_bytes`
abbrev pub as_bytes : Key → Option Bytes
as_bytes (text s) = encode s
as_bytes (bytes b) = some b

abbrev pub is_blank : Key → Bool
is_blank (text s) = is_empty s
is_blank (bytes b) = is_empty b

abbrev pub is_ascii : Text → Bool
is_ascii [] = true
is_ascii (c ∷ s) = ltb c 128 && is_ascii s

-- `hmac.compare_digest` of two byte strings.
abbrev pub same_bytes : Option Bytes → Option Bytes → Option Bool
same_bytes none _ = none
same_bytes (some a) none = none
same_bytes (some a) (some b) = some (a == b)

-- The comparison of texts, which raises TypeError for what is not ASCII, and the one of their bytes
-- that then stands in.
abbrev pub compared : Key → Key → Option Bool
compared (text a) (text b) =
    if is_ascii a && is_ascii b then some (a == b) else same_bytes (encode a) (encode b)
compared a b = same_bytes (as_bytes a) (as_bytes b)

-- `keys_match`; none is the UnicodeEncodeError of a surrogate.
unfoldable pub keys_match : Key → Key → Option Bool
keys_match presented expected =
    if is_blank expected then some false else compared presented expected

abbrev pub signature_prefix : Text
signature_prefix = codes "sha256="

-- What the source uses of `hmac`, and `str.lower`.
pub record Digests : Type 1 where
  -- The hexadecimal digest of the body under the key.
  pub hmac_hex : Bytes → Bytes → Text
  pub lower : Text → Text

abbrev pub verified : Text → Option Text → Option Bool
verified presented none = none
verified presented (some signed) = keys_match (text presented) (text signed)

module _ (digests : Digests) where
  -- `sign_hmac_sha256`
  unfoldable pub sign_hmac_sha256 : Key → Bytes → Option Text
  sign_hmac_sha256 secret body =
      and_then (as_bytes secret) (λ key. some (digests.hmac_hex key body))

  -- The signature without white space and the prefix.
  unfoldable pub presented_hex : Text → Text
  presented_hex signature =
      let presented = strip signature in
      if starts signature_prefix (digests.lower presented) then drop 7 presented else presented

  -- `verify_hmac_sha256`
  unfoldable pub verify_hmac_sha256 : Key → Bytes → Text → Option Bool
  verify_hmac_sha256 secret body signature =
      if is_blank secret || is_empty signature
      then some false
      else verified (digests.lower (presented_hex signature)) (sign_hmac_sha256 secret body)
