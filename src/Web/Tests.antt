-- ===== src/Web/Tests.antt =====
-- Runs on small inputs, and the theorems of Security and Web at them.
use ss_common.Prelude.{
  ◌≡◌, ◌↔◌, ◌<◌, ◌^◌, refl, Bool, ltb, true, false, not, ◌&&◌, none, some, List, [], ◌∷◌, ◌++◌, map,
  Text, codes, Dict, ◌==◌, list_eq, nat_eq, bool_eq, contains, is_empty, split, join, strip, lstrip,
  rstrip, is_space, starts, if◌then◌else◌, ◌-◌, is_lower, arith,
}
use ss_common.Result.{ok}
use ss_common.Value.{ℤ, pos, negsuc}
use ss_common.Security.{
  Bytes, encode, encode_char, Key, text, is_blank, keys_match, Digests, signature_prefix,
  sign_hmac_sha256, verify_hmac_sha256, presented_hex,
}
use ss_common.Security.Keys.{
  keys_match-text, verify-sign_hmac_sha256, verify_hmac_sha256-true, lower_char,
}
use ss_common.Security.Paths.{
  FileSystem, Allowed, resolve_allowed_path, parse_path_allowlist, stripped, first_base, commonpath,
  common_prefix, named,
}
use ss_common.Security.Paths.Inside.{IsAllowed, resolve_allowed_path-IsAllowed}
use ss_common.Security.PointId.{stable_point_id, stable_point_id_lt, fed, read_hex}
use ss_common.Web.{
  lower_bytes, SecurityHeaders, security_headers, latin1, response_start, with_headers,
}
use ss_common.Web.Headers.{values, with_headers-values}
use ss_common.Web.Jwt.{JwtConfig, Leeways, Cases, post_init, bearer_token, partition}
use ss_common.Web.Jwt.Safe.{IsSafe, post_init_iff}

abbrev e_acute : Text
e_acute = 233 ∷ []

keys_match-text_example :
    keys_match (text e_acute) (text e_acute) ≡ some (not (is_empty e_acute) && e_acute == e_acute)
keys_match-text_example =
    keys_match-text e_acute e_acute (195 ∷ 169 ∷ []) (195 ∷ 169 ∷ []) encoded encoded
  where
    encoded : encode e_acute ≡ some (195 ∷ 169 ∷ [])
    encoded = unfold encode encode_char in refl

-- A digest of one text, and the lower case of ASCII.
abbrev digests : Digests
digests = record { hmac_hex = λ key body. codes "00ff"; lower = λ s. map lower_char s }

abbrev secret : Key
secret = text (codes "key")

signed_lem : sign_hmac_sha256 digests secret [] ≡ some (codes "00ff")
unfolding sign_hmac_sha256 encode encode_char
signed_lem = refl

verify-sign_hmac_sha256_example :
    (verify_hmac_sha256 digests secret [] (codes "00ff") ≡ some true)
    × (verify_hmac_sha256 digests secret [] (signature_prefix ++ codes "00ff") ≡ some true)
verify-sign_hmac_sha256_example =
    verify-sign_hmac_sha256 digests (λ key body. refl) (λ key body. refl) (λ s h. refl) secret []
      (codes "00ff") refl signed_lem

abbrev shouted : Text
shouted = codes " SHA256=00FF\n"

shouted-verifies : verify_hmac_sha256 digests secret [] shouted ≡ some true
unfolding verify_hmac_sha256 presented_hex sign_hmac_sha256 keys_match encode encode_char strip
    lstrip rstrip is_space starts ◌==◌ list_eq nat_eq
shouted-verifies = refl

verify_hmac_sha256-true_example :
    (is_blank secret ≡ false)
    × (is_empty shouted ≡ false)
    × (sign_hmac_sha256 digests secret [] ≡ some (digests.lower (presented_hex digests shouted)))
verify_hmac_sha256-true_example = verify_hmac_sha256-true digests secret [] shouted shouted-verifies

-- A file system without links, whose paths are all files.
abbrev files : FileSystem
files = record { real_path = λ p. p; is_file = λ p. true; is_dir = λ p. false }

abbrev listed : Allowed
listed = Allowed.text (codes "/srv/media, /tmp")

allowed :
    resolve_allowed_path files (codes "/srv/media/a.wav") listed true false
    ≡ some (codes "/srv/media/a.wav")
unfolding resolve_allowed_path parse_path_allowlist stripped first_base commonpath common_prefix
    named split join strip lstrip rstrip is_space starts ◌==◌ list_eq nat_eq bool_eq
allowed = refl

beside : resolve_allowed_path files (codes "/srv/mediaplus/a.wav") listed false false ≡ none
unfolding resolve_allowed_path parse_path_allowlist stripped first_base commonpath common_prefix
    named split join strip lstrip rstrip is_space starts ◌==◌ list_eq nat_eq bool_eq
beside = refl

resolve_allowed_path-IsAllowed_example :
    IsAllowed files
      (codes "/srv/media/a.wav")
      (parse_path_allowlist listed)
      true
      false
      (codes "/srv/media/a.wav")
resolve_allowed_path-IsAllowed_example =
    resolve_allowed_path-IsAllowed files (codes "/srv/media/a.wav") listed true false
      (codes "/srv/media/a.wav") allowed

-- A hash of one text.
abbrev same_hash : Bytes → Text
same_hash b = codes "00000000000000ffee"

id_of : stable_point_id same_hash (codes "a" ∷ []) ≡ some 255
unfolding stable_point_id fed read_hex encode encode_char
id_of = refl

stable_point_id_lt_example : ◌<◌ 255 (2 ^ 64)
stable_point_id_lt_example = stable_point_id_lt same_hash (λ b. refl) (codes "a" ∷ []) 255 id_of

abbrev no_sniff : Dict Text Text
no_sniff = (codes "X-Content-Type-Options", codes "nosniff") ∷ []

abbrev no_sniff_headers : SecurityHeaders
no_sniff_headers = record {
  names = codes "x-content-type-options" ∷ [];
  raw = (codes "x-content-type-options", codes "nosniff") ∷ [];
}

no_sniff_made : security_headers (λ s. map lower_char s) no_sniff ≡ some no_sniff_headers
unfolding security_headers latin1
no_sniff_made = refl

lower_twice : (s : Text) → lower_bytes (map lower_char s) ≡ map lower_char s
lower_twice [] = refl
lower_twice (c ∷ s) = ground (arith, lower_twice s)

with_headers-values_example :
    (sent_headers : List (Bytes × Bytes)) × (with_headers no_sniff_headers
        (response_start ((codes "X-CONTENT-TYPE-options", codes "x") ∷ []))
      ≡ response_start sent_headers)
    × (values (codes "x-content-type-options") sent_headers ≡ (
        if contains no_sniff_headers.names (codes "x-content-type-options")
        then values (codes "x-content-type-options") no_sniff_headers.raw
        else values
            (codes "x-content-type-options")
            ((codes "X-CONTENT-TYPE-options", codes "x") ∷ [])))
with_headers-values_example =
    with_headers-values (λ s. map lower_char s) lower_twice no_sniff no_sniff_headers
      ((codes "X-CONTENT-TYPE-options", codes "x") ∷ []) (codes "x-content-type-options")
      no_sniff_made

abbrev cases : Cases
cases = record {
  lower = λ s. map lower_char s;
  upper = λ s. map (λ c. if is_lower c then c - 32 else c) s;
}

-- Whole seconds and halves of them, with a sign, in place of the floats.
abbrev half_seconds : Leeways
half_seconds = record { Float = ℤ; zero = pos 0; lt = below }
  where
    below : ℤ → ℤ → Bool
    below (pos a) (pos b) = ltb a b
    below (pos a) (negsuc b) = false
    below (negsuc a) (pos b) = true
    below (negsuc a) (negsuc b) = ltb b a

abbrev mixed : JwtConfig half_seconds
mixed = record {
  key = text (codes "0123456789abcdef0123456789abcdef");
  algorithms = codes "HS256" ∷ codes "es256" ∷ [];
  audience = none;
  issuer = none;
  leeway_sec = negsuc 4;
  required_claims = codes "exp" ∷ [];
}

post_init_iff_example : (post_init cases mixed ≡ ok tt) ↔ IsSafe cases half_seconds mixed
post_init_iff_example = post_init_iff cases half_seconds mixed

bearer_token-runs : bearer_token cases (codes "BEARER  abc ") ≡ ok (codes "abc")
unfolding bearer_token partition strip lstrip rstrip is_space ◌==◌ list_eq nat_eq
bearer_token-runs = refl
