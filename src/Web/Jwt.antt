-- ===== src/Web/Jwt.antt =====
-- src/ss_kit/web/jwt.py: the checks of the validator's configuration, the claims that it requires and
-- the bearer header. `str.lower` and `str.upper` are parameters. Decoding is PyJWT's.
pub mod Safe
use ss_common.Prelude.{
  ℕ, Bool, true, false, not, ◌&&◌, ◌||◌, Option, none, some, List, [], ◌∷◌, ◌++◌, Text, codes, ◌==◌,
  list_eq, nat_eq, ltb, leb, length, if◌then◌else◌, is_empty, is_some, starts, strip, sorted_set,
  contains,
}
use ss_common.Result.{Result, ok, err, guard, ◌>>=◌, ◌>>◌}
use ss_common.Security.{Bytes, Key, as_bytes, is_blank}
use ss_common.Web.{HttpError, unauthorized}

pub data JwtConfigError : Type 0 where
  no_key no_algorithm none_algorithm mixed_algorithms short_key negative_leeway : JwtConfigError
  unencodable : JwtConfigError

pub data Audience : Type 0 where
  one : Text → Audience
  many : List Text → Audience

-- What the code uses of Python's floats: 0 and `<`.
pub record Leeways : Type 1 where
  pub Float : Type 0
  pub zero : Float
  pub lt : Float → Float → Bool

pub record JwtConfig (floats : Leeways) : Type 0 where
  pub key : Key
  pub algorithms : List Text
  pub audience : Option Audience
  pub issuer : Option Text
  pub leeway_sec : floats.Float
  pub required_claims : List Text

pub record Cases : Type 0 where
  pub lower : Text → Text
  pub upper : Text → Text

abbrev pub any : (Text → Bool) → List Text → Bool
any p [] = false
any p (x ∷ xs) = p x || any p xs

unfoldable pub filtered : (Text → Bool) → List Text → List Text
filtered p [] = []
filtered p (x ∷ xs) = let rest = filtered p xs in if p x then x ∷ rest else rest

-- The part before the first blank and the one after it.
unfoldable pub partition : Text → Text × Text
partition [] = ([], [])
partition (c ∷ s) =
    let (before, after) = partition s in if c == b' ' then ([], s) else (c ∷ before, after)

module _ (cases : Cases) where
  abbrev pub is_none : Text → Bool
  is_none alg = cases.lower alg == codes "none"

  abbrev pub is_hmac : Text → Bool
  is_hmac alg = starts (codes "HS") (cases.upper alg)

  -- The check of the key's length, where there are HMAC algorithms.
  abbrev pub long_enough : List Text → Option Bytes → Result JwtConfigError (Unit {0})
  long_enough [] key = ok tt
  long_enough (a ∷ algs) none = err unencodable
  long_enough (a ∷ algs) (some b) = guard (not (ltb (length b) 32)) short_key

  -- `JwtConfig.__post_init__`
  unfoldable pub post_init :
      {floats : Leeways} → JwtConfig floats → Result JwtConfigError (Unit {0})
  post_init {floats} c =
      let hmac_algs = filtered is_hmac c.algorithms in
      guard (not (is_blank c.key)) no_key
      >> (guard (not (is_empty c.algorithms)) no_algorithm
          >> (guard (not (any is_none c.algorithms)) none_algorithm
              >> (guard (is_empty hmac_algs || length hmac_algs == length c.algorithms)
                    mixed_algorithms
                  >> (long_enough hmac_algs (as_bytes c.key)
                      >> guard (not (floats.lt c.leeway_sec floats.zero)) negative_leeway))))

  -- `bearer_token`
  unfoldable pub bearer_token : Text → Result HttpError Text
  bearer_token authorization =
      let (scheme, token) = partition (strip authorization) in
      if cases.lower scheme == codes "bearer" && not (is_empty (strip token))
      then ok (strip token)
      else err unauthorized

abbrev pub claim_if : Bool → Text → List Text
claim_if b claim = if b then claim ∷ [] else []

-- The claims that `decode` tells PyJWT to require.
unfoldable pub required_options : {floats : Leeways} → JwtConfig floats → List Text
required_options c = sorted_set (
    sorted_set (codes "exp" ∷ c.required_claims)
    ++ (claim_if (is_some c.audience) (codes "aud") ++ claim_if (is_some c.issuer) (codes "iss")))
