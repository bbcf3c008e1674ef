-- ===== src/Web.antt =====
-- src/ss_kit/web/__init__.py: the headers of responses, API keys, client addresses and rate limits.
-- `str.lower` is a parameter; what Starlette and FastAPI do around these functions is not modelled.
pub mod Headers
pub mod Jwt
mod Tests
use ss_common.Prelude.{
  ℕ, Bool, true, false, not, ◌&&◌, Option, none, some, List, [], ◌∷◌, ◌++◌, Text, codes, ◌==◌,
  list_eq, nat_eq, contains, ltb, ◌+◌, if◌then◌else◌, is_empty, is_upper, strip, split, Dict,
  and_then, map,
}
use ss_common.Result.{Result, ok, err}
use ss_common.Security.{Bytes, Key, text, keys_match}
use ss_common.RateLimiter.{Floats, RateLimiter, Request, check}

-- `str.encode("latin-1")`
unfoldable pub latin1 : Text → Option Bytes
latin1 [] = some []
latin1 (c ∷ s) = if ltb c 256 then and_then (latin1 s) (λ b. some (c ∷ b)) else none

-- `bytes.lower()`
abbrev pub lower_byte : ℕ → ℕ
lower_byte c = if is_upper c then c + 32 else c

abbrev pub lower_bytes : Bytes → Bytes
lower_bytes b = map lower_byte b

abbrev pub Header : Type 0
Header = Bytes × Bytes

pub record SecurityHeaders : Type 0 where
  pub names : List Bytes
  pub raw : List Header

abbrev pub default_security_headers : Dict Text Text
default_security_headers =
    (codes "X-Content-Type-Options", codes "nosniff")
    ∷ (codes "X-Frame-Options", codes "DENY")
    ∷ (codes "Cache-Control", codes "no-store")
    ∷ []

-- One pair, as the two comprehensions of `__init__` take it.
abbrev pub one_header : (Text → Text) → Text → Text → Option Header
one_header lower name value =
    and_then (latin1 (lower name)) (λ n. and_then (latin1 value) (λ v. some (n, v)))

abbrev pub with_header : SecurityHeaders → Header → SecurityHeaders
with_header h pair = record { names = pair.0 ∷ h.names; raw = pair ∷ h.raw }

-- `SecurityHeadersMiddleware.__init__`; none is the UnicodeEncodeError.
unfoldable pub security_headers : (Text → Text) → Dict Text Text → Option SecurityHeaders
security_headers lower [] = some (record { names = []; raw = [] })
security_headers lower ((name, value) ∷ pairs) =
    and_then (one_header lower name value)
      (λ pair. and_then (security_headers lower pairs) (λ rest. some (with_header rest pair)))

pub data Message : Type 0 where
  response_start : List Header → Message
  other_message : Message

unfoldable pub kept : List Bytes → List Header → List Header
kept names [] = []
kept names ((name, value) ∷ headers) =
    let rest = kept names headers in
    if contains names (lower_bytes name) then rest else (name, value) ∷ rest

-- What `send_with_headers` sends.
unfoldable pub with_headers : SecurityHeaders → Message → Message
with_headers h (response_start headers) = response_start (kept h.names headers ++ h.raw)
with_headers h other_message = other_message

-- `__call__`: what is sent for a message of the application, by the type of the scope.
unfoldable pub sent : SecurityHeaders → (is_http : Bool) → Message → Message
sent h false m = m
sent h true m = with_headers h m

pub data HttpError : Type 0 where
  not_configured invalid_key limit_exceeded unauthorized unencodable : HttpError

abbrev pub status_code : HttpError → ℕ
status_code not_configured = 503
status_code invalid_key = 403
status_code limit_exceeded = 429
status_code unauthorized = 401
status_code unencodable = 500

abbrev pub first_part : List Text → Text
first_part [] = []
first_part (p ∷ ps) = p

-- `client_key`, for the header of the proxy (empty where absent) and the client's host.
unfoldable pub client_key : Text → Option Text → Bool → Text
client_key forwarded host trust_proxy_headers =
    let first = strip (first_part (split b',' forwarded)) in
    if trust_proxy_headers && not (is_empty first)
    then first
    else elim host [ none ↦ codes "unknown" | some h ↦ h ]

abbrev pub key_answer : Option Bool → Result HttpError (Unit {0})
key_answer none = err unencodable
key_answer (some true) = ok tt
key_answer (some false) = err invalid_key

-- `check_api_key`; a surrogate in a key raises, which the server answers by 500.
unfoldable pub check_api_key : Text → Text → Bool → Result HttpError (Unit {0})
check_api_key presented expected required =
    if is_empty expected
    then (if required then err not_configured else ok tt)
    else key_answer (keys_match (text presented) (text expected))

module _ (floats : Floats) where
  -- `rate_limit`; the key of the request is the one that `client_key` found.
  unfoldable pub rate_limit :
      Bool → RateLimiter floats → Request floats → RateLimiter floats × Result HttpError (Unit {0})
  rate_limit false limiter request = (limiter, ok tt)
  rate_limit true limiter request =
      let (limiter', allowed) = check floats limiter request in
      (limiter', if allowed then ok tt else err limit_exceeded)
