-- ===== src/Web/Headers.antt =====
-- The headers that a response has after the middleware.
use ss_common.Prelude.{
  ◌≡◌, refl, sym, subst, ◌∙◌, false, some, List, [], ◌∷◌, ◌++◌, Text, ◌==◌, list_eq, nat_eq, ==_iff,
  contains, if◌then◌else◌, Dict, arith, Option-cases, inl, inr,
}
use mathlib.Core.List.{append-nil}
use ss_common.Security.{Bytes}
use ss_common.Web.{
  latin1, lower_bytes, Header, SecurityHeaders, one_header, with_header, security_headers,
  response_start, kept, with_headers,
}

-- The values of the headers with a name, whose case does not matter.
abbrev pub values : Bytes → List Header → List Bytes
values n [] = []
values n ((name, value) ∷ headers) =
    if lower_bytes name == n then value ∷ values n headers else values n headers

values-append : (n : Bytes) (xs ys : List Header) → values n (xs ++ ys) ≡ values n xs ++ values n ys
values-append n [] ys = refl
values-append n ((m, v) ∷ xs) ys = ground (arith, values-append n xs ys)

values-kept :
    (names : List Bytes) (n : Bytes) (hs : List Header)
    → values n (kept names hs) ≡ (if contains names n then [] else values n hs)
unfolding kept
values-kept names n [] = ground arith
values-kept names n ((m, v) ∷ hs) = ground (arith, values-kept names n hs, ==_iff (lower_bytes m) n)

-- Every header of the middleware has a name of its own, in lower case.
abbrev IsLowered : SecurityHeaders → Type 0
IsLowered h = (n : Bytes) → contains h.names n ≡ false → values n h.raw ≡ []

latin1-lowered : (s : Text) (b : Bytes) → latin1 s ≡ some b → b ≡ s
unfolding latin1
latin1-lowered [] b h = ground arith
latin1-lowered (c ∷ s) b h = elim (Option-cases (latin1 s)) [
  | inl e ↦ ground arith
  | inr (d, e) ↦ ground (arith, latin1-lowered s d e)
]

one_header-name :
    (lower : Text → Text) (name value : Text) (pair : Header)
    → one_header lower name value ≡ some pair
    → pair.0 ≡ lower name
one_header-name lower name value pair h = elim (Option-cases (latin1 (lower name))) [
  | inl e ↦ ground arith
  | inr (n, e) ↦ elim (Option-cases (latin1 value)) [
    | inl f ↦ ground arith
    | inr (v, f) ↦ ground (arith, latin1-lowered (lower name) n e)
  ]
]

module _ (lower : Text → Text) (lower_twice : (s : Text) → lower_bytes (lower s) ≡ lower s) where
  with_header-IsLowered :
      (name value : Text) (pair : Header) (h : SecurityHeaders)
      → one_header lower name value ≡ some pair
      → IsLowered h
      → IsLowered (with_header h pair)
  with_header-IsLowered name value pair h made ok n absent = ground (
    arith,
    ok n,
    ==_iff (lower_bytes pair.0) n,
    ==_iff n pair.0,
    one_header-name lower name value pair made,
    lower_twice name,
  )

  security_headers-IsLowered :
      (pairs : Dict Text Text) (h : SecurityHeaders)
      → security_headers lower pairs ≡ some h
      → IsLowered h
  unfolding security_headers
  security_headers-IsLowered [] h e n absent = ground arith
  security_headers-IsLowered ((name, value) ∷ pairs) h e n absent =
      elim (Option-cases (one_header lower name value)) [
        | inl f ↦ ground arith
        | inr (pair, f) ↦ elim (Option-cases (security_headers lower pairs)) [
          | inl g ↦ ground arith
          | inr (rest, g) ↦ from {k = with_header rest pair} (some_same (sym e ∙ rw (f, g) refl)) (
              with_header-IsLowered name value pair rest f
                (security_headers-IsLowered pairs rest g))
        ]
      ]
    where
      some_same : {x y : SecurityHeaders} → some x ≡ some y → x ≡ y
      some_same q = cc

      from : {k : SecurityHeaders} → h ≡ k → IsLowered k → values n h.raw ≡ []
      from q ok = subst IsLowered (sym q) ok n absent

  -- A response carries, for each name that the middleware sets, the middleware's values and no other,
  -- and for every other name what the application sent.
  pub with_headers-values :
      (pairs : Dict Text Text) (h : SecurityHeaders) (headers : List Header) (n : Bytes)
      → security_headers lower pairs ≡ some h
      → (sent_headers : List Header) × (with_headers h (response_start headers)
          ≡ response_start sent_headers)
        × (values n sent_headers
            ≡ (if contains h.names n then values n h.raw else values n headers))
  unfolding with_headers
  with_headers-values pairs h headers n made = (
    kept h.names headers ++ h.raw,
    refl,
    ground (
      arith,
      values-append n (kept h.names headers) h.raw,
      values-kept h.names n headers,
      security_headers-IsLowered pairs h made n,
      append-nil (values n headers),
    ),
  )
