-- ===== src/Security/Paths/Inside.antt =====
-- A path that is allowed lies under one of the bases.
use ss_common.Prelude.{
  ◌≡◌, refl, sym, ap, subst, ◌∙◌, Bool, true, false, ◌||◌, some, List, [], ◌∷◌, ◌++◌, Text, codes,
  ◌==◌, list_eq, nat_eq, bool_eq, ==_iff, contains, All, is_empty, split, join, Lacks, split-Lacks,
  split-join, arith, Bool-cases, inl, inr,
}
use ss_common.Security.Paths.{
  FileSystem, Allowed, parse_path_allowlist, named, components, common_prefix, is_absolute, root_of,
  commonpath, is_inside, permitted, first_base, resolve_allowed_path,
}

-- A part of a path that `commonpath` keeps.
abbrev IsPart : Text → Type 0
IsPart p = Lacks b'/' p × (is_empty p ≡ false) × ((p == codes ".") ≡ false)

named-IsPart : (ps : List Text) → All (Lacks b'/') ps → All IsPart (named ps)
unfolding named
named-IsPart [] h = tt
named-IsPart (p ∷ ps) h = elim (Bool-cases (is_empty p || p == codes ".")) [
  | inl e ↦ rw e (named-IsPart ps h.1)
  | inr e ↦ rw e ((h.0, ground arith, ground arith), named-IsPart ps h.1)
]

common_prefix-IsPart : (xs ys : List Text) → All IsPart xs → All IsPart (common_prefix xs ys)
unfolding common_prefix
common_prefix-IsPart [] ys h = tt
common_prefix-IsPart (x ∷ xs) [] h = tt
common_prefix-IsPart (x ∷ xs) (y ∷ ys) h = elim (Bool-cases (x == y)) [
  | inl e ↦ rw e (h.0, common_prefix-IsPart xs ys h.1)
  | inr e ↦ rw e tt
]

named_id : (ps : List Text) → All IsPart ps → named ps ≡ ps
unfolding named
named_id [] h = refl
named_id (p ∷ ps) h = ground (arith, named_id ps h.1, h.0.1, h.0.2)

parts-Lacks : (ps : List Text) → All IsPart ps → All (Lacks b'/') ps
parts-Lacks [] h = tt
parts-Lacks (p ∷ ps) h = (h.0.0, parts-Lacks ps h.1)

components-join : (ps : List Text) → All IsPart ps → components (join b'/' ps) ≡ ps
components-join [] h = unfold join split named in refl
components-join (p ∷ ps) h =
    rw (split-join b'/' (p ∷ ps) (λ n. cc) (parts-Lacks (p ∷ ps) h)) (named_id (p ∷ ps) h)

components-root : (b : Bool) (s : Text) → components (root_of b ++ s) ≡ components s
unfolding split named ◌==◌ nat_eq
components-root true s = refl
components-root false s = refl

-- The common prefix begins the second list.
common_prefix_begins : (xs ys : List Text) → (rest : List Text) × (ys ≡ common_prefix xs ys ++ rest)
unfolding common_prefix
common_prefix_begins [] ys = (ys, refl)
common_prefix_begins (x ∷ xs) [] = ([], refl)
common_prefix_begins (x ∷ xs) (y ∷ ys) =
    let (rest, e) = common_prefix_begins xs ys in
    elim (Bool-cases (x == y)) [
      | inl same ↦ rw same (rest, ground (arith, ==_iff x y))
      | inr other ↦ rw other (y ∷ ys, refl)
    ]

-- The parts of the path go on from those of the base.
abbrev pub IsUnder : Text → Text → Type 0
IsUnder base path = (rest : List Text) × (components path ≡ components base ++ rest)

is_inside-IsUnder : (base path : Text) → is_inside base path ≡ true → IsUnder base path
is_inside-IsUnder base path h =
    let (rest, e) = common_prefix_begins (components base) (components path) in
    (rest, e ∙ ap (λ ps. ps ++ rest) (sym base_parts))
  where
    common : List Text
    common = common_prefix (components base) (components path)

    joined : (root_of (is_absolute base) ++ join b'/' common) ≡ base
    joined =
        unfold commonpath in
        ground (arith, h, ==_iff (root_of (is_absolute base) ++ join b'/' common) base)

    base_parts : components base ≡ common
    base_parts =
        ap components (sym joined)
        ∙ components-root (is_absolute base) (join b'/' common)
        ∙ components-join common (
            common_prefix-IsPart (components base) (components path)
              (named-IsPart (split b'/' base) (split-Lacks b'/' base)))

module _ (fs : FileSystem) where
  -- What is known of a path that is allowed: it is the user's real path, it is a file or a directory
  -- where that is asked for, and it lies under the real path of an entry of the allowlist.
  pub record IsAllowed (user_path : Text) (bases : List Text) (must_be_file must_be_dir : Bool)
      (p : Text) : Type 0 where
    pub real : p ≡ fs.real_path user_path
    pub file : must_be_file ≡ true → fs.is_file p ≡ true
    pub dir : must_be_dir ≡ true → fs.is_dir p ≡ true
    pub base : Text
    pub listed : contains bases base ≡ true
    pub under : IsUnder (fs.real_path base) p

  permitted-some :
      (f d : Bool) (r p : Text)
      → permitted fs f d r ≡ some p
      → (p ≡ r) × (f ≡ true → fs.is_file p ≡ true) × (d ≡ true → fs.is_dir p ≡ true)
  permitted-some f d r p h = (ground arith, (λ e. ground arith), (λ e. ground arith))

  first_base-IsAllowed :
      (user_path : Text) (f d : Bool) (bases : List Text) (p : Text)
      → first_base fs f d (fs.real_path user_path) bases ≡ some p
      → IsAllowed user_path bases f d p
  unfolding first_base
  first_base-IsAllowed user_path f d [] p h = cc
  first_base-IsAllowed user_path f d (b ∷ bs) p h =
      elim (Bool-cases (is_inside (fs.real_path b) (fs.real_path user_path))) [
        | inl e ↦ found e (permitted-some f d (fs.real_path user_path) p (rw e at h))
        | inr e ↦ later (first_base-IsAllowed user_path f d bs p (rw e at h))
      ]
    where
      found :
          is_inside (fs.real_path b) (fs.real_path user_path) ≡ true
          → (p ≡ fs.real_path user_path)
            × (f ≡ true → fs.is_file p ≡ true)
            × (d ≡ true → fs.is_dir p ≡ true)
          → IsAllowed user_path (b ∷ bs) f d p
      found e (same, file, dir) = record {
        real = same;
        file = file;
        dir = dir;
        base = b;
        listed = ground (arith, ==_iff b b);
        under =
            subst (IsUnder (fs.real_path b)) (sym same)
              (is_inside-IsUnder (fs.real_path b) (fs.real_path user_path) e);
      }

      later : IsAllowed user_path bs f d p → IsAllowed user_path (b ∷ bs) f d p
      later a = record {
        real = a.real;
        file = a.file;
        dir = a.dir;
        base = a.base;
        listed = ground (arith, a.listed);
        under = a.under;
      }

  -- A path that is allowed is the user's real path, of the kind that is asked for, and under the real
  -- path of an entry of the allowlist.
  pub resolve_allowed_path-IsAllowed :
      (user_path : Text) (allowed : Allowed) (must_be_file must_be_dir : Bool) (p : Text)
      → resolve_allowed_path fs user_path allowed must_be_file must_be_dir ≡ some p
      → IsAllowed user_path (parse_path_allowlist allowed) must_be_file must_be_dir p
  unfolding resolve_allowed_path
  resolve_allowed_path-IsAllowed user_path allowed f d p h =
      first_base-IsAllowed user_path f d (parse_path_allowlist allowed) p h
