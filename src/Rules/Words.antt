-- ===== src/Rules/Words.antt =====
-- src/ss_contracts/tooling/rules.py: the patterns and the words that the rules look for.
use ss_common.Prelude.{
  ℕ, Bool, true, false, not, ◌&&◌, ◌||◌, none, some, List, [], ◌∷◌, ◌++◌, Text, codes, ◌==◌,
  list_eq, nat_eq, contains, leb, Dict, lookup, all, is_empty, is_lower, is_upper, is_digit, split,
}
use ss_common.Regex.{headed, run_some, is_name_char}

abbrev pub api_version : Text
api_version = codes "v3.1.0"

abbrev pub statuses : List Text
statuses = codes "draft" ∷ codes "active" ∷ codes "deprecated" ∷ codes "retired" ∷ []

abbrev is_low_digit : ℕ → Bool
is_low_digit c = is_lower c || is_digit c

abbrev is_alnum : ℕ → Bool
is_alnum c = is_lower c || is_upper c || is_digit c

abbrev all_some : (ℕ → Bool) → Text → Bool
all_some class s = not (is_empty s) && all class s

abbrev first_then : (ℕ → Bool) → (ℕ → Bool) → Text → Bool
first_then first class [] = false
first_then first class (c ∷ s) = first c && all class s

abbrev hyphenated : List Text → Bool
hyphenated [] = true
hyphenated (p ∷ []) = run_some is_low_digit p
hyphenated (p ∷ q ∷ ps) = all_some is_low_digit p && hyphenated (q ∷ ps)

abbrev kebab : List Text → Bool
kebab [] = false
kebab (p ∷ []) = headed is_lower is_low_digit p
kebab (p ∷ q ∷ ps) = first_then is_lower is_low_digit p && hyphenated (q ∷ ps)

-- `CONTRACT_ID_RE.match`
unfoldable pub is_contract_id : Text → Bool
is_contract_id s = kebab (split b'-' s)

abbrev is_nonzero : ℕ → Bool
is_nonzero c = leb b'1' c && leb c b'9'

abbrev three_numbers : List Text → Bool
three_numbers (a ∷ b ∷ c ∷ []) =
    (a == codes "0" || first_then is_nonzero is_digit a)
    && ((b == codes "0" || first_then is_nonzero is_digit b)
        && (c == codes "0" || (c == codes "0\n" || headed is_nonzero is_digit c)))
three_numbers _ = false

-- `VERSION_RE.match`
unfoldable pub is_version : Text → Bool
is_version s = three_numbers (split b'.' s)

-- `FIELD_NAME_RE.match`
unfoldable pub is_field_name : Text → Bool
is_field_name s = headed is_lower is_name_char s

-- `RECORD_NAME_RE.match`
unfoldable pub is_record_name : Text → Bool
is_record_name s = headed is_upper is_alnum s

abbrev pub generated_names : List Text
generated_names =
    codes "str"
    ∷ codes "int"
    ∷ codes "float"
    ∷ codes "bool"
    ∷ codes "bytes"
    ∷ codes "list"
    ∷ codes "dict"
    ∷ codes "datetime"
    ∷ []

abbrev pub proto3_reserved_words : List Text
proto3_reserved_words =
    codes "syntax"
    ∷ codes "import"
    ∷ codes "package"
    ∷ codes "option"
    ∷ codes "message"
    ∷ codes "enum"
    ∷ codes "service"
    ∷ codes "rpc"
    ∷ codes "returns"
    ∷ codes "stream"
    ∷ codes "oneof"
    ∷ codes "map"
    ∷ codes "extensions"
    ∷ codes "reserved"
    ∷ codes "to"
    ∷ codes "max"
    ∷ codes "repeated"
    ∷ codes "optional"
    ∷ codes "required"
    ∷ codes "weak"
    ∷ codes "public"
    ∷ []

-- `keyword.kwlist`
abbrev pub keywords : List Text
keywords =
    codes "False"
    ∷ codes "None"
    ∷ codes "True"
    ∷ codes "and"
    ∷ codes "as"
    ∷ codes "assert"
    ∷ codes "async"
    ∷ codes "await"
    ∷ codes "break"
    ∷ codes "class"
    ∷ codes "continue"
    ∷ codes "def"
    ∷ codes "del"
    ∷ codes "elif"
    ∷ codes "else"
    ∷ codes "except"
    ∷ codes "finally"
    ∷ codes "for"
    ∷ codes "from"
    ∷ codes "global"
    ∷ codes "if"
    ∷ codes "import"
    ∷ codes "in"
    ∷ codes "is"
    ∷ codes "lambda"
    ∷ codes "nonlocal"
    ∷ codes "not"
    ∷ codes "or"
    ∷ codes "pass"
    ∷ codes "raise"
    ∷ codes "return"
    ∷ codes "try"
    ∷ codes "while"
    ∷ codes "with"
    ∷ codes "yield"
    ∷ []

abbrev number_options : List Text
number_options =
    codes "minimum"
    ∷ codes "maximum"
    ∷ codes "exclusiveMinimum"
    ∷ codes "exclusiveMaximum"
    ∷ codes "multipleOf"
    ∷ []

abbrev pub supported_options : Dict Text (List Text)
supported_options =
    (codes "string", codes "minLength" ∷ codes "maxLength" ∷ codes "pattern" ∷ codes "format" ∷ [])
    ∷ (codes "integer", number_options ++ codes "format" ∷ [])
    ∷ (codes "number", number_options)
    ∷ (codes "array", codes "minItems" ∷ codes "maxItems" ∷ [])
    ∷ (codes "timestamp", codes "timezone" ∷ [])
    ∷ []

unfoldable pub options_of : Text → List Text
options_of logical = elim (lookup logical supported_options) [ none ↦ [] | some keys ↦ keys ]

-- `_reserved_field_names()`, for the names that Pydantic's `BaseModel` has.
unfoldable pub is_reserved : List Text → Text → Bool
is_reserved model_names name =
    contains keywords name
    || (contains proto3_reserved_words name
        || (contains generated_names name || contains model_names name))
