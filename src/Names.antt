-- ===== src/Names.antt =====
-- kebab-case.go, pascal-case.go and the naming functions of method.handler.go. Names are ASCII.
pub mod Kebab
pub mod Endpoint
mod Tests
use mathlib.Core.List.{reverse}
use jonson.Prelude.{
  ℕ, zero, suc, ◌+◌, ◌-◌, ◌*◌, ◌^◌, Bool, true, false, ◌&&◌, ◌||◌, not, List, [], ◌∷◌, ◌++◌, map,
  ltb, leb, ◌==◌, all, if◌then◌else◌,
}
use jonson.Text.{Text, codes, decimal, value_of_digits}
use jonson.Errors.{PanicValue, of_error, plain}
use jonson.Validate.{Result, ok, panicked, ◌>>=◌}

abbrev pub is_upper : ℕ → Bool
is_upper c = leb b'A' c && leb c b'Z'

abbrev pub is_lower : ℕ → Bool
is_lower c = leb b'a' c && leb c b'z'

abbrev pub is_digit : ℕ → Bool
is_digit c = leb b'0' c && leb c b'9'

abbrev pub is_lower_or_digit : ℕ → Bool
is_lower_or_digit c = is_lower c || is_digit c

-- `matchFirstCap.ReplaceAllString(_, "${1}-${2}")`: the matches of `([A-Z])([A-Z][a-z])` from the
-- left, none of which overlaps another.
unfoldable pub split_first_cap : Text → Text
split_first_cap [] = []
split_first_cap (a ∷ []) = a ∷ []
split_first_cap (a ∷ b ∷ []) = a ∷ b ∷ []
split_first_cap (a ∷ b ∷ c ∷ s) =
    let behind = split_first_cap s in
    let further = split_first_cap (b ∷ c ∷ s) in
    if is_upper a && (is_upper b && is_lower c) then a ∷ b'-' ∷ b ∷ c ∷ behind else a ∷ further

-- `matchAllCap.ReplaceAllString(_, "${1}-${2}")`, with `([a-z0-9])([A-Z])`
unfoldable pub split_all_cap : Text → Text
split_all_cap [] = []
split_all_cap (a ∷ []) = a ∷ []
split_all_cap (a ∷ b ∷ s) =
    let behind = split_all_cap s in
    let further = split_all_cap (b ∷ s) in
    if is_lower_or_digit a && is_upper b then a ∷ b'-' ∷ b ∷ behind else a ∷ further

-- `strings.ReplaceAll(_, "_", "-")`
abbrev pub dash : ℕ → ℕ
dash c = if c == b'_' then b'-' else c

-- `strings.ToLower` and `strings.ToUpper`
abbrev pub lower : ℕ → ℕ
lower c = if is_upper c then c + 32 else c

abbrev pub upper : ℕ → ℕ
upper c = if is_lower c then c - 32 else c

-- `ToKebabCase`
unfoldable pub to_kebab_case : Text → Text
unfolding split_first_cap split_all_cap
to_kebab_case s = map lower (map dash (split_all_cap (split_first_cap s)))

-- `strings.Split(_, "-")`; the second argument is the word that is being read.
unfoldable pub split_dashes : Text → Text → List Text
split_dashes [] word = word ∷ []
split_dashes (c ∷ s) word =
    let closed = split_dashes s [] in
    let longer = split_dashes s (word ++ c ∷ []) in if c == b'-' then word ∷ closed else longer

-- `word[0:1]` panics on an empty word.
abbrev pub slice_out_of_range : PanicValue
slice_out_of_range = of_error (plain "runtime error: slice bounds out of range [:1] with length 0")

unfoldable pub capitalize_all : List Text → Result Text
capitalize_all [] = ok []
capitalize_all ([] ∷ ws) = panicked slice_out_of_range
capitalize_all ((c ∷ w) ∷ ws) = capitalize_all ws >>= λ s. ok ((upper c ∷ w) ++ s)

-- `ToPascalCase`
unfoldable pub to_pascal_case : Text → Result Text
unfolding to_kebab_case split_dashes capitalize_all
to_pascal_case [] = ok []
to_pascal_case (c ∷ s) = capitalize_all (split_dashes (to_kebab_case (c ∷ s)) [])

-- The digits at the head of a text, and what follows them.
unfoldable pub span_digits : Text → Text × Text
span_digits [] = ([], [])
span_digits (c ∷ s) =
    let (ds, rest) = span_digits s in if is_digit c then (c ∷ ds, rest) else ([], c ∷ s)

abbrev pub u64_max : ℕ
u64_max = 2 ^ 64 - 1

-- `strconv.ParseUint(_, 10, 64)` without its error: the highest number where the value is too large
unfoldable pub parse_uint : Text → ℕ
unfolding value_of_digits
parse_uint ds = let n = value_of_digits ds in if ltb u64_max n then u64_max else n

-- the result for a match of `^(.+)V([0-9]+)$`, which is read from the end
abbrev pub split_reversed : Text → Text → Text × ℕ
split_reversed [] rest = ([], 0)
split_reversed (d ∷ ds) [] = ([], 0)
split_reversed (d ∷ ds) (v ∷ []) = ([], 0)
split_reversed (d ∷ ds) (v ∷ c ∷ rest) =
    if v == b'V' && all (λ x. not (x == 10)) (c ∷ rest)
    then (to_kebab_case (reverse (c ∷ rest)), parse_uint (d ∷ ds))
    else ([], 0)

-- `SplitMethodName`
unfoldable pub split_method_name : Text → Text × ℕ
unfolding to_kebab_case parse_uint span_digits
split_method_name s = let (ds, rest) = span_digits (reverse s) in split_reversed ds rest

-- `GetDefaultMethodName`, and the endpoint of `RegisterMethod`
unfoldable pub get_default_method_name : Text → Text → ℕ → Text
unfolding decimal
get_default_method_name system method version =
    system ++ (b'/' ∷ method ++ (b'.' ∷ b'v' ∷ decimal version))

-- `validIdentifierName`: `^[A-Za-z0-9-]+$`
abbrev pub is_identifier_char : ℕ → Bool
is_identifier_char c = is_upper c || is_lower c || is_digit c || c == b'-'

unfoldable pub is_valid_identifier : Text → Bool
is_valid_identifier [] = false
is_valid_identifier (c ∷ s) = all is_identifier_char (c ∷ s)
