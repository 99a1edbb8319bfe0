-- ===== src/Base64.antt =====
-- The standard encoding of encoding/base64, as secret.go uses it: `EncodeToString` and
-- `DecodeString`, which skips line breaks and wants the padding.
pub mod RoundTrip
use jonson.Prelude.{
  ℕ, ◌+◌, ◌-◌, ◌*◌, ◌/◌, ◌%◌, Bool, true, false, ◌&&◌, ◌||◌, not, Option, none, some, List, [], ◌∷◌,
  ◌++◌, ltb, leb, ◌==◌, if◌then◌else◌,
}
use jonson.Text.{Text}

-- `A` to `Z`, `a` to `z`, `0` to `9`, `+` and `/`
unfoldable pub char_of : ℕ → ℕ
char_of n =
    if ltb n 26
    then b'A' + n
    else if ltb n 52
    then b'a' + (n - 26)
    else if ltb n 62
    then b'0' + (n - 52)
    else if n == 62
    then b'+'
    else b'/'

unfoldable pub sextet_of : ℕ → Option ℕ
sextet_of c =
    if leb b'A' c && leb c b'Z'
    then some (c - b'A')
    else if leb b'a' c && leb c b'z'
    then some (c - b'a' + 26)
    else if leb b'0' c && leb c b'9'
    then some (c - b'0' + 52)
    else if c == b'+'
    then some 62
    else if c == b'/'
    then some 63
    else none

-- Three bytes make four characters.
unfoldable pub encode : Text → Text
encode [] = []
encode (a ∷ []) = char_of (a / 4) ∷ char_of (a % 4 * 16) ∷ b'=' ∷ b'=' ∷ []
encode (a ∷ b ∷ []) =
    char_of (a / 4) ∷ char_of (a % 4 * 16 + b / 16) ∷ char_of (b % 16 * 4) ∷ b'=' ∷ []
encode (a ∷ b ∷ c ∷ rest) =
    char_of (a / 4)
    ∷ char_of (a % 4 * 16 + b / 16)
    ∷ char_of (b % 16 * 4 + c / 64)
    ∷ char_of (c % 64)
    ∷ encode rest

-- One, two or three bytes from the sextets of a quantum.
abbrev pub one_byte : Option ℕ → Option ℕ → Option Text
one_byte (some p) (some q) = some ((p * 4 + q / 16) ∷ [])
one_byte _ _ = none

abbrev pub two_bytes : Option ℕ → Option ℕ → Option ℕ → Option Text
two_bytes (some p) (some q) (some r) = some ((p * 4 + q / 16) ∷ (q % 16 * 16 + r / 4) ∷ [])
two_bytes _ _ _ = none

abbrev pub three_bytes : Option ℕ → Option ℕ → Option ℕ → Option ℕ → Option Text → Option Text
three_bytes (some p) (some q) (some r) (some s) (some rest) =
    some ((p * 4 + q / 16) ∷ (q % 16 * 16 + r / 4) ∷ (r % 4 * 64 + s) ∷ rest)
three_bytes _ _ _ _ _ = none

abbrev pub is_end : Text → Bool
is_end [] = true
is_end (c ∷ s) = false

-- The text without line breaks, a quantum of four characters at a time.
unfoldable pub decode_quanta : Text → Option Text
decode_quanta [] = some []
decode_quanta (c ∷ d ∷ e ∷ f ∷ rest) =
    let more = decode_quanta rest in
    if f == b'='
    then (if is_end rest
        then (if e == b'='
            then one_byte (sextet_of c) (sextet_of d)
            else two_bytes (sextet_of c) (sextet_of d) (sextet_of e))
        else none)
    else three_bytes (sextet_of c) (sextet_of d) (sextet_of e) (sextet_of f) more
decode_quanta _ = none

unfoldable pub strip : Text → Text
strip [] = []
strip (c ∷ s) = let rest = strip s in if c == 10 || c == 13 then rest else c ∷ rest

unfoldable pub decode : Text → Option Text
unfolding decode_quanta strip
decode s = decode_quanta (strip s)
