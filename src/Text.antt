-- ===== src/Text.antt =====
-- Texts as lists of bytes, their comparison, and the decimal form of a number
-- (`strconv.FormatUint`, and `%d` of `fmt.Sprintf`).
pub mod Laws
pub mod Decimal
use Prim.Native.Char.{code}
use jonson.Prelude.{
  ℕ, zero, suc, ◌+◌, ◌-◌, ◌*◌, ◌/◌, ◌%◌, String, Bool, true, false, ◌&&◌, List, [], ◌∷◌, ◌==◌,
  if◌then◌else◌,
}
use mathlib.Core.List.{reverse}

abbrev pub Text : Type 0
Text = List ℕ

-- The bytes of an ASCII literal.
abbrev pub codes : String → Text
codes String.[] = []
codes (String.◌∷◌ c s) = code c ∷ codes s

-- Go's `==` on strings.
unfoldable pub text_eq : Text → Text → Bool
text_eq [] [] = true
text_eq (a ∷ s) (b ∷ t) = a == b && text_eq s t
text_eq _ _ = false

-- The digits of a number, the lowest first. The fuel bounds their number.
unfoldable pub digits_from : ℕ → ℕ → Text
digits_from zero n = []
digits_from (suc fuel) n =
    let more = digits_from fuel (n / 10) in (48 + n % 10) ∷ (if n / 10 == 0 then [] else more)

-- A number has at most as many digits as its successor counts.
unfoldable pub decimal : ℕ → Text
unfolding digits_from
decimal n = reverse (digits_from (suc n) n)

-- The number with the given digits, the lowest first.
unfoldable pub value_of_digits : Text → ℕ
value_of_digits [] = 0
value_of_digits (d ∷ ds) = (d - b'0') + 10 * value_of_digits ds
