-- ===== src/Text/Decimal.antt =====
-- The decimal form determines the number and consists of digits.
use mathlib.Core.List.{reverse, reverse-reverse}
use jonson.Prelude.{ℕ, zero, suc, ◌/◌, ◌<◌, ◌≡◌, ap, sym, ◌∙◌, arith}
use jonson.Text.{digits_from, decimal, value_of_digits}

pub value_of_digits-digits_from : (fuel n : ℕ) → n < fuel → value_of_digits (digits_from fuel n) ≡ n
unfolding value_of_digits digits_from
value_of_digits-digits_from zero n h = absurd (omega arith)
value_of_digits-digits_from (suc fuel) n h =
    ground (arith, value_of_digits-digits_from fuel (n / 10))

-- Two numbers with the same decimal form are the same.
pub decimal_inj : (m n : ℕ) → decimal m ≡ decimal n → m ≡ n
unfolding decimal
decimal_inj m n h =
    let p : digits_from (suc m) m ≡ digits_from (suc n) n =
      sym (reverse-reverse _) ∙ ap reverse h ∙ reverse-reverse _ in
    sym (value_of_digits-digits_from (suc m) m (omega arith))
    ∙ ap value_of_digits p
    ∙ value_of_digits-digits_from (suc n) n (omega arith)
