-- ===== src/Validate/Paths.antt =====
-- The paths that nested validations report (validate.go, `Path` and `validatorError.Validate`).
use native.Mathlib.Nat.{pow-suc}
use jonson.Prelude.{
  ℕ, zero, suc, ◌+◌, ◌*◌, ◌^◌, List, [], ◌∷◌, ◌++◌, ◌≡◌, refl, ap, ◌↔◌, ◌≤◌, ◌<◌, ◌∙◌, arith,
  length, length-append, some,
}
use jonson.Text.{Text}
use jonson.Errors.{Error, error, error_data, of_list, code, message, err_invalid_params}
use jonson.Validate.{
  ok, name, Script, done, path, set_message, validate, next, field_data, run, validate_value,
}

-- A value nested below the fields `s`, then `ts`, whose innermost validation reports one error.
abbrev pub nested_at : Text → List Text → Script
nested_at s [] = path (name s ∷ []) (set_message "invalid" (next done))
nested_at s (t ∷ ts) = path (name s ∷ []) (validate (nested_at t ts) (λ _. next done))

-- The path that it reports: each level puts its base path in twice.
abbrev pub reported : List Text → Text → List Text → List Text
reported base s [] = base ++ s ∷ []
reported base s (t ∷ ts) = reported (base ++ (base ++ s ∷ [])) t ts

-- The error with which `Validate` reports one invalid field.
abbrev pub report_of : List Text → Error
report_of p = error (code err_invalid_params) "invalid" (field_data p [])

run-nested_at :
    (encode : Text → Text) (base : List Text) (s : Text) (ts : List Text)
    → run encode (nested_at s ts) (record { errors = []; base_path = base })
      ≡ ok (record { errors = report_of (reported base s ts) ∷ []; base_path = base })
unfolding run
run-nested_at encode base s [] = refl
run-nested_at encode base s (t ∷ ts) = rw (run-nested_at encode (base ++ (base ++ s ∷ [])) t ts)

length-reported :
    (base : List Text) (s : Text) (ts : List Text)
    → length (reported base s ts) ≡ (length base + 1) * 2 ^ length ts
length-reported base s [] = omega (arith, length-append {0} base (s ∷ []))
length-reported base s (t ∷ ts) =
    length-reported (base ++ (base ++ s ∷ [])) t ts
    ∙ rw (length-append, length-append base (s ∷ [])) (grind (arith, pow-suc 2 (length ts)))

below_pow : (n : ℕ) → n + 3 < 2 ^ suc (suc n)
below_pow zero = omega arith
below_pow (suc n) = omega (arith, below_pow n, pow-suc 2 (suc (suc n)))

-- The reported path is the path of the field exactly when at most one validation is nested.
reported_exact_iff : (s : Text) (ts : List Text) → (reported [] s ts ≡ s ∷ ts) ↔ (length ts ≤ 1)
reported_exact_iff s [] = (λ _. omega arith, λ _. refl)
reported_exact_iff s (t ∷ []) = (λ _. omega arith, λ _. refl)
reported_exact_iff s (t ∷ u ∷ ts) = (
  λ p.
      absurd (omega (arith, ap length p, length-reported [] s (t ∷ u ∷ ts), below_pow (length ts))),
  λ h. absurd (omega arith),
)

-- A value with one invalid field, which lies `length ts` nested validations deep, is reported as
-- invalid with that one error. The path in the error has 2 ^ length ts segments, and it is the
-- path `s ∷ ts` of the field exactly when `length ts` is at most 1.
pub validate_value-nested_at :
    (encode : Text → Text) (s : Text) (ts : List Text)
    → (p : List Text) × (validate_value encode [] (nested_at s ts)
        ≡ ok (
            some (
              error
                (code err_invalid_params)
                (message err_invalid_params)
                (error_data [] (of_list (report_of p ∷ [])) []))))
      × (length p ≡ 2 ^ length ts)
      × ((p ≡ s ∷ ts) ↔ (length ts ≤ 1))
unfolding validate_value
validate_value-nested_at encode s ts = (
  reported [] s ts,
  rw (run-nested_at encode [] s ts),
  omega (arith, length-reported [] s ts),
  reported_exact_iff s ts,
)
