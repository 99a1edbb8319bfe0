-- ===== src/Validate/Outcomes.antt =====
-- The results of a validation (validate.go): when it reports, what it reports, and its panics.
use jonson.Prelude.{
  String, true, false, Option, none, some, List, [], ◌∷◌, ◌++◌, ◌≡◌, ◌≢◌, refl, ap, ◌∙◌, arith, All,
}
use jonson.Text.{Text}
use jonson.Errors.{Error, error, error_data, of_list, code, message, err_invalid_params, of_string}
use jonson.Validate.{
  ok, panicked, Script, Chain, set_message, validate, Validator, ValidatorError, new_validator,
  error_of, run, run_chain, validate_value,
}
use jonson.Validate.Binds.{bind-eq-ok}
use jonson.Validate.Collects.{IsUnder, details-error_of, run-Grows}

-- The error in which a validator combines what it has collected.
abbrev pub combined : List Error → Error
combined es =
    error (code err_invalid_params) (message err_invalid_params) (error_data [] (of_list es) [])

error_of-eq-some :
    (es : List Error) (base : List Text) (e : Error)
    → error_of (record { errors = es; base_path = base }) ≡ some e
    → (es ≢ []) × (e ≡ combined es)
unfolding error_of
error_of-eq-some [] base e h = cc
error_of-eq-some (x ∷ es) base e h = (λ p. cc, ground arith)

error_of-eq-none :
    (es : List Error) (base : List Text)
    → error_of (record { errors = es; base_path = base }) ≡ none
    → es ≡ []
unfolding error_of
error_of-eq-none [] base h = refl
error_of-eq-none (x ∷ es) base h = cc

-- What the collected errors of a validation have to do with its result.
pub record IsVerdict (encode : Text → Text) (base : List Text) (s : Script) (r : Option Error)
    : Type 0 where
  pub collected : List Error
  pub ran : run encode s (new_validator base) ≡ ok (record { errors = collected; base_path = base })
  pub placed : All (IsUnder base) collected
  pub invalid : (e : Error) → r ≡ some e → (collected ≢ []) × (e ≡ combined collected)
  pub valid : r ≡ none → collected ≡ []

-- A validation that does not panic returns `Invalid params` with the errors that it collected as
-- details if it collected any, and nil if it collected none. The paths of the collected errors
-- begin with the base path.
pub validate_value-IsVerdict :
    (encode : Text → Text) (base : List Text) (s : Script) (r : Option Error)
    → validate_value encode base s ≡ ok r
    → IsVerdict encode base s r
unfolding validate_value new_validator
validate_value-IsVerdict encode base s r h =
    let (c, ran, same) = bind-eq-ok (run encode s (new_validator base)) _ _ h in
    let g = run-Grows encode s (new_validator base) c ran in
    let returned : error_of c ≡ r = ground (arith, same) in
    record {
      collected = c.errors;
      ran = ran ∙ ap (λ b. ok (record { errors = c.errors; base_path = b })) g.base_path;
      placed = rw g.errors g.placed;
      invalid = λ e p. error_of-eq-some c.errors c.base_path e (returned ∙ p);
      valid = λ p. error_of-eq-none c.errors c.base_path (returned ∙ p);
    }

-- Once a validation error has been added, a second `Message` and a `Validate` panic, whatever
-- follows them.
pub added_once :
    (encode : Text → Text) (e : ValidatorError) (v : Validator) (m : String) (s : Script)
    (rest : Chain) (k : Option Error → Chain)
    → e.added ≡ true
    → (run_chain encode (set_message m rest) e v
        ≡ panicked (of_string "validator: cannot add error twice"))
      × (run_chain encode (validate s k) e v
          ≡ panicked (of_string "cannot call validate after adding the error"))
unfolding run_chain
added_once encode e v m s rest k h = (rw h, rw h)

-- `Validate` hands the nested value's combined error, or nil, to what follows, and the parent has
-- collected the nested errors in their order, behind its own.
pub nested_collected :
    (encode : Text → Text) (e : ValidatorError) (v c : Validator) (s : Script)
    (k : Option Error → Chain)
    → e.added ≡ false
    → run encode s (new_validator (v.base_path ++ e.path)) ≡ ok c
    → run_chain encode (validate s k) e v
      ≡ run_chain encode
          (k (error_of c))
          (record e { added = true })
          (record v { errors = v.errors ++ c.errors })
unfolding run_chain
nested_collected encode e v c s k fresh ran = rw (fresh, ran, details-error_of)
