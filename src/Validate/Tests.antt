-- ===== src/Validate/Tests.antt =====
-- Runs of the validator, and the theorems of validate.go at concrete scripts.
use jonson.Prelude.{◌≤◌, ◌^◌, true, false, some, List, [], ◌∷◌, ◌≡◌, ◌↔◌, refl, length}
use jonson.Text.{Text, codes}
use jonson.Errors.{
  pos, negsuc, Error, error, error_data, of_list, code, message, err_invalid_params, of_string,
}
use jonson.Validate.{
  ok, ◌>>=◌, panicked, Script, done, path, name, index, unsupported, set_code, set_debug,
  set_message, validate, next, Validator, ValidatorError, new_validator, run, validate_value,
}
use jonson.Validate.Reference.{reported, combined_error, validate_value-reported}
use jonson.Validate.Paths.{nested_at, report_of, validate_value-nested_at}

-- The profile of validate_test.go with an empty image URL and a short name.
abbrev image : Script
image = path (name (codes "url") ∷ []) (set_message "url too short" (next done))

abbrev profile : Script
profile = path (name (codes "name") ∷ []) (
    set_code (negsuc 0) (
      set_debug (codes "secret") (
        set_message "name len between 2 and 10 chars" (
          next (
            path (name (codes "imageArr") ∷ index (pos 1) ∷ [])
              (validate image (λ _. next done)))))))

abbrev clear : Text → Text
clear s = s

abbrev profile_errors : List Error
profile_errors =
    error (negsuc 0) "name len between 2 and 10 chars"
      (error_data (codes "name" ∷ []) (of_list []) (codes "secret"))
    ∷ error (code err_invalid_params) "url too short"
        (error_data (codes "imageArr" ∷ codes "[1]" ∷ codes "url" ∷ []) (of_list []) [])
    ∷ []

run-profile :
    run clear profile (new_validator []) ≡ ok (record { errors = profile_errors; base_path = [] })
unfolding run new_validator
run-profile = refl

profile_verdict :
    validate_value clear [] profile
    ≡ ok (
        some (
          error
            (code err_invalid_params)
            (message err_invalid_params)
            (error_data [] (of_list profile_errors) [])))
unfolding validate_value
profile_verdict = refl

validate_value-reported_example :
    validate_value clear [] profile ≡ (reported clear profile [] >>= λ es. ok (combined_error es))
validate_value-reported_example = validate_value-reported clear [] profile

abbrev spent : ValidatorError
spent = record {
  added = true;
  path = codes "url" ∷ [];
  debug = [];
  code = code err_invalid_params;
  message = "url too short";
}

abbrev image_field : ValidatorError
image_field = record {
  added = false;
  path = codes "image" ∷ [];
  debug = [];
  code = code err_invalid_params;
  message = message err_invalid_params;
}

abbrev image_collector : Validator
image_collector = record {
  errors =
      error (code err_invalid_params) "url too short"
        (error_data (codes "image" ∷ codes "url" ∷ []) (of_list []) [])
      ∷ [];
  base_path = codes "image" ∷ [];
}

run-image : run clear image (new_validator (codes "image" ∷ [])) ≡ ok image_collector
unfolding run
run-image = refl

abbrev one_error : Validator
one_error = record { errors = err_invalid_params ∷ []; base_path = [] }

-- Two nested validations: the reported path is address, address, geo, lat.
validate_value-nested_at_example :
    (p : List Text) × (validate_value clear []
        (nested_at (codes "address") (codes "geo" ∷ codes "lat" ∷ []))
      ≡ ok (
          some (
            error
              (code err_invalid_params)
              (message err_invalid_params)
              (error_data [] (of_list (report_of p ∷ [])) []))))
    × (length p ≡ 2 ^ 2)
    × ((p ≡ codes "address" ∷ codes "geo" ∷ codes "lat" ∷ []) ↔ (2 ≤ 1))
validate_value-nested_at_example =
    validate_value-nested_at clear (codes "address") (codes "geo" ∷ codes "lat" ∷ [])

unsupported_path :
    run clear (path (unsupported "int" ∷ []) (next done)) (new_validator [])
    ≡ panicked (
        of_string
          "unsupported path type: int; string, validator.Index() are the only supported types")
unfolding run
unsupported_path = refl
