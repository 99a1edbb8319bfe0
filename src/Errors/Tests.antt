-- ===== src/Errors/Tests.antt =====
-- The printing of an error with a detail.
use jonson.Prelude.{[], ◌∷◌, ◌≡◌, refl}
use jonson.Text.{codes}
use jonson.Errors.{
  Error, error, no_data, error_data, nil, cons, pos, err_invalid_params, clone_with_data,
}
use jonson.Errors.Print.{
  printed, out_of_range, indent, error_string, IsPrinted, error_string-IsPrinted,
}

abbrev nested : Error
nested =
    clone_with_data err_invalid_params (
      error_data [] (cons (error (pos 7) "too long" (error_data (codes "name" ∷ []) nil [])) nil)
        [])

error_string-IsPrinted_example : IsPrinted (error_string nested)
error_string-IsPrinted_example = error_string-IsPrinted nested

plain_error :
    error_string (error (pos 7) "too long" no_data)
    ≡ printed (codes "error code: 7 | message: too long | data: ")
unfolding error_string
plain_error = refl

indented : indent (codes "a\nb\n") (codes "  ") ≡ printed (codes "  a\n  b\n")
unfolding indent
indented = refl

indented_open : indent (codes "a\nb") (codes "  ") ≡ printed (codes "  a\n  b")
unfolding indent
indented_open = refl

empty_panics : indent [] (codes "  ") ≡ out_of_range
unfolding indent
empty_panics = refl
