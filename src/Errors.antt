-- ===== src/Errors.antt =====
-- The error values of error.go and rpc.go, Go's `error` interface and the values of `panic`.
pub mod Print
mod Tests
use jonson.Prelude.{◌+◌, ◌++◌, ℕ, String, List, [], ◌∷◌}
use jonson.Text.{Text, codes, decimal}

-- Signed codes; `negsuc n` is -(n + 1).
pub data ℤ : Type 0 where
  pos : ℕ → ℤ
  negsuc : ℕ → ℤ

-- `Error` and `ErrorData`. A nil `*ErrorData` is `no_data`. The details are a finite list of errors:
-- a nil entry, on which `String` panics, and an error among its own details are left out.
mutual
  pub data Error : Type 0 where
    error : (code : ℤ) (message : String) → ErrorData → Error

  pub data ErrorData : Type 0 where
    no_data : ErrorData
    error_data : (path : List Text) → ErrorList → (debug : Text) → ErrorData

  pub data ErrorList : Type 0 where
    nil : ErrorList
    cons : Error → ErrorList → ErrorList

-- `%d` of a signed number, and `strconv.FormatInt(_, 10)`
unfoldable pub show_int : ℤ → Text
unfolding decimal
show_int (pos n) = decimal n
show_int (negsuc n) = b'-' ∷ decimal (n + 1)

abbrev pub code : Error → ℤ
code (error c m d) = c

abbrev pub message : Error → String
message (error c m d) = m

abbrev pub data_of : Error → ErrorData
data_of (error c m d) = d

abbrev pub to_list : ErrorList → List Error
to_list nil = []
to_list (cons e es) = e ∷ to_list es

abbrev pub of_list : List Error → ErrorList
of_list [] = nil
of_list (e ∷ es) = cons e (of_list es)

-- `Error.CloneWithData`: the receiver is a copy, so the original keeps its data.
unfoldable pub clone_with_data : Error → ErrorData → Error
clone_with_data (error c m _) d = error c m d

-- The predefined errors of rpc.go.
abbrev pub err_parse : Error
err_parse = error (negsuc 32699) "Parse error" no_data

abbrev pub err_method_not_found : Error
err_method_not_found = error (negsuc 32600) "Method not found" no_data

abbrev pub err_invalid_params : Error
err_invalid_params = error (negsuc 32601) "Invalid params" no_data

abbrev pub err_internal : Error
err_internal = error (negsuc 32602) "Internal error" no_data

abbrev pub err_server_method_not_allowed : Error
err_server_method_not_allowed = error (negsuc 31999) "Server error: method not allowed" no_data

abbrev pub err_unauthorized : Error
err_unauthorized = error (negsuc 32000) "Not authorized" no_data

abbrev pub err_unauthenticated : Error
err_unauthenticated = error (negsuc 32001) "Not authenticated" no_data

-- A Go `error`: a `*Error`, or one made by `errors.New` or `fmt.Errorf`.
pub data GoError : Type 0 where
  rpc : Error → GoError
  plain : String → GoError

-- the method `Error` of a `*Error`, and that of another error
unfoldable pub error_text : GoError → Text
unfolding show_int
error_text (rpc (error c m d)) = codes m ++ codes " (" ++ show_int c ++ codes ")"
error_text (plain s) = codes s

-- The argument of `panic`: an error, a string, or another value with its `%v` text.
pub data PanicValue : Type 0 where
  of_error : GoError → PanicValue
  of_string : String → PanicValue
  of_other : String → PanicValue

-- The panic of Go's runtime for a nil pointer whose fields are read.
abbrev pub nil_dereference : PanicValue
nil_dereference =
    of_error (plain "runtime error: invalid memory address or nil pointer dereference")

-- `getRecoverError` of method.handler.go
unfoldable pub get_recover_error : PanicValue → GoError
get_recover_error (of_error e) = e
get_recover_error (of_string s) = plain s
get_recover_error (of_other s) = plain s
