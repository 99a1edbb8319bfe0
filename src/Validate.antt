-- ===== src/Validate.antt =====
-- validate.go: the validator that collects the errors of one value and of the values nested in it.
-- `JonsonValidate` is code of the library's user: it is a parameter, given as a `Script` of the
-- calls that it makes on the validator. A script uses one `*validatorError` at a time.
-- `append` on slices is modelled on values: no two slices share a backing array.
pub mod Binds
pub mod Collects
pub mod Paths
pub mod Outcomes
pub mod Reference
mod Tests
use Prim.Native.String
use jonson.Prelude.{
  ℕ, ◌+◌, String, Bool, true, false, ◌&&◌, Option, none, some, List, [], ◌∷◌, ◌++◌, if◌then◌else◌,
  not,
}
use jonson.Text.{Text}
use jonson.Errors.{
  ℤ, show_int, Error, error, ErrorData, no_data, error_data, to_list, of_list, data_of, code,
  message, clone_with_data, err_invalid_params, PanicValue, of_string,
}

-- What a call returns, or the value that it panics with.
pub data Result {ℓ} (A : Type ℓ) : Type ℓ where
  panicked : PanicValue → Result A
  ok : A → Result A

module _ {ℓ κ} {A : Type ℓ} {B : Type κ} where
  infixl 5 ◌>>=◌
  abbrev pub ◌>>=◌ : Result A → (A → Result B) → Result B
  panicked p >>= next_call = panicked p
  ok a >>= next_call = next_call a

-- An argument of `Path`: a string, a `*validatorIndex`, or a value of another type.
pub data PathElem : Type 0 where
  name : Text → PathElem
  index : ℤ → PathElem
  unsupported : String → PathElem

-- The calls that user code makes: `path` is `v.Path(...)`, and the chain holds the calls on the
-- `*validatorError` that it returns. `next` drops that value.
mutual
  pub data Script : Type 0 where
    done : Script
    crash : PanicValue → Script
    path : List PathElem → Chain → Script

  pub data Chain : Type 0 where
    set_code : ℤ → Chain → Chain
    set_debug : Text → Chain → Chain
    set_message : String → Chain → Chain
    validate : Script → (Option Error → Chain) → Chain
    next : Script → Chain

pub record Validator : Type 0 where
  pub errors : List Error
  pub base_path : List Text

pub record ValidatorError : Type 0 where
  pub added : Bool
  pub path : List Text
  pub debug : Text
  pub code : ℤ
  pub message : String

unfoldable pub new_validator : List Text → Validator
new_validator base = record { errors = []; base_path = base }

-- the `switch` of `Path`
unfoldable pub convert : PathElem → Result Text
unfolding show_int
convert (name s) = ok s
convert (index i) = ok (b'[' ∷ show_int i ++ b']' ∷ [])
convert (unsupported type_name) = panicked (
    of_string (
      String.◌++◌ "unsupported path type: "
        (String.◌++◌ type_name "; string, validator.Index() are the only supported types")))

unfoldable pub convert_all : List PathElem → Result (List Text)
unfolding convert
convert_all [] = ok []
convert_all (p ∷ ps) = do s ← convert p; ss ← convert_all ps; ok (s ∷ ss)

-- `Validator.Path`
unfoldable pub path_of : Validator → List PathElem → Result ValidatorError
unfolding convert_all
path_of v elems = do
  converted ← convert_all elems
  ok (record {
    added = false;
    path = v.base_path ++ converted;
    debug = [];
    code = code err_invalid_params;
    message = message err_invalid_params;
  })

abbrev is_empty {ℓ} : {A : Type ℓ} → List A → Bool
is_empty [] = true
is_empty (_ ∷ _) = false

-- the `data` variable of `add`
unfoldable pub field_data : List Text → Text → ErrorData
field_data p d = if is_empty p && is_empty d then no_data else error_data p (of_list []) d

-- `validatorError.add`
unfoldable pub add : ValidatorError → Validator → Result Validator
unfolding field_data
add e v =
    if e.added
    then panicked (of_string "validator: cannot add error twice")
    else ok
        (record v { errors = v.errors ++ error e.code e.message (field_data e.path e.debug) ∷ [] })

-- `Validator.Error`
unfoldable pub error_of : Validator → Option Error
unfolding clone_with_data
error_of v =
    if is_empty v.errors
    then none
    else some (clone_with_data err_invalid_params (error_data [] (of_list v.errors) []))

-- `err.Data.Details` of a nested validation, nothing for a nil error
unfoldable pub details : Option Error → List Error
details none = []
details (some (error _ _ no_data)) = []
details (some (error _ _ (error_data _ es _))) = to_list es

module _ (encode : Text → Text) where
  unfoldable mutual
    unfolding new_validator path_of add error_of details

    -- `JonsonValidate` on a validator
    pub run : Script → Validator → Result Validator
    run done v = ok v
    run (crash p) v = panicked p
    run (path elems chain) v = path_of v elems >>= λ e. run_chain chain e v

    -- `Code`, `Debug`, `Message` and `Validate` of a `*validatorError`
    pub run_chain : Chain → ValidatorError → Validator → Result Validator
    run_chain (set_code c chain) e v = run_chain chain (record e { code = c }) v
    run_chain (set_debug s chain) e v = run_chain chain (record e { debug = encode s }) v
    run_chain (set_message m chain) e v = add (record e { message = m }) v >>= λ v'.
        run_chain chain (record e { message = m; added = true }) v'
    run_chain (validate child chain) e v =
        (if e.added
          then panicked (of_string "cannot call validate after adding the error")
          else run child (new_validator (v.base_path ++ e.path)))
        >>= λ collector.
            run_chain (chain (error_of collector)) (record e { added = true })
              (record v { errors = v.errors ++ details (error_of collector) })
    run_chain (next rest) e v = run rest v

  -- the function `Validate`
  unfoldable pub validate_value : List Text → Script → Result (Option Error)
  unfolding run new_validator error_of
  validate_value base s = run s (new_validator base) >>= λ collector. ok (error_of collector)
