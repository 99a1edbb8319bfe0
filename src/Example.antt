-- ===== src/Example.antt =====
-- internal/example: an application of the library, with a system of three procedures and a provider
-- of its own. The header of a request (`Header.Get`) and the field Uuid of decoded params are
-- parameters; log lines and waiting are left out.
pub mod Served
mod Tests
mod AccountTests
pub mod Client
mod Generated
use jonson.Prelude.{
  ℕ, String, Bool, true, false, none, some, List, [], ◌∷◌, ◌++◌, length, ◌==◌, if◌then◌else◌,
  Option,
}
use jonson.Text.{Text, codes, text_eq}
use jonson.Types.{
  GoType, ptr_to_struct, Kind, type_context, type_http_request, type_http_get, type_http_post,
  type_graceful, type_graceful_provider,
}
use jonson.Value.{
  Value, Request, nil_value, http_request, params, custom, fields, reply, graceful, logger,
}
use jonson.Errors.{
  Error, error, no_data, GoError, rpc, PanicValue, nil_dereference, of_string, ℤ, pos,
}
use jonson.Validate
use jonson.Validate.{Result, ok, panicked, ◌>>=◌, Script, name}
use jonson.Rpc.{ParamsType}
use jonson.Context.Prog
use jonson.Context.Prog.{Prog, done, panic, block}
use jonson.Context.Run.{State, Providers}
use jonson.Context.Typed.Accessors.{require_http_request, require_graceful}
use jonson.Log.{Heap, LoggerOptions, require_logger, with_caller_function, with_caller_rpc_meta}
use jonson.Factory.Scan.{ProviderMethod, register_provider, types_of}
use jonson.Factory.Make.{new_factory}
use jonson.Method.{
  Argument, ResultType, HandlerFunc, MethodHandler, ApiEndpoint, new_method_handler,
  MissingValidationLevel,
}
use jonson.Method.Register.{Method, register_system}

abbrev pub type_private : GoType
type_private = record { id = 40; name = "*account.Private"; kind = ptr_to_struct }

abbrev pub type_public : GoType
type_public = record { id = 41; name = "*account.Public"; kind = ptr_to_struct }

abbrev pub type_provider : GoType
type_provider = record { id = 42; name = "*account.AuthenticationProvider"; kind = ptr_to_struct }

abbrev pub type_account : GoType
type_account = record { id = 43; name = "*account.Account"; kind = ptr_to_struct }

abbrev pub type_profile_params : GoType
type_profile_params = record { id = 44; name = "*account.GetProfileV1Params"; kind = ptr_to_struct }

-- `&Private{}` and `&Public{}`, empty structs that are not shareable
abbrev pub private : Value
private =
    custom
      (record { ident = 40; shareable = false; across_impersonation = false; finalizer = none })

abbrev pub public : Value
public =
    custom
      (record { ident = 41; shareable = false; across_impersonation = false; finalizer = none })

abbrev pub the_uuid : Text
the_uuid = codes "70634da0-7459-4a17-a50f-7afc2a600d50"

-- `ErrNotFound`
abbrev pub err_not_found : Error
err_not_found = error (pos 10000) "Account not found" no_data

abbrev pub not_authorized : String
not_authorized = "account is not authorized; please set the Authorization header to 'authorized'"

abbrev pub frame_of : String → Text
frame_of f =
    codes "github.com/doejon/jonson/internal/example/systems/account.(*Account)." ++ codes f

-- The parameters: the panic of a type assertion, `Header.Get`, and the field Uuid and the error of
-- decoded params.
pub record World : Type 0 where
  pub conversion : GoType → Value → PanicValue
  pub header : Request → Text → Text
  pub uuid_of : Text → Text
  pub decode : Text → Option GoError

abbrev pub no_user : ℕ → Value → Bool
no_user n v = false

unfoldable pub new_public : Prog
new_public = done public

-- `RequireLogger(ctx).Info(...)`; what is logged is left out.
abbrev pub info : Value → Prog
info nil_value = panic nil_dereference
info v = done v

-- `MeV1`; the uuid is the one of `Private.AccountUuid`.
abbrev pub me_result : Value
me_result = reply (fields ((codes "uuid", the_uuid) ∷ (codes "name", codes "Silvio") ∷ [])) none

-- `GetProfileV1`
unfoldable pub profile_of : Text → Value
unfolding text_eq
profile_of uuid =
    if text_eq uuid the_uuid
    then reply (fields ((codes "name", codes "Silvio") ∷ [])) none
    else reply nil_value (some (rpc err_not_found))

-- The loop of `ProcessV1`, for what `IsUp` answers, one time after the other: it is at work as long
-- as there is no other answer.
unfoldable pub process_while : List Bool → Prog → Prog
process_while [] after = block
process_while (true ∷ ups) after = process_while ups after
process_while (false ∷ ups) after = after

-- `graceful.IsUp()`
abbrev pub loop_on : List Bool → Prog → Value → Prog
loop_on ups after nil_value = panic nil_dereference
loop_on ups after v = process_while ups after

abbrev pub argument : GoType → Argument
argument t = record { rt = t; params = none }

abbrev pub pointer_result : ResultType
pointer_result = record { kind = ptr_to_struct; name = []; pkg_path = [] }

abbrev pub error_result : ResultType
error_result = record { kind = Kind.interface; name = codes "error"; pkg_path = [] }

abbrev pub handler : List Argument → List ResultType → (List Value → Prog) → HandlerFunc
handler args outs code = record {
  is_func = true;
  ins = argument type_account ∷ argument type_context ∷ args;
  outs = outs;
  code = code;
}

-- `GracefulProvider.NewGraceful`
abbrev pub graceful_provider : List ProviderMethod
graceful_provider =
    record {
      name = codes "NewGraceful";
      ins = type_graceful_provider ∷ type_context ∷ [];
      outs = type_graceful ∷ [];
      code = done graceful;
    }
    ∷ []

-- What `main` has set up before it listens.
pub record Application : Type 0 where
  pub providers : Providers
  pub handler : MethodHandler

-- The options of the logger: `(&jonson.LoggerOptions{}).WithCallerFunction().WithCallerRpcMeta()`
unfoldable pub options_heap : (GoType → Value → PanicValue) → Heap
unfolding with_caller_function with_caller_rpc_meta
options_heap conversion =
    with_caller_rpc_meta conversion [] 0
      (with_caller_function conversion [] 0 (record { initializer = [] } ∷ []))

module _ (w : World) where
  -- `r.Header` of a nil request is a nil dereference.
  abbrev pub check_header : Value → Prog
  check_header (http_request r) =
      if text_eq (w.header r (codes "Authorization")) (codes "authorized")
      then done private
      else panic (of_string not_authorized)
  check_header v = panic nil_dereference

  -- `AuthenticationProvider.NewPrivate` and `NewPublic`
  unfoldable pub new_private : Prog
  unfolding Prog.◌>>=◌
  new_private = Prog.◌>>=◌ (require_http_request no_user w.conversion) check_header

  abbrev pub authentication_provider : List ProviderMethod
  authentication_provider =
      record {
        name = codes "NewPrivate";
        ins = type_provider ∷ type_context ∷ [];
        outs = type_private ∷ [];
        code = new_private;
      }
      ∷ record {
        name = codes "NewPublic";
        ins = type_provider ∷ type_context ∷ [];
        outs = type_public ∷ [];
        code = new_public;
      }
      ∷ []

  abbrev pub log_in : String → Prog
  log_in f = Prog.◌>>=◌ (require_logger w.conversion (options_heap w.conversion) (frame_of f)) info

  -- `subFnCall`
  unfoldable pub sub_fn_call : Prog
  unfolding Prog.◌>>=◌ require_logger options_heap
  sub_fn_call = log_in "subFnCall"

  unfoldable pub me_v1 : List Value → Prog
  unfolding Prog.◌>>=◌ require_logger options_heap sub_fn_call
  me_v1 args = Prog.◌>>=◌ (log_in "MeV1") (λ v. Prog.◌>>=◌ sub_fn_call (λ u. done me_result))

  -- `GetProfileV1Params.JonsonValidate`
  abbrev pub uuid_field : Value → Text
  uuid_field (params raw bindata) = w.uuid_of raw
  uuid_field v = []

  unfoldable pub json_validate : Value → Script
  json_validate v =
      if length (uuid_field v) == 36
      then Script.done
      else Script.path (name (codes "uuid") ∷ [])
          (Validate.set_message "uuid invalid" (Validate.next Script.done))

  abbrev pub profile_params : ParamsType
  profile_params = record {
    rt = type_profile_params;
    decode = w.decode;
    has_bindata = false;
    json_validate = some json_validate;
  }

  abbrev pub profile_answer : List Value → Value
  profile_answer (ctx ∷ caller ∷ post ∷ p ∷ []) = profile_of (uuid_field p)
  profile_answer args = profile_of []

  unfoldable pub get_profile_v1 : List Value → Prog
  unfolding Prog.◌>>=◌ require_logger options_heap profile_of
  get_profile_v1 args = Prog.◌>>=◌ (log_in "GetProfileV1") (λ v. done (profile_answer args))

  unfoldable pub process_v1 : List Bool → List Value → Prog
  unfolding Prog.◌>>=◌ require_logger options_heap process_while
  process_v1 ups args = Prog.◌>>=◌ (log_in "ProcessV1") (λ v.
      Prog.◌>>=◌ (require_graceful no_user w.conversion)
        (loop_on ups (Prog.◌>>=◌ (log_in "ProcessV1") (λ u. done (reply nil_value none)))))

  -- The methods of `*Account`, as reflection lists them.
  abbrev pub methods : List Bool → List Method
  methods ups =
      (
        codes "GetProfileV1",
        handler
            (argument type_public
              ∷ argument type_http_post
              ∷ record { rt = type_profile_params; params = some profile_params }
              ∷ [])
            (pointer_result ∷ error_result ∷ []) get_profile_v1,
      )
      ∷ (
        codes "MeV1",
        handler (argument type_private ∷ argument type_http_get ∷ [])
            (pointer_result ∷ error_result ∷ []) me_v1,
      )
      ∷ (
        codes "ProcessV1",
        handler (argument type_public ∷ argument type_http_get ∷ []) (error_result ∷ [])
            (process_v1 ups),
      )
      ∷ []

  abbrev pub set_up : List Bool → Providers → Result Application
  set_up ups ps =
      register_system (types_of ps) type_account (codes "Account") (methods ups)
        (new_method_handler MissingValidationLevel.error)
      >>= λ m. register_provider true graceful_provider ps >>= λ ps'.
          ok (record { providers = ps'; handler = m })

  -- `main`, for a logger with the given handler
  unfoldable pub main : ℕ → List Bool → Result Application
  unfolding new_factory register_provider register_system new_method_handler with_caller_function
      with_caller_rpc_meta get_profile_v1 me_v1 process_v1 json_validate types_of
  main h ups =
      new_factory (record { logger = some (logger (some h) []); logger_options = some 0 } ∷ [])
        (options_heap w.conversion)
      >>= λ made.
          register_provider true authentication_provider made.factory.providers >>= set_up ups
