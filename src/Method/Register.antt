-- ===== src/Method/Register.antt =====
-- `RegisterMethod` and `RegisterSystem` of method.handler.go.
pub mod Laws
use Prim.Native.String
use jonson.Prelude.{
  ℕ, suc, ◌+◌, String, Bool, true, false, ◌&&◌, ◌||◌, not, Option, none, some, List, [], ◌∷◌, ◌++◌,
  length, any, ltb, ◌==◌, if◌then◌else◌,
}
use jonson.Text.{Text, codes, text_eq}
use jonson.Types.{
  GoType, Kind, ptr_to_struct, interface, same, type_context, type_http_request,
  type_http_response_writer, type_ws_client, type_secret,
}
use jonson.Errors.{PanicValue, of_error, of_string, plain}
use jonson.Rpc.{ParamsType}
use jonson.Validate.{Result, ok, panicked, ◌>>=◌, Script}
use jonson.Value.{Value}
use jonson.Names.{is_valid_identifier, get_default_method_name, split_method_name, to_kebab_case}
use jonson.Method.{
  MissingValidationLevel, ignore, info, warn, error, fatal, other, Argument, ResultType,
  HandlerFunc, MethodContext, zero_value, nil_pointer, bound, MethodDefinition, ApiEndpoint,
  MethodHandler, endpoint_of,
}

-- A panic with `errors.New`. Where the code puts the names of the procedure and of a type into the
-- text, the model leaves them out.
abbrev pub fails : String → PanicValue
fails s = of_error (plain s)

abbrev pub no_params_validation : PanicValue
no_params_validation =
    of_string "param does not implement 'JonsonValidate(v *jonson.Validator)' method"

-- `reflect.Value.IsNil` panics on the zero value.
unfoldable pub is_nil : MethodContext → Result Bool
is_nil zero_value = panicked (fails "reflect: call of reflect.Value.IsNil on zero Value")
is_nil nil_pointer = ok true
is_nil bound = ok false

abbrev drop_receiver : Bool → List Argument → List Argument
drop_receiver true args = args
drop_receiver false [] = []
drop_receiver false (_ ∷ args) = args

-- `isTypeSupported`
abbrev pub is_type_supported : List GoType → GoType → Bool
is_type_supported list rt = any (λ t. same t rt) list

-- the types that a method handler supports without a provider
abbrev pub implicit_types : List GoType
implicit_types =
    type_context ∷ type_http_request ∷ type_http_response_writer ∷ type_ws_client ∷ type_secret ∷ []

abbrev pub is_ptr_to_struct : Kind → Bool
is_ptr_to_struct ptr_to_struct = true
is_ptr_to_struct _ = false

-- The variables of the loop over the arguments.
pub record Scan : Type 0 where
  pub seen : List GoType
  pub params_pos : Option ℕ
  pub logged : List (MissingValidationLevel × Text)

-- the `switch` on the level for params without `JonsonValidate`
unfoldable pub report_missing : MissingValidationLevel → Text → Scan → Result Scan
report_missing ignore name s = ok s
report_missing info name s = ok (record s { logged = s.logged ++ (info, name) ∷ [] })
report_missing warn name s = ok (record s { logged = s.logged ++ (warn, name) ∷ [] })
report_missing error name s = ok (record s { logged = s.logged ++ (error, name) ∷ [] })
report_missing fatal name s = panicked no_params_validation
report_missing (other l) name s = panicked no_params_validation

abbrev check_validated :
    Option (Value → Script) → MissingValidationLevel → Text → Scan → Result Scan
check_validated (some validate) l name s = ok s
check_validated none l name s = report_missing l name s

abbrev pub is_some {ℓ} : {A : Type ℓ} → Option A → Bool
is_some none = false
is_some (some a) = true

-- The params branch of the loop's body, at position `i`.
unfoldable pub scan_params :
    MissingValidationLevel → Text → ℕ → Argument → Option ParamsType → Scan → Result Scan
unfolding report_missing
scan_params l name i a none s = panicked (fails "method handler: requires unknown type")
scan_params l name i a (some pt) s =
    if is_some s.params_pos
    then panicked (fails "method handler: has additional param instance")
    else if not (is_ptr_to_struct a.rt.kind)
    then panicked (fails "method handler: has non ptr-to-struct param instance")
    else (check_validated pt.json_validate l name s >>= λ s'.
        ok (record s' { params_pos = some i }))

-- One round of the loop over the arguments.
unfoldable pub scan_argument :
    List GoType → MissingValidationLevel → Text → ℕ → Argument → Scan → Result Scan
unfolding scan_params
scan_argument supported l name i a s =
    if is_type_supported s.seen a.rt
    then panicked (fails "method handler: has multiple instances")
    else if is_type_supported supported a.rt
    then ok (record s { seen = a.rt ∷ s.seen })
    else scan_params l name i a a.params s

unfoldable pub scan_arguments :
    List GoType → MissingValidationLevel → Text → ℕ → List Argument → Scan → Result Scan
unfolding scan_argument
scan_arguments supported l name i [] s = ok s
scan_arguments supported l name i (a ∷ rest) s =
    scan_argument supported l name i a s >>= scan_arguments supported l name (suc i) rest

abbrev is_interface : Kind → Bool
is_interface interface = true
is_interface _ = false

abbrev pub is_error_type : ResultType → Bool
is_error_type r = is_interface r.kind && text_eq r.name (codes "error") && text_eq r.pkg_path []

-- The checks of the results: one or two, the last of type `error`.
unfoldable pub check_results : List ResultType → Result (Unit {0})
unfolding text_eq
check_results (r ∷ []) =
    if is_error_type r
    then ok tt
    else panicked (fails "method handler: must return error interface as last argument")
check_results (v ∷ r ∷ []) =
    if is_error_type r
    then ok tt
    else panicked (fails "method handler: must return error interface as last argument")
check_results _ = panicked (fails "method handler: may only return one or two arguments")

abbrev pub name_of : MethodDefinition → Text
name_of d = get_default_method_name d.system d.method d.version

-- The checks up to the kind of the handler function.
unfoldable pub check_definition : MethodDefinition → MethodHandler → Result (Unit {0})
unfolding is_valid_identifier endpoint_of get_default_method_name
check_definition d m =
    if not (is_valid_identifier d.system)
    then panicked (fails "method handler: invalid system")
    else if not (is_valid_identifier d.method)
    then panicked (fails "method handler: invalid method")
    else if is_some (endpoint_of (name_of d) m.endpoints)
    then panicked (fails "method handler: endpoint already registered")
    else if d.handler_func.is_func
    then ok tt
    else panicked (fails "method handler: handler function must be a method")

abbrev pub endpoint_for : MethodDefinition → Bool → Scan → ApiEndpoint
endpoint_for d unbound s = record {
  def = d;
  args = drop_receiver unbound d.handler_func.ins;
  params_pos = s.params_pos;
}

abbrev pub add_endpoint :
    MethodDefinition → MethodHandler → Bool → Scan → Unit {0} → Result MethodHandler
add_endpoint d m unbound s u = ok (record m {
  endpoints = (name_of d, endpoint_for d unbound s) ∷ m.endpoints;
  logged = s.logged;
})

abbrev pub register_scanned : MethodDefinition → MethodHandler → Bool → Scan → Result MethodHandler
register_scanned d m unbound s = check_results d.handler_func.outs >>= add_endpoint d m unbound s

abbrev pub register_bound :
    List GoType → MethodDefinition → MethodHandler → Bool → Result MethodHandler
register_bound types d m unbound =
    scan_arguments (types ++ implicit_types) m.level (name_of d) 0
      (drop_receiver unbound d.handler_func.ins)
      (record { seen = []; params_pos = none; logged = m.logged })
    >>= register_scanned d m unbound

abbrev pub register_checked :
    List GoType → MethodDefinition → MethodHandler → Unit {0} → Result MethodHandler
register_checked types d m u = is_nil d.method_context >>= register_bound types d m

-- `RegisterMethod`; `types` is `factory.Types()`.
unfoldable pub register_method :
    List GoType → MethodDefinition → MethodHandler → Result MethodHandler
unfolding is_nil scan_arguments check_results check_definition
register_method types d m = check_definition d m >>= register_checked types d m

-- A method of a system: its Go name and its function.
abbrev pub Method : Type 0
Method = Text × HandlerFunc

-- The loop of `RegisterSystem` over the methods of a system with the given struct name.
unfoldable pub register_methods :
    List GoType → Text → List Method → MethodHandler → Result MethodHandler
unfolding register_method split_method_name
register_methods types system [] m = ok m
register_methods types system ((name, f) ∷ fs) m =
    let (method, version) = split_method_name name in
    let registered =
      register_method types
        (record {
          system = system;
          method = method;
          version = version;
          handler_func = f;
          method_context = bound;
        })
        m in
    (if ltb 0 version then registered else ok m) >>= register_methods types system fs

-- `RegisterSystem`; the system is kept before its type is checked.
unfoldable pub register_system :
    List GoType → GoType → Text → List Method → MethodHandler → Result MethodHandler
unfolding register_methods to_kebab_case
register_system types rt struct_name fs m =
    let kept = record m { systems = rt ∷ m.systems } in
    if is_ptr_to_struct rt.kind
    then register_methods types (to_kebab_case struct_name) fs kept
    else panicked (fails "registerSystem: expected ptr to struct")

-- `GetSystem`: whether it returns a system.
unfoldable pub get_system : GoType → MethodHandler → Result (Unit {0})
get_system rt m =
    if is_type_supported m.systems rt
    then ok tt
    else panicked (fails "getSystem: system does not exist")
