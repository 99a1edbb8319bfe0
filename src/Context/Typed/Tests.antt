-- ===== src/Context/Typed/Tests.antt =====
-- Typed programs of the small application.
use mathlib.Core.Path.{subst}
use mathlib.Core.Option.{some-injective}
use jonson.Prelude.{ℕ, Bool, true, none, some, List, [], ◌∷◌, ◌≡◌, refl}
use jonson.Text.{Text, codes}
use jonson.Types.{GoType, type_private, type_impersonated}
use jonson.Value.{Value, nil_value, reply, impersonated}
use jonson.Errors.{PanicValue, of_string}
use jonson.Context.{get_value, new_context}
use jonson.Context.Prog.{Outcome, returned, Prog, done}
use jonson.Context.Run.{Providers, run, require_type}
use jonson.Context.Run.Extends.{KeepsContext}
use jonson.Context.Typed.{is_of, IsTyped, TypedProviders}
use jonson.Context.Typed.Soundness.{run-IsTyped}
use jonson.Context.Typed.Ends.{Keeps, new_context-IsTyped}
use jonson.Context.Typed.Parts.{AnswersTyped, library_providers, library_providers-Typed, is_reply}
use jonson.Context.Typed.Accessors.{
  require_as, require_private, require_optional_impersonated, found_or_nil, accessors-require,
}
use jonson.Context.Typed.Impersonation.{impersonate-Typed}
use jonson.Context.Typed.Calls.{IsTypedEndpoint, call_prog-IsTyped}
use jonson.Method.{HandlerFunc, MethodDefinition, ApiEndpoint, bound, endpoint_of}
use jonson.Method.Call.{call_prog}
use jonson.Auth.{impersonate}
use jonson.Scenario.{
  type_session, providers, stranger, no_call, start, clear, ping_name, ping_request, error_result,
}

-- The values of the types of the application are not told apart.
abbrev any_value : ℕ → Value → Bool
any_value n v = true

abbrev conversion : GoType → Value → PanicValue
conversion t v = of_string "interface conversion"

abbrev app_providers : Providers
app_providers = library_providers stranger providers

stranger-AnswersTyped : AnswersTyped any_value stranger
stranger-AnswersTyped = record { authenticated = refl; authorized = refl }

providers-Typed : TypedProviders any_value providers
unfolding is_of
providers-Typed = (refl, ((λ v e. refl), tt))

app_providers-Typed : TypedProviders any_value app_providers
app_providers-Typed =
    library_providers-Typed any_value stranger providers stranger-AnswersTyped providers-Typed

keeps : KeepsContext no_call
keeps m s = refl

start-IsTyped : IsTyped any_value start.ctx
start-IsTyped = new_context-IsTyped any_value

abbrev as_bob : Prog
as_bob = impersonate stranger (codes "bob") (done (reply nil_value none))

run-IsTyped_example :
    Keeps any_value is_reply (run (require_type "" app_providers no_call 8) no_call as_bob start)
run-IsTyped_example =
    run-IsTyped any_value no_call keeps "" app_providers app_providers-Typed 8 is_reply as_bob start
      (impersonate-Typed any_value stranger (codes "bob") (done (reply nil_value none))
        stranger-AnswersTyped refl)
      start-IsTyped

accessors-require_example :
    ((t : GoType)
      → run
          (require_type "" app_providers no_call 8)
          no_call
          (require_as any_value conversion t)
          start
        ≡ require_type "" app_providers no_call 8 t start)
    × (run
          (require_type "" app_providers no_call 8)
          no_call
          (require_optional_impersonated any_value conversion)
          start
        ≡ (returned (found_or_nil (get_value type_impersonated start.ctx)), start))
accessors-require_example =
    accessors-require any_value conversion "" app_providers no_call 8 start keeps
      app_providers-Typed start-IsTyped

-- The procedure takes a session.
abbrev session_func : HandlerFunc
session_func = record {
  is_func = true;
  ins = [];
  outs = error_result ∷ [];
  code = λ vs. done (reply nil_value none);
}

abbrev session_method : MethodDefinition
session_method = record {
  system = codes "app";
  method = codes "ping";
  version = 1;
  handler_func = session_func;
  method_context = bound;
}

abbrev session_endpoint : ApiEndpoint
session_endpoint = record {
  def = session_method;
  args = record { rt = type_session; params = none } ∷ [];
  params_pos = none;
}

abbrev endpoints : List (Text × ApiEndpoint)
endpoints = (ping_name, session_endpoint) ∷ []

session_endpoint-IsTyped : IsTypedEndpoint any_value session_endpoint
session_endpoint-IsTyped = record {
  declared = ((λ pt e. absurd (cc e)), tt);
  handler = λ vs m. refl;
}

called-IsTyped :
    (e : ApiEndpoint) → endpoint_of ping_name endpoints ≡ some e → IsTypedEndpoint any_value e
unfolding endpoint_of
called-IsTyped e h =
    subst (IsTypedEndpoint any_value) (some-injective _ _ h) session_endpoint-IsTyped

call_prog-IsTyped_example : Keeps any_value is_reply (
    run
      (require_type "" app_providers no_call 8)
      no_call
      (call_prog clear endpoints ping_request none)
      start)
call_prog-IsTyped_example =
    call_prog-IsTyped any_value "" app_providers no_call 8 clear endpoints ping_request none start
      keeps app_providers-Typed called-IsTyped start-IsTyped

-- A value under another type: the assertion panics.
misplaced_run :
    (run
      (require_type "" ((type_private, done (impersonated [] [])) ∷ []) no_call 8)
      no_call
      (require_private any_value conversion)
      start).0
    ≡ Outcome.panicked (of_string "interface conversion")
unfolding run require_type require_as new_context
misplaced_run = refl
