-- ===== src/Context/Typed/Accessors.antt =====
-- The functions with which code reads a context: `RequirePrivate`, `RequirePublic`,
-- `RequireImpersonator`, `RequireImpersonated`, `RequireOptionalImpersonated` (auth.go,
-- impersonate.go), `RequireHttpRequest`, `RequireHttpResponseWriter` (http.handler.go),
-- `RequireWSClient` (ws.handler.go), `RequireSecret` (secret.go), `RequireRpcMeta` (rpc.go), `RequireGraceful` (graceful.go), and what
-- they are read for. Each asserts the type of the value that it gets.
use jonson.Prelude.{ℕ, String, Bool, true, List, ◌≡◌, refl, if◌then◌else◌}
use jonson.Text.{Text}
use jonson.Types.{
  GoType, type_http_request, type_http_response_writer, type_ws_client, type_secret, type_rpc_meta,
  type_graceful, type_private, type_public, type_impersonator, type_impersonated,
}
use jonson.Value.{Value, nil_value, private, impersonated}
use jonson.Errors.{PanicValue, nil_dereference}
use jonson.Validate.{Result, ok, panicked}
use jonson.Context.{Fallible, value, failure, get_value}
use jonson.Context.Prog.{
  MethodCall, Outcome, returned, blocked, out_of_fuel, Prog, done, panic, require,
}
use jonson.Context.Run.{State, Exec, after, run, Providers, require_type}
use jonson.Context.Run.Extends.{KeepsContext}
use jonson.Context.Typed.{is_of, IsTyped, TypedProviders}
use jonson.Context.Typed.Items.{get_value-cases}
use jonson.Context.Typed.Soundness.{require_type-Keeps}
use jonson.Context.Typed.Ends.{Keeps}

-- `Private.AccountUuid` and `Impersonated.AccountUuid`; a nil pointer has no fields.
unfoldable pub account_uuid_of : Value → Result Text
account_uuid_of (private uuid) = ok uuid
account_uuid_of (impersonated uuid uuids) = ok uuid
account_uuid_of _ = panicked nil_dereference

-- `Impersonated.TracedAccountUuids`; the copy that it returns has the same elements.
unfoldable pub traced_account_uuids : Value → Result (List Text)
traced_account_uuids (impersonated uuid uuids) = ok uuids
traced_account_uuids _ = panicked nil_dereference

-- A value that was found, or nil.
abbrev pub found_or_nil : Fallible Value → Value
found_or_nil (value v) = v
found_or_nil (failure e) = nil_value

-- `conversion` is the panic of Go's runtime for a value that is not of the asserted type.
module _ (user : ℕ → Value → Bool) (conversion : GoType → Value → PanicValue) where
  -- `v.(T)`
  abbrev pub assert : GoType → Value → Prog
  assert t v = if is_of user t v then done v else panic (conversion t v)

  -- `if v := ...; v != nil { return v.(T) }` and `return nil`
  abbrev pub assert_unless_nil : GoType → Value → Prog
  assert_unless_nil t nil_value = done nil_value
  assert_unless_nil t v = assert t v

  unfoldable pub require_as : GoType → Prog
  unfolding is_of
  require_as t = require t (assert_unless_nil t)

  abbrev pub require_private : Prog
  require_private = require_as type_private

  abbrev pub require_public : Prog
  require_public = require_as type_public

  abbrev pub require_impersonator : Prog
  require_impersonator = require_as type_impersonator

  abbrev pub require_impersonated : Prog
  require_impersonated = require_as type_impersonated

  abbrev pub require_http_request : Prog
  require_http_request = require_as type_http_request

  abbrev pub require_http_response_writer : Prog
  require_http_response_writer = require_as type_http_response_writer

  abbrev pub require_ws_client : Prog
  require_ws_client = require_as type_ws_client

  abbrev pub require_secret : Prog
  require_secret = require_as type_secret

  abbrev pub require_graceful : Prog
  require_graceful = require_as type_graceful

  -- The code returns a pointer to a copy of the value.
  abbrev pub require_rpc_meta : Prog
  require_rpc_meta = require_as type_rpc_meta

  -- The error of `GetValue` is dropped; the value is nil then.
  abbrev pub or_nil : Fallible Value → Prog
  or_nil (value v) = assert_unless_nil type_impersonated v
  or_nil (failure e) = done nil_value

  unfoldable pub require_optional_impersonated : Prog
  unfolding is_of
  require_optional_impersonated = Prog.get_value type_impersonated or_nil

  assert_unless_nil-run :
      (reqs : GoType → State → Exec) (call : MethodCall → State → Exec) (t : GoType) (v : Value)
      (s : State)
      → is_of user t v ≡ true
      → run reqs call (assert_unless_nil t v) s ≡ (returned v, s)
  unfolding run
  assert_unless_nil-run reqs call t nil_value s h = refl
  assert_unless_nil-run reqs call t v s h = rw h

  -- A value that `Require` returned.
  asserted :
      (reqs : GoType → State → Exec) (call : MethodCall → State → Exec) (t : GoType) (e : Exec)
      → Keeps user (is_of user t) e
      → after e (λ v s. run reqs call (assert_unless_nil t v) s) ≡ e
  asserted reqs call t (returned v, s) g = assert_unless_nil-run reqs call t v s g.1
  asserted reqs call t (Outcome.panicked p, s) g = refl
  asserted reqs call t (blocked, s) g = refl
  asserted reqs call t (out_of_fuel, s) g = refl

  module _ (stack : String) (providers : Providers) (call : MethodCall → State → Exec)
      (fuel : ℕ) where
    -- Under a typed context whose providers return values of the types that they provide, no type
    -- assertion of an accessor panics: each does what `Require` does, and the optional one returns
    -- the value of `GetValue`, or nil, and changes nothing.
    pub accessors-require :
        (s : State)
        → KeepsContext call
        → TypedProviders user providers
        → IsTyped user s.ctx
        → ((t : GoType)
            → run (require_type stack providers call fuel) call (require_as t) s
              ≡ require_type stack providers call fuel t s)
          × (run (require_type stack providers call fuel) call require_optional_impersonated s
              ≡ (returned (found_or_nil (get_value type_impersonated s.ctx)), s))
    unfolding run require_as require_optional_impersonated
    accessors-require s keeps typed w = (
      (λ t.
          asserted (require_type stack providers call fuel) call t
            (require_type stack providers call fuel t s)
            (require_type-Keeps user call keeps stack providers typed fuel t s w)),
      get_value-cases user
          (λ r.
            run (require_type stack providers call fuel) call (or_nil r) s
            ≡ (returned (found_or_nil r), s))
          type_impersonated s.ctx w.items
          (
            (λ v e.
                assert_unless_nil-run (require_type stack providers call fuel) call
                  type_impersonated v s e),
            (λ e. refl),
          ),
    )
