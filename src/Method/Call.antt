-- ===== src/Method/Call.antt =====
-- `callMethod` and `CallMethod` of method.handler.go.
pub mod Isolation
pub mod Isolated
pub mod Outcomes
use jonson.Prelude.{
  ℕ, zero, suc, ◌+◌, String, Bool, true, false, ◌&&◌, Option, none, some, List, [], ◌∷◌, ◌++◌,
  length, ◌==◌, if◌then◌else◌,
}
use jonson.Text.{Text, codes}
use jonson.Types.{GoType, type_rpc_meta}
use jonson.Value.{Value, nil_value, reply, rpc_meta, internal, is_shareable}
use jonson.Errors.{
  Error, GoError, rpc, PanicValue, of_string, get_recover_error, err_method_not_found,
}
use jonson.Rpc.{RpcRequest, ParamsType, unmarshal_and_validate}
use jonson.Validate.{Result, ok, panicked}
use jonson.Method.{Argument, ApiEndpoint, endpoint_of}
use jonson.Context.{ValueItem, Context, new_context, Fallible, value, failure}
use jonson.Context.Prog
use jonson.Context.Prog.{
  MethodCall, Outcome, returned, blocked, out_of_fuel, Prog, done, panic, block, require, attempt,
  ◌>>=◌,
}
use jonson.Context.Run.{
  State, Exec, run, set_ctx, leave, with_ctx, store_each, Providers, require_type, depth,
}
use jonson.Context.Final.{finalize}

-- A pair of results `(nil, err)`.
abbrev pub fail_with : GoError → Prog
fail_with e = done (reply nil_value (some e))

-- The values of a call that are read in its own function with `recover`.
abbrev pub recovered : (Value → Prog) → Outcome → Prog
recovered k (returned v) = k v
recovered k (Outcome.panicked p) = fail_with (get_recover_error p)
recovered k blocked = block
recovered k out_of_fuel = block

-- The params branch: a panic of the validation is recovered, too.
abbrev pub with_params : Result (Fallible Value) → (Value → Prog) → Prog
with_params (ok (value v)) k = k v
with_params (ok (failure e)) k = fail_with e
with_params (panicked p) k = fail_with (get_recover_error p)

abbrev pub is_at : Option ℕ → ℕ → Bool
is_at none i = false
is_at (some j) i = i == j

-- One argument: the params at their position, and otherwise a value of the type.
abbrev pub collect_argument :
    (Text → Text) → RpcRequest → Option Text → Bool → Argument → (Value → Prog) → Prog
collect_argument encode r bindata false a k = attempt (require a.rt done) (recovered k)
collect_argument encode r bindata true a k = elim a.params [
  | none ↦ panic (of_string "unreachable: no params type")
  | some pt ↦ with_params (unmarshal_and_validate encode pt r bindata) k
]

-- The loop that walks through the arguments, and then the rest of the call.
unfoldable pub collect_arguments :
    (Text → Text)
    → RpcRequest
    → Option Text
    → Option ℕ
    → ℕ
    → List Argument
    → List Value
    → (List Value → Prog)
    → Prog
unfolding unmarshal_and_validate get_recover_error
collect_arguments encode r bindata pos i [] acc k = k acc
collect_arguments encode r bindata pos i (a ∷ args) acc k =
    collect_argument encode r bindata (is_at pos i) a
      (λ v. collect_arguments encode r bindata pos (suc i) args (acc ++ v ∷ []) k)

-- The results of a handler: `(any, error)`, or an error alone.
abbrev pub result_of : Value → Value
result_of (reply v none) = reply v none
result_of (reply v (some e)) = reply nil_value (some e)
result_of v = reply v none

abbrev pub call_endpoint : (Text → Text) → Option ApiEndpoint → RpcRequest → Option Text → Prog
call_endpoint encode none r bindata = fail_with (rpc err_method_not_found)
call_endpoint encode (some e) r bindata =
    collect_arguments encode r bindata e.params_pos 0 e.args []
      (λ vs. e.def.handler_func.code vs >>= λ v. done (result_of v))

-- `callMethod`
unfoldable pub call_prog :
    (Text → Text) → List (Text × ApiEndpoint) → RpcRequest → Option Text → Prog
unfolding collect_arguments endpoint_of ◌>>=◌
call_prog encode endpoints r bindata =
    call_endpoint encode (endpoint_of r.method endpoints) r bindata

-- The items that a method call inside the process takes over from its caller.
unfoldable pub shared : List ValueItem → List (GoType × Value)
unfolding is_shareable
shared [] = []
shared (i ∷ is) =
    let rest = shared is in if i.valid && is_shareable i.val then (i.rt, i.val) ∷ rest else rest

abbrev pub finish_reply : Option GoError → Value → Value
finish_reply (some e) v = reply nil_value (some e)
finish_reply none v = reply v none

-- The end of a call: the context is finalized unless the call panicked.
unfoldable pub finish : (Text → Text) → Exec → Exec
unfolding finalize
finish encode (returned (reply v err), s) =
    let f = finalize encode err s.ctx in
    (
      returned (finish_reply f.result v),
      record s { ctx = f.ctx; finalizations = s.finalizations ++ f.called },
    )
finish encode e = e

abbrev pub internal_request : MethodCall → Text → RpcRequest
internal_request m payload = record {
  version = codes "2.0";
  id = none;
  method = m.method;
  params = payload;
}

abbrev pub internal_meta : MethodCall → Value
internal_meta m =
    rpc_meta (record { method = m.method; http_method = m.http_method; source = internal })

module _ (stack : String) (providers : Providers) (encode : Text → Text)
    (endpoints : List (Text × ApiEndpoint)) where
  -- A program under a context, with the given way to call methods.
  abbrev pub execute_with : (MethodCall → State → Exec) → Prog → State → Exec
  execute_with call p s =
      run (require_type stack providers call (depth stack providers call)) call p s

  -- The call under the new context `c`.
  unfoldable pub run_child :
      (MethodCall → State → Exec) → Text → MethodCall → State → Context → Exec
  unfolding run require_type call_prog finish
  run_child call payload m s c = finish encode (
      execute_with call (call_prog encode endpoints (internal_request m payload) m.bindata)
        (set_ctx s c))

  -- `MethodHandler.CallMethod` on the context of the caller
  unfoldable pub call_with : (MethodCall → State → Exec) → Fallible Text → MethodCall → State → Exec
  unfolding run_child shared store_each new_context
  call_with call (failure e) m s = (returned (reply nil_value (some e)), s)
  call_with call (value payload) m s =
      with_ctx
        (store_each (shared s.ctx.values ++ (type_rpc_meta, internal_meta m) ∷ []) new_context) s
        (λ c. leave s.ctx (run_child call payload m s c))

  -- The fuel bounds how deep procedures call procedures.
  unfoldable pub call_method : ℕ → MethodCall → State → Exec
  unfolding call_with
  call_method zero m s = (out_of_fuel, s)
  call_method (suc fuel) m s = call_with (call_method fuel) m.payload m s

  -- A program under a context.
  unfoldable pub execute : ℕ → Prog → State → Exec
  unfolding call_method run require_type
  execute fuel p s = execute_with (call_method fuel) p s
