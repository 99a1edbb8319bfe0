-- ===== src/Http/Guards.antt =====
-- The providers of http.method.go, which procedures use to insist on an HTTP method.
use jonson.Prelude.{not, ◌&&◌, ◌≡◌, ap, ◌∙◌, Bool-cases, inl, inr, if◌then◌else◌}
use jonson.Text.{Text, text_eq, codes}
use jonson.Types.{GoType, type_rpc_meta, type_http_request}
use jonson.Value.{Value, RpcMeta, Request, rpc_meta, http_request, http_post, http_get}
use jonson.Errors.{rpc, of_error, err_server_method_not_allowed}
use jonson.Context.Prog.{MethodCall, Outcome, returned}
use jonson.Context.Run.{State, Exec, after, run}
use jonson.Http.{new_http_post, new_http_get, is_http, check_source, check_method}

check_method-run :
    (reqs : GoType → State → Exec) (call : MethodCall → State → Exec) (wanted : Text) (v : Value)
    (r : Request) (s : State)
    → run reqs call (check_method wanted v (http_request r)) s ≡ (
      (if not (text_eq r.method wanted)
          then Outcome.panicked (of_error (rpc err_server_method_not_allowed))
          else returned v),
      s,
    )
unfolding run
check_method-run reqs call wanted v r s = elim (Bool-cases (text_eq r.method wanted)) [
  | inl w ↦ rw w
  | inr w ↦ rw w
]

check_source-run :
    (reqs : GoType → State → Exec) (call : MethodCall → State → Exec) (wanted : Text) (v : Value)
    (m : RpcMeta) (r : Request) (s : State)
    → reqs type_http_request s ≡ (returned (http_request r), s)
    → run reqs call (check_source wanted v (rpc_meta m)) s ≡ (
      (if is_http m.source && not (text_eq r.method wanted)
          then Outcome.panicked (of_error (rpc err_server_method_not_allowed))
          else returned v),
      s,
    )
unfolding run
check_source-run reqs call wanted v m r s h = elim (Bool-cases (is_http m.source)) [
  | inl e ↦ rw e (
      ap (λ x. after x (λ v' s'. run reqs call (check_method wanted v v') s')) h
      ∙ check_method-run reqs call wanted v r s)
  | inr e ↦ rw e
]

-- Under a context that holds the metadata of the call and the HTTP request, `HttpPost` and
-- `HttpGet` are provided unless the call came over an HTTP endpoint of its own with a method other
-- than POST and GET respectively: then the provider panics with "method not allowed".
pub http_method-run :
    (reqs : GoType → State → Exec) (call : MethodCall → State → Exec) (m : RpcMeta) (r : Request)
    (s : State)
    → reqs type_rpc_meta s ≡ (returned (rpc_meta m), s)
    → reqs type_http_request s ≡ (returned (http_request r), s)
    → (run reqs call new_http_post s ≡ (
      (if is_http m.source && not (text_eq r.method (codes "POST"))
          then Outcome.panicked (of_error (rpc err_server_method_not_allowed))
          else returned http_post),
      s,
    ))
      × (run reqs call new_http_get s ≡ (
        (if is_http m.source && not (text_eq r.method (codes "GET"))
            then Outcome.panicked (of_error (rpc err_server_method_not_allowed))
            else returned http_get),
        s,
      ))
unfolding run new_http_post new_http_get
http_method-run reqs call m r s meta h = (
  ap (λ x. after x (λ v s'. run reqs call (check_source (codes "POST") http_post v) s')) meta
      ∙ check_source-run reqs call (codes "POST") http_post m r s h,
  ap (λ x. after x (λ v s'. run reqs call (check_source (codes "GET") http_get v) s')) meta
      ∙ check_source-run reqs call (codes "GET") http_get m r s h,
)
