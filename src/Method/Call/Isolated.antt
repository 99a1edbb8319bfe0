-- ===== src/Method/Call/Isolated.antt =====
-- `CallMethod` of method.handler.go: the context of the called method, its run and its end.
use jonson.Prelude.{
  ℕ, suc, String, true, Option, none, some, List, [], ◌∷◌, ◌++◌, ◌≡◌, ◌≢◌, refl, sym, ap, ◌∙◌, All,
  All-map,
}
use mathlib.Core.Path.{subst}
use jonson.Text.{Text, codes}
use jonson.Types.{GoType, type_context, type_rpc_meta}
use jonson.Value.{Value, nil_value, reply, is_shareable, private, this_context, rpc_meta, internal}
use jonson.Errors.{GoError}
use jonson.Context.{ValueItem, Context, new_context, value}
use jonson.Context.Crossing.{Crosses, no_item, Crosses-item}
use jonson.Context.Final.{finalize}
use jonson.Context.Prog.{MethodCall, Outcome, returned, blocked, out_of_fuel}
use jonson.Context.Run.{State, Exec, set_ctx, with_ctx, leave, Providers, require_type, depth}
use jonson.Context.Run.Unique.{IsWellFormed}
use jonson.Method.{ApiEndpoint}
use jonson.Method.Call.{
  shared, run_child, call_with, call_method, finish, finish_reply, execute, call_prog,
  internal_request,
}
use jonson.Method.Call.Isolation.{contents, KeepsOwnTypes, Stored-shared, is_shareable-shared}
use jonson.Method.Call.Outcomes.{DidNotReturn, Ends, IsReply, call_prog-Ends}

-- How a call ends, back in the context `c`, for the end of the run under its own context.
pub data Closes (encode : Text → Text) (c : Context) : Exec → Exec → Type 0 where
  replied :
      (v : Value) (err : Option GoError) (s : State)
      → (finalize encode err s.ctx).result ≡ none
      → Closes encode c
          (returned (reply v err), s)
          (
            returned (reply v none),
            record s {
              ctx = c;
              finalizations = s.finalizations ++ (finalize encode err s.ctx).called;
            },
          )
  failed :
      (v : Value) (err : Option GoError) (s : State) (e : GoError)
      → (finalize encode err s.ctx).result ≡ some e
      → Closes encode c
          (returned (reply v err), s)
          (
            returned (reply nil_value (some e)),
            record s {
              ctx = c;
              finalizations = s.finalizations ++ (finalize encode err s.ctx).called;
            },
          )
  stopped :
      (o : Outcome) (s : State) → DidNotReturn o → Closes encode c (o, s) (o, record s { ctx = c })

Closes-reply :
    (encode : Text → Text) (c : Context) (v : Value) (err : Option GoError) (s : State)
    (o : Option GoError)
    → (finalize encode err s.ctx).result ≡ o
    → Closes encode c
        (returned (reply v err), s)
        (
          returned (finish_reply o v),
          record s {
            ctx = c;
            finalizations = s.finalizations ++ (finalize encode err s.ctx).called;
          },
        )
Closes-reply encode c v err s none e = replied v err s e
Closes-reply encode c v err s (some x) e = failed v err s x e

Closes-finish :
    (encode : Text → Text) (c : Context) (e : Exec)
    → Ends IsReply e.0
    → Closes encode c e (leave c (finish encode e))
unfolding finish
Closes-finish encode c (returned v, s) ((w, err), p) =
    subst (λ x. Closes encode c (returned x, s) (leave c (finish encode (returned x, s)))) (sym p)
      (Closes-reply encode c w err s (finalize encode err s.ctx).result refl)
Closes-finish encode c (Outcome.panicked p, s) h = stopped (Outcome.panicked p) s tt
Closes-finish encode c (blocked, s) h = stopped blocked s tt
Closes-finish encode c (out_of_fuel, s) h = stopped out_of_fuel s tt

Crosses-shared : (is : List ValueItem) → Crosses is_shareable is (shared is)
unfolding shared
Crosses-shared [] = no_item
Crosses-shared (i ∷ is) =
    Crosses-item is_shareable i is (shared is) i.valid (is_shareable i.val) refl refl
      (Crosses-shared is)

not_private : (v : Value) → is_shareable v ≡ true → (uuid : Text) → v ≢ private uuid
unfolding is_shareable
not_private v h uuid e = absurd (cc (h, ap is_shareable e))

module _ (stack : String) (providers : Providers) (encode : Text → Text)
    (endpoints : List (Text × ApiEndpoint)) where
  -- The call of a method with the encoded params `payload` under a context of its own.
  pub record RunsIsolated (fuel : ℕ) (m : MethodCall) (payload : Text) (s : State) : Type 0 where
    pub child : Context
    pub crossing : List (GoType × Value)
    pub crosses : Crosses is_shareable s.ctx.values crossing
    pub no_private : All (λ e. (uuid : Text) → e.1 ≢ private uuid) crossing
    pub holds :
        contents child.values
        ≡ (type_context, this_context)
          ∷ (crossing
              ++ (
                type_rpc_meta,
                rpc_meta
                    (record { method = m.method; http_method = m.http_method; source = internal }),
              )
                ∷ [])
    pub runs :
        Closes encode s.ctx
          (execute stack providers encode endpoints fuel
            (call_prog encode endpoints
              (record { version = codes "2.0"; id = none; method = m.method; params = payload })
              m.bindata)
            (set_ctx s child))
          (call_method stack providers encode endpoints (suc fuel) m s)

  -- `CallMethod` with params that can be encoded, from a well-formed context whose shareable values
  -- stand under types of their own: the procedure runs, as an internal request without an id, under
  -- a new context that holds exactly itself, the caller's valid shareable values in the caller's
  -- order, among them no `Private`, and the call's metadata. If the run returns, the new context is
  -- finalized with the error of the run, and the call returns the error of the finalization, or else
  -- the result; otherwise it ends as the run does. The caller's context comes back as it was.
  pub call_method-RunsIsolated :
      (fuel : ℕ) (m : MethodCall) (payload : Text) (s : State)
      → m.payload ≡ value payload
      → IsWellFormed s.ctx
      → KeepsOwnTypes s.ctx.values
      → RunsIsolated fuel m payload s
  unfolding call_method call_with run_child execute new_context
  call_method-RunsIsolated fuel m payload s encoded w k =
      let own = Stored-shared s.ctx m w k in
      let call : MethodCall → State → Exec = call_method stack providers encode endpoints fuel in
      let bare : Context → Exec = λ c.
        execute stack providers encode endpoints fuel
          (call_prog encode endpoints (internal_request m payload) m.bindata) (set_ctx s c) in
      record {
        child = own.ctx;
        crossing = shared s.ctx.values;
        crosses = Crosses-shared s.ctx.values;
        no_private =
            All-map (λ e. is_shareable e.1 ≡ true) (λ e. (uuid : Text) → e.1 ≢ private uuid)
              (shared s.ctx.values) (λ e. not_private e.1) (is_shareable-shared s.ctx.values);
        holds = own.holds;
        runs =
            subst (Closes encode s.ctx (bare own.ctx))
              (sym (
                ap (λ p. call_with stack providers encode endpoints call p m s) encoded
                ∙ ap
                    (λ r. with_ctx r s (λ c.
                      leave s.ctx (run_child stack providers encode endpoints call payload m s c)))
                    own.stored))
              (Closes-finish encode s.ctx (bare own.ctx) (
                call_prog-Ends (require_type stack providers call (depth stack providers call)) call
                  encode endpoints (internal_request m payload) m.bindata (set_ctx s own.ctx)));
      }
