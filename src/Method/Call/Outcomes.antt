-- ===== src/Method/Call/Outcomes.antt =====
-- How calls of method.handler.go end: every return is a pair of a result and an error, and a panic
-- while an argument is collected becomes the error.
use jonson.Prelude.{
  ℕ, suc, Bool, true, false, Option, none, some, List, [], ◌∷◌, ◌++◌, ◌≡◌, refl, Option-cases, inl,
  inr,
}
use jonson.Text.{Text}
use jonson.Types.{GoType}
use jonson.Value.{Value, nil_value, reply}
use jonson.Errors.{PanicValue, GoError, rpc, get_recover_error, err_method_not_found}
use jonson.Rpc.{RpcRequest, unmarshal_and_validate}
use jonson.Validate.{Result, ok, panicked}
use jonson.Method.{Argument, ApiEndpoint, endpoint_of}
use jonson.Method.Call.{
  collect_arguments, collect_argument, call_prog, call_endpoint, is_at, recovered, with_params,
  result_of,
}
use jonson.Context.{Context, Fallible, value, failure}
use jonson.Context.Prog.{
  MethodCall, Outcome, returned, blocked, out_of_fuel, Prog, done, panic, block, require, attempt,
  items, in_fork, new_public, load_public, save_public, call_method, ◌>>=◌,
}
use jonson.Context.Run.{State, Exec, after, settle, leave, with_ctx, run}

-- Every value that a program returns satisfies `P`.
unfoldable Returns : (Value → Type 0) → Prog → Type 0
Returns P (done v) = P v
Returns P (panic p) = Unit
Returns P block = Unit
Returns P (require t k) = (v : Value) → Returns P (k v)
Returns P (Prog.get_value t k) = (v : Fallible Value) → Returns P (k v)
Returns P (Prog.store_value t v p) = Returns P p
Returns P (Prog.invalidate ts p) = Returns P p
Returns P (attempt p h) = (o : Outcome) → Returns P (h o)
Returns P (items k) = (is : _) → Returns P (k is)
Returns P (in_fork vs p k) = (v : Value) → Returns P (k v)
Returns P (new_public u k) = (a : ℕ) → Returns P (k a)
Returns P (load_public a k) = (u : _) → Returns P (k u)
Returns P (save_public a u p) = Returns P p
Returns P (call_method m k) = (v : Value) → Returns P (k v)

abbrev pub DidNotReturn : Outcome → Type 0
DidNotReturn (returned v) = ⊥
DidNotReturn o = Unit

abbrev pub Ends : (Value → Type 0) → Outcome → Type 0
Ends P (returned v) = P v
Ends P o = Unit

module _ (P : Value → Type 0) where
  Returns->>= :
      (p : Prog) (f : Value → Prog) → ((v : Value) → Returns P (f v)) → Returns P (p >>= f)
  unfolding Returns ◌>>=◌
  Returns->>= (done v) f h = h v
  Returns->>= (panic p) f h = tt
  Returns->>= block f h = tt
  Returns->>= (require t k) f h = λ v. Returns->>= (k v) f h
  Returns->>= (Prog.get_value t k) f h = λ v. Returns->>= (k v) f h
  Returns->>= (Prog.store_value t v p) f h = Returns->>= p f h
  Returns->>= (Prog.invalidate ts p) f h = Returns->>= p f h
  Returns->>= (attempt p k) f h = λ o. Returns->>= (k o) f h
  Returns->>= (items k) f h = λ is. Returns->>= (k is) f h
  Returns->>= (in_fork vs p k) f h = λ v. Returns->>= (k v) f h
  Returns->>= (new_public u k) f h = λ a. Returns->>= (k a) f h
  Returns->>= (load_public a k) f h = λ u. Returns->>= (k u) f h
  Returns->>= (save_public a u p) f h = Returns->>= p f h
  Returns->>= (call_method m k) f h = λ v. Returns->>= (k v) f h

  after-Ends :
      (e : Exec) (f : Value → State → Exec)
      → ((v : Value) (s : State) → Ends P (f v s).0)
      → Ends P (after e f).0
  after-Ends (returned v, s) f h = h v s
  after-Ends (Outcome.panicked p, s) f h = tt
  after-Ends (blocked, s) f h = tt
  after-Ends (out_of_fuel, s) f h = tt

  settle-Ends :
      (e : Exec) (f : Outcome → State → Exec)
      → ((o : Outcome) (s : State) → Ends P (f o s).0)
      → Ends P (settle e f).0
  settle-Ends (returned v, s) f h = h (returned v) s
  settle-Ends (Outcome.panicked p, s) f h = h (Outcome.panicked p) s
  settle-Ends (blocked, s) f h = tt
  settle-Ends (out_of_fuel, s) f h = tt

  pub with_ctx-Ends :
      (r : Result Context) (s : State) (f : Context → Exec)
      → ((c : Context) → Ends P (f c).0)
      → Ends P (with_ctx r s f).0
  with_ctx-Ends (ok c) s f h = h c
  with_ctx-Ends (panicked p) s f h = tt

  module _ (req : GoType → State → Exec) (call : MethodCall → State → Exec) where
    run-Ends : (p : Prog) (s : State) → Returns P p → Ends P (run req call p s).0
    unfolding run Returns
    run-Ends (done v) s h = h
    run-Ends (panic p) s h = tt
    run-Ends block s h = tt
    run-Ends (require t k) s h =
        after-Ends (req t s) (λ v s'. run req call (k v) s') (λ v s'. run-Ends (k v) s' (h v))
    run-Ends (Prog.get_value t k) s h = run-Ends (k _) s (h _)
    run-Ends (Prog.store_value t v p) s h =
        with_ctx-Ends _ s (λ c. run req call p (record s { ctx = c }))
          (λ c. run-Ends p (record s { ctx = c }) h)
    run-Ends (Prog.invalidate ts p) s h = run-Ends p _ h
    run-Ends (attempt p k) s h =
        settle-Ends (run req call p s) (λ o s'. run req call (k o) s')
          (λ o s'. run-Ends (k o) s' (h o))
    run-Ends (items k) s h = run-Ends (k _) s (h _)
    run-Ends (in_fork vs p k) s h =
        with_ctx-Ends _ s
          (λ c.
            after (leave s.ctx (run req call p (record s { ctx = c })))
              (λ v s'. run req call (k v) s'))
          (λ c.
            after-Ends (leave s.ctx (run req call p (record s { ctx = c })))
              (λ v s'. run req call (k v) s') (λ v s'. run-Ends (k v) s' (h v)))
    run-Ends (new_public u k) s h = run-Ends (k _) _ (h _)
    run-Ends (load_public a k) s h = run-Ends (k _) s (h _)
    run-Ends (save_public a u p) s h = run-Ends p _ h
    run-Ends (call_method m k) s h =
        after-Ends (call m s) (λ v s'. run req call (k v) s') (λ v s'. run-Ends (k v) s' (h v))

abbrev pub IsReply : Value → Type 0
IsReply v = (r : Value × Option GoError) × (v ≡ reply r.0 r.1)

IsReply-result_of : (v : Value) → IsReply (result_of v)
IsReply-result_of (reply v none) = ((v, none), refl)
IsReply-result_of (reply v (some e)) = ((nil_value, some e), refl)
IsReply-result_of v = ((v, none), refl)

Returns-recovered :
    (k : Value → Prog) (o : Outcome)
    → ((v : Value) → Returns IsReply (k v))
    → Returns IsReply (recovered k o)
unfolding Returns
Returns-recovered k (returned v) h = h v
Returns-recovered k (Outcome.panicked p) h = ((nil_value, some (get_recover_error p)), refl)
Returns-recovered k blocked h = tt
Returns-recovered k out_of_fuel h = tt

Returns-with_params :
    (r : Result (Fallible Value)) (k : Value → Prog)
    → ((v : Value) → Returns IsReply (k v))
    → Returns IsReply (with_params r k)
unfolding Returns
Returns-with_params (ok (value v)) k h = h v
Returns-with_params (ok (failure e)) k h = ((nil_value, some e), refl)
Returns-with_params (panicked p) k h = ((nil_value, some (get_recover_error p)), refl)

Returns-collect_argument :
    (encode : Text → Text) (r : RpcRequest) (bindata : Option Text) (b : Bool) (a : Argument)
    (k : Value → Prog)
    → ((v : Value) → Returns IsReply (k v))
    → Returns IsReply (collect_argument encode r bindata b a k)
unfolding Returns
Returns-collect_argument encode r bindata false a k h = λ o. Returns-recovered k o h
Returns-collect_argument encode r bindata true a k h = elim (Option-cases a.params) [
  | inl e ↦ rw e tt
  | inr e ↦ rw e.1 (Returns-with_params (unmarshal_and_validate encode e.0 r bindata) k h)
]

Returns-collect_arguments :
    (encode : Text → Text) (r : RpcRequest) (bindata : Option Text) (pos : Option ℕ) (i : ℕ)
    (args : List Argument) (acc : List Value) (k : List Value → Prog)
    → ((vs : List Value) → Returns IsReply (k vs))
    → Returns IsReply (collect_arguments encode r bindata pos i args acc k)
unfolding collect_arguments
Returns-collect_arguments encode r bindata pos i [] acc k h = h acc
Returns-collect_arguments encode r bindata pos i (a ∷ args) acc k h =
    Returns-collect_argument encode r bindata (is_at pos i) a
      (λ v. collect_arguments encode r bindata pos (suc i) args (acc ++ v ∷ []) k)
      (λ v. Returns-collect_arguments encode r bindata pos (suc i) args (acc ++ v ∷ []) k h)

Returns-call_endpoint :
    (encode : Text → Text) (e : Option ApiEndpoint) (r : RpcRequest) (bindata : Option Text)
    → Returns IsReply (call_endpoint encode e r bindata)
unfolding Returns
Returns-call_endpoint encode none r bindata = ((nil_value, some (rpc err_method_not_found)), refl)
Returns-call_endpoint encode (some e) r bindata =
    Returns-collect_arguments encode r bindata e.params_pos 0 e.args [] _ (λ vs.
      Returns->>= IsReply (e.def.handler_func.code vs) (λ v. done (result_of v)) IsReply-result_of)

-- Whatever providers and procedures do: a call of a method that returns, returns a pair of a
-- result and an error.
pub call_prog-Ends :
    (req : GoType → State → Exec) (call : MethodCall → State → Exec) (encode : Text → Text)
    (endpoints : List (Text × ApiEndpoint)) (r : RpcRequest) (bindata : Option Text) (s : State)
    → Ends IsReply (run req call (call_prog encode endpoints r bindata) s).0
unfolding call_prog
call_prog-Ends req call encode endpoints r bindata s =
    run-Ends IsReply req call (call_prog encode endpoints r bindata) s
      (Returns-call_endpoint encode (endpoint_of r.method endpoints) r bindata)

-- A panic of the provider of an argument does not leave the call: it returns the error that the
-- panic carries, in the state that the provider left, whatever arguments and handler would follow.
pub collect_arguments-recovers :
    (req : GoType → State → Exec) (call : MethodCall → State → Exec) (encode : Text → Text)
    (r : RpcRequest) (bindata : Option Text) (pos : Option ℕ) (i : ℕ) (a : Argument)
    (args : List Argument) (acc : List Value) (k : List Value → Prog) (s s' : State)
    (p : PanicValue)
    → is_at pos i ≡ false
    → req a.rt s ≡ (Outcome.panicked p, s')
    → run req call (collect_arguments encode r bindata pos i (a ∷ args) acc k) s
      ≡ (returned (reply nil_value (some (get_recover_error p))), s')
unfolding collect_arguments run
collect_arguments-recovers req call encode r bindata pos i a args acc k s s' p h e = rw (h, e) refl
