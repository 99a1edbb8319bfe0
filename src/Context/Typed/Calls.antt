-- ===== src/Context/Typed/Calls.antt =====
-- A call of a procedure (`callMethod` of method.handler.go) hands its handler values of the types
-- that the handler declares, as `reflect.Value.Call` wants them.
use mathlib.Core.Path.{subst}
use jonson.Prelude.{
  ℕ, suc, String, Bool, true, false, Option, none, some, List, [], ◌∷◌, ◌++◌, ◌≡◌, refl, sym, All,
  append_assoc, append-nil, Option-cases, inl, inr,
}
use jonson.Text.{Text}
use jonson.Types.{GoType}
use jonson.Value.{Value, params, reply}
use jonson.Errors.{Error, GoError, PanicValue}
use jonson.Validate.{Result, ok, panicked, ◌>>=◌, Script}
use jonson.Rpc.{
  RpcRequest, ParamsType, unmarshal_and_validate, read_params, check_params, of_verdict,
}
use jonson.Context.{Fallible, value, failure}
use jonson.Context.Prog.{MethodCall, Prog}
use jonson.Context.Run.{State, Exec, run, Providers, require_type}
use jonson.Context.Run.Extends.{KeepsContext}
use jonson.Context.Typed.{is_of, IsTyped, Typed, TypedProviders}
use jonson.Context.Typed.Parts.{bind-Typed, is_reply}
use jonson.Context.Typed.Soundness.{run-IsTyped}
use jonson.Context.Typed.Ends.{Keeps}
use jonson.Method.{Argument, ApiEndpoint, endpoint_of}
use jonson.Method.Call.{
  with_params, recovered, collect_argument, collect_arguments, is_at, result_of, call_endpoint,
  call_prog,
}

-- What reading the params gives: a struct read from the JSON of the request, an error, or a panic.
module _ (P : Result (Fallible Value) → Type 0) (raw : Text)
    (read : (b : Option Text) → P (ok (value (params raw b))))
    (failed : (e : GoError) → P (ok (failure e))) (panics : (p : PanicValue) → P (panicked p)) where
  validated :
      (b : Option Text) (r : Result (Option Error))
      → P (r >>= λ e. ok (of_verdict (params raw b) e))
  validated b (ok none) = read b
  validated b (ok (some e)) = failed _
  validated b (panicked p) = panics p

  check_params-cases :
      (encode : Text → Text) (b : Option Text) (o : Option (Value → Script))
      → P (check_params encode o (params raw b))
  check_params-cases encode b none = read b
  check_params-cases encode b (some validate) = validated b _

  read_params-cases :
      (encode : Text → Text) (pt : ParamsType) (bindata : Option Text) (o : Option GoError)
      → P (read_params encode pt raw bindata o)
  read_params-cases encode pt bindata none = check_params-cases encode _ pt.json_validate
  read_params-cases encode pt bindata (some e) = failed _

module _ (user : ℕ → Value → Bool) where
  -- The struct that is read for an argument is of the argument's type.
  abbrev pub IsDeclared : Argument → Type 0
  IsDeclared a =
      (pt : ParamsType)
      → a.params ≡ some pt
      → (raw : Text) (b : Option Text) → is_of user a.rt (params raw b) ≡ true

  -- A value of its type for every argument.
  abbrev pub Matches : List Argument → List Value → Type 0
  Matches [] [] = Unit
  Matches [] (v ∷ vs) = ⊥
  Matches (a ∷ args) [] = ⊥
  Matches (a ∷ args) (v ∷ vs) = (is_of user a.rt v ≡ true) × Matches args vs

  recovered-Typed :
      (t : GoType) (k : Value → Prog)
      → ((v : Value) → is_of user t v ≡ true → Typed user is_reply (k v))
      → Typed user is_reply (Prog.attempt (Prog.require t Prog.done) (recovered k))
  recovered-Typed t k h = (is_of user t, (λ v e. e), (h, λ p. refl))

  with_params-Typed :
      (encode : Text → Text) (pt : ParamsType) (r : RpcRequest) (bindata : Option Text) (t : GoType)
      (k : Value → Prog)
      → ((raw : Text) (b : Option Text) → is_of user t (params raw b) ≡ true)
      → ((v : Value) → is_of user t v ≡ true → Typed user is_reply (k v))
      → Typed user is_reply (with_params (unmarshal_and_validate encode pt r bindata) k)
  unfolding unmarshal_and_validate
  with_params-Typed encode pt r bindata t k d h =
      read_params-cases (λ x. Typed user is_reply (with_params x k)) r.params
        (λ b. h (params r.params b) (d r.params b)) (λ e. refl) (λ p. refl) encode pt bindata
        (pt.decode r.params)

  collect_argument-Typed :
      (encode : Text → Text) (r : RpcRequest) (bindata : Option Text) (b : Bool) (a : Argument)
      (k : Value → Prog)
      → IsDeclared a
      → ((v : Value) → is_of user a.rt v ≡ true → Typed user is_reply (k v))
      → Typed user is_reply (collect_argument encode r bindata b a k)
  collect_argument-Typed encode r bindata false a k d h = recovered-Typed a.rt k h
  collect_argument-Typed encode r bindata true a k d h = elim (Option-cases a.params) [
    | inl e ↦ rw e tt
    | inr (pt, e) ↦ rw e (with_params-Typed encode pt r bindata a.rt k (d pt e) h)
  ]

  pub collect_arguments-Typed :
      (encode : Text → Text) (r : RpcRequest) (bindata : Option Text) (pos : Option ℕ) (i : ℕ)
      (args : List Argument) (acc : List Value) (k : List Value → Prog)
      → All IsDeclared args
      → ((vs : List Value) → Matches args vs → Typed user is_reply (k (acc ++ vs)))
      → Typed user is_reply (collect_arguments encode r bindata pos i args acc k)
  unfolding collect_arguments
  collect_arguments-Typed encode r bindata pos i [] acc k d h =
      subst (λ vs. Typed user is_reply (k vs)) (append-nil acc) (h [] tt)
  collect_arguments-Typed encode r bindata pos i (a ∷ args) acc k d h =
      collect_argument-Typed encode r bindata (is_at pos i) a _ d.0 λ v e.
        collect_arguments-Typed encode r bindata pos (suc i) args (acc ++ v ∷ []) k d.1 λ vs m.
          subst (λ ws. Typed user is_reply (k ws)) (sym (append_assoc acc (v ∷ []) vs))
            (h (v ∷ vs) (e, m))

  -- A procedure whose handler is typed where it gets values of the types that it declares.
  pub record IsTypedEndpoint (e : ApiEndpoint) : Type 0 where
    pub declared : All IsDeclared e.args
    pub handler :
        (vs : List Value) → Matches e.args vs → Typed user (λ v. true) (e.def.handler_func.code vs)

  result_of-is_reply : (v : Value) → is_reply (result_of v) ≡ true
  result_of-is_reply (reply v none) = refl
  result_of-is_reply (reply v (some e)) = refl
  result_of-is_reply v = refl

  call_endpoint-Typed :
      (encode : Text → Text) (o : Option ApiEndpoint) (r : RpcRequest) (bindata : Option Text)
      → ((e : ApiEndpoint) → o ≡ some e → IsTypedEndpoint e)
      → Typed user is_reply (call_endpoint encode o r bindata)
  call_endpoint-Typed encode none r bindata h = refl
  call_endpoint-Typed encode (some e) r bindata h =
      let t = h e refl in
      collect_arguments-Typed encode r bindata e.params_pos 0 e.args [] _ t.declared λ vs m.
        bind-Typed user (λ v. true) is_reply (e.def.handler_func.code vs) _ (t.handler vs m)
          (λ v p. result_of-is_reply v)

  -- A call of a procedure that is typed where it gets values of the types that it declares gives it
  -- such values, whatever providers of the right types come in between: the call ends, if it
  -- returns, with a reply, and leaves a typed context.
  pub call_prog-IsTyped :
      (stack : String) (providers : Providers) (call : MethodCall → State → Exec) (fuel : ℕ)
      (encode : Text → Text) (endpoints : List (Text × ApiEndpoint)) (r : RpcRequest)
      (bindata : Option Text) (s : State)
      → KeepsContext call
      → TypedProviders user providers
      → ((e : ApiEndpoint) → endpoint_of r.method endpoints ≡ some e → IsTypedEndpoint e)
      → IsTyped user s.ctx
      → Keeps user is_reply (
          run
            (require_type stack providers call fuel)
            call
            (call_prog encode endpoints r bindata)
            s)
  unfolding call_prog
  call_prog-IsTyped stack providers call fuel encode endpoints r bindata s keeps typed h w =
      run-IsTyped user call keeps stack providers typed fuel is_reply _ s
        (call_endpoint-Typed encode (endpoint_of r.method endpoints) r bindata h) w
