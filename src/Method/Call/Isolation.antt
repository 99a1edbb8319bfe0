-- ===== src/Method/Call/Isolation.antt =====
-- The context of a method call inside the process (`CallMethod` of method.handler.go).
use jonson.Prelude.{
  ℕ, zero, suc, String, true, false, ◌&&◌, List, [], ◌∷◌, ◌++◌, ◌≡◌, refl, sym, ◌∙◌, arith, All,
  All-append, All-map, All-zip, append-nil, append_assoc, Bool-cases, inl, inr,
}
use jonson.Text.{Text}
use jonson.Types.{GoType, same, type_context, type_rpc_meta}
use jonson.Value.{Value, is_shareable}
use jonson.Validate.{Result, ok, panicked}
use jonson.Context.{
  ValueItem, Context, has, push, store_value, new_context, Fallible, value, failure,
}
use jonson.Context.Items.{has-append}
use jonson.Context.Prog.{MethodCall}
use jonson.Context.Run.{State, Exec, with_ctx, leave, store_each, Providers, ready}
use jonson.Context.Run.Extends.{KeepsContext}
use jonson.Context.Run.Unique.{Unique, IsWellFormed}
use jonson.Method.{ApiEndpoint}
use jonson.Method.Call.{shared, run_child, call_with, call_method, internal_meta}

with_ctx-keeps :
    (r : Result Context) (s : State) (f : Context → Exec)
    → (with_ctx r s (λ c. leave s.ctx (f c))).1.ctx ≡ s.ctx
with_ctx-keeps (ok c) s f = refl
with_ctx-keeps (panicked p) s f = refl

module _ (stack : String) (providers : Providers) (encode : Text → Text)
    (endpoints : List (Text × ApiEndpoint)) where
  call_with-keeps :
      (call : MethodCall → State → Exec) (p : Fallible Text) (m : MethodCall) (s : State)
      → (call_with stack providers encode endpoints call p m s).1.ctx ≡ s.ctx
  unfolding call_with
  call_with-keeps call (failure e) m s = refl
  call_with-keeps call (value payload) m s =
      with_ctx-keeps
        (store_each (shared s.ctx.values ++ (type_rpc_meta, internal_meta m) ∷ []) new_context) s
        (run_child stack providers encode endpoints call payload m s)

  -- A method call leaves its caller's context as it was, whether the called method returns,
  -- panics, or fails.
  pub call_method-KeepsContext :
      (fuel : ℕ) → KeepsContext (call_method stack providers encode endpoints fuel)
  unfolding call_method
  call_method-KeepsContext zero m s = refl
  call_method-KeepsContext (suc fuel) m s =
      call_with-keeps (call_method stack providers encode endpoints fuel) m.payload m s

-- The types and the values of a context, in order.
abbrev pub contents : List ValueItem → List (GoType × Value)
contents [] = []
contents (i ∷ is) = (i.rt, i.val) ∷ contents is

-- The entries have types other than `t`.
abbrev pub Avoids : GoType → List (GoType × Value) → Type 0
Avoids t = All (λ e. same e.0 t ≡ false)

abbrev pub Distinct : List (GoType × Value) → Type 0
Distinct [] = Unit
Distinct ((t, v) ∷ vs) = Avoids t vs × Distinct vs

contents-append : (is js : List ValueItem) → contents (is ++ js) ≡ contents is ++ contents js
contents-append [] js = refl
contents-append (i ∷ is) js = rw (contents-append is js)

pub record Stored (vs : List (GoType × Value)) (c : Context) : Type 0 where
  pub ctx : Context
  pub stored : store_each vs c ≡ ok ctx
  pub holds : contents ctx.values ≡ contents c.values ++ vs

has-push :
    (t u : GoType) (v : Value) (c : Context)
    → has u c.values ≡ false
    → same u t ≡ false
    → has u (c.values ++ ready c t v ∷ []) ≡ false
has-push t u v c h d = has-append u c.values _ ∙ (unfold has in ground (arith, h, d))

pub store_each-Stored :
    (vs : List (GoType × Value)) (c : Context)
    → Distinct vs
    → All (λ e. has e.0 c.values ≡ false) vs
    → Stored vs c
unfolding store_each store_value
store_each-Stored [] c d n = record { ctx = c; stored = refl; holds = sym (append-nil _) }
store_each-Stored ((t, v) ∷ vs) c d n =
    let later = store_each-Stored vs (push (ready c t v) c) d.1 (
      All-zip (λ e. has e.0 c.values ≡ false) (λ e. same e.0 t ≡ false) _ vs
        (λ e h k. has-push t e.0 v c h k) n.1 d.0) in
    record {
      ctx = later.ctx;
      stored = rw n.0 later.stored;
      holds = later.holds ∙ rw (contents-append c.values) (append_assoc (contents c.values) _ vs);
    }

Avoids-shared : (t : GoType) (is : List ValueItem) → has t is ≡ false → Avoids t (shared is)
unfolding shared has
Avoids-shared t [] h = tt
Avoids-shared t (i ∷ is) h = elim (Bool-cases (i.valid && is_shareable i.val)) [
  | inl e ↦ rw e (ground (arith, h), Avoids-shared t is (ground (arith, h)))
  | inr e ↦ rw e (Avoids-shared t is (ground (arith, h)))
]

Distinct-shared : (is : List ValueItem) → Unique is → Distinct (shared is)
unfolding shared
Distinct-shared [] u = tt
Distinct-shared (i ∷ is) u = elim (Bool-cases (i.valid && is_shareable i.val)) [
  | inl e ↦ rw e (Avoids-shared i.rt is u.0, Distinct-shared is u.1)
  | inr e ↦ rw e (Distinct-shared is u.1)
]

-- No shareable value stands under one of the two types that every child context fills itself.
abbrev pub KeepsOwnTypes : List ValueItem → Type 0
KeepsOwnTypes = All (λ i.
    is_shareable i.val ≡ true
    → (same i.rt type_context ≡ false) × (same i.rt type_rpc_meta ≡ false))

abbrev IsOwn : GoType × Value → Type 0
IsOwn e = (same e.0 type_context ≡ false) × (same e.0 type_rpc_meta ≡ false)

IsOwn-shared : (is : List ValueItem) → KeepsOwnTypes is → All IsOwn (shared is)
unfolding shared
IsOwn-shared [] k = tt
IsOwn-shared (i ∷ is) k = elim (Bool-cases (i.valid && is_shareable i.val)) [
  | inl e ↦ rw e (k.0 (ground (arith, e)), IsOwn-shared is k.1)
  | inr e ↦ rw e (IsOwn-shared is k.1)
]

pub is_shareable-shared : (is : List ValueItem) → All (λ e. is_shareable e.1 ≡ true) (shared is)
unfolding shared
is_shareable-shared [] = tt
is_shareable-shared (i ∷ is) = elim (Bool-cases (i.valid && is_shareable i.val)) [
  | inl e ↦ rw e (ground (arith, e), is_shareable-shared is)
  | inr e ↦ rw e (is_shareable-shared is)
]

pub Distinct-snoc :
    (t : GoType) (v : Value) (vs : List (GoType × Value))
    → Distinct vs
    → All (λ e. same t e.0 ≡ false) vs
    → Distinct (vs ++ (t, v) ∷ [])
Distinct-snoc t v [] d h = (tt, tt)
Distinct-snoc t v (e ∷ vs) d h = (
  All-append (λ e'. same e'.0 e.0 ≡ false) vs ((t, v) ∷ []) d.0 (h.0, tt),
  Distinct-snoc t v vs d.1 h.1,
)

pub Stored-shared :
    (c : Context) (m : MethodCall)
    → IsWellFormed c
    → KeepsOwnTypes c.values
    → Stored (shared c.values ++ (type_rpc_meta, internal_meta m) ∷ []) new_context
unfolding new_context has
Stored-shared c m w k =
    store_each-Stored (shared c.values ++ (type_rpc_meta, internal_meta m) ∷ []) new_context
      (Distinct-snoc type_rpc_meta (internal_meta m) (shared c.values)
        (Distinct-shared c.values w.unique)
        (All-map IsOwn (λ e. same type_rpc_meta e.0 ≡ false) (shared c.values)
          (λ e h. ground (arith, h.1)) (IsOwn-shared c.values k)))
      (All-append (λ e. has e.0 new_context.values ≡ false) (shared c.values)
        ((type_rpc_meta, internal_meta m) ∷ [])
        (All-map IsOwn (λ e. has e.0 new_context.values ≡ false) (shared c.values)
          (λ e h. ground (arith, h.0)) (IsOwn-shared c.values k))
        (refl, tt))
