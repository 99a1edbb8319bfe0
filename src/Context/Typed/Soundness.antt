-- ===== src/Context/Typed/Soundness.antt =====
-- What runs under a context keeps its values typed, and returns what it says (context.go,
-- factory.go).
use mathlib.Core.Path.{subst, fun_ext}
use mathlib.Core.Option.{some-injective}
use jonson.Prelude.{
  ℕ, zero, suc, String, Bool, true, false, not, Option, none, some, [], ◌∷◌, ◌≡◌, refl, Bool-cases,
  Option-cases, inl, inr,
}
use jonson.Types.{GoType, same, is_ptr_or_interface}
use jonson.Value.{Value, nil_value}
use jonson.Context.{
  Fallible, ValueItem, Context, find, find_valid, push, invalidate, without, new_context, value,
  failure, get_value,
}
use jonson.Context
use jonson.Context.Items.{has-eq-find}
use jonson.Context.Prog.{
  MethodCall, Outcome, returned, blocked, out_of_fuel, Prog, done, panic, block, require, attempt,
  items, in_fork, new_public, load_public, save_public, call_method,
}
use jonson.Context.Run.{
  State, Exec, after, leave, store_each, run, mark_ctx, set_ctx, Providers, provider, provide,
  resolve, require_type,
}
use jonson.Context.Run.Extends.{KeepsContext}
use jonson.Context.Run.Immediate.{awaiting}
use jonson.Context.Run.Unique.{IsWellFormed-IsStable, provide-Leaves, require_type-Leaves}
use jonson.Context.Typed.{is_of, IsTypedItem, IsTyped, Typed, TypedProviders}
use jonson.Context.Typed.Items.{
  Owns, Owns-IsStable, Owns-pending, All-without, is_of-id, find-typed, get_value-cases, mark-typed,
  push-IsTyped,
}
use jonson.Context.Typed.Ends.{
  Gives-any, Keeps, after-Keeps, settle-Keeps, with_ctx-Keeps, if-Keeps, store_value-IsTyped,
  store_each-IsTyped, new_context-IsTyped,
}

module _ (user : ℕ → Value → Bool) where
  -- The end of a provider's run is written to the item of its type.
  marked-Keeps :
      (a : ℕ) (t : GoType) (e : Exec)
      → Keeps user (is_of user t) e
      → Owns a t e.1.ctx
      → Keeps user (is_of user t) (after e (λ v s. (returned v, mark_ctx a v s)))
  marked-Keeps a t (returned v, s) g o = (
    record {
      well_formed = IsWellFormed-IsStable.marked s.ctx a v g.0.well_formed;
      items = mark-typed user a t v s.ctx.values g.1 o.owned g.0.items;
    },
    g.1,
  )
  marked-Keeps a t (Outcome.panicked p, s) g o = g
  marked-Keeps a t (blocked, s) g o = g
  marked-Keeps a t (out_of_fuel, s) g o = g

  provider-typed :
      (t : GoType) (ps : Providers) (p : Prog)
      → TypedProviders user ps
      → provider t ps ≡ some p
      → Typed user (is_of user t) p
  unfolding provider
  provider-typed t [] p h e = absurd (cc e)
  provider-typed t ((u, o) ∷ ps) p h e = elim (Bool-cases (same u t)) [
    | inl here ↦
        subst (Typed user (is_of user t)) (some-injective o p (rw here at e))
          (subst (λ q. Typed user q o) (fun_ext (λ v. is_of-id user u t v here)) h.0)
    | inr there ↦ provider-typed t ps p h.1 (rw there at e)
  ]

  module _ (call : MethodCall → State → Exec) (call-keeps : KeepsContext call)
      (reqs : GoType → State → Exec)
      (reqs-Keeps : (t : GoType) (s : State)
        → IsTyped user s.ctx
        → Keeps user (is_of user t) (reqs t s)) where
    pub run-Keeps :
        (q : Value → Bool) (p : Prog) (s : State)
        → Typed user q p
        → IsTyped user s.ctx
        → Keeps user q (run reqs call p s)
    unfolding run get_value invalidate
    run-Keeps q (done v) s h w = (w, h)
    run-Keeps q (panic p) s h w = (w, tt)
    run-Keeps q block s h w = (w, tt)
    run-Keeps q (require t k) s h w =
        after-Keeps user (is_of user t) q (reqs t s) _ (reqs-Keeps t s w)
          (λ v s' e g. run-Keeps q (k v) s' (h v e) g)
    run-Keeps q (Prog.get_value t k) s h w =
        run-Keeps q (k (get_value t s.ctx)) s
          (get_value-cases user (λ r. Typed user q (k r)) t s.ctx w.items h) w
    run-Keeps q (Prog.store_value t v p) s h w =
        with_ctx-Keeps user q (Context.store_value t v s.ctx) s _ w
          λ c e. run-Keeps q p (set_ctx s c) h.1 (store_value-IsTyped user t v s.ctx c h.0 w e)
    run-Keeps q (Prog.invalidate ts p) s h w =
        run-Keeps q p (set_ctx s (invalidate ts s.ctx)) h (record {
          well_formed = IsWellFormed-IsStable.invalidated s.ctx ts w.well_formed;
          items = All-without (IsTypedItem user) ts s.ctx.values w.items;
        })
    run-Keeps q (attempt p k) s h w =
        let (r, first, rest) = h in
        settle-Keeps user r q (run reqs call p s) _ (run-Keeps r p s first w) (
          (λ v e s' g. run-Keeps q (k (returned v)) s' (rest.0 v e) g),
          (λ x s' g. run-Keeps q (k (Outcome.panicked x)) s' (rest.1 x) g),
        )
    run-Keeps q (items k) s h w = run-Keeps q (k s.ctx.values) s (h s.ctx.values w.items) w
    run-Keeps q (in_fork vs p k) s h w =
        let (given, first) = h in
        let (r, inner, rest) = first in
        with_ctx-Keeps user q (store_each vs new_context) s _ w λ c e.
          after-Keeps user r q (leave s.ctx (run reqs call p (set_ctx s c))) _
            (
              w,
              (run-Keeps r p (set_ctx s c) inner
                  (store_each-IsTyped user vs new_context c given (new_context-IsTyped user) e)).1,
            )
            (λ v s' f g. run-Keeps q (k v) s' (rest v f) g)
    run-Keeps q (new_public u k) s h w = run-Keeps q (k _) _ (h _) w
    run-Keeps q (load_public a k) s h w = run-Keeps q (k _) s (h _) w
    run-Keeps q (save_public a u p) s h w = run-Keeps q p _ h w
    run-Keeps q (call_method m k) s h w =
        after-Keeps user (λ v. true) q (call m s) _ (rw call-keeps w, Gives-any user _)
          (λ v s' e g. run-Keeps q (k v) s' (h v) g)

    module _ (stack : String) (providers : Providers) (typed : TypedProviders user providers)
        (reqs-Owns : (a : ℕ) (u t : GoType) (s : State)
          → Owns a u s.ctx
          → Owns a u (reqs t s).1.ctx) where
      provide-Keeps :
          (t : GoType) (s : State)
          → IsTyped user s.ctx
          → Keeps user (is_of user t) (provide stack providers call reqs t s)
      unfolding provide
      provide-Keeps t s w = elim (Option-cases (provider t providers)) [
        | inl e ↦ rw (e, provide) (w, tt)
        | inr (p, e) ↦
            rw (e, provide) (run-Keeps (is_of user t) p s (provider-typed t providers p typed e) w)
      ]

      resolve-Keeps :
          (t : GoType) (s : State) (o : Option ValueItem)
          → find t s.ctx.values ≡ o
          → IsTyped user s.ctx
          → Keeps user (is_of user t) (resolve stack providers call reqs o t s)
      unfolding resolve
      resolve-Keeps t s (some i) found w = elim (Bool-cases i.valid) [
        | inl valid ↦ rw valid (w, find-typed user t s.ctx.values i w.items found valid)
        | inr stale ↦ rw stale (w, tt)
      ]
      resolve-Keeps t s none found w =
          marked-Keeps s.ctx.next t (provide stack providers call reqs t (awaiting t s))
            (provide-Keeps t (awaiting t s) (
              push-IsTyped user s.ctx t nil_value false (has-eq-find t s.ctx.values found)
                (λ f. absurd (cc f)) w))
            (provide-Leaves (Owns s.ctx.next t) (Owns-IsStable s.ctx.next t) call call-keeps stack
              providers reqs (reqs-Owns s.ctx.next t) t (awaiting t s)
              (Owns-pending s.ctx t w.well_formed))

  module _ (call : MethodCall → State → Exec) (call-keeps : KeepsContext call) (stack : String)
      (providers : Providers) (typed : TypedProviders user providers) where
    pub require_type-Keeps :
        (fuel : ℕ) (t : GoType) (s : State)
        → IsTyped user s.ctx
        → Keeps user (is_of user t) (require_type stack providers call fuel t s)
    unfolding require_type
    require_type-Keeps zero t s w = (w, tt)
    require_type-Keeps (suc fuel) t s w =
        if-Keeps user _ s.ctx.finalized _ _ (w, tt)
          (if-Keeps user _ (not (is_ptr_or_interface t.kind)) _ _ (w, tt)
            (resolve-Keeps call call-keeps (require_type stack providers call fuel)
              (require_type-Keeps fuel) stack providers typed
              (λ a u.
                require_type-Leaves (Owns a u) (Owns-IsStable a u) call call-keeps stack providers
                  fuel)
              t s (find t s.ctx.values) refl w))

    -- Where providers return values of the types that they provide, and code stores values of the
    -- types under which it stores them, given values of the types that it asks for: every valid item
    -- of a typed context still holds a value of its type after the code has run, also where it
    -- panics, and a value that the code returns is one of those that it is said to return.
    pub run-IsTyped :
        (fuel : ℕ) (q : Value → Bool) (p : Prog) (s : State)
        → Typed user q p
        → IsTyped user s.ctx
        → Keeps user q (run (require_type stack providers call fuel) call p s)
    run-IsTyped fuel =
        run-Keeps call call-keeps (require_type stack providers call fuel) (require_type-Keeps fuel)
