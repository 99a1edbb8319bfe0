-- ===== src/Context/Run/Cached.antt =====
-- What a second `Require` of a type finds (context.go).
use mathlib.Core.Path.{subst}
use jonson.Prelude.{
  ℕ, zero, suc, String, true, false, Option, none, some, [], ◌∷◌, ◌≡◌, refl, sym, ap, ◌∙◌, All,
  append_assoc, ==_refl, Bool-cases, inl, inr,
}
use jonson.Types.{GoType, is_ptr_or_interface}
use jonson.Value.{Value}
use jonson.Errors.{PanicValue, of_error}
use jonson.Context.{ValueItem, find, push}
use jonson.Context.Items.{find_behind}
use jonson.Context.Prog.{MethodCall, Outcome, returned, blocked, out_of_fuel}
use jonson.Context.Run.{
  State, Exec, after, set_ctx, pending, ready, mark_ctx, Providers, provide, resolve, require_type,
  debug_recursion_loop,
}
use jonson.Context.Run.Extends.{
  NoInvalidate, KeepsContext, IsNumbered, Extends, push-IsNumbered, mark_pushed, provide-Extends,
  require_type-Extends,
}

after-eq-returned :
    (e : Exec) (f : Value → State → Exec) (v : Value) (s : State)
    → after e f ≡ (returned v, s)
    → (u : Value) × (r : State) × (e ≡ (returned u, r)) × (f u r ≡ (returned v, s))
after-eq-returned (returned u, r) f v s h = (u, r, refl, h)
after-eq-returned (Outcome.panicked p, r) f v s h = cc (ap (λ (e : Exec). e.0) h)
after-eq-returned (blocked, r) f v s h = cc (ap (λ (e : Exec). e.0) h)
after-eq-returned (out_of_fuel, r) f v s h = cc (ap (λ (e : Exec). e.0) h)

-- The continuation of a `Require` only returns.
after-eq-panicked :
    (e : Exec) (g : Value → State → State) (p : PanicValue) (s : State)
    → after e (λ v r. (returned v, g v r)) ≡ (Outcome.panicked p, s)
    → e ≡ (Outcome.panicked p, s)
after-eq-panicked (returned u, r) g p s h = cc (ap (λ (e : Exec). e.0) h)
after-eq-panicked (Outcome.panicked q, r) g p s h = h
after-eq-panicked (blocked, r) g p s h = h
after-eq-panicked (out_of_fuel, r) g p s h = h

module _ (stack : String) (providers : Providers) (call : MethodCall → State → Exec)
    (call-keeps : KeepsContext call) (plain : All (λ e. NoInvalidate e.1) providers) where
  -- `Require` on an open context and a type that it accepts.
  require_type_open :
      (fuel : ℕ) (t : GoType) (s : State)
      → s.ctx.finalized ≡ false
      → is_ptr_or_interface t.kind ≡ true
      → require_type stack providers call (suc fuel) t s
        ≡ resolve stack providers call
            (require_type stack providers call fuel)
            (find t s.ctx.values)
            t
            s
  unfolding require_type
  require_type_open fuel t s f k = rw (f, k)

  -- A `Require` that returns has seen an open context and a type that it accepts.
  require_type-eq-returned :
      (fuel : ℕ) (t : GoType) (s s' : State) (v : Value)
      → require_type stack providers call fuel t s ≡ (returned v, s')
      → (n : ℕ) × (s.ctx.finalized ≡ false)
        × (is_ptr_or_interface t.kind ≡ true)
        × (resolve stack providers call
              (require_type stack providers call n)
              (find t s.ctx.values)
              t
              s
            ≡ (returned v, s'))
  unfolding require_type
  require_type-eq-returned zero t s s' v h = cc (ap (λ (e : Exec). e.0) h)
  require_type-eq-returned (suc n) t s s' v h = elim (Bool-cases s.ctx.finalized) [
    | inl f ↦ cc (ap (λ (e : Exec). e.0) (rw f at h))
    | inr f ↦ elim (Bool-cases (is_ptr_or_interface t.kind)) [
      | inl k ↦ (n, f, k, sym (require_type_open n t s f k) ∙ h)
      | inr k ↦ cc (ap (λ (e : Exec). e.0) (rw (f, k) at h))
    ]
  ]

  -- The result of a `Require`, required again.
  abbrev SameAgain : ℕ → GoType → Exec → Type 0
  SameAgain fuel t e = require_type stack providers call (suc fuel) t e.1 ≡ e

  valid_again :
      (fuel : ℕ) (t : GoType) (s : State) (i : ValueItem)
      → s.ctx.finalized ≡ false
      → is_ptr_or_interface t.kind ≡ true
      → find t s.ctx.values ≡ some i
      → i.valid ≡ true
      → SameAgain fuel t (returned i.val, s)
  valid_again fuel t s i f k found valid =
      require_type_open fuel t s f k
      ∙ ap (λ o. resolve stack providers call (require_type stack providers call fuel) o t s) found
      ∙ (unfold resolve in rw valid)

  resolve_again :
      (n fuel : ℕ) (t : GoType) (s s' : State) (v : Value) (o : Option ValueItem)
      → IsNumbered s.ctx
      → s.ctx.finalized ≡ false
      → is_ptr_or_interface t.kind ≡ true
      → find t s.ctx.values ≡ o
      → resolve stack providers call (require_type stack providers call n) o t s ≡ (returned v, s')
      → SameAgain fuel t (returned v, s')
  unfolding resolve
  resolve_again n fuel t s s' v (some i) w f k found h = elim (Bool-cases i.valid) [
    | inl valid ↦ subst (SameAgain fuel t) (rw valid at h) (valid_again fuel t s i f k found valid)
    | inr pending ↦ cc (ap (λ (e : Exec). e.0) (rw pending at h))
  ]
  resolve_again n fuel t s s' v none w f k found h =
      let start = set_ctx s (push (pending s.ctx t) s.ctx) in
      let (u, r, ran, same) =
        after-eq-returned
          (provide stack providers call (require_type stack providers call n) t start) _ v s' h in
      let g : Extends start.ctx r.ctx =
        subst (λ (e : Exec). Extends start.ctx e.1.ctx) ran
          (provide-Extends stack providers call call-keeps plain
            (require_type stack providers call n)
            (require_type-Extends stack providers call call-keeps plain n) t start
            (push-IsNumbered s.ctx t w)) in
      subst (SameAgain fuel t) same (
        valid_again fuel t (mark_ctx s.ctx.next u r) (ready s.ctx t u) (g.finalized ∙ f) k
          (ap (find t) (mark_pushed s.ctx r.ctx t u w g)
            ∙ find_behind t s.ctx.values g.more (ready s.ctx t u) found (==_refl t.id))
          refl)

  -- A type is instantiated once: if a `Require` returns, a further one returns the same value and
  -- changes nothing, where no provider invalidates values.
  pub require_type_again :
      (n fuel : ℕ) (t : GoType) (s s' : State) (v : Value)
      → IsNumbered s.ctx
      → require_type stack providers call n t s ≡ (returned v, s')
      → require_type stack providers call (suc fuel) t s' ≡ (returned v, s')
  require_type_again n fuel t s s' v w h =
      let (m, f, k, resolved) = require_type-eq-returned n t s s' v h in
      resolve_again m fuel t s s' v (find t s.ctx.values) w f k refl resolved

  -- A `Require` that comes upon an item that is not valid.
  abbrev LoopReported : ℕ → GoType → State → Type 0
  LoopReported fuel t s =
      require_type stack providers call (suc fuel) t s
      ≡ (Outcome.panicked (of_error (debug_recursion_loop stack t s.ctx.values)), s)

  pending_again :
      (fuel : ℕ) (t : GoType) (s : State) (i : ValueItem)
      → s.ctx.finalized ≡ false
      → is_ptr_or_interface t.kind ≡ true
      → find t s.ctx.values ≡ some i
      → i.valid ≡ false
      → LoopReported fuel t s
  pending_again fuel t s i f k found invalid =
      require_type_open fuel t s f k
      ∙ ap (λ o. resolve stack providers call (require_type stack providers call fuel) o t s) found
      ∙ (unfold resolve in rw invalid)

  resolve_after_panic :
      (n fuel : ℕ) (t : GoType) (s s' : State) (p : PanicValue) (o : Option ValueItem)
      → IsNumbered s.ctx
      → s.ctx.finalized ≡ false
      → is_ptr_or_interface t.kind ≡ true
      → find t s.ctx.values ≡ o
      → resolve stack providers call (require_type stack providers call n) o t s
        ≡ (Outcome.panicked p, s')
      → LoopReported fuel t s'
  unfolding resolve
  resolve_after_panic n fuel t s s' p (some i) w f k found h = elim (Bool-cases i.valid) [
    | inl valid ↦ cc (ap (λ (e : Exec). e.0) (rw valid at h))
    | inr invalid ↦
        subst (LoopReported fuel t) (ap (λ (e : Exec). e.1) (rw invalid at h))
          (pending_again fuel t s i f k found invalid)
  ]
  resolve_after_panic n fuel t s s' p none w f k found h =
      let start = set_ctx s (push (pending s.ctx t) s.ctx) in
      let ran =
        after-eq-panicked
          (provide stack providers call (require_type stack providers call n) t start)
          (mark_ctx s.ctx.next) p s' h in
      let g : Extends start.ctx s'.ctx =
        subst (λ (e : Exec). Extends start.ctx e.1.ctx) ran
          (provide-Extends stack providers call call-keeps plain
            (require_type stack providers call n)
            (require_type-Extends stack providers call call-keeps plain n) t start
            (push-IsNumbered s.ctx t w)) in
      pending_again fuel t s' (pending s.ctx t) (g.finalized ∙ f) k
        (ap (find t) (g.values ∙ append_assoc s.ctx.values (pending s.ctx t ∷ []) g.more)
          ∙ find_behind t s.ctx.values g.more (pending s.ctx t) found (==_refl t.id))
        refl

  -- If a `Require` on an open context and of a type that it accepts panics, whatever the reason,
  -- a further one panics with the report of a recursion loop and changes nothing, where no
  -- provider invalidates values.
  pub require_type_after_panic :
      (n fuel : ℕ) (t : GoType) (s s' : State) (p : PanicValue)
      → IsNumbered s.ctx
      → s.ctx.finalized ≡ false
      → is_ptr_or_interface t.kind ≡ true
      → require_type stack providers call n t s ≡ (Outcome.panicked p, s')
      → require_type stack providers call (suc fuel) t s'
        ≡ (Outcome.panicked (of_error (debug_recursion_loop stack t s'.ctx.values)), s')
  unfolding require_type
  require_type_after_panic zero fuel t s s' p w f k h = cc (ap (λ (e : Exec). e.0) h)
  require_type_after_panic (suc n) fuel t s s' p w f k h =
      resolve_after_panic n fuel t s s' p (find t s.ctx.values) w f k refl
        (sym (require_type_open n t s f k) ∙ h)
