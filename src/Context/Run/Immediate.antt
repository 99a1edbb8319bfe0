-- ===== src/Context/Run/Immediate.antt =====
-- `Require` of a type whose provider returns a value at once (factory.go, context.go).
use jonson.Prelude.{
  ℕ, suc, String, true, false, none, some, List, [], ◌∷◌, ◌++◌, ◌≡◌, refl, ap, All-append, All-map,
  ◌∙◌, arith,
}
use jonson.Types.{GoType, same, is_ptr_or_interface}
use jonson.Value.{Value}
use jonson.Context.{ValueItem, has, find, find_valid, push, get_value}
use jonson.Context.Items.{has-append}
use jonson.Context.Prog.{MethodCall, returned, Prog, done}
use jonson.Context.Run.{
  State, Exec, after, run, mark_ctx, set_ctx, pending, ready, Providers, provider, provide, resolve,
  require_type,
}
use jonson.Context.Run.Extends.{IsNumbered, mark_just_pushed}

-- The state with a value behind those that its context has.
abbrev pub with_value : GoType → Value → State → State
with_value t v s = set_ctx s (push (ready s.ctx t v) s.ctx)

find_of_has : (t : GoType) (is : List ValueItem) → has t is ≡ false → find t is ≡ none
unfolding has find
find_of_has t [] h = refl
find_of_has t (i ∷ is) h = ground (arith, find_of_has t is)

pub with_value-IsNumbered :
    (t : GoType) (v : Value) (s : State) → IsNumbered s.ctx → IsNumbered (with_value t v s).ctx
with_value-IsNumbered t v s w =
    All-append _ s.ctx.values (_ ∷ []) (All-map _ _ s.ctx.values (λ i p. omega arith) w)
      (omega arith, tt)

pub has-with_value :
    (t u : GoType) (v : Value) (s : State)
    → same u t ≡ false
    → has t s.ctx.values ≡ false
    → has t (with_value u v s).ctx.values ≡ false
unfolding has
has-with_value t u v s e h = has-append t s.ctx.values (_ ∷ []) ∙ rw (h, e) refl

-- The state in which the provider of a type runs.
abbrev pub awaiting : GoType → State → State
awaiting t s = set_ctx s (push (pending s.ctx t) s.ctx)

marked_immediate :
    (t : GoType) (v : Value) (s : State)
    → IsNumbered s.ctx
    → mark_ctx s.ctx.next v (awaiting t s) ≡ with_value t v s
marked_immediate t v s w =
    ap (λ l. set_ctx s (record s.ctx { values = l; next = suc s.ctx.next }))
      (mark_just_pushed s.ctx t v w)

module _ (stack : String) (providers : Providers) (call : MethodCall → State → Exec) where
  pub opened :
      (fuel : ℕ) (t : GoType) (s : State)
      → s.ctx.finalized ≡ false
      → is_ptr_or_interface t.kind ≡ true
      → require_type stack providers call (suc fuel) t s
        ≡ resolve stack providers call
            (require_type stack providers call fuel)
            (find t s.ctx.values)
            t
            s
  unfolding require_type
  opened fuel t s f k = rw (f, k)

  pub provided :
      (reqs : GoType → State → Exec) (t : GoType) (q : Prog) (s : State)
      → provider t providers ≡ some q
      → provide stack providers call reqs t s ≡ run reqs call q s
  unfolding provide
  provided reqs t q s h = rw (provide, h)

  -- The value is stored behind the others.
  pub require_type-done :
      (fuel : ℕ) (t : GoType) (v : Value) (s : State)
      → IsNumbered s.ctx
      → s.ctx.finalized ≡ false
      → is_ptr_or_interface t.kind ≡ true
      → has t s.ctx.values ≡ false
      → provider t providers ≡ some (done v)
      → require_type stack providers call (suc fuel) t s ≡ (returned v, with_value t v s)
  unfolding run
  require_type-done fuel t v s w f k n h =
      opened fuel t s f k
      ∙ ap (λ o. resolve stack providers call (require_type stack providers call fuel) o t s)
          (find_of_has t s.ctx.values n)
      ∙ (unfold resolve in
          ap (λ x. after x (λ u r. (returned u, mark_ctx s.ctx.next u r)))
            (provided (require_type stack providers call fuel) t (done v) (awaiting t s) h)
          ∙ ap (λ r. (returned v, r)) (marked_immediate t v s w))

-- A value of another type is not found.
find_valid-append :
    (t : GoType) (is : List ValueItem) (i : ValueItem)
    → same i.rt t ≡ false
    → find_valid t (is ++ i ∷ []) ≡ find_valid t is
unfolding find_valid
find_valid-append t [] i e = ground (arith, e)
find_valid-append t (j ∷ is) i e = ground (arith, find_valid-append t is i e)

pub get_value-with_value :
    (t u : GoType) (v : Value) (s : State)
    → same u t ≡ false
    → get_value t (with_value u v s).ctx ≡ get_value t s.ctx
unfolding get_value
get_value-with_value t u v s e = rw (find_valid-append t s.ctx.values (ready s.ctx u v) e) refl
