-- ===== src/Context/Typed/Ends.antt =====
-- How a run can end: the context that it leaves is typed, and so is a value that it returns
-- (context.go).
use mathlib.Core.Path.{subst}
use jonson.Prelude.{ℕ, Bool, true, false, List, [], ◌∷◌, ◌≡◌, refl, sym, if◌then◌else◌}
use jonson.Types.{GoType}
use jonson.Value.{Value}
use jonson.Validate.{Result, ok, panicked}
use jonson.Validate.Binds.{bind-eq-ok, ok-injective}
use jonson.Context.{
  Fallible, ValueItem, Context, find, find_valid, push, invalidate, without, new_context, value,
  failure, get_value,
}
use jonson.Context
use jonson.Context.Items.{store_value-eq-ok}
use jonson.Context.Prog.{Outcome, returned, blocked, out_of_fuel}
use jonson.Context.Run.{State, Exec, after, settle, with_ctx, store_each}
use jonson.Context.Run.Unique.{new_context-IsWellFormed}
use jonson.Context.Typed.{is_of, IsTyped, AllOf, Handles}
use jonson.Context.Typed.Items.{push-IsTyped}

module _ (user : ℕ → Value → Bool) where
  -- What holds of an end of a run: the context is typed, and a returned value passes `q`.
  abbrev pub Gives : (Value → Bool) → Outcome → Type 0
  Gives q (returned v) = q v ≡ true
  Gives q (Outcome.panicked p) = Unit
  Gives q blocked = Unit
  Gives q out_of_fuel = Unit

  pub Gives-any : (o : Outcome) → Gives (λ v. true) o
  Gives-any (returned v) = refl
  Gives-any (Outcome.panicked p) = tt
  Gives-any blocked = tt
  Gives-any out_of_fuel = tt

  abbrev pub Keeps : (Value → Bool) → Exec → Type 0
  Keeps q e = IsTyped user e.1.ctx × Gives q e.0

  pub after-Keeps :
      (r q : Value → Bool) (e : Exec) (f : Value → State → Exec)
      → Keeps r e
      → ((v : Value) (s : State) → r v ≡ true → IsTyped user s.ctx → Keeps q (f v s))
      → Keeps q (after e f)
  after-Keeps r q (returned v, s) f g h = h v s g.1 g.0
  after-Keeps r q (Outcome.panicked p, s) f g h = g
  after-Keeps r q (blocked, s) f g h = g
  after-Keeps r q (out_of_fuel, s) f g h = g

  pub settle-Keeps :
      (r q : Value → Bool) (e : Exec) (f : Outcome → State → Exec)
      → Keeps r e
      → Handles user r (λ o. (s : State) → IsTyped user s.ctx → Keeps q (f o s))
      → Keeps q (settle e f)
  settle-Keeps r q (returned v, s) f g h = h.0 v g.1 s g.0
  settle-Keeps r q (Outcome.panicked p, s) f g h = h.1 p s g.0
  settle-Keeps r q (blocked, s) f g h = g
  settle-Keeps r q (out_of_fuel, s) f g h = g

  pub with_ctx-Keeps :
      (q : Value → Bool) (r : Result Context) (s : State) (f : Context → Exec)
      → IsTyped user s.ctx
      → ((c : Context) → r ≡ ok c → Keeps q (f c))
      → Keeps q (with_ctx r s f)
  with_ctx-Keeps q (ok c) s f g h = h c refl
  with_ctx-Keeps q (panicked p) s f g h = (g, tt)

  pub if-Keeps :
      (q : Value → Bool) (b : Bool) (x y : Exec)
      → Keeps q x
      → Keeps q y
      → Keeps q (if b then x else y)
  if-Keeps q true x y g h = g
  if-Keeps q false x y g h = h

  pub store_value-IsTyped :
      (t : GoType) (v : Value) (c c' : Context)
      → is_of user t v ≡ true
      → IsTyped user c
      → Context.store_value t v c ≡ ok c'
      → IsTyped user c'
  store_value-IsTyped t v c c' e w h =
      let (new, pushed) = store_value-eq-ok t v c c' h in
      subst (IsTyped user) (sym pushed) (push-IsTyped user c t v true new (λ b. e) w)

  pub store_each-IsTyped :
      (vs : List (GoType × Value)) (c c' : Context)
      → AllOf user vs
      → IsTyped user c
      → store_each vs c ≡ ok c'
      → IsTyped user c'
  unfolding store_each
  store_each-IsTyped [] c c' h w e = subst (IsTyped user) (ok-injective c c' e) w
  store_each-IsTyped ((t, v) ∷ vs) c c' h w e =
      let (d, stored, rest) = bind-eq-ok (Context.store_value t v c) (store_each vs) c' e in
      store_each-IsTyped vs d c' h.1 (store_value-IsTyped t v c d h.0 w stored) rest

  pub new_context-IsTyped : IsTyped user new_context
  unfolding new_context is_of
  new_context-IsTyped = record { well_formed = new_context-IsWellFormed; items = ((λ v. refl), tt) }
