-- ===== src/Context/Run/Extends.antt =====
-- Code that does not invalidate anything only adds items behind those that the context has.
use mathlib.Core.Path.{subst}
use mathlib.Core.Option.{some-injective}
use jonson.Prelude.{
  ℕ, zero, suc, ◌≤◌, ◌<◌, String, Bool, true, false, not, Option, none, some, List, [], ◌∷◌, ◌++◌,
  ◌≡◌, ◌≢◌, refl, sym, ap, ◌∙◌, arith, All, All-append, All-map, append_assoc, append-nil,
  if◌then◌else◌, ==_refl, Bool-cases, Option-cases, inl, inr,
}
use jonson.Types.{GoType, same, is_ptr_or_interface}
use jonson.Value.{Value}
use jonson.Validate.{Result, ok, panicked}
use jonson.Context.{ValueItem, Context, find, push, store_value, new_context, Fallible, has}
use jonson.Context
use jonson.Context.Items.{store_value-eq-ok}
use jonson.Context.Prog.{
  Public, MethodCall, Outcome, returned, blocked, out_of_fuel, Prog, done, panic, block, require,
  attempt, items, in_fork, new_public, load_public, save_public, call_method,
}
use jonson.Context.Run.{
  State, Exec, after, settle, leave, with_ctx, store_each, run, mark, mark_ctx, set_ctx, pending,
  ready, Providers, provider, provide, resolve, require_type,
}

-- No `Invalidate` of a value of the context under which the code runs.
abbrev pub NoInvalidate : Prog → Type 0
NoInvalidate (done v) = Unit
NoInvalidate (panic p) = Unit
NoInvalidate block = Unit
NoInvalidate (require t k) = (v : Value) → NoInvalidate (k v)
NoInvalidate (Prog.get_value t k) = (r : Fallible Value) → NoInvalidate (k r)
NoInvalidate (Prog.store_value t v p) = NoInvalidate p
NoInvalidate (Prog.invalidate ts p) = ⊥
NoInvalidate (attempt p h) = NoInvalidate p × ((o : Outcome) → NoInvalidate (h o))
NoInvalidate (items k) = (is : List ValueItem) → NoInvalidate (k is)
NoInvalidate (in_fork vs p k) = (v : Value) → NoInvalidate (k v)
NoInvalidate (new_public u k) = (a : ℕ) → NoInvalidate (k a)
NoInvalidate (load_public a k) = (u : Option Public) → NoInvalidate (k u)
NoInvalidate (save_public a u p) = NoInvalidate p
NoInvalidate (call_method m k) = (v : Value) → NoInvalidate (k v)

-- A call of a method leaves the caller's context as it was.
abbrev pub KeepsContext : (MethodCall → State → Exec) → Type 0
KeepsContext call = (m : MethodCall) (s : State) → (call m s).1.ctx ≡ s.ctx

-- Addresses are given out in order.
abbrev pub IsNumbered : Context → Type 0
IsNumbered c = All (λ i. i.addr < c.next) c.values

pub record Extends (c c' : Context) : Type 0 where
  pub more : List ValueItem
  pub values : c'.values ≡ c.values ++ more
  pub numbered : All (λ i. (c.next ≤ i.addr) × (i.addr < c'.next)) more
  pub next : c.next ≤ c'.next
  pub finalized : c'.finalized ≡ c.finalized

pub Extends-refl : (c : Context) → Extends c c
Extends-refl c = record {
  more = [];
  values = sym (append-nil _);
  numbered = tt;
  next = omega arith;
  finalized = refl;
}

pub Extends-trans : {a b c : Context} → Extends a b → Extends b c → Extends a c
Extends-trans {a} {b} {c} g h = record {
  more = g.more ++ h.more;
  values = h.values ∙ rw (g.values, append_assoc);
  numbered =
      All-append _ g.more h.more (All-map _ _ g.more (λ i p. omega arith) g.numbered)
        (All-map _ _ h.more (λ i p. omega arith) h.numbered);
  next = omega arith;
  finalized = h.finalized ∙ g.finalized;
}

pub Extends-IsNumbered : {c c' : Context} → Extends c c' → IsNumbered c → IsNumbered c'
Extends-IsNumbered {c} {c'} g h = rw g.values (
    All-append _ c.values g.more (All-map _ _ c.values (λ i p. omega arith) h)
      (All-map _ _ g.more (λ i p. p.1) g.numbered))

Extends-push : (c : Context) (i : ValueItem) → i.addr ≡ c.next → Extends c (push i c)
Extends-push c i e = record {
  more = i ∷ [];
  values = refl;
  numbered = ((omega arith, omega arith), tt);
  next = omega arith;
  finalized = refl;
}

store_value-Extends :
    (t : GoType) (v : Value) (c c' : Context) → Context.store_value t v c ≡ ok c' → Extends c c'
store_value-Extends t v c c' h =
    subst (Extends c) (sym (store_value-eq-ok t v c c' h).1) (Extends-push c _ refl)

with_ctx-Extends :
    (c : Context) (r : Result Context) (s : State) (f : Context → Exec)
    → Extends c s.ctx
    → ((c' : Context) → r ≡ ok c' → Extends c (f c').1.ctx)
    → Extends c (with_ctx r s f).1.ctx
with_ctx-Extends c (ok c') s f g h = h c' refl
with_ctx-Extends c (panicked p) s f g h = g

after-Extends_from :
    (c c' : Context)
    → Extends c c'
    → (e : Exec) (f : Value → State → Exec) → Extends c' e.1.ctx
    → ((v : Value) (s : State) → Extends c' s.ctx → Extends c (f v s).1.ctx)
    → Extends c (after e f).1.ctx
after-Extends_from c c' b (returned v, s) f g h = h v s g
after-Extends_from c c' b (Outcome.panicked p, s) f g h = Extends-trans b g
after-Extends_from c c' b (blocked, s) f g h = Extends-trans b g
after-Extends_from c c' b (out_of_fuel, s) f g h = Extends-trans b g

after-Extends :
    (c : Context) (e : Exec) (f : Value → State → Exec)
    → Extends c e.1.ctx
    → ((v : Value) (s : State) → Extends c s.ctx → Extends c (f v s).1.ctx)
    → Extends c (after e f).1.ctx
after-Extends c = after-Extends_from c c (Extends-refl c)

settle-Extends :
    (c : Context) (e : Exec) (f : Outcome → State → Exec)
    → Extends c e.1.ctx
    → ((o : Outcome) (s : State) → Extends c s.ctx → Extends c (f o s).1.ctx)
    → Extends c (settle e f).1.ctx
settle-Extends c (returned v, s) f g h = h (returned v) s g
settle-Extends c (Outcome.panicked p, s) f g h = h (Outcome.panicked p) s g
settle-Extends c (blocked, s) f g h = g
settle-Extends c (out_of_fuel, s) f g h = g

module _ (req : GoType → State → Exec) (call : MethodCall → State → Exec)
    (req-Extends : (t : GoType) (s : State) → IsNumbered s.ctx → Extends s.ctx (req t s).1.ctx)
    (call-keeps : KeepsContext call) where
  pub run-Extends_by :
      (p : Prog) (s : State)
      → NoInvalidate p
      → IsNumbered s.ctx
      → Extends s.ctx (run req call p s).1.ctx
  unfolding run
  run-Extends_by (done v) s n w = Extends-refl s.ctx
  run-Extends_by (panic p) s n w = Extends-refl s.ctx
  run-Extends_by block s n w = Extends-refl s.ctx
  run-Extends_by (require t k) s n w =
      after-Extends s.ctx (req t s) _ (req-Extends t s w)
        λ v s' g. Extends-trans g (run-Extends_by (k v) s' (n v) (Extends-IsNumbered g w))
  run-Extends_by (Prog.get_value t k) s n w = run-Extends_by (k _) s (n _) w
  run-Extends_by (Prog.store_value t v p) s n w =
      with_ctx-Extends s.ctx (Context.store_value t v s.ctx) s _ (Extends-refl s.ctx) λ c e.
        let g = store_value-Extends t v s.ctx c e in
        Extends-trans g (run-Extends_by p (set_ctx s c) n (Extends-IsNumbered g w))
  run-Extends_by (Prog.invalidate ts p) s n w = absurd n
  run-Extends_by (attempt p h) s n w =
      settle-Extends s.ctx (run req call p s) _ (run-Extends_by p s n.0 w)
        λ o s' g. Extends-trans g (run-Extends_by (h o) s' (n.1 o) (Extends-IsNumbered g w))
  run-Extends_by (items k) s n w = run-Extends_by (k _) s (n _) w
  run-Extends_by (in_fork vs p k) s n w =
      with_ctx-Extends s.ctx (store_each vs new_context) s _ (Extends-refl s.ctx) λ c e.
        after-Extends s.ctx (leave s.ctx (run req call p (set_ctx s c))) _ (Extends-refl s.ctx)
          λ v s' g. Extends-trans g (run-Extends_by (k v) s' (n v) (Extends-IsNumbered g w))
  run-Extends_by (new_public u k) s n w = run-Extends_by (k _) _ (n _) w
  run-Extends_by (load_public a k) s n w = run-Extends_by (k _) s (n _) w
  run-Extends_by (save_public a u p) s n w = run-Extends_by p _ n w
  run-Extends_by (call_method m k) s n w =
      after-Extends s.ctx (call m s) _ (rw call-keeps (Extends-refl s.ctx))
        λ v s' g. Extends-trans g (run-Extends_by (k v) s' (n v) (Extends-IsNumbered g w))

mark_other : (a : ℕ) (v : Value) (is : List ValueItem) → All (λ i. i.addr ≢ a) is → mark a v is ≡ is
unfolding mark
mark_other a v [] h = refl
mark_other a v (i ∷ is) h = ground (arith, h.0, mark_other a v is h.1)

mark-append :
    (a : ℕ) (v : Value) (is js : List ValueItem) → mark a v (is ++ js) ≡ mark a v is ++ mark a v js
unfolding mark
mark-append a v [] js = refl
mark-append a v (i ∷ is) js = rw (mark-append a v is js)

pub has-mark :
    (t : GoType) (a : ℕ) (v : Value) (is : List ValueItem) → has t (mark a v is) ≡ has t is
unfolding has mark
has-mark t a v [] = refl
has-mark t a v (i ∷ is) = ground (arith, has-mark t a v is)

mark-pending :
    (c : Context) (t : GoType) (v : Value) → mark c.next v (pending c t ∷ []) ≡ ready c t v ∷ []
unfolding mark
mark-pending c t v = rw (==_refl c.next)

pub mark_just_pushed :
    (c : Context) (t : GoType) (v : Value)
    → IsNumbered c
    → mark c.next v (c.values ++ pending c t ∷ []) ≡ c.values ++ ready c t v ∷ []
mark_just_pushed c t v w =
    let old : mark c.next v c.values ≡ c.values =
      mark_other c.next v c.values (All-map _ _ c.values (λ i p. omega arith) w) in
    mark-append c.next v c.values (pending c t ∷ []) ∙ rw (old, mark-pending) refl

-- Marking the item that `Require` pushed changes that item alone.
pub mark_pushed :
    (c c' : Context) (t : GoType) (v : Value)
    → IsNumbered c
    → (g : Extends (push (pending c t) c) c')
    → mark c.next v c'.values ≡ c.values ++ ready c t v ∷ g.more
mark_pushed c c' t v w g =
    let old : mark c.next v c.values ≡ c.values =
      mark_other c.next v c.values (All-map _ _ c.values (λ i p. omega arith) w) in
    let new : mark c.next v g.more ≡ g.more =
      mark_other c.next v g.more (All-map _ _ g.more (λ i p. omega arith) g.numbered) in
    ap (mark c.next v) g.values
    ∙ mark-append c.next v (c.values ++ pending c t ∷ []) g.more
    ∙ ap (λ l. l ++ mark c.next v g.more) (mark-append c.next v c.values (pending c t ∷ []))
    ∙ rw (old, new, mark-pending) (append_assoc c.values _ g.more)

if-Extends :
    (c : Context) (b : Bool) (x y : Exec)
    → Extends c x.1.ctx
    → Extends c y.1.ctx
    → Extends c (if b then x else y).1.ctx
if-Extends c true x y g h = g
if-Extends c false x y g h = h

pub push-IsNumbered : (c : Context) (t : GoType) → IsNumbered c → IsNumbered (push (pending c t) c)
push-IsNumbered c t w = Extends-IsNumbered (Extends-push c (pending c t) refl) w

-- The context after a provider's run, with the pushed item marked, extends the one before it.
marked-Extends :
    (c : Context) (t : GoType) (v : Value) (s : State)
    → IsNumbered c
    → Extends (push (pending c t) c) s.ctx
    → Extends c (mark_ctx c.next v s).ctx
marked-Extends c t v s w g = record {
  more = ready c t v ∷ g.more;
  values = mark_pushed c s.ctx t v w g;
  numbered =
      ((omega arith, omega (arith, g.next)), All-map _ _ g.more (λ i p. omega arith) g.numbered);
  next = omega (arith, g.next);
  finalized = g.finalized;
}

-- What holds of every registered provider holds of the one that is found.
pub provider-All :
    (P : Prog → Type 0) (t : GoType) (ps : Providers) (p : Prog)
    → All (λ e. P e.1) ps
    → provider t ps ≡ some p
    → P p
unfolding provider
provider-All P t [] p h e = cc
provider-All P t ((u, q) ∷ ps) p h e = elim (Bool-cases (same u t)) [
  | inl here ↦ subst P (some-injective q p (rw here at e)) h.0
  | inr there ↦ provider-All P t ps p h.1 (rw there at e)
]

module _ (stack : String) (providers : Providers) (call : MethodCall → State → Exec)
    (call-keeps : KeepsContext call) (plain : All (λ e. NoInvalidate e.1) providers) where
  module _ (req : GoType → State → Exec)
      (req-Extends : (t : GoType) (s : State)
        → IsNumbered s.ctx
        → Extends s.ctx (req t s).1.ctx) where
    pub provide-Extends :
        (t : GoType) (s : State)
        → IsNumbered s.ctx
        → Extends s.ctx (provide stack providers call req t s).1.ctx
    unfolding provide
    provide-Extends t s w = elim (Option-cases (provider t providers)) [
      | inl e ↦ rw (e, provide) (Extends-refl s.ctx)
      | inr (p, e) ↦
          rw (e, provide)
            (run-Extends_by req call req-Extends call-keeps p s
              (provider-All NoInvalidate t providers p plain e) w)
    ]

    resolve-Extends :
        (o : Option ValueItem) (t : GoType) (s : State)
        → IsNumbered s.ctx
        → Extends s.ctx (resolve stack providers call req o t s).1.ctx
    unfolding resolve
    resolve-Extends (some i) t s w =
        if-Extends s.ctx i.valid _ _ (Extends-refl s.ctx) (Extends-refl s.ctx)
    resolve-Extends none t s w =
        let pushed = Extends-push s.ctx (pending s.ctx t) refl in
        after-Extends_from s.ctx (push (pending s.ctx t) s.ctx) pushed
          (provide stack providers call req t (set_ctx s (push (pending s.ctx t) s.ctx))) _
          (provide-Extends t (set_ctx s (push (pending s.ctx t) s.ctx)) (push-IsNumbered s.ctx t w))
          λ v s' g. marked-Extends s.ctx t v s' w g

  pub require_type-Extends :
      (fuel : ℕ) (t : GoType) (s : State)
      → IsNumbered s.ctx
      → Extends s.ctx (require_type stack providers call fuel t s).1.ctx
  unfolding require_type
  require_type-Extends zero t s w = Extends-refl s.ctx
  require_type-Extends (suc fuel) t s w =
      if-Extends s.ctx s.ctx.finalized _ _ (Extends-refl s.ctx) (
        if-Extends s.ctx (not (is_ptr_or_interface t.kind)) _ _ (Extends-refl s.ctx) (
          resolve-Extends (require_type stack providers call fuel) (require_type-Extends fuel)
            (find t s.ctx.values) t s w))
