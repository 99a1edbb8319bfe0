-- ===== src/Context/Run/Total.antt =====
-- `Require` ends: the depth of providers that require one another is bounded by their number.
use jonson.Prelude.{
  ℕ, zero, suc, ◌+◌, ◌≤◌, ◌<◌, String, Bool, true, false, not, Option, none, some, List, [], ◌∷◌,
  ◌++◌, ◌≡◌, ◌≢◌, refl, ap, ◌∙◌, arith, length, All, if◌then◌else◌, Option-cases, inl, inr,
}
use jonson.Types.{GoType, same, is_ptr_or_interface}
use jonson.Value.{Value}
use jonson.Validate.{Result, ok, panicked}
use jonson.Context.{ValueItem, Context, has, find, push, store_value, Fallible}
use jonson.Context
use jonson.Context.Items.{store_value-eq-ok, has-eq-find, has-append}
use jonson.Context.Prog.{
  Public, MethodCall, Outcome, returned, blocked, out_of_fuel, Prog, done, panic, block, require,
  attempt, items, in_fork, new_public, load_public, save_public, call_method,
}
use jonson.Context.Run.{
  State, Exec, after, settle, with_ctx, run, set_ctx, pending, Providers, provider, provide,
  resolve, require_type, depth,
}
use jonson.Context.Run.Extends.{provider-All, has-mark}

-- Code that works on its own context only and does not invalidate values.
abbrev pub IsLocal : Prog → Type 0
IsLocal (done v) = Unit
IsLocal (panic p) = Unit
IsLocal block = Unit
IsLocal (require t k) = (v : Value) → IsLocal (k v)
IsLocal (Prog.get_value t k) = (r : Fallible Value) → IsLocal (k r)
IsLocal (Prog.store_value t v p) = IsLocal p
IsLocal (Prog.invalidate ts p) = ⊥
IsLocal (attempt p h) = IsLocal p × ((o : Outcome) → IsLocal (h o))
IsLocal (items k) = (is : List ValueItem) → IsLocal (k is)
IsLocal (in_fork vs p k) = ⊥
IsLocal (new_public u k) = (a : ℕ) → IsLocal (k a)
IsLocal (load_public a k) = (u : Option Public) → IsLocal (k u)
IsLocal (save_public a u p) = IsLocal p
IsLocal (call_method m k) = ⊥

-- The number of registered types that a list of values lacks.
missing : Providers → List ValueItem → ℕ
missing [] is = 0
missing ((t, p) ∷ ps) is = (if has t is then 0 else 1) + missing ps is

-- What the one list has, the other has too.
abbrev HasAll : List ValueItem → List ValueItem → Type 0
HasAll is js = (t : GoType) → has t is ≡ true → has t js ≡ true

missing-le :
    (ps : Providers) (is js : List ValueItem) → HasAll is js → missing ps js ≤ missing ps is
unfolding missing
missing-le [] is js h = omega arith
missing-le ((t, p) ∷ ps) is js h = ground (arith, h t, missing-le ps is js h)

missing-le-length : (ps : Providers) (is : List ValueItem) → missing ps is ≤ length ps
unfolding missing
missing-le-length [] is = omega arith
missing-le-length ((t, p) ∷ ps) is = ground (arith, missing-le-length ps is)

has-same : (t u : GoType) (is : List ValueItem) → same t u ≡ true → has t is ≡ has u is
unfolding has
has-same t u [] h = refl
has-same t u (i ∷ is) h = ground (arith, has-same t u is h)

HasAll-append : (is js : List ValueItem) → HasAll is (is ++ js)
HasAll-append is js t h = has-append t is js ∙ rw h

-- One more of the registered types is there.
missing-push :
    (ps : Providers) (is : List ValueItem) (i : ValueItem) (p : Prog)
    → provider i.rt ps ≡ some p
    → has i.rt is ≡ false
    → missing ps (is ++ i ∷ []) < missing ps is
unfolding missing provider has
missing-push [] is i p h e = cc
missing-push ((t, q) ∷ ps) is i p h e = ground (
  arith,
  has-append t is (i ∷ []),
  has-same t i.rt is,
  missing-push ps is i p,
  missing-le ps is (is ++ i ∷ []) (HasAll-append is (i ∷ [])),
)

-- A run that is not cut off, and leaves a context with all the types that it had.
record Ends (c : Context) (e : Exec) : Type 0 where
  ends : e.0 ≢ out_of_fuel
  keeps : HasAll c.values e.1.ctx.values

Ends-here : (o : Outcome) (s : State) → o ≢ out_of_fuel → Ends s.ctx (o, s)
Ends-here o s h = record { ends = h; keeps = λ t p. p }

Ends-from : {c c' : Context} (e : Exec) → HasAll c.values c'.values → Ends c' e → Ends c e
Ends-from e h g = record { ends = g.ends; keeps = λ t p. g.keeps t (h t p) }

after-Ends :
    (c : Context) (e : Exec) (f : Value → State → Exec)
    → Ends c e
    → ((v : Value) (s : State) → HasAll c.values s.ctx.values → Ends c (f v s))
    → Ends c (after e f)
after-Ends c (returned v, s) f g h = h v s g.keeps
after-Ends c (Outcome.panicked p, s) f g h = g
after-Ends c (blocked, s) f g h = g
after-Ends c (out_of_fuel, s) f g h = absurd (g.ends refl)

settle-Ends :
    (c : Context) (e : Exec) (f : Outcome → State → Exec)
    → Ends c e
    → ((o : Outcome) (s : State) → HasAll c.values s.ctx.values → Ends c (f o s))
    → Ends c (settle e f)
settle-Ends c (returned v, s) f g h = h (returned v) s g.keeps
settle-Ends c (Outcome.panicked p, s) f g h = h (Outcome.panicked p) s g.keeps
settle-Ends c (blocked, s) f g h = g
settle-Ends c (out_of_fuel, s) f g h = absurd (g.ends refl)

with_ctx-Ends :
    (c : Context) (r : Result Context) (s : State) (f : Context → Exec)
    → HasAll c.values s.ctx.values
    → ((c' : Context) → r ≡ ok c' → Ends c (f c'))
    → Ends c (with_ctx r s f)
with_ctx-Ends c (ok c') s f g h = h c' refl
with_ctx-Ends c (panicked p) s f g h = record { ends = λ q. cc; keeps = g }

if-Ends :
    (c : Context) (b : Bool) (x y : Exec)
    → (b ≡ true → Ends c x)
    → (b ≡ false → Ends c y)
    → Ends c (if b then x else y)
if-Ends c true x y g h = g refl
if-Ends c false x y g h = h refl

store_value-HasAll :
    (t : GoType) (v : Value) (c c' : Context)
    → Context.store_value t v c ≡ ok c'
    → HasAll c.values c'.values
store_value-HasAll t v c c' h u p =
    ap (λ (d : Context). has u d.values) (store_value-eq-ok t v c c' h).1
    ∙ HasAll-append c.values _ u p

fewer :
    (ps : Providers) (fuel : ℕ) (s s' : State)
    → HasAll s.ctx.values s'.ctx.values
    → missing ps s.ctx.values < fuel
    → missing ps s'.ctx.values < fuel
fewer ps fuel s s' h w = omega (arith, missing-le ps s.ctx.values s'.ctx.values h)

module _ (providers : Providers) (call : MethodCall → State → Exec) (fuel : ℕ)
    (req : GoType → State → Exec)
    (req-Ends : (t : GoType) (s : State)
      → missing providers s.ctx.values < fuel
      → Ends s.ctx (req t s)) where
  run-Ends :
      (p : Prog) (s : State)
      → IsLocal p
      → missing providers s.ctx.values < fuel
      → Ends s.ctx (run req call p s)
  unfolding run
  run-Ends (done v) s n w = Ends-here (returned v) s (λ q. cc)
  run-Ends (panic p) s n w = Ends-here (Outcome.panicked p) s (λ q. cc)
  run-Ends block s n w = Ends-here blocked s (λ q. cc)
  run-Ends (require t k) s n w =
      after-Ends s.ctx (req t s) _ (req-Ends t s w)
        λ v s' h. Ends-from _ h (run-Ends (k v) s' (n v) (fewer providers fuel s s' h w))
  run-Ends (Prog.get_value t k) s n w = run-Ends (k _) s (n _) w
  run-Ends (Prog.store_value t v p) s n w =
      with_ctx-Ends s.ctx (Context.store_value t v s.ctx) s _ (λ u q. q)
        λ c e.
          let h = store_value-HasAll t v s.ctx c e in
          Ends-from _ h (run-Ends p (set_ctx s c) n (fewer providers fuel s (set_ctx s c) h w))
  run-Ends (Prog.invalidate ts p) s n w = absurd n
  run-Ends (attempt p h) s n w =
      settle-Ends s.ctx (run req call p s) _ (run-Ends p s n.0 w)
        λ o s' g. Ends-from _ g (run-Ends (h o) s' (n.1 o) (fewer providers fuel s s' g w))
  run-Ends (items k) s n w = run-Ends (k _) s (n _) w
  run-Ends (in_fork vs p k) s n w = absurd n
  run-Ends (new_public u k) s n w = run-Ends (k _) _ (n _) w
  run-Ends (load_public a k) s n w = run-Ends (k _) s (n _) w
  run-Ends (save_public a u p) s n w = run-Ends p _ n w
  run-Ends (call_method m k) s n w = absurd n

module _ (stack : String) (providers : Providers) (call : MethodCall → State → Exec)
    (local : All (λ e. IsLocal e.1) providers) where
  provide-Ends :
      (fuel : ℕ) (req : GoType → State → Exec)
      → ((t : GoType) (s : State) → missing providers s.ctx.values < fuel → Ends s.ctx (req t s))
      → (t : GoType) (s : State) → has t s.ctx.values ≡ false
      → missing providers s.ctx.values < suc fuel
      → Ends s.ctx (provide stack providers call req t (set_ctx s (push (pending s.ctx t) s.ctx)))
  unfolding provide
  provide-Ends fuel req req-Ends t s new w = elim (Option-cases (provider t providers)) [
    | inl e ↦ rw (e, provide) (record { ends = λ q. cc; keeps = HasAll-append s.ctx.values _ })
    | inr (p, e) ↦
        rw (e, provide)
          (Ends-from _ (HasAll-append s.ctx.values _) (
            run-Ends providers call fuel req req-Ends p (set_ctx s (push (pending s.ctx t) s.ctx))
              (provider-All IsLocal t providers p local e)
              (omega (arith, missing-push providers s.ctx.values (pending s.ctx t) p e new))))
  ]

  resolve-Ends :
      (fuel : ℕ) (req : GoType → State → Exec)
      → ((t : GoType) (s : State) → missing providers s.ctx.values < fuel → Ends s.ctx (req t s))
      → (t : GoType) (s : State) (o : Option ValueItem) → find t s.ctx.values ≡ o
      → missing providers s.ctx.values < suc fuel
      → Ends s.ctx (resolve stack providers call req o t s)
  unfolding resolve
  resolve-Ends fuel req req-Ends t s (some i) found w =
      if-Ends s.ctx i.valid _ _ (λ _. Ends-here _ s (λ q. cc)) (λ _. Ends-here _ s (λ q. cc))
  resolve-Ends fuel req req-Ends t s none found w =
      after-Ends s.ctx
        (provide stack providers call req t (set_ctx s (push (pending s.ctx t) s.ctx))) _
        (provide-Ends fuel req req-Ends t s (has-eq-find t s.ctx.values found) w)
        λ v s' h. record {
          ends = λ q. cc;
          keeps = λ u p. has-mark u s.ctx.next v s'.ctx.values ∙ h u p;
        }

  require_type-Ends :
      (fuel : ℕ) (t : GoType) (s : State)
      → missing providers s.ctx.values < fuel
      → Ends s.ctx (require_type stack providers call fuel t s)
  unfolding require_type
  require_type-Ends zero t s w = elim w [ ]
  require_type-Ends (suc fuel) t s w =
      if-Ends s.ctx s.ctx.finalized _ _ (λ _. Ends-here _ s (λ q. cc))
        λ _.
          if-Ends s.ctx (not (is_ptr_or_interface t.kind)) _ _ (λ _. Ends-here _ s (λ q. cc))
            λ _.
              resolve-Ends fuel (require_type stack providers call fuel) (require_type-Ends fuel) t
                s (find t s.ctx.values) refl w

  -- `Require` ends in every state, with a value, a panic or a wait for a mutex, where the code of
  -- each provider works on its own context only and does not invalidate values: providers that
  -- require one another in a circle are stopped, so that one more than their number bounds the
  -- depth of the calls.
  pub require_type-ends :
      (t : GoType) (s : State)
      → (require_type stack providers call (depth stack providers call) t s).0 ≢ out_of_fuel
  require_type-ends t s =
      (require_type-Ends (suc (length providers)) t s
        (omega (arith, missing-le-length providers s.ctx.values))).ends
