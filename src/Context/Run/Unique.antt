-- ===== src/Context/Run/Unique.antt =====
-- What every operation on a context keeps: its items have distinct types and distinct addresses.
use mathlib.Core.Path.{subst}
use jonson.Prelude.{
  ℕ, zero, suc, ◌<◌, String, Bool, true, false, not, Option, none, some, List, [], ◌∷◌, ◌++◌, ◌≡◌,
  refl, sym, ◌∙◌, arith, any, All, All-append, All-map, ◌==◌, if◌then◌else◌, Bool-cases,
  Option-cases, inl, inr,
}
use jonson.Types.{GoType, same, is_ptr_or_interface}
use jonson.Value.{Value}
use jonson.Validate.{Result, ok, panicked}
use jonson.Context.{
  ValueItem, Context, has, find, push, invalidate, without, new_context, store_value,
}
use jonson.Context
use jonson.Context.Items.{store_value-eq-ok, has-eq-find, has-append}
use jonson.Context.Prog.{
  MethodCall, Outcome, returned, blocked, out_of_fuel, Prog, done, panic, block, require, attempt,
  items, in_fork, new_public, load_public, save_public, call_method,
}
use jonson.Context.Run.{
  State, Exec, after, settle, leave, with_ctx, store_each, run, mark, set_ctx, pending, Providers,
  provider, provide, resolve, require_type,
}
use jonson.Context.Run.Extends.{KeepsContext, has-mark}

-- A property of contexts that each change of a context keeps.
pub record IsStable (P : Context → Type 0) : Type 0 where
  pub push_new :
      (c : Context) (t : GoType) (v : Value) (b : Bool)
      → has t c.values ≡ false
      → P c
      → P (push (record { addr = c.next; rt = t; val = v; valid = b }) c)
  pub invalidated : (c : Context) (ts : List GoType) → P c → P (invalidate ts c)
  pub marked : (c : Context) (a : ℕ) (v : Value) → P c → P (record c { values = mark a v c.values })

module _ (P : Context → Type 0) where
  -- `P` holds of the context that a run leaves.
  abbrev Leaves : Exec → Type 0
  Leaves e = P e.1.ctx

  after-Leaves :
      (e : Exec) (f : Value → State → Exec)
      → Leaves e
      → ((v : Value) (s : State) → P s.ctx → Leaves (f v s))
      → Leaves (after e f)
  after-Leaves (returned v, s) f g h = h v s g
  after-Leaves (Outcome.panicked p, s) f g h = g
  after-Leaves (blocked, s) f g h = g
  after-Leaves (out_of_fuel, s) f g h = g

  settle-Leaves :
      (e : Exec) (f : Outcome → State → Exec)
      → Leaves e
      → ((o : Outcome) (s : State) → P s.ctx → Leaves (f o s))
      → Leaves (settle e f)
  settle-Leaves (returned v, s) f g h = h (returned v) s g
  settle-Leaves (Outcome.panicked p, s) f g h = h (Outcome.panicked p) s g
  settle-Leaves (blocked, s) f g h = g
  settle-Leaves (out_of_fuel, s) f g h = g

  with_ctx-Leaves :
      (r : Result Context) (s : State) (f : Context → Exec)
      → P s.ctx
      → ((c : Context) → r ≡ ok c → Leaves (f c))
      → Leaves (with_ctx r s f)
  with_ctx-Leaves (ok c) s f g h = h c refl
  with_ctx-Leaves (panicked p) s f g h = g

  if-Leaves : (b : Bool) (x y : Exec) → Leaves x → Leaves y → Leaves (if b then x else y)
  if-Leaves true x y g h = g
  if-Leaves false x y g h = h

module _ (P : Context → Type 0) (stable : IsStable P) (call : MethodCall → State → Exec)
    (call-keeps : KeepsContext call) where
  run-Leaves :
      (req : GoType → State → Exec)
      → ((t : GoType) (s : State) → P s.ctx → Leaves P (req t s))
      → (p : Prog) (s : State) → P s.ctx
      → Leaves P (run req call p s)
  unfolding run
  run-Leaves req r (done v) s w = w
  run-Leaves req r (panic p) s w = w
  run-Leaves req r block s w = w
  run-Leaves req r (require t k) s w =
      after-Leaves P (req t s) _ (r t s w) (λ v s' g. run-Leaves req r (k v) s' g)
  run-Leaves req r (Prog.get_value t k) s w = run-Leaves req r (k _) s w
  run-Leaves req r (Prog.store_value t v p) s w =
      with_ctx-Leaves P (Context.store_value t v s.ctx) s _ w λ c e.
        let (new, pushed) = store_value-eq-ok t v s.ctx c e in
        run-Leaves req r p (set_ctx s c)
          (subst P (sym pushed) (stable.push_new s.ctx t v true new w))
  run-Leaves req r (Prog.invalidate ts p) s w = run-Leaves req r p _ (stable.invalidated s.ctx ts w)
  run-Leaves req r (attempt p h) s w =
      settle-Leaves P (run req call p s) _ (run-Leaves req r p s w)
        (λ o s' g. run-Leaves req r (h o) s' g)
  run-Leaves req r (items k) s w = run-Leaves req r (k _) s w
  run-Leaves req r (in_fork vs p k) s w = with_ctx-Leaves P (store_each vs new_context) s _ w λ c e.
      after-Leaves P (leave s.ctx (run req call p (set_ctx s c))) _ w
        (λ v s' g. run-Leaves req r (k v) s' g)
  run-Leaves req r (new_public u k) s w = run-Leaves req r (k _) _ w
  run-Leaves req r (load_public a k) s w = run-Leaves req r (k _) s w
  run-Leaves req r (save_public a u p) s w = run-Leaves req r p _ w
  run-Leaves req r (call_method m k) s w =
      after-Leaves P (call m s) _ (rw call-keeps w) (λ v s' g. run-Leaves req r (k v) s' g)

  module _ (stack : String) (providers : Providers) where
    pub provide-Leaves :
        (req : GoType → State → Exec)
        → ((t : GoType) (s : State) → P s.ctx → Leaves P (req t s))
        → (t : GoType) (s : State) → P s.ctx
        → Leaves P (provide stack providers call req t s)
    unfolding provide
    provide-Leaves req r t s w = elim (Option-cases (provider t providers)) [
      | inl e ↦ rw (e, provide) w
      | inr (p, e) ↦ rw (e, provide) (run-Leaves req r p s w)
    ]

    resolve-Leaves :
        (req : GoType → State → Exec)
        → ((t : GoType) (s : State) → P s.ctx → Leaves P (req t s))
        → (t : GoType) (s : State) (o : Option ValueItem) → find t s.ctx.values ≡ o
        → P s.ctx
        → Leaves P (resolve stack providers call req o t s)
    unfolding resolve
    resolve-Leaves req r t s (some i) found w = if-Leaves P i.valid _ _ w w
    resolve-Leaves req r t s none found w =
        after-Leaves P
          (provide stack providers call req t (set_ctx s (push (pending s.ctx t) s.ctx))) _
          (provide-Leaves req r t _
            (stable.push_new s.ctx t _ false (has-eq-find t s.ctx.values found) w))
          (λ v s' g. stable.marked s'.ctx s.ctx.next v g)

    pub require_type-Leaves :
        (fuel : ℕ) (t : GoType) (s : State)
        → P s.ctx
        → Leaves P (require_type stack providers call fuel t s)
    unfolding require_type
    require_type-Leaves zero t s w = w
    require_type-Leaves (suc fuel) t s w = if-Leaves P s.ctx.finalized _ _ w (
        if-Leaves P (not (is_ptr_or_interface t.kind)) _ _ w (
          resolve-Leaves (require_type stack providers call fuel) (require_type-Leaves fuel) t s
            (find t s.ctx.values) refl w))

-- No two items have one type.
abbrev pub Unique : List ValueItem → Type 0
Unique [] = Unit
Unique (i ∷ is) = (has i.rt is ≡ false) × Unique is

pub record IsWellFormed (c : Context) : Type 0 where
  pub unique : Unique c.values
  pub numbered : All (λ i. i.addr < c.next) c.values

Unique-snoc :
    (is : List ValueItem) (i : ValueItem) → Unique is → has i.rt is ≡ false → Unique (is ++ i ∷ [])
unfolding has
Unique-snoc [] i u h = (refl, tt)
Unique-snoc (j ∷ is) i u h = (rw has-append (ground arith), Unique-snoc is i u.1 (ground arith))

has-without :
    (t : GoType) (ts : List GoType) (is : List ValueItem)
    → has t is ≡ false
    → has t (without ts is) ≡ false
unfolding has without
has-without t ts [] h = refl
has-without t ts (i ∷ is) h = ground (arith, has-without t ts is)

Unique-without : (ts : List GoType) (is : List ValueItem) → Unique is → Unique (without ts is)
unfolding without
Unique-without ts [] u = tt
Unique-without ts (i ∷ is) u = elim (Bool-cases (any (λ t. same i.rt t) ts)) [
  | inl gone ↦ rw gone (Unique-without ts is u.1)
  | inr stays ↦ rw stays (has-without i.rt ts is u.0, Unique-without ts is u.1)
]

All-without :
    (n : ℕ) (ts : List GoType) (is : List ValueItem)
    → All (λ i. i.addr < n) is
    → All (λ i. i.addr < n) (without ts is)
unfolding without
All-without n ts [] h = tt
All-without n ts (i ∷ is) h = elim (Bool-cases (any (λ t. same i.rt t) ts)) [
  | inl gone ↦ rw gone (All-without n ts is h.1)
  | inr stays ↦ rw stays (h.0, All-without n ts is h.1)
]

rt-mark :
    (a : ℕ) (v : Value) (i : ValueItem)
    → (if i.addr == a then record i { val = v; valid = true } else i).rt ≡ i.rt
rt-mark a v i = ground arith

Unique-mark : (a : ℕ) (v : Value) (is : List ValueItem) → Unique is → Unique (mark a v is)
unfolding mark
Unique-mark a v [] u = tt
Unique-mark a v (i ∷ is) u =
    let head_new : has (if i.addr == a then record i { val = v; valid = true } else i).rt
          (mark a v is)
        ≡ false =
      rw (rt-mark a v i) (has-mark i.rt a v is ∙ u.0) in
    (head_new, Unique-mark a v is u.1)

All-mark :
    (n a : ℕ) (v : Value) (is : List ValueItem)
    → All (λ i. i.addr < n) is
    → All (λ i. i.addr < n) (mark a v is)
unfolding mark
All-mark n a v [] h = tt
All-mark n a v (i ∷ is) h = (ground (arith, h.0), All-mark n a v is h.1)

pub IsWellFormed-IsStable : IsStable IsWellFormed
unfolding invalidate
IsWellFormed-IsStable = record {
  push_new = λ c t v b new w. record {
    unique =
        Unique-snoc c.values (record { addr = c.next; rt = t; val = v; valid = b }) w.unique new;
    numbered =
        All-append _ c.values (_ ∷ []) (All-map _ _ c.values (λ i p. omega arith) w.numbered)
          (omega arith, tt);
  };
  invalidated = λ c ts w. record {
    unique = Unique-without ts c.values w.unique;
    numbered = All-without c.next ts c.values w.numbered;
  };
  marked = λ c a v w. record {
    unique = Unique-mark a v c.values w.unique;
    numbered = All-mark c.next a v c.values w.numbered;
  };
}

pub new_context-IsWellFormed : IsWellFormed new_context
unfolding new_context has
new_context-IsWellFormed = record { unique = (refl, tt); numbered = (omega arith, tt) }

-- Whatever code runs under a context, `Require`, `StoreValue` and `Invalidate` in any order, also
-- where it panics: the items of the context keep distinct types, and addresses that were given out.
pub run-IsWellFormed :
    (stack : String) (providers : Providers) (call : MethodCall → State → Exec)
    → KeepsContext call
    → (fuel : ℕ) (p : Prog) (s : State) → IsWellFormed s.ctx
    → IsWellFormed (run (require_type stack providers call fuel) call p s).1.ctx
run-IsWellFormed stack providers call k fuel =
    run-Leaves IsWellFormed IsWellFormed-IsStable call k (require_type stack providers call fuel)
      (require_type-Leaves IsWellFormed IsWellFormed-IsStable call k stack providers fuel)
