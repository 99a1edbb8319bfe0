-- ===== src/Context/Run.antt =====
-- context.go and factory.go: `Require` and `Provide`, and the run of code under a context.
pub mod Extends
pub mod Total
pub mod Unique
pub mod Cached
pub mod Sequence
pub mod Immediate
mod Tests
use Prim.Native.String
use jonson.Prelude.{
  ℕ, zero, suc, ◌+◌, String, Bool, true, false, not, Option, none, some, List, [], ◌∷◌, ◌++◌, ◌==◌,
  length, if◌then◌else◌,
}
use jonson.Types.{GoType, Kind, same, is_ptr_or_interface}
use jonson.Value.{Value, nil_value}
use jonson.Errors.{GoError, plain, PanicValue, of_error, of_string}
use jonson.Validate.{Result, ok, panicked, ◌>>=◌}
use jonson.Context.{
  ValueItem, Context, find, push, store_value, invalidate, get_value, new_context, Fallible, value,
  failure,
}
use jonson.Context.Prog
use jonson.Context.Prog.{
  Public, MethodCall, Outcome, returned, blocked, out_of_fuel, Prog, done, panic, block, require,
  attempt, items, in_fork, new_public, load_public, save_public, call_method,
}

-- The current context, the `Public` values, which several contexts can share, and the identities
-- of the values whose finalizer has been called.
pub record State : Type 0 where
  pub ctx : Context
  pub publics : List Public
  pub finalizations : List ℕ

abbrev pub Exec : Type 0
Exec = Outcome × State

-- A panic, a wait and a cut-off pass through.
abbrev pub after : Exec → (Value → State → Exec) → Exec
after (returned v, s) f = f v s
after (Outcome.panicked p, s) f = (Outcome.panicked p, s)
after (blocked, s) f = (blocked, s)
after (out_of_fuel, s) f = (out_of_fuel, s)

-- A `defer`red function runs when the function returns or panics.
abbrev pub settle : Exec → (Outcome → State → Exec) → Exec
settle (returned v, s) f = f (returned v) s
settle (Outcome.panicked p, s) f = f (Outcome.panicked p) s
settle (blocked, s) f = (blocked, s)
settle (out_of_fuel, s) f = (out_of_fuel, s)

-- Back from a forked context.
abbrev pub leave : Context → Exec → Exec
leave c (o, s) = (o, record s { ctx = c })

-- A panic of `StoreValue` leaves the state as it is.
abbrev pub with_ctx : Result Context → State → (Context → Exec) → Exec
with_ctx (ok c) s f = f c
with_ctx (panicked p) s f = (Outcome.panicked p, s)

-- The stores of the chosen values in a fork.
unfoldable pub store_each : List (GoType × Value) → Context → Result Context
unfolding store_value
store_each [] c = ok c
store_each ((t, v) ∷ vs) c = store_value t v c >>= store_each vs

unfoldable pub nth {ℓ} : {A : Type ℓ} → ℕ → List A → Option A
nth n [] = none
nth zero (x ∷ xs) = some x
nth (suc n) (x ∷ xs) = nth n xs

unfoldable pub update {ℓ} : {A : Type ℓ} → ℕ → A → List A → List A
update n y [] = []
update zero y (x ∷ xs) = y ∷ xs
update (suc n) y (x ∷ xs) = x ∷ update n y xs

abbrev pub set_ctx : State → Context → State
set_ctx s c = record s { ctx = c }

-- The run of a program, given `Require` and `CallMethod`.
module _ (req : GoType → State → Exec) (call : MethodCall → State → Exec) where
  unfoldable pub run : Prog → State → Exec
  unfolding store_each get_value invalidate new_context nth update
  run (done v) s = (returned v, s)
  run (panic p) s = (Outcome.panicked p, s)
  run block s = (blocked, s)
  run (require t k) s = after (req t s) (λ v s'. run (k v) s')
  run (Prog.get_value t k) s = run (k (get_value t s.ctx)) s
  run (Prog.store_value t v p) s = with_ctx (store_value t v s.ctx) s (λ c. run p (set_ctx s c))
  run (Prog.invalidate ts p) s = run p (set_ctx s (invalidate ts s.ctx))
  run (attempt p h) s = settle (run p s) (λ o s'. run (h o) s')
  run (items k) s = run (k s.ctx.values) s
  run (in_fork vs p k) s =
      with_ctx (store_each vs new_context) s
        (λ c. after (leave s.ctx (run p (set_ctx s c))) (λ v s'. run (k v) s'))
  run (new_public u k) s = run (k (length s.publics)) (record s { publics = s.publics ++ u ∷ [] })
  run (load_public a k) s = run (k (nth a s.publics)) s
  run (save_public a u p) s = run p (record s { publics = update a u s.publics })
  run (call_method m k) s = after (call m s) (λ v s'. run (k v) s')

-- The value of a `Provide` is written to the item that `Require` has pushed, and makes it valid.
unfoldable pub mark : ℕ → Value → List ValueItem → List ValueItem
mark a v [] = []
mark a v (i ∷ is) = (if i.addr == a then record i { val = v; valid = true } else i) ∷ mark a v is

abbrev pub mark_ctx : ℕ → Value → State → State
mark_ctx a v s = set_ctx s (record s.ctx { values = mark a v s.ctx.values })

-- The item that `Require` pushes before and has after the provider's run.
abbrev pub pending : Context → GoType → ValueItem
pending c t = record { addr = c.next; rt = t; val = nil_value; valid = false }

abbrev pub ready : Context → GoType → Value → ValueItem
ready c t v = record { addr = c.next; rt = t; val = v; valid = true }

abbrev pub Providers : Type 0
Providers = List (GoType × Prog)

-- `f.providers[rt]`
unfoldable pub provider : GoType → Providers → Option Prog
provider t [] = none
provider t ((u, p) ∷ ps) = if same u t then some p else provider t ps

-- `strings.Join(out, "\n--> ")` over the types up to the first value that is not valid
unfoldable pub trail : List ValueItem → String
trail [] = ""
trail (i ∷ []) = if i.valid then i.rt.name else ""
trail (i ∷ j ∷ is) =
    let rest = trail (j ∷ is) in
    if i.valid
    then (if j.valid then String.◌++◌ i.rt.name (String.◌++◌ "\n--> " rest) else i.rt.name)
    else ""

-- `debugRecursionLoop`; `stack` is the text of `debug.Stack()`.
unfoldable pub debug_recursion_loop : String → GoType → List ValueItem → GoError
unfolding trail
debug_recursion_loop stack t is = plain (
    String.◌++◌ "recursion loop while resolving " (
      String.◌++◌ t.name (
        String.◌++◌ ":\n-----------\n"
          (String.◌++◌ (trail is) (String.◌++◌ "\n-------------\n" stack)))))

abbrev pub already_finalized : PanicValue
already_finalized = of_error (plain "context is already finalized")

abbrev pub bad_inst : PanicValue
bad_inst = of_error (plain "inst must either be a ptr or an interface")

abbrev pub unknown_provider : GoType → PanicValue
unknown_provider t = of_string (String.◌++◌ "factory: unknown provider type requested: " t.name)

module _ (stack : String) (providers : Providers) (call : MethodCall → State → Exec) where
  -- `Factory.Provide` runs the registered provider; `require_rest` is its way back to `Require`.
  unfoldable pub provide : (GoType → State → Exec) → GoType → State → Exec
  unfolding provider run
  provide require_rest t s = elim (provider t providers) [
    | none ↦ (Outcome.panicked (unknown_provider t), s)
    | some p ↦ run require_rest call p s
  ]

  -- What `Require` does with the item that it finds, or with a new one.
  unfoldable pub resolve : (GoType → State → Exec) → Option ValueItem → GoType → State → Exec
  unfolding provide debug_recursion_loop mark
  resolve require_rest (some i) t s =
      if i.valid
      then (returned i.val, s)
      else (Outcome.panicked (of_error (debug_recursion_loop stack t s.ctx.values)), s)
  resolve require_rest none t s =
      after (provide require_rest t (set_ctx s (push (pending s.ctx t) s.ctx)))
        (λ v s'. (returned v, mark_ctx s.ctx.next v s'))

  -- `Require`. The fuel bounds how deep providers require one another.
  unfoldable pub require_type : ℕ → GoType → State → Exec
  unfolding resolve find
  require_type zero t s = (out_of_fuel, s)
  require_type (suc fuel) t s =
      if s.ctx.finalized
      then (Outcome.panicked already_finalized, s)
      else if not (is_ptr_or_interface t.kind)
      then (Outcome.panicked bad_inst, s)
      else resolve (require_type fuel) (find t s.ctx.values) t s

  -- Enough fuel for every chain of providers (`Total`).
  abbrev pub depth : ℕ
  depth = suc (length providers)
