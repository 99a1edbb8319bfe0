-- ===== src/Context/Prog.antt =====
-- Code of the library's users that runs under a context (providers, procedures, finalisation
-- aside), as the tree of the calls that it makes on its context. Every method of `*Context` that
-- such code can call is a node; what it computes in between is the choice of the next node.
use jonson.Prelude.{ℕ, Bool, Option, List}
use jonson.Text.{Text}
use jonson.Types.{GoType}
use jonson.Errors.{GoError, PanicValue}
use jonson.Value.{Value, RpcHttpMethod}
use jonson.Context.{ValueItem, Fallible}

-- The fields of `Public` that change (auth.go). `locked` is its mutex.
pub record Public : Type 0 where
  pub checked : Bool
  pub account_uuid : Option Text
  pub err : Option GoError
  pub locked : Bool

-- The arguments of `CallMethod`. `payload` is what `json.Marshal` makes of the value that is
-- passed, or its error.
pub record MethodCall : Type 0 where
  pub method : Text
  pub http_method : RpcHttpMethod
  pub payload : Fallible Text
  pub bindata : Option Text

-- How a run ends. `blocked` waits for a mutex that nobody unlocks, `out_of_fuel` is a recursion
-- that the model cut off.
pub data Outcome : Type 0 where
  returned : Value → Outcome
  panicked : PanicValue → Outcome
  blocked : Outcome
  out_of_fuel : Outcome

pub data Prog : Type 0 where
  done : Value → Prog
  panic : PanicValue → Prog
  block : Prog
  require : GoType → (Value → Prog) → Prog
  get_value : GoType → (Fallible Value → Prog) → Prog
  store_value : GoType → Value → Prog → Prog
  invalidate : List GoType → Prog → Prog
  -- a `defer` with or without `recover`: the continuation sees how the first part ended
  attempt : Prog → (Outcome → Prog) → Prog
  -- the loop over `ctx.values`
  items : (List ValueItem → Prog) → Prog
  -- code run under a fork of the context in which the given values are stored
  in_fork : List (GoType × Value) → Prog → (Value → Prog) → Prog
  new_public : Public → (ℕ → Prog) → Prog
  load_public : ℕ → (Option Public → Prog) → Prog
  save_public : ℕ → Public → Prog → Prog
  call_method : MethodCall → (Value → Prog) → Prog

infixl 5 ◌>>=◌
unfoldable pub ◌>>=◌ : Prog → (Value → Prog) → Prog
done v >>= f = f v
panic p >>= f = panic p
block >>= f = block
require t k >>= f = require t (λ v. k v >>= f)
get_value t k >>= f = get_value t (λ v. k v >>= f)
store_value t v p >>= f = store_value t v (p >>= f)
invalidate ts p >>= f = invalidate ts (p >>= f)
attempt p h >>= f = attempt p (λ o. h o >>= f)
items k >>= f = items (λ is. k is >>= f)
in_fork vs p k >>= f = in_fork vs p (λ v. k v >>= f)
new_public u k >>= f = new_public u (λ a. k a >>= f)
load_public a k >>= f = load_public a (λ u. k u >>= f)
save_public a u p >>= f = save_public a u (p >>= f)
call_method m k >>= f = call_method m (λ v. k v >>= f)
