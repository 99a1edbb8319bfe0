-- ===== src/Context/AsMap.antt =====
-- What a context promises to code that stores, reads and drops values (context.go): it is a finite
-- map from types to values, whatever the order of its list of items.
pub mod Simulation
mod Tests
use jonson.Prelude.{
  ℕ, Bool, true, false, ◌&&◌, ◌||◌, Option, none, some, List, [], ◌∷◌, ◌++◌, ◌≡◌, refl, sym, ap,
  ◌∙◌, arith, ◌==◌, ==_refl, ==_iff, any, All, All-append, if◌then◌else◌, Bool-cases, Option-cases,
  inl, inr,
}
use jonson.Types.{GoType, same, type_context}
use jonson.Value.{Value, this_context}
use jonson.Errors.{GoError, plain, PanicValue}
use jonson.Validate.{Result, ok, panicked}
use jonson.Context.{
  ValueItem, Context, has, find_valid, push, store_value, without, invalidate, Fallible, value,
  failure, get_value, new_context, already_stored,
}

-- The calls of `StoreValue`, `Invalidate` and `GetValue`.
pub data Op : Type 0 where
  store : GoType → Value → Op
  drop : List GoType → Op
  get : GoType → Op

-- What the caller sees; a panic is recovered.
pub data Reply : Type 0 where
  stored : Reply
  refused : PanicValue → Reply
  dropped : Reply
  got : Fallible Value → Reply

abbrev stored_or_refused : Context → Result Context → Reply × Context
stored_or_refused c (ok c') = (stored, c')
stored_or_refused c (panicked p) = (refused p, c)

-- A call on a context.
abbrev pub perform : Op → Context → Reply × Context
perform (store t v) c = stored_or_refused c (store_value t v c)
perform (drop ts) c = (dropped, invalidate ts c)
perform (get t) c = (got (get_value t c), c)

unfoldable pub replies : List Op → Context → List Reply
replies [] c = []
replies (o ∷ os) c = (perform o c).0 ∷ replies os (perform o c).1

-- The specification: a function from the identities of types.
abbrev pub Map : Type 0
Map = ℕ → Option Value

abbrev pub initial : Map
initial n = if type_context.id == n then some this_context else none

abbrev pub get_from : Option Value → Fallible Value
get_from (some v) = value v
get_from none = failure (plain "instance not found")

abbrev pub store_in : GoType → Value → Map → Option Value → Reply × Map
store_in t v m (some w) = (refused (already_stored t), m)
store_in t v m none = (stored, λ n. if t.id == n then some v else m n)

abbrev pub specified : Op → Map → Reply × Map
specified (store t v) m = store_in t v m (m t.id)
specified (drop ts) m = (dropped, λ n. if any (λ (t : GoType). n == t.id) ts then none else m n)
specified (get t) m = (got (get_from (m t.id)), m)

unfoldable pub specified_replies : List Op → Map → List Reply
specified_replies [] m = []
specified_replies (o ∷ os) m = (specified o m).0 ∷ specified_replies os (specified o m).1
