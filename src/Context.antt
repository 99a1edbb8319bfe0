-- ===== src/Context.antt =====
-- context.go: a context and the operations that do not run a provider.
pub mod Prog
pub mod Run
pub mod Final
pub mod Crossing
pub mod Items
pub mod Typed
pub mod AsMap
use Prim.Native.String
use jonson.Prelude.{
  ℕ, suc, ◌+◌, String, Bool, true, false, ◌&&◌, ◌||◌, not, Option, none, some, List, [], ◌∷◌, ◌++◌,
  ◌==◌, any, if◌then◌else◌,
}
use jonson.Types.{GoType, same, type_context}
use jonson.Value.{Value, nil_value, this_context}
use jonson.Errors.{GoError, plain, PanicValue, of_error}
use jonson.Validate.{Result, ok, panicked, ◌>>=◌}

-- `valueItem`. An item is a pointer: `addr` tells it from the other items of the context.
pub record ValueItem : Type 0 where
  pub addr : ℕ
  pub rt : GoType
  pub val : Value
  pub valid : Bool

-- `Context`. The parent, the factory and the method handler never change: they are parameters of
-- the operations that use them. `next` is the address of the next item.
pub record Context : Type 0 where
  pub values : List ValueItem
  pub finalized : Bool
  pub next : ℕ

-- The loops `if values[i].rt == rt`.
unfoldable pub has : GoType → List ValueItem → Bool
has t [] = false
has t (i ∷ is) = same i.rt t || has t is

unfoldable pub find : GoType → List ValueItem → Option ValueItem
find t [] = none
find t (i ∷ is) = if same i.rt t then some i else find t is

abbrev pub push : ValueItem → Context → Context
push i c = record c { values = c.values ++ i ∷ []; next = suc c.next }

abbrev pub already_stored : GoType → PanicValue
already_stored t =
    of_error (plain (String.◌++◌ "value of type " (String.◌++◌ t.name " is already stored")))

-- `StoreValue`
unfoldable pub store_value : GoType → Value → Context → Result Context
unfolding has
store_value t v c =
    if has t c.values
    then panicked (already_stored t)
    else ok (push (record { addr = c.next; rt = t; val = v; valid = true }) c)

-- `Invalidate`
unfoldable pub without : List GoType → List ValueItem → List ValueItem
without ts [] = []
without ts (i ∷ is) =
    let rest = without ts is in if any (λ t. same i.rt t) ts then rest else i ∷ rest

unfoldable pub invalidate : List GoType → Context → Context
unfolding without
invalidate ts c = record c { values = without ts c.values }

-- A Go result `(A, error)`.
pub data Fallible {ℓ} (A : Type ℓ) : Type ℓ where
  value : A → Fallible A
  failure : GoError → Fallible A

-- the loop of `GetValue`
unfoldable pub find_valid : GoType → List ValueItem → Option Value
find_valid t [] = none
find_valid t (i ∷ is) = if same i.rt t && i.valid then some i.val else find_valid t is

-- `GetValue`
unfoldable pub get_value : GoType → Context → Fallible Value
unfolding find_valid
get_value t c =
    if c.finalized
    then failure (plain "context is already finalized")
    else elim (find_valid t c.values) [
      | some v ↦ value v
      | none ↦ failure (plain "instance not found")
    ]

-- `NewContext`; the first item holds the context itself.
unfoldable pub new_context : Context
new_context = record {
  values = record { addr = 0; rt = type_context; val = this_context; valid = true } ∷ [];
  finalized = false;
  next = 1;
}

-- `Fork`
unfoldable pub fork : Context → Context
unfolding new_context
fork c = new_context

-- the loop of `Clone`
unfoldable pub append_valid : List ValueItem → Context → Context
append_valid [] forked = forked
append_valid (i ∷ is) forked =
    append_valid is (if i.valid then record forked { values = forked.values ++ i ∷ [] } else forked)

-- `Clone`: the pair of the context that the method builds and of the one that it returns.
unfoldable pub clone : Context → Context × Context
unfolding fork append_valid
clone c = (append_valid c.values (fork c), c)
