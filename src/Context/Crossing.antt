-- ===== src/Context/Crossing.antt =====
-- What crosses into another context: the loop over `ctx.values` of `CallMethod`
-- (method.handler.go) and of `Impersonate` (impersonate.go), as a relation.
use jonson.Prelude.{Bool, true, false, ◌&&◌, List, [], ◌∷◌, ◌≡◌, if◌then◌else◌}
use jonson.Types.{GoType}
use jonson.Value.{Value}
use jonson.Context.{ValueItem}

-- The valid values with the mark `tag`, in order, and no other.
pub data Crosses (tag : Value → Bool) : List ValueItem → List (GoType × Value) → Type 0 where
  no_item : Crosses tag [] []
  taken :
      (i : ValueItem) (is : List ValueItem) (vs : List (GoType × Value))
      → i.valid ≡ true
      → tag i.val ≡ true
      → Crosses tag is vs
      → Crosses tag (i ∷ is) ((i.rt, i.val) ∷ vs)
  pending_left :
      (i : ValueItem) (is : List ValueItem) (vs : List (GoType × Value))
      → i.valid ≡ false
      → Crosses tag is vs
      → Crosses tag (i ∷ is) vs
  own_left :
      (i : ValueItem) (is : List ValueItem) (vs : List (GoType × Value))
      → tag i.val ≡ false
      → Crosses tag is vs
      → Crosses tag (i ∷ is) vs

pub Crosses-item :
    (tag : Value → Bool) (i : ValueItem) (is : List ValueItem) (vs : List (GoType × Value))
    (v h : Bool)
    → i.valid ≡ v
    → tag i.val ≡ h
    → Crosses tag is vs
    → Crosses tag (i ∷ is) (if v && h then (i.rt, i.val) ∷ vs else vs)
Crosses-item tag i is vs true true v h r = taken i is vs v h r
Crosses-item tag i is vs true false v h r = own_left i is vs h r
Crosses-item tag i is vs false h v e r = pending_left i is vs v r
