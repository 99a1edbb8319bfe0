-- ===== src/Context/Items.antt =====
-- The operations of context.go on the list of values.
use jonson.Prelude.{true, false, ◌||◌, none, some, List, [], ◌∷◌, ◌++◌, ◌≡◌, refl, ◌∙◌, arith}
use jonson.Types.{GoType, same}
use jonson.Value.{Value}
use jonson.Validate.{ok}
use jonson.Context.{ValueItem, Context, has, find, push, store_value}

pub store_value-eq-ok :
    (t : GoType) (v : Value) (c c' : Context)
    → store_value t v c ≡ ok c'
    → (has t c.values ≡ false)
      × (c' ≡ push (record { addr = c.next; rt = t; val = v; valid = true }) c)
unfolding store_value
store_value-eq-ok t v c c' h = ground arith

pub find-append_of_some :
    (t : GoType) (is js : List ValueItem) (i : ValueItem)
    → find t is ≡ some i
    → find t (is ++ js) ≡ some i
unfolding find
find-append_of_some t [] js i h = cc
find-append_of_some t (j ∷ is) js i h = ground (arith, find-append_of_some t is js i)

pub find-append_of_none :
    (t : GoType) (is js : List ValueItem) → find t is ≡ none → find t (is ++ js) ≡ find t js
unfolding find
find-append_of_none t [] js h = refl
find-append_of_none t (j ∷ is) js h = ground (arith, find-append_of_none t is js)

-- An item behind those of other types is found.
pub find_behind :
    (t : GoType) (is js : List ValueItem) (i : ValueItem)
    → find t is ≡ none
    → same i.rt t ≡ true
    → find t (is ++ i ∷ js) ≡ some i
find_behind t is js i h e = find-append_of_none t is (i ∷ js) h ∙ (unfold find in rw e)

pub has-eq-find : (t : GoType) (is : List ValueItem) → find t is ≡ none → has t is ≡ false
unfolding find has
has-eq-find t [] h = refl
has-eq-find t (i ∷ is) h = ground (arith, has-eq-find t is)

pub has-append : (t : GoType) (is js : List ValueItem) → has t (is ++ js) ≡ (has t is || has t js)
unfolding has
has-append t [] js = refl
has-append t (i ∷ is) js = ground (arith, has-append t is js)
