-- ===== src/Context/AsMap/Simulation.antt =====
-- A context simulates its map (context.go): the first item of a type holds the value of the type.
use jonson.Prelude.{
  ℕ, true, false, Option, none, some, List, [], ◌∷◌, ◌++◌, ◌≡◌, refl, sym, ap, ◌∙◌, arith, ◌==◌,
  ==_iff, any, All, All-append, if◌then◌else◌, Bool-cases, Option-cases, inl, inr,
}
use jonson.Types.{GoType, same}
use jonson.Value.{Value}
use jonson.Context.{
  ValueItem, Context, has, find_valid, push, store_value, without, invalidate, get_value,
  new_context,
}
use jonson.Context.AsMap.{
  Op, store, drop, get, Reply, got, perform, replies, Map, initial, get_from, store_in, specified,
  specified_replies,
}

-- The first value of a type.
unfoldable lookup : ℕ → List ValueItem → Option Value
lookup n [] = none
lookup n (i ∷ is) = if i.rt.id == n then some i.val else lookup n is

-- The context implements the map.
record Implements (c : Context) (m : Map) : Type 0 where
  opened : c.finalized ≡ false
  valid : All (λ i. i.valid ≡ true) c.values
  agrees : (n : ℕ) → lookup n c.values ≡ m n

find_valid-lookup :
    (t : GoType) (is : List ValueItem)
    → All (λ i. i.valid ≡ true) is
    → find_valid t is ≡ lookup t.id is
unfolding find_valid lookup
find_valid-lookup t [] h = refl
find_valid-lookup t (i ∷ is) h = ground (arith, h.0, find_valid-lookup t is h.1)

has-of_none : (t : GoType) (is : List ValueItem) → lookup t.id is ≡ none → has t is ≡ false
unfolding has lookup
has-of_none t [] h = refl
has-of_none t (i ∷ is) h = ground (arith, has-of_none t is)

has-of_some :
    (t : GoType) (is : List ValueItem) (v : Value) → lookup t.id is ≡ some v → has t is ≡ true
unfolding has lookup
has-of_some t [] v h = absurd (cc h)
has-of_some t (i ∷ is) v h = ground (arith, has-of_some t is v)

lookup-push :
    (n : ℕ) (is : List ValueItem) (i : ValueItem)
    → lookup i.rt.id is ≡ none
    → lookup n (is ++ i ∷ []) ≡ (if i.rt.id == n then some i.val else lookup n is)
unfolding lookup
lookup-push n [] i h = refl
lookup-push n (j ∷ is) i h = elim (Bool-cases (j.rt.id == i.rt.id)) [
  | inl e ↦ absurd (cc (rw e at h))
  | inr e ↦
      let rest = lookup-push n is i (rw e at h) in
      elim (Bool-cases (j.rt.id == n)) [
        | inl here ↦ elim (Bool-cases (i.rt.id == n)) [
          | inl x ↦
              let one : j.rt.id ≡ i.rt.id =
                (==_iff j.rt.id n).0 here ∙ sym ((==_iff i.rt.id n).0 x) in
              absurd (cc (e, (==_iff j.rt.id i.rt.id).1 one))
          | inr x ↦ rw (x, here) refl
        ]
        | inr there ↦ rw there rest
      ]
]

lookup-without :
    (n : ℕ) (ts : List GoType) (is : List ValueItem)
    → lookup n (without ts is) ≡ (if any (λ (t : GoType). n == t.id) ts then none else lookup n is)
unfolding lookup without
lookup-without n ts [] = ground arith
lookup-without n ts (i ∷ is) = elim (Bool-cases (i.rt.id == n)) [
  | inl here ↦
      let same_test : any (λ (t : GoType). same i.rt t) ts ≡ any (λ (t : GoType). n == t.id) ts =
        ap (λ k. any (λ (t : GoType). k == t.id) ts) ((==_iff i.rt.id n).0 here) in
      elim (Bool-cases (any (λ (t : GoType). same i.rt t) ts)) [
        | inl gone ↦
            rw (gone, sym same_test ∙ gone)
              (lookup-without n ts is ∙ rw (sym same_test ∙ gone) refl)
        | inr stays ↦ rw (stays, sym same_test ∙ stays, here) refl
      ]
  | inr other ↦ elim (Bool-cases (any (λ (t : GoType). same i.rt t) ts)) [
    | inl gone ↦ rw (gone, other) (lookup-without n ts is)
    | inr stays ↦ rw (stays, other) (lookup-without n ts is)
  ]
]

store-Implements :
    (t : GoType) (v : Value) (c : Context) (m : Map)
    → Implements c m
    → m t.id ≡ none
    → Implements
        (push (record { addr = c.next; rt = t; val = v; valid = true }) c)
        (λ n. if t.id == n then some v else m n)
store-Implements t v c m w free = record {
  opened = w.opened;
  valid = All-append _ c.values (_ ∷ []) w.valid (refl, tt);
  agrees = λ n.
      lookup-push n c.values (record { addr = c.next; rt = t; val = v; valid = true })
        (w.agrees t.id ∙ free)
      ∙ ap (λ o. if t.id == n then some v else o) (w.agrees n);
}

without-valid :
    (ts : List GoType) (is : List ValueItem)
    → All (λ i. i.valid ≡ true) is
    → All (λ i. i.valid ≡ true) (without ts is)
unfolding without
without-valid ts [] h = tt
without-valid ts (i ∷ is) h = elim (Bool-cases (any (λ (t : GoType). same i.rt t) ts)) [
  | inl gone ↦ rw gone (without-valid ts is h.1)
  | inr stays ↦ rw stays (h.0, without-valid ts is h.1)
]

drop-Implements :
    (ts : List GoType) (c : Context) (m : Map)
    → Implements c m
    → Implements (invalidate ts c) (λ n. if any (λ (t : GoType). n == t.id) ts then none else m n)
unfolding invalidate
drop-Implements ts c m w = record {
  opened = w.opened;
  valid = without-valid ts c.values w.valid;
  agrees = λ n.
      lookup-without n ts c.values
      ∙ ap (λ o. if any (λ (t : GoType). n == t.id) ts then none else o) (w.agrees n);
}

-- A call and its specification give one reply, and leave a context and its map.
abbrev Matches : Reply × Context → Reply × Map → Type 0
Matches x y = (x.0 ≡ y.0) × Implements x.1 y.1

store-Matches :
    (t : GoType) (v : Value) (c : Context) (m : Map) (o : Option Value)
    → m t.id ≡ o
    → Implements c m
    → Matches (perform (store t v) c) (store_in t v m o)
unfolding store_value
store-Matches t v c m (some x) e w = rw (has-of_some t c.values x (w.agrees t.id ∙ e)) (refl, w)
store-Matches t v c m none e w =
    rw (has-of_none t c.values (w.agrees t.id ∙ e)) (refl, store-Implements t v c m w e)

get-specified :
    (t : GoType) (c : Context) (m : Map) → Implements c m → get_value t c ≡ get_from (m t.id)
unfolding get_value
get-specified t c m w =
    let e = find_valid-lookup t c.values w.valid ∙ w.agrees t.id in
    elim (Option-cases (m t.id)) [
      | inl absent ↦ rw (w.opened, e ∙ absent, absent) refl
      | inr (v, there) ↦ rw (w.opened, e ∙ there, there) refl
    ]

perform-Matches :
    (o : Op) (c : Context) (m : Map) → Implements c m → Matches (perform o c) (specified o m)
perform-Matches (store t v) c m w = store-Matches t v c m (m t.id) refl w
perform-Matches (drop ts) c m w = (refl, drop-Implements ts c m w)
perform-Matches (get t) c m w = (ap got (get-specified t c m w), w)

replies-Implements :
    (os : List Op) (c : Context) (m : Map) → Implements c m → replies os c ≡ specified_replies os m
unfolding replies specified_replies
replies-Implements [] c m w = refl
replies-Implements (o ∷ os) c m w =
    let (e, next) = perform-Matches o c m w in
    ap (λ r. r ∷ replies os (perform o c).1) e
    ∙ ap (λ rs. (specified o m).0 ∷ rs)
        (replies-Implements os (perform o c).1 (specified o m).1 next)

new_context-Implements : Implements new_context initial
unfolding new_context lookup
new_context-Implements = record { opened = refl; valid = (refl, tt); agrees = λ n. refl }

-- Whatever calls of StoreValue, Invalidate and GetValue are made on a new context, in whatever order,
-- their replies are those of a finite map from types to values that holds the context itself at
-- first: StoreValue panics exactly where the map has the type, and then changes nothing; Invalidate
-- removes the given types; GetValue returns the value of the type, or an error without one.
pub replies-specified : (os : List Op) → replies os new_context ≡ specified_replies os initial
replies-specified os = replies-Implements os new_context initial new_context-Implements
