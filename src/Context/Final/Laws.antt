-- ===== src/Context/Final/Laws.antt =====
-- What `Finalize` returns, which values it finalizes, and what it leaves (context.go).
use mathlib.Core.List.{reverse, reverse-cons, reverse-append}
use jonson.Prelude.{
  ℕ, ◌<◌, ◌≤◌, Bool, true, false, ◌&&◌, Option, none, some, List, [], ◌∷◌, ◌++◌, ◌≡◌, refl, sym, ap,
  ◌∙◌, arith, all, length, length-append, append-nil, append_assoc, if◌then◌else◌, Bool-cases,
  Option-cases, inl, inr,
}
use jonson.Text.{Text}
use jonson.Errors.{GoError}
use jonson.Value.{Value, custom}
use jonson.Context.{ValueItem, Context}
use jonson.Context.Final.{
  opt, call_finalizer, finalize_value, finalize_from, finalization_failed, verdict, finalize,
}

-- The finalizer is missing, or reports nothing on the given errors.
abbrev pub is_quiet_finalizer : Option (List GoError → Option GoError) → List GoError → Bool
is_quiet_finalizer none errors = true
is_quiet_finalizer (some f) errors = elim (f errors) [ none ↦ true | some e ↦ false ]

abbrev pub is_quiet_value : List GoError → Value → Bool
is_quiet_value errors (custom c) = is_quiet_finalizer c.finalizer errors
is_quiet_value errors _ = true

abbrev pub is_quiet : List GoError → ValueItem → Bool
is_quiet errors i = is_quiet_value errors i.val

abbrev pub ident_if {ℓ} : {A : Type ℓ} → Option A → ℕ → List ℕ
ident_if none n = []
ident_if (some f) n = n ∷ []

-- The identities of the values that have a finalizer.
abbrev pub idents_of : Value → List ℕ
idents_of (custom c) = ident_if c.finalizer c.ident
idents_of _ = []

abbrev pub finalizable : List ValueItem → List ℕ
finalizable [] = []
finalizable (i ∷ is) = idents_of i.val ++ finalizable is

call-quiet :
    (f : Option (List GoError → Option GoError)) (n : ℕ) (errors : List GoError) (called : List ℕ)
    → is_quiet_finalizer f errors ≡ true
    → (call_finalizer f n (errors, called)).0 ≡ errors
call-quiet none n errors called h = refl
call-quiet (some f) n errors called h = ground (arith, append-nil errors)

call-loud :
    (f : Option (List GoError → Option GoError)) (n : ℕ) (errors : List GoError) (called : List ℕ)
    → is_quiet_finalizer f errors ≡ false
    → length errors < length (call_finalizer f n (errors, called)).0
call-loud none n errors called h = cc
call-loud (some f) n errors called h = elim (Option-cases (f errors)) [
  | inl e ↦ cc (rw e at h)
  | inr (x, e) ↦ rw e (omega (arith, length-append {0} errors (x ∷ [])))
]

call-grows :
    (f : Option (List GoError → Option GoError)) (n : ℕ) (errors : List GoError) (called : List ℕ)
    → length errors ≤ length (call_finalizer f n (errors, called)).0
call-grows none n errors called = omega arith
call-grows (some f) n errors called = omega (arith, length-append {0} errors (opt (f errors)))

call-called :
    (f : Option (List GoError → Option GoError)) (n : ℕ) (errors : List GoError) (called : List ℕ)
    → (call_finalizer f n (errors, called)).1 ≡ called ++ ident_if f n
call-called none n errors called = sym (append-nil called)
call-called (some f) n errors called = refl

value-quiet :
    (v : Value) (errors : List GoError) (called : List ℕ)
    → is_quiet_value errors v ≡ true
    → (finalize_value v (errors, called)).0 ≡ errors
unfolding finalize_value
value-quiet (custom c) errors called h = call-quiet c.finalizer c.ident errors called h
value-quiet _ errors called h = refl

value-loud :
    (v : Value) (errors : List GoError) (called : List ℕ)
    → is_quiet_value errors v ≡ false
    → length errors < length (finalize_value v (errors, called)).0
unfolding finalize_value
value-loud (custom c) errors called h = call-loud c.finalizer c.ident errors called h
value-loud _ errors called h = cc

value-grows : (v : Value) (r : List GoError × List ℕ) → length r.0 ≤ length (finalize_value v r).0
unfolding finalize_value
value-grows (custom c) r = call-grows c.finalizer c.ident r.0 r.1
value-grows _ r = omega arith

value-called : (v : Value) (r : List GoError × List ℕ) → (finalize_value v r).1 ≡ r.1 ++ idents_of v
unfolding finalize_value
value-called (custom c) r = call-called c.finalizer c.ident r.0 r.1
value-called _ r = sym (append-nil r.1)

from-grows :
    (is : List ValueItem) (r : List GoError × List ℕ) → length r.0 ≤ length (finalize_from is r).0
unfolding finalize_from
from-grows [] r = omega arith
from-grows (i ∷ is) r = omega (arith, from-grows is (finalize_value i.val r), value-grows i.val r)

from-called :
    (is : List ValueItem) (r : List GoError × List ℕ)
    → (finalize_from is r).1 ≡ r.1 ++ finalizable is
unfolding finalize_from
from-called [] r = sym (append-nil r.1)
from-called (i ∷ is) r =
    from-called is (finalize_value i.val r)
    ∙ rw (value-called i.val r) (append_assoc r.1 (idents_of i.val) (finalizable is))

from-quiet :
    (is : List ValueItem) (errors : List GoError) (r : List GoError × List ℕ)
    → r.0 ≡ errors
    → all (is_quiet errors) is ≡ true
    → (finalize_from is r).0 ≡ errors
unfolding finalize_from
from-quiet [] errors r e h = e
from-quiet (i ∷ is) errors r e h =
    from-quiet is errors (finalize_value i.val r)
      (ap (λ es. (finalize_value i.val (es, r.1)).0) e
        ∙ value-quiet i.val errors r.1 (ground (arith, h)))
      (ground (arith, h))

from-loud :
    (is : List ValueItem) (errors : List GoError) (r : List GoError × List ℕ)
    → r.0 ≡ errors
    → all (is_quiet errors) is ≡ false
    → length errors < length (finalize_from is r).0
unfolding finalize_from
from-loud [] errors r e h = cc
from-loud (i ∷ is) errors r e h = elim (Bool-cases (is_quiet errors i)) [
  | inl q ↦
      from-loud is errors (finalize_value i.val r)
        (ap (λ es. (finalize_value i.val (es, r.1)).0) e ∙ value-quiet i.val errors r.1 q)
        (ground (arith, h, q))
  | inr l ↦ omega (
    arith,
    value-loud i.val errors r.1 l,
    ap (λ es. length (finalize_value i.val (es, r.1)).0) e,
    from-grows is (finalize_value i.val r),
  )
]

all-append {ℓ} :
    {A : Type ℓ} (p : A → Bool) (xs ys : List A) → all p (xs ++ ys) ≡ (all p xs && all p ys)
all-append p [] ys = refl
all-append p (x ∷ xs) ys = ground (arith, all-append p xs ys)

all-reverse {ℓ} : {A : Type ℓ} (p : A → Bool) (xs : List A) → all p (reverse xs) ≡ all p xs
all-reverse p [] = refl
all-reverse p (x ∷ xs) =
    ap (all p) (reverse-cons x xs)
    ∙ all-append p (reverse xs) (x ∷ [])
    ∙ ground (arith, all-reverse p xs)

finalizable-append :
    (is js : List ValueItem) → finalizable (is ++ js) ≡ finalizable is ++ finalizable js
finalizable-append [] js = refl
finalizable-append (i ∷ is) js =
    rw (finalizable-append is js) (sym (append_assoc (idents_of i.val) _ _))

reverse-ident_if {ℓ} : {A : Type ℓ} (o : Option A) (n : ℕ) → reverse (ident_if o n) ≡ ident_if o n
reverse-ident_if none n = refl
reverse-ident_if (some a) n = refl

reverse-idents_of : (v : Value) → reverse (idents_of v) ≡ idents_of v
reverse-idents_of (custom c) = reverse-ident_if c.finalizer c.ident
reverse-idents_of _ = refl

finalizable-reverse : (is : List ValueItem) → finalizable (reverse is) ≡ reverse (finalizable is)
finalizable-reverse [] = refl
finalizable-reverse (i ∷ is) =
    ap finalizable (reverse-cons i is)
    ∙ finalizable-append (reverse is) (i ∷ [])
    ∙ rw (finalizable-reverse is, append-nil, reverse-append, reverse-idents_of)

verdict-same : (encode : Text → Text) (err : Option GoError) → verdict encode err (opt err) ≡ err
unfolding verdict
verdict-same encode none = refl
verdict-same encode (some e) = refl

verdict-more :
    (encode : Text → Text) (err : Option GoError) (errors : List GoError)
    → length (opt err) < length errors
    → verdict encode err errors ≡ some (finalization_failed encode)
unfolding verdict
verdict-more encode err [] h = absurd (omega arith)
verdict-more encode none (x ∷ xs) h = refl
verdict-more encode (some e) (x ∷ []) h = absurd (omega arith)
verdict-more encode (some e) (x ∷ y ∷ xs) h = refl

verdict-finalize_from :
    (encode : Text → Text) (err : Option GoError) (is : List ValueItem)
    → verdict encode err (finalize_from (reverse is) (opt err, [])).0
      ≡ (if all (is_quiet (opt err)) is then err else some (finalization_failed encode))
verdict-finalize_from encode err is = elim (Bool-cases (all (is_quiet (opt err)) is)) [
  | inl q ↦ rw q (
      ap (verdict encode err) (
        from-quiet (reverse is) (opt err) (opt err, []) refl
          (all-reverse (is_quiet (opt err)) is ∙ q))
      ∙ verdict-same encode err)
  | inr l ↦ rw l (
      verdict-more encode err _ (
        from-loud (reverse is) (opt err) (opt err, []) refl
          (all-reverse (is_quiet (opt err)) is ∙ l)))
]

-- The first finalization of a context runs the finalizer of every value that has one, once, from
-- the value stored last to the first, and removes the values. It returns the error that it was
-- given (nil for none) if no finalizer reports an error on it, and otherwise the internal error
-- with no details, whatever the errors are.
pub finalize_first :
    (encode : Text → Text) (err : Option GoError) (c : Context)
    → c.finalized ≡ false
    → ((finalize encode err c).called ≡ reverse (finalizable c.values))
      × ((finalize encode err c).ctx ≡ record c { values = []; finalized = true })
      × ((finalize encode err c).result
          ≡ (if all (is_quiet (opt err)) c.values then err else some (finalization_failed encode)))
unfolding finalize
finalize_first encode err c open_ctx = (
  rw open_ctx (from-called (reverse c.values) (opt err, []) ∙ finalizable-reverse c.values),
  rw open_ctx,
  rw open_ctx (verdict-finalize_from encode err c.values),
)

-- A second finalization runs nothing, changes nothing and returns the error that it is given.
pub finalize_twice :
    (encode : Text → Text) (err err' : Option GoError) (c : Context)
    → finalize encode err' (finalize encode err c).ctx
      ≡ record { result = err'; ctx = (finalize encode err c).ctx; called = [] }
unfolding finalize
finalize_twice encode err err' c = elim (Bool-cases c.finalized) [ inl f ↦ rw f | inr f ↦ rw f ]
