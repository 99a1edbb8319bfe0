-- ===== src/Validate/Collects.antt =====
-- What a run of a validation adds to its collector (validate.go).
use mathlib.Core.List.{append-eq-nil_iff}
use mathlib.Core.Path.{subst}
use jonson.Prelude.{
  String, Bool, true, false, List, [], ◌∷◌, ◌++◌, ◌≡◌, refl, sym, ap, ◌∙◌, arith, All, All-append,
  append_assoc, append-nil, if◌then◌else◌,
}
use jonson.Text.{Text}
use jonson.Errors.{ℤ, Error, error, no_data, error_data, to_list, of_list, PanicValue}
use jonson.Validate.Binds.{bind-eq-ok}
use jonson.Validate.{
  Result, ok, panicked, PathElem, Script, done, crash, path, Chain, set_code, set_debug,
  set_message, validate, next, Validator, ValidatorError, new_validator, convert_all, path_of,
  field_data, add, error_of, details, run, run_chain,
}

guarded-eq-ok {ℓ} :
    {A : Type ℓ} (b : Bool) (p : PanicValue) (m : Result A) {a : A}
    → (if b then panicked p else m) ≡ ok a
    → m ≡ ok a
guarded-eq-ok true p m h = cc
guarded-eq-ok false p m h = h

-- The error's path begins with `base`.
abbrev pub IsUnder : List Text → Error → Type 0
IsUnder base (error c m no_data) = base ≡ []
IsUnder base (error c m (error_data p es d)) = (rest : List Text) × (p ≡ base ++ rest)

pub record Grows (v v' : Validator) : Type 0 where
  pub added : List Error
  pub errors : v'.errors ≡ v.errors ++ added
  pub base_path : v'.base_path ≡ v.base_path
  pub placed : All (IsUnder v.base_path) added

pub to_list-of_list : (es : List Error) → to_list (of_list es) ≡ es
to_list-of_list [] = refl
to_list-of_list (e ∷ es) = ap (λ l. e ∷ l) (to_list-of_list es)

-- The nested errors that `Validate` copies are those of the nested collector.
details-error_of_fields :
    (es : List Error) (base : List Text)
    → details (error_of (record { errors = es; base_path = base })) ≡ es
unfolding details error_of
details-error_of_fields [] base = refl
details-error_of_fields (e ∷ es) base = ap (λ l. e ∷ l) (to_list-of_list es)

pub details-error_of : (v : Validator) → details (error_of v) ≡ v.errors
details-error_of v = details-error_of_fields v.errors v.base_path

IsUnder-weaken : (base more : List Text) (e : Error) → IsUnder (base ++ more) e → IsUnder base e
IsUnder-weaken base more (error c m no_data) h = (append-eq-nil_iff.0 h).0
IsUnder-weaken base more (error c m (error_data p es d)) (rest, h) =
    (more ++ rest, h ∙ append_assoc base more rest)

All-IsUnder-weaken :
    (base more : List Text) (es : List Error)
    → All (IsUnder (base ++ more)) es
    → All (IsUnder base) es
All-IsUnder-weaken base more [] h = tt
All-IsUnder-weaken base more (e ∷ es) (h, hs) =
    (IsUnder-weaken base more e h, All-IsUnder-weaken base more es hs)

-- A field under construction has the validator's base path in front of its own.
abbrev IsField : List Text → ValidatorError → Type 0
IsField base e = (own : List Text) × (e.path ≡ base ++ own)

path_of-IsField :
    (v : Validator) (elems : List PathElem) (e : ValidatorError)
    → path_of v elems ≡ ok e
    → IsField v.base_path e
unfolding path_of
path_of-IsField v elems e h =
    let (own, _, same) = bind-eq-ok (convert_all elems) _ _ h in (own, ground (arith, same))

field_data-IsUnder :
    (base : List Text) (c : ℤ) (m : String) (p : List Text) (d : Text)
    → (own : List Text) × (p ≡ base ++ own)
    → IsUnder base (error c m (field_data p d))
unfolding field_data
field_data-IsUnder base c m [] [] (own, h) = (append-eq-nil_iff.0 (sym h)).0
field_data-IsUnder base c m [] (_ ∷ _) h = h
field_data-IsUnder base c m (_ ∷ _) d h = h

-- A successful `add` appends one error.
add-eq-ok :
    (e : ValidatorError) (v v' : Validator)
    → add e v ≡ ok v'
    → v' ≡ record v { errors = v.errors ++ error e.code e.message (field_data e.path e.debug) ∷ [] }
unfolding add
add-eq-ok e v v' h = ground arith

add-Grows :
    (e : ValidatorError) (v v' : Validator) → IsField v.base_path e → add e v ≡ ok v' → Grows v v'
add-Grows e v v' f h = subst (Grows v) (sym (add-eq-ok e v v' h)) (record {
  added = error e.code e.message (field_data e.path e.debug) ∷ [];
  errors = refl;
  base_path = refl;
  placed = (field_data-IsUnder v.base_path e.code e.message e.path e.debug f, tt);
})

Grows-refl : (v : Validator) → Grows v v
Grows-refl v = record { added = []; errors = sym (append-nil _); base_path = refl; placed = tt }

Grows-trans : (u v w : Validator) → Grows u v → Grows v w → Grows u w
Grows-trans u v w g h = record {
  added = g.added ++ h.added;
  errors = h.errors ∙ rw (g.errors, append_assoc);
  base_path = h.base_path ∙ g.base_path;
  placed = All-append (IsUnder u.base_path) g.added h.added g.placed (rw g.base_path at h.placed);
}

-- What `Validate` copies from the collector of the nested value lies below the outer base path.
nested-Grows :
    (v collector : Validator) (own : List Text)
    → Grows (new_validator (v.base_path ++ own)) collector
    → Grows v (record v { errors = v.errors ++ details (error_of collector) })
unfolding new_validator
nested-Grows v c own g = record {
  added = c.errors;
  errors = rw details-error_of;
  base_path = refl;
  placed = rw g.errors (All-IsUnder-weaken v.base_path own g.added g.placed);
}

module _ (encode : Text → Text) where
  mutual
    unfolding run run_chain

    run-Grows_lem : (s : Script) (v v' : Validator) → run encode s v ≡ ok v' → Grows v v'
    run-Grows_lem done v v' h = subst (Grows v) (ground arith) (Grows-refl v)
    run-Grows_lem (crash p) v v' h = cc
    run-Grows_lem (path elems chain) v v' h =
        let (e, made, rest) = bind-eq-ok (path_of v elems) _ _ h in
        run_chain-Grows chain e v v' (path_of-IsField v elems e made) rest

    run_chain-Grows :
        (c : Chain) (e : ValidatorError) (v v' : Validator)
        → IsField v.base_path e
        → run_chain encode c e v ≡ ok v'
        → Grows v v'
    run_chain-Grows (set_code k c) e v v' f h = run_chain-Grows c _ v v' f h
    run_chain-Grows (set_debug d c) e v v' f h = run_chain-Grows c _ v v' f h
    run_chain-Grows (set_message m c) e v v' f h =
        let (u, added, rest) = bind-eq-ok (add (record e { message = m }) v) _ _ h in
        let g = add-Grows (record e { message = m }) v u f added in
        Grows-trans v u v' g (
          run_chain-Grows c (record e { message = m; added = true }) u v' (f.0, rw g.base_path f.1)
            rest)
    run_chain-Grows (validate child k) e v v' f h =
        let (c, ran, rest) = bind-eq-ok (if e.added then _ else _) _ _ h in
        let g = nested-Grows v c e.path (
          run-Grows_lem child (new_validator (v.base_path ++ e.path)) c (
            guarded-eq-ok e.added _ (run encode child (new_validator (v.base_path ++ e.path)))
              ran)) in
        Grows-trans v _ v' g (
          run_chain-Grows (k (error_of c)) (record e { added = true })
            (record v { errors = v.errors ++ details (error_of c) }) v' f rest)
    run_chain-Grows (next rest) e v v' f h = run-Grows_lem rest v v' h

-- A validation only appends to the errors of its collector and leaves the base path as it was;
-- the path of each error that it appends, nested ones included, begins with that base path.
pub run-Grows :
    (encode : Text → Text) (s : Script) (v v' : Validator) → run encode s v ≡ ok v' → Grows v v'
run-Grows = run-Grows_lem
