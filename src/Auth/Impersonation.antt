-- ===== src/Auth/Impersonation.antt =====
-- The context of an impersonation (`Impersonator.Impersonate` of impersonate.go).
use jonson.Prelude.{
  some, Bool, Option, ap, ◌∙◌, if◌then◌else◌, ◌&&◌, true, false, none, List, [], ◌∷◌, ◌++◌, ◌≡◌,
  refl, arith, All, All-append, All-map, Bool-cases, inl, inr,
}
use jonson.Text.{Text}
use jonson.Types.{GoType, same, type_context, type_impersonated}
use jonson.Value.{Value, impersonated, is_shareable_across_impersonation}
use mathlib.Core.Option.{some-injective}
use jonson.Context.{ValueItem, Context, has, find, new_context}
use jonson.Context.Run.Unique.{Unique, IsWellFormed}
use jonson.Method.Call.Isolation.{Avoids, Distinct, Distinct-snoc, Stored, store_each-Stored}
use jonson.Auth.{taken_over, existing, traced, new_impersonated}

-- No value that crosses into an impersonation stands under a type that its context fills itself.
abbrev pub KeepsScopeTypes : List ValueItem → Type 0
KeepsScopeTypes = All (λ i.
    is_shareable_across_impersonation i.val ≡ true
    → (same i.rt type_context ≡ false) × (same i.rt type_impersonated ≡ false))

abbrev IsCrossing : GoType × Value → Type 0
IsCrossing e =
    (is_shareable_across_impersonation e.1 ≡ true)
    × (same e.0 type_context ≡ false)
    × (same e.0 type_impersonated ≡ false)

IsCrossing-taken_over : (is : List ValueItem) → KeepsScopeTypes is → All IsCrossing (taken_over is)
unfolding taken_over
IsCrossing-taken_over [] k = tt
IsCrossing-taken_over (i ∷ is) k =
    elim (Bool-cases (i.valid && is_shareable_across_impersonation i.val)) [
      | inl e ↦
          let crosses : is_shareable_across_impersonation i.val ≡ true = ground (arith, e) in
          let own = k.0 crosses in rw e ((crosses, own.0, own.1), IsCrossing-taken_over is k.1)
      | inr e ↦ rw e (IsCrossing-taken_over is k.1)
    ]

Avoids-taken_over : (t : GoType) (is : List ValueItem) → has t is ≡ false → Avoids t (taken_over is)
unfolding taken_over has
Avoids-taken_over t [] h = tt
Avoids-taken_over t (i ∷ is) h =
    elim (Bool-cases (i.valid && is_shareable_across_impersonation i.val)) [
      | inl e ↦ rw e (ground (arith, h), Avoids-taken_over t is (ground (arith, h)))
      | inr e ↦ rw e (Avoids-taken_over t is (ground (arith, h)))
    ]

Distinct-taken_over : (is : List ValueItem) → Unique is → Distinct (taken_over is)
unfolding taken_over
Distinct-taken_over [] u = tt
Distinct-taken_over (i ∷ is) u =
    elim (Bool-cases (i.valid && is_shareable_across_impersonation i.val)) [
      | inl e ↦ rw e (Avoids-taken_over i.rt is u.0, Distinct-taken_over is u.1)
      | inr e ↦ rw e (Distinct-taken_over is u.1)
    ]

pub Stored-taken_over :
    (c : Context) (uuid : Text)
    → IsWellFormed c
    → KeepsScopeTypes c.values
    → Stored
        (taken_over c.values
          ++ (type_impersonated, new_impersonated (existing c.values none) uuid) ∷ [])
        new_context
unfolding new_context has
Stored-taken_over c uuid w k =
    let crossing = IsCrossing-taken_over c.values k in
    let imp = new_impersonated (existing c.values none) uuid in
    store_each-Stored (taken_over c.values ++ (type_impersonated, imp) ∷ []) new_context
      (Distinct-snoc type_impersonated imp (taken_over c.values)
        (Distinct-taken_over c.values w.unique)
        (All-map IsCrossing (λ e. same type_impersonated e.0 ≡ false) (taken_over c.values)
          (λ e h. ground (arith, h.2)) crossing))
      (All-append (λ e. has e.0 new_context.values ≡ false) (taken_over c.values)
        ((type_impersonated, imp) ∷ [])
        (All-map IsCrossing (λ e. has e.0 new_context.values ≡ false) (taken_over c.values)
          (λ e h. ground (arith, h.1)) crossing)
        (refl, tt))

pub other_type {ℓ} : {A : Type ℓ} (v b : Bool) (x y : A) → b ≡ false → (if v && b then x else y) ≡ y
other_type v b x y e = ground (arith, e)

own_type {ℓ} :
    {A : Type ℓ} (v b : Bool) (x y : A) → v ≡ true → b ≡ true → (if v && b then x else y) ≡ x
own_type v b x y e f = ground (arith, e, f)

pub same-ids :
    (is : List ValueItem) (t u : GoType) → same t u ≡ true → has t is ≡ false → has u is ≡ false
unfolding has
same-ids [] t u e h = refl
same-ids (i ∷ is) t u e h = ground (arith, e, h, same-ids is t u e (ground (arith, h)))

pub existing-absent :
    (is : List ValueItem) (o : Option (List Text))
    → has type_impersonated is ≡ false
    → existing is o ≡ o
unfolding existing has
existing-absent [] o h = refl
existing-absent (i ∷ is) o h = elim (Bool-cases (same i.rt type_impersonated)) [
  | inl e ↦ absurd (ground (arith, h, e))
  | inr e ↦
      ap (existing is) (other_type i.valid (same i.rt type_impersonated) (traced i.val) o e)
      ∙ existing-absent is o (ground (arith, h))
]

-- The last valid impersonation in a context with distinct types is the first item of the type.
existing-find :
    (is : List ValueItem) (o : Option (List Text)) (i : ValueItem)
    → Unique is
    → find type_impersonated is ≡ some i
    → i.valid ≡ true
    → existing is o ≡ traced i.val
unfolding existing find
existing-find [] o i u f v = absurd (cc f)
existing-find (j ∷ js) o i u f v = elim (Bool-cases (same j.rt type_impersonated)) [
  | inl e ↦
      let j_is : j ≡ i = some-injective j i (rw e at f) in
      ap (existing js) (
        own_type j.valid (same j.rt type_impersonated) (traced j.val) o
          (ap (λ (x : ValueItem). x.valid) j_is ∙ v) e)
      ∙ existing-absent js (traced j.val) (same-ids js j.rt type_impersonated e u.0)
      ∙ ap (λ (x : ValueItem). traced x.val) j_is
  | inr e ↦
      ap (existing js) (other_type j.valid (same j.rt type_impersonated) (traced j.val) o e)
      ∙ existing-find js o i u.1 (rw e at f) v
]

-- An impersonation under a well-formed context that holds a valid impersonation, of `holder` and
-- traced by `uuids`: the new one is of the new account, and its trace is `uuids` and then the new
-- account.
pub new_impersonated-existing :
    (c : Context) (uuid holder : Text) (uuids : List Text) (i : ValueItem)
    → IsWellFormed c
    → find type_impersonated c.values ≡ some i
    → i.valid ≡ true
    → i.val ≡ impersonated holder uuids
    → new_impersonated (existing c.values none) uuid ≡ impersonated uuid (uuids ++ uuid ∷ [])
unfolding new_impersonated
new_impersonated-existing c uuid holder uuids i w f v e =
    ap (λ t. new_impersonated t uuid) (existing-find c.values none i w.unique f v ∙ ap traced e)
