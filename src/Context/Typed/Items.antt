-- ===== src/Context/Typed/Items.antt =====
-- Typed items: finding, pushing, removing and marking them (context.go), and who owns an address.
use mathlib.Core.Path.{subst}
use mathlib.Core.Option.{some-injective}
use jonson.Prelude.{
  ℕ, ◌<◌, Bool, true, false, Option, none, some, List, [], ◌∷◌, ◌≡◌, refl, sym, ap, ◌∙◌, arith, any,
  All, All-append, All-map, ◌==◌, ==_iff, Bool-cases, Option-cases, inl, inr,
}
use jonson.Types.{GoType, same}
use jonson.Value.{Value}
use jonson.Errors.{GoError}
use jonson.Context.{
  Fallible, ValueItem, Context, find, find_valid, push, invalidate, without, new_context, value,
  failure, get_value,
}
use jonson.Context
use jonson.Context.Run.{mark, pending}
use jonson.Context.Run.Unique.{IsWellFormed, IsStable, IsWellFormed-IsStable}
use jonson.Context.Typed.{is_of, is_of_dynamic, dynamic_type, IsTypedItem, IsTyped}

-- The item at an address, if it is still there, has the type.
pub record Owns (a : ℕ) (t : GoType) (c : Context) : Type 0 where
  pub given_out : a < c.next
  pub owned : All (λ i. i.addr ≡ a → i.rt ≡ t) c.values

pub All-without :
    (P : ValueItem → Type 0) (ts : List GoType) (is : List ValueItem)
    → All P is
    → All P (without ts is)
unfolding without
All-without P ts [] h = tt
All-without P ts (i ∷ is) h = elim (Bool-cases (any (λ t. same i.rt t) ts)) [
  | inl gone ↦ rw gone (All-without P ts is h.1)
  | inr stays ↦ rw stays (h.0, All-without P ts is h.1)
]

owned-mark :
    (a : ℕ) (t : GoType) (b : ℕ) (v : Value) (is : List ValueItem)
    → All (λ i. i.addr ≡ a → i.rt ≡ t) is
    → All (λ i. i.addr ≡ a → i.rt ≡ t) (mark b v is)
unfolding mark
owned-mark a t b v [] h = tt
owned-mark a t b v (i ∷ is) h = elim (Bool-cases (i.addr == b)) [
  | inl e ↦ rw e (h.0, owned-mark a t b v is h.1)
  | inr e ↦ rw e (h.0, owned-mark a t b v is h.1)
]

pub Owns-IsStable : (a : ℕ) (t : GoType) → IsStable (Owns a t)
unfolding invalidate
Owns-IsStable a t = record {
  push_new = λ c u v b new w. record {
    given_out = omega (arith, w.given_out);
    owned =
        All-append _ c.values (_ ∷ []) w.owned ((λ e. absurd (omega (arith, e, w.given_out))), tt);
  };
  invalidated =
      λ c ts w. record { given_out = w.given_out; owned = All-without _ ts c.values w.owned };
  marked =
      λ c b v w. record { given_out = w.given_out; owned = owned-mark a t b v c.values w.owned };
}

-- A new item is at a new address.
pub Owns-pending :
    (c : Context) (t : GoType) → IsWellFormed c → Owns c.next t (push (pending c t) c)
Owns-pending c t w = record {
  given_out = omega arith;
  owned =
      All-append _ c.values (_ ∷ [])
        (All-map _ _ c.values (λ i p e. absurd (omega (arith, p, e))) w.numbered) ((λ e. refl), tt);
}

module _ (user : ℕ → Value → Bool) where
  is_of_dynamic-id :
      (o : Option GoType) (t u : GoType) (v : Value)
      → t.id ≡ u.id
      → is_of_dynamic user o t v ≡ is_of_dynamic user o u v
  is_of_dynamic-id none t u v e = rw e
  is_of_dynamic-id (some w) t u v e = rw e

  pub is_of-id : (t u : GoType) (v : Value) → same t u ≡ true → is_of user t v ≡ is_of user u v
  unfolding is_of
  is_of-id t u v e = is_of_dynamic-id (dynamic_type v) t u v ((==_iff t.id u.id).0 e)

  is_of-same :
      (t u : GoType) (v : Value) → same t u ≡ true → is_of user t v ≡ true → is_of user u v ≡ true
  is_of-same t u v e h = sym (is_of-id t u v e) ∙ h

  pub find-typed :
      (t : GoType) (is : List ValueItem) (i : ValueItem)
      → All (IsTypedItem user) is
      → find t is ≡ some i
      → i.valid ≡ true
      → is_of user t i.val ≡ true
  unfolding find
  find-typed t [] i h f valid = absurd (cc f)
  find-typed t (j ∷ is) i h f valid = elim (Bool-cases (same j.rt t)) [
    | inl e ↦
        let here = some-injective _ _ (rw e at f) in
        is_of-same j.rt t i.val e
          (subst (λ k. is_of user j.rt k.val ≡ true) here (h.0 (ap (λ k. k.valid) here ∙ valid)))
    | inr e ↦ find-typed t is i h.1 (rw e at f) valid
  ]

  get_value-typed :
      (t : GoType) (is : List ValueItem) (v : Value)
      → All (IsTypedItem user) is
      → find_valid t is ≡ some v
      → is_of user t v ≡ true
  unfolding find_valid
  get_value-typed t [] v h f = absurd (cc f)
  get_value-typed t (j ∷ is) v h f = elim (Bool-cases (same j.rt t)) [
    | inl e ↦ elim (Bool-cases j.valid) [
      | inl valid ↦ is_of-same j.rt t v e (
          subst (λ w. is_of user j.rt w ≡ true) (some-injective _ _ (rw (e, valid) at f))
            (h.0 valid))
      | inr stale ↦ get_value-typed t is v h.1 (rw (e, stale) at f)
    ]
    | inr e ↦ get_value-typed t is v h.1 (rw e at f)
  ]

  pub get_value-cases :
      (P : Fallible Value → Type 0) (t : GoType) (c : Context)
      → All (IsTypedItem user) c.values
      → ((v : Value) → is_of user t v ≡ true → P (value v)) × ((e : GoError) → P (failure e))
      → P (get_value t c)
  unfolding get_value
  get_value-cases P t c w h = elim (Bool-cases c.finalized) [
    | inl closed ↦ rw closed (h.1 _)
    | inr opened ↦ elim (Option-cases (find_valid t c.values)) [
      | inl e ↦ rw (opened, e) (h.1 _)
      | inr (v, e) ↦ rw (opened, e) (h.0 v (get_value-typed t c.values v w e))
    ]
  ]

  pub mark-typed :
      (a : ℕ) (t : GoType) (v : Value) (is : List ValueItem)
      → is_of user t v ≡ true
      → All (λ i. i.addr ≡ a → i.rt ≡ t) is
      → All (IsTypedItem user) is
      → All (IsTypedItem user) (mark a v is)
  unfolding mark
  mark-typed a t v [] e o h = tt
  mark-typed a t v (i ∷ is) e o h = elim (Bool-cases (i.addr == a)) [
    | inl here ↦ rw here (
      (λ valid. subst (λ u. is_of user u v ≡ true) (sym (o.0 ((==_iff i.addr a).0 here))) e),
      mark-typed a t v is e o.1 h.1,
    )
    | inr there ↦ rw there (h.0, mark-typed a t v is e o.1 h.1)
  ]

  pub push-IsTyped :
      (c : Context) (t : GoType) (v : Value) (b : Bool)
      → Context.has t c.values ≡ false
      → (b ≡ true → is_of user t v ≡ true)
      → IsTyped user c
      → IsTyped user (push (record { addr = c.next; rt = t; val = v; valid = b }) c)
  push-IsTyped c t v b new h w = record {
    well_formed = IsWellFormed-IsStable.push_new c t v b new w.well_formed;
    items = All-append _ c.values (_ ∷ []) w.items (h, tt);
  }
