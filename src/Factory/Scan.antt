-- ===== src/Factory/Scan.antt =====
-- factory.go: the registration of a provider's methods (`RegisterProvider`) and `Types`. What
-- reflection shows of a method is `ProviderMethod`; its arguments begin with the receiver.
use jonson.Prelude.{
  Bool, true, false, ◌&&◌, none, some, List, [], ◌∷◌, ◌++◌, map, ◌≡◌, refl, sym, ap, ◌∙◌, ◌==◌,
  ==_iff, ==_refl, if◌then◌else◌, Bool-cases, Option-cases, inl, inr,
}
use jonson.Text.{Text}
use jonson.Types.{GoType, same, is_ptr_or_interface, type_context}
use jonson.Errors.{of_string}
use jonson.Validate.{Result, ok, panicked, ◌>>=◌}
use jonson.Validate.Binds.{bind-eq-ok, ok-injective}
use jonson.Context.Prog.{Prog}
use jonson.Context.Run.{Providers, provider}

pub record ProviderMethod : Type 0 where
  pub name : Text
  pub ins : List GoType
  pub outs : List GoType
  pub code : Prog

-- `strings.HasPrefix(_, "New")`
abbrev pub is_new : Text → Bool
is_new (a ∷ b ∷ c ∷ s) = a == b'N' && (b == b'e' && c == b'w')
is_new s = false

abbrev check_inputs : List GoType → Result (Unit {0})
check_inputs (this ∷ t ∷ []) =
    if same t type_context
    then ok tt
    else panicked (of_string "factory: expect *jonson.Context as first argument")
check_inputs ts = panicked (of_string "factory: expect exactly 1 argument")

abbrev check_outputs : List GoType → Result GoType
check_outputs (t ∷ []) =
    if is_ptr_or_interface t.kind
    then ok t
    else panicked (of_string "factory: expect an interface or ptr to struct as first return value")
check_outputs ts = panicked (of_string "factory: expect exactly 1 return value")

abbrev add_provider : Providers → Prog → GoType → Result Providers
add_provider ps code t = elim (provider t ps) [
  | none ↦ ok ((t, code) ∷ ps)
  | some c ↦ panicked (of_string "factory: provider for type already exists")
]

-- One pass of the loop over the methods.
unfoldable pub register_new : ProviderMethod → Providers → Result Providers
unfolding provider
register_new m ps =
    if is_new m.name
    then check_inputs m.ins >>= (λ u. check_outputs m.outs >>= add_provider ps m.code)
    else ok ps

unfoldable pub register_all : List ProviderMethod → Providers → Result Providers
unfolding register_new
register_all [] ps = ok ps
register_all (m ∷ ms) ps = register_new m ps >>= register_all ms

-- `Factory.RegisterProvider`
unfoldable pub register_provider : Bool → List ProviderMethod → Providers → Result Providers
unfolding register_all
register_provider is_ptr_to_struct ms ps =
    if is_ptr_to_struct
    then register_all ms ps
    else panicked (of_string "factory: must pass ptr to struct")

-- `Factory.Types`, in one of the orders of the map
unfoldable pub types_of : Providers → List GoType
types_of ps = map (λ (p : GoType × Prog). p.0) ps

-- What a pass leaves: the providers that were there, and that of the method.
record Passed (m : ProviderMethod) (ps ps' : Providers) : Type 0 where
  kept : (t : GoType) (c : Prog) → provider t ps ≡ some c → provider t ps' ≡ some c
  added : is_new m.name ≡ true → (t : GoType) × (m.outs ≡ t ∷ []) × (provider t ps' ≡ some m.code)

provider-same : (t u : GoType) (ps : Providers) → t.id ≡ u.id → provider t ps ≡ provider u ps
unfolding provider
provider-same t u [] e = refl
provider-same t u ((v, p) ∷ ps) e =
    ap (λ n. if v.id == n then some p else provider t ps) e
    ∙ ap (λ o. if same v u then some p else o) (provider-same t u ps e)

provider-head :
    (t : GoType) (code : Prog) (ps : Providers) → provider t ((t, code) ∷ ps) ≡ some code
unfolding provider
provider-head t code ps = rw (==_refl t.id)

provider-behind :
    (t u : GoType) (code c : Prog) (ps : Providers)
    → provider t ps ≡ none
    → provider u ps ≡ some c
    → provider u ((t, code) ∷ ps) ≡ some c
unfolding provider
provider-behind t u code c ps free found = elim (Bool-cases (same t u)) [
  | inl x ↦ absurd (cc (provider-same t u ps ((==_iff t.id u.id).0 x), free, found))
  | inr x ↦ rw x found
]

add_provider-keeps :
    (ps ps' : Providers) (code : Prog) (t : GoType)
    → add_provider ps code t ≡ ok ps'
    → (provider t ps' ≡ some code)
      × ((u : GoType) (c : Prog) → provider u ps ≡ some c → provider u ps' ≡ some c)
add_provider-keeps ps ps' code t h = elim (Option-cases (provider t ps)) [
  | inl free ↦
      let added : (t, code) ∷ ps ≡ ps' = ok-injective _ ps' (rw (add_provider, free) at h) in
      (
        ap (provider t) (sym added) ∙ provider-head t code ps,
        λ u c found. ap (provider u) (sym added) ∙ provider-behind t u code c ps free found,
      )
  | inr (c, taken) ↦ absurd (cc (rw (add_provider, taken) at h))
]

check_outputs-eq-ok : (ts : List GoType) (t : GoType) → check_outputs ts ≡ ok t → ts ≡ t ∷ []
check_outputs-eq-ok [] t h = absurd (cc h)
check_outputs-eq-ok (u ∷ v ∷ ts) t h = absurd (cc h)
check_outputs-eq-ok (u ∷ []) t h = elim (Bool-cases (is_ptr_or_interface u.kind)) [
  | inl k ↦ ap (λ x. x ∷ []) (ok-injective u t (rw k at h))
  | inr k ↦ absurd (cc (rw k at h))
]

register_new-Passed :
    (m : ProviderMethod) (ps ps' : Providers) → register_new m ps ≡ ok ps' → Passed m ps ps'
unfolding register_new
register_new-Passed m ps ps' h = elim (Bool-cases (is_new m.name)) [
  | inl n ↦
      let (u, hi, h1) = bind-eq-ok (check_inputs m.ins) _ ps' (rw (register_new, n) at h) in
      let (t, ho, h2) = bind-eq-ok (check_outputs m.outs) (add_provider ps m.code) ps' h1 in
      let (found, kept) = add_provider-keeps ps ps' m.code t h2 in
      record { kept = kept; added = λ q. (t, check_outputs-eq-ok m.outs t ho, found) }
  | inr n ↦
      let same_list = ok-injective ps ps' (rw (register_new, n) at h) in
      record {
        kept = λ t c found. ap (provider t) (sym same_list) ∙ found;
        added = λ q. absurd (cc (n, q));
      }
]

register_all-keeps :
    (ms : List ProviderMethod) (ps ps' : Providers) (t : GoType) (c : Prog)
    → register_all ms ps ≡ ok ps'
    → provider t ps ≡ some c
    → provider t ps' ≡ some c
unfolding register_all
register_all-keeps [] ps ps' t c h found = ap (provider t) (sym (ok-injective ps ps' h)) ∙ found
register_all-keeps (m ∷ ms) ps ps' t c h found =
    let (ps1, first, rest) = bind-eq-ok (register_new m ps) (register_all ms) ps' h in
    register_all-keeps ms ps1 ps' t c rest ((register_new-Passed m ps ps1 first).kept t c found)

-- What a registered list of methods leaves.
pub record ProvidesAll (ms : List ProviderMethod) (ps ps' : Providers) : Type 0 where
  pub kept : (t : GoType) (c : Prog) → provider t ps ≡ some c → provider t ps' ≡ some c
  pub provided :
      (before behind : List ProviderMethod) (m : ProviderMethod)
      → ms ≡ before ++ m ∷ behind
      → is_new m.name ≡ true
      → (t : GoType) × (m.outs ≡ t ∷ []) × (provider t ps' ≡ some m.code)

all_provided :
    (before behind : List ProviderMethod) (m : ProviderMethod) (ps ps' : Providers)
    → register_all (before ++ m ∷ behind) ps ≡ ok ps'
    → is_new m.name ≡ true
    → (t : GoType) × (m.outs ≡ t ∷ []) × (provider t ps' ≡ some m.code)
unfolding register_all
all_provided [] behind m ps ps' h n =
    let (ps1, first, rest) = bind-eq-ok (register_new m ps) (register_all behind) ps' h in
    let (t, out, found) = (register_new-Passed m ps ps1 first).added n in
    (t, out, register_all-keeps behind ps1 ps' t m.code rest found)
all_provided (b ∷ before) behind m ps ps' h n =
    let (ps1, first, rest) =
      bind-eq-ok (register_new b ps) (register_all (before ++ m ∷ behind)) ps' h in
    all_provided before behind m ps1 ps' rest n

-- RegisterProvider, if it does not panic, makes each method of the provider whose name begins with
-- New the provider of its only result type, and no type loses the provider that it had.
pub register_provider-ProvidesAll :
    (b : Bool) (ms : List ProviderMethod) (ps ps' : Providers)
    → register_provider b ms ps ≡ ok ps'
    → ProvidesAll ms ps ps'
unfolding register_provider
register_provider-ProvidesAll true ms ps ps' h = record {
  kept = λ t c found. register_all-keeps ms ps ps' t c h found;
  provided = λ before behind m e n.
      all_provided before behind m ps ps' (ap (λ l. register_all l ps) (sym e) ∙ h) n;
}
register_provider-ProvidesAll false ms ps ps' h = absurd (cc h)
