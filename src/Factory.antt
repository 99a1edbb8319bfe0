-- ===== src/Factory.antt =====
-- factory.go: the registration of a provider function. What reflection shows of the function is
-- `ProviderFunc`. The map of providers is a list in which the latest registration comes first.
pub mod Scan
pub mod Make
pub mod Loggers
mod Tests
use jonson.Prelude.{
  Bool, true, false, not, Option, none, some, List, [], ◌∷◌, ◌≡◌, refl, sym, ap, ◌∙◌, arith,
  if◌then◌else◌, Bool-cases, inl, inr,
}
use jonson.Types.{GoType, same, is_ptr_or_interface, type_context}
use jonson.Errors.{PanicValue, of_string}
use jonson.Validate.{Result, ok, panicked}
use jonson.Validate.Binds.{ok-injective}
use jonson.Context.Prog.{Prog}
use jonson.Context.Run.{Providers, provider}

pub record ProviderFunc : Type 0 where
  pub is_func : Bool
  pub ins : List GoType
  pub outs : List GoType
  pub code : Prog

abbrev check_output : ProviderFunc → List GoType → Providers → Result Providers
check_output fn (t ∷ []) ps =
    if is_ptr_or_interface t.kind
    then ok ((t, fn.code) ∷ ps)
    else panicked (of_string "factory: expect return type to be an interface or ptr to struct")
check_output fn _ ps =
    panicked (of_string "factory: expect registered function to have exactly 1 return value")

abbrev check_input : ProviderFunc → List GoType → Providers → Result Providers
check_input fn (t ∷ []) ps =
    if same t type_context
    then check_output fn fn.outs ps
    else panicked
        (of_string "factory: expect registered function to have *jonson.Context as first argument")
check_input fn _ ps =
    panicked (of_string "factory: expect registered function to have exactly 1 argument")

-- `Factory.RegisterProviderFunc`
unfoldable pub register_provider_func : ProviderFunc → Providers → Result Providers
register_provider_func fn ps =
    if fn.is_func
    then check_input fn fn.ins ps
    else panicked (of_string "factory: expect registered function to be a function")

-- What a registration leaves: the function provides a type that `Require` accepts.
pub record Provides (fn : ProviderFunc) (ps ps' : Providers) : Type 0 where
  pub out : GoType
  pub only_out : fn.outs ≡ out ∷ []
  pub accepted : is_ptr_or_interface out.kind ≡ true
  pub found : provider out ps' ≡ some fn.code
  pub others : (t : GoType) → same out t ≡ false → provider t ps' ≡ provider t ps

check_output-Provides :
    (fn : ProviderFunc) (outs : List GoType) (ps ps' : Providers)
    → fn.outs ≡ outs
    → check_output fn outs ps ≡ ok ps'
    → Provides fn ps ps'
unfolding provider
check_output-Provides fn [] ps ps' e h = absurd (cc h)
check_output-Provides fn (t ∷ u ∷ us) ps ps' e h = absurd (cc h)
check_output-Provides fn (t ∷ []) ps ps' e h = elim (Bool-cases (is_ptr_or_interface t.kind)) [
  | inl k ↦
      let added : (t, fn.code) ∷ ps ≡ ps' = ok-injective _ ps' (rw k at h) in
      record {
        out = t;
        only_out = e;
        accepted = k;
        found = ap (provider t) (sym added) ∙ ground arith;
        others = λ u n. ap (provider u) (sym added) ∙ rw n;
      }
  | inr k ↦ absurd (cc (rw k at h))
]

check_input-Provides :
    (fn : ProviderFunc) (ins : List GoType) (ps ps' : Providers)
    → check_input fn ins ps ≡ ok ps'
    → Provides fn ps ps'
check_input-Provides fn [] ps ps' h = absurd (cc h)
check_input-Provides fn (t ∷ u ∷ us) ps ps' h = absurd (cc h)
check_input-Provides fn (t ∷ []) ps ps' h = elim (Bool-cases (same t type_context)) [
  | inl e ↦ check_output-Provides fn fn.outs ps ps' refl (rw e at h)
  | inr e ↦ absurd (cc (rw e at h))
]

if-eq-ok :
    (b : Bool) (m : Result Providers) (p : PanicValue) (ps : Providers)
    → (if b then m else panicked p) ≡ ok ps
    → m ≡ ok ps
if-eq-ok true m p ps h = h
if-eq-ok false m p ps h = absurd (cc h)

-- A provider function whose registration does not panic has a single result, of a type that
-- `Require` accepts; the function is the provider of that type from then on, also where another
-- one was registered before, and the providers of all other types stay.
pub register_provider_func-Provides :
    (fn : ProviderFunc) (ps ps' : Providers)
    → register_provider_func fn ps ≡ ok ps'
    → Provides fn ps ps'
unfolding register_provider_func
register_provider_func-Provides fn ps ps' h =
    check_input-Provides fn fn.ins ps ps' (if-eq-ok fn.is_func _ _ ps' h)
