-- ===== src/Method/Register/Laws.antt =====
-- What a registration that does not panic leaves behind (`RegisterMethod` of method.handler.go).
use jonson.Prelude.{
  true, false, Option, none, some, List, ◌∷◌, ◌≡◌, refl, sym, ap, ◌∙◌, Bool-cases, inl, inr,
}
use jonson.Text.{Text, text_eq}
use jonson.Text.Laws.{text_eq_iff}
use jonson.Types.{GoType}
use jonson.Errors.{PanicValue}
use jonson.Validate.{ok, panicked}
use jonson.Validate.Binds.{bind-eq-ok, bind-panics, bind-panicked, ok-injective}
use jonson.Names.{is_valid_identifier}
use jonson.Method.{MethodDefinition, ApiEndpoint, MethodHandler, endpoint_of, zero_value}
use jonson.Method.Register.{
  fails, register_method, name_of, is_some, is_nil, check_results, check_definition,
  register_checked, register_bound, register_scanned, add_endpoint, endpoint_for,
}

record Checked (d : MethodDefinition) (m : MethodHandler) : Type 0 where
  system_ok : is_valid_identifier d.system ≡ true
  method_ok : is_valid_identifier d.method ≡ true
  free : endpoint_of (name_of d) m.endpoints ≡ none

is_some-false {ℓ} : {A : Type ℓ} (o : Option A) → is_some o ≡ false → o ≡ none
is_some-false none h = refl
is_some-false (some a) h = absurd (cc h)

check_definition-Checked :
    (d : MethodDefinition) (m : MethodHandler) (u : Unit {0})
    → check_definition d m ≡ ok u
    → Checked d m
unfolding check_definition
check_definition-Checked d m u h = elim (Bool-cases (is_valid_identifier d.system)) [
  | inl s ↦ elim (Bool-cases (is_valid_identifier d.method)) [
    | inl t ↦ elim (Bool-cases (is_some (endpoint_of (name_of d) m.endpoints))) [
      | inl taken ↦ absurd (cc (rw (s, t, taken) at h))
      | inr free ↦ record { system_ok = s; method_ok = t; free = is_some-false _ free }
    ]
    | inr t ↦ absurd (cc (rw (s, t) at h))
  ]
  | inr s ↦ absurd (cc (rw s at h))
]

-- The state of the registry after the registration of `d` with the endpoint `e`.
pub record Registered (d : MethodDefinition) (m m' : MethodHandler) : Type 0 where
  pub endpoint : ApiEndpoint
  pub was_free : endpoint_of (name_of d) m.endpoints ≡ none
  pub valid_system : is_valid_identifier d.system ≡ true
  pub valid_method : is_valid_identifier d.method ≡ true
  pub found : endpoint_of (name_of d) m'.endpoints ≡ some endpoint
  pub defined : endpoint.def ≡ d
  pub others :
      (n : Text)
      → text_eq (name_of d) n ≡ false
      → endpoint_of n m'.endpoints ≡ endpoint_of n m.endpoints

endpoint_of-head :
    (n : Text) (e : ApiEndpoint) (es : List (Text × ApiEndpoint))
    → endpoint_of n ((n, e) ∷ es) ≡ some e
unfolding endpoint_of
endpoint_of-head n e es = rw ((text_eq_iff n n).1 refl)

endpoint_of-tail :
    (n k : Text) (e : ApiEndpoint) (es : List (Text × ApiEndpoint))
    → text_eq k n ≡ false
    → endpoint_of n ((k, e) ∷ es) ≡ endpoint_of n es
unfolding endpoint_of
endpoint_of-tail n k e es h = rw h

-- A registration that does not panic had valid names and a name that was free; the procedure is
-- found under its default name from then on, and every other name finds what it found before.
pub register_method-Registered :
    (types : List GoType) (d : MethodDefinition) (m m' : MethodHandler)
    → register_method types d m ≡ ok m'
    → Registered d m m'
unfolding register_method
register_method-Registered types d m m' h =
    let (u, c, h1) = bind-eq-ok (check_definition d m) (register_checked types d m) m' h in
    let (b, n, h2) = bind-eq-ok (is_nil d.method_context) (register_bound types d m) m' h1 in
    let (sc, q, h3) = bind-eq-ok _ (register_scanned d m b) m' h2 in
    let (u', o, h4) =
      bind-eq-ok (check_results d.handler_func.outs) (add_endpoint d m b sc) m' h3 in
    let checked = check_definition-Checked d m u c in
    let e : ApiEndpoint = endpoint_for d b sc in
    let same_handler = ok-injective _ _ h4 in
    record {
      endpoint = e;
      was_free = checked.free;
      valid_system = checked.system_ok;
      valid_method = checked.method_ok;
      found =
          ap (λ (x : MethodHandler). endpoint_of (name_of d) x.endpoints) (sym same_handler)
          ∙ endpoint_of-head (name_of d) e m.endpoints;
      defined = refl;
      others = λ k q.
          ap (λ (x : MethodHandler). endpoint_of k x.endpoints) (sym same_handler)
          ∙ endpoint_of-tail k (name_of d) e m.endpoints q;
    }

-- A definition without the unexported field `methodContext`, the only one that code outside of
-- the package can write, is never registered: the registration panics, whatever it defines.
pub register_method-zero_value :
    (types : List GoType) (d : MethodDefinition) (m : MethodHandler)
    → d.method_context ≡ zero_value
    → (p : PanicValue) × (register_method types d m ≡ panicked p)
unfolding register_method is_nil
register_method-zero_value types d m z =
    bind-panics (check_definition d m) (register_checked types d m) (λ u. (
      fails "reflect: call of reflect.Value.IsNil on zero Value",
      bind-panicked (is_nil d.method_context) (register_bound types d m) _ (ap is_nil z),
    ))
