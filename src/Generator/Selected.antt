-- ===== src/Generator/Selected.antt =====
-- Which methods the generator writes calls for (cmd/generate/main.go).
use jonson.Generator.Methods.{
  Belongs, Verb, Gives, Belongs-of_system, system_of-of_Belongs, Verb-of_params, Gives-of_results,
}
use jonson.Prelude.{List, [], ◌∷◌, ◌≡◌, sym, ap, ◌∙◌, Option-cases, inl, inr}
use mathlib.Core.Path.{subst}
use jonson.Text.{Text}
use jonson.Validate.{ok}
use jonson.Validate.Binds.{bind-eq-ok, ok-injective}
use jonson.Generator.{FuncDecl}
use jonson.Generator.Procedures.{
  Call, Find, call_of, calls_of, prepend, system_of, endpoint_name, param_type_of, result_type_of,
}

-- What a call is made of: the method `d` of the struct `struct_name`.
pub record Calls (find : Find) (struct_name : Text) (d : FuncDecl) (c : Call) : Type 0 where
  pub same_name : c.name ≡ d.name
  pub endpoint : c.method_name ≡ endpoint_name struct_name d.name
  pub verb : Verb d.params c.http_method
  pub takes : param_type_of find d.params ≡ ok c.param_type
  pub gives : Gives d.results c.result_type

call_of-Calls :
    (find : Find) (struct_name : Text) (d : FuncDecl) (c : Call)
    → call_of find struct_name d ≡ ok c
    → Calls find struct_name d c
unfolding call_of
call_of-Calls find struct_name d c h =
    let (p, hp, h1) = bind-eq-ok (param_type_of find d.params) _ c h in
    let (r, hr, h2) = bind-eq-ok (result_type_of d.results) _ c h1 in
    let e = sym (ok-injective _ _ h2) in
    record {
      same_name = ap (λ (x : Call). x.name) e;
      endpoint = ap (λ (x : Call). x.method_name) e;
      verb =
          subst (Verb d.params) (ap (λ (x : Call). x.http_method) (sym e))
            (Verb-of_params d.params);
      takes = hp ∙ ap (λ (x : Call). ok x.param_type) (sym e);
      gives =
          Gives-of_results d.results c.result_type
            (hr ∙ ap (λ (x : Call). ok x.result_type) (sym e));
    }

-- The calls of a list of methods: one for each method of the package's system, in their order, and
-- none for another method.
pub data Selects (find : Find) (pkg_name : Text) : List FuncDecl → List Call → Type 0 where
  nothing : Selects find pkg_name [] []
  skipped :
      (d : FuncDecl) (ds : List FuncDecl) (cs : List Call)
      → ((n : Text) → ¬ (Belongs pkg_name d n))
      → Selects find pkg_name ds cs
      → Selects find pkg_name (d ∷ ds) cs
  called :
      (d : FuncDecl) (ds : List FuncDecl) (struct_name : Text) (c : Call) (cs : List Call)
      → Belongs pkg_name d struct_name
      → Calls find struct_name d c
      → Selects find pkg_name ds cs
      → Selects find pkg_name (d ∷ ds) (c ∷ cs)

-- If the generator does not panic, it writes one call for each method whose receiver is a pointer to
-- the struct that the package is named for, and none for another, in their order: with the name of
-- the method, the endpoint of the struct and this name, the HTTP method of the first parameter of a
-- type `HttpGet` or `HttpPost` (POST without one), the struct to which the first of two results
-- points, and the parameter type that `extractParam` finds.
pub calls_of-Selects :
    (find : Find) (pkg_name : Text) (ds : List FuncDecl) (cs : List Call)
    → calls_of find pkg_name ds ≡ ok cs
    → Selects find pkg_name ds cs
unfolding calls_of
calls_of-Selects find pkg_name [] cs h =
    subst (Selects find pkg_name []) (ok-injective _ _ h) nothing
calls_of-Selects find pkg_name (d ∷ ds) cs h = elim (Option-cases (system_of pkg_name d)) [
  | inl other ↦
      skipped d ds cs (λ n b. cc (other, system_of-of_Belongs pkg_name d n b))
        (calls_of-Selects find pkg_name ds cs (rw (calls_of, other) at h))
  | inr (struct_name, own) ↦
      let (c, hc, h1) = bind-eq-ok (call_of find struct_name d) _ cs (rw (calls_of, own) at h) in
      let (rest, hr, h2) = bind-eq-ok (calls_of find pkg_name ds) (prepend c) cs h1 in
      subst (Selects find pkg_name (d ∷ ds)) (ok-injective _ _ h2) (
        called d ds struct_name c rest (Belongs-of_system pkg_name d struct_name own)
          (call_of-Calls find struct_name d c hc) (calls_of-Selects find pkg_name ds rest hr))
]
