-- ===== src/Generator/Registered.antt =====
-- The calls that the generator writes and the procedures that `RegisterSystem` registers.
use jonson.Prelude.{
  ◌<◌, true, some, List, [], ◌∷◌, ◌++◌, ltb, ◌≡◌, sym, ap, ◌∙◌, arith, Bool-cases, inl, inr,
  if◌then◌else◌,
}
use jonson.Text.{Text, text_eq}
use jonson.Text.Laws.{text_eq_iff}
use jonson.Types.{GoType}
use jonson.Validate.{Result, ok, panicked}
use jonson.Validate.Binds.{bind-eq-ok, ok-injective}
use jonson.Names.{to_kebab_case, split_method_name}
use jonson.Method.{MethodDefinition, MethodHandler, ApiEndpoint, HandlerFunc, endpoint_of, bound}
use jonson.Method.Register.{
  Method, is_ptr_to_struct, fails, register_method, register_methods, register_system, name_of,
}
use jonson.Method.Register.Laws.{register_method-Registered}
use jonson.Generator.{FuncDecl}
use jonson.Generator.Procedures.{Call, Find, call_of, endpoint_name, param_type_of, result_type_of}

-- The definition that `RegisterSystem` makes of a method.
abbrev definition_of : Text → Method → MethodDefinition
definition_of system (name, f) = record {
  system = system;
  method = (split_method_name name).0;
  version = (split_method_name name).1;
  handler_func = f;
  method_context = bound;
}

-- Whether a method is registered, and what becomes of the registry.
abbrev next : List GoType → Text → Method → MethodHandler → Result MethodHandler
next types system g m =
    if ltb 0 (split_method_name g.0).1
    then register_method types (definition_of system g) m
    else ok m

next-versioned :
    (types : List GoType) (system : Text) (g : Method) (m : MethodHandler)
    → ltb 0 (split_method_name g.0).1 ≡ true
    → next types system g m ≡ register_method types (definition_of system g) m
next-versioned types system g m v = rw v

-- A registration leaves what is registered.
register_method-keeps :
    (types : List GoType) (d : MethodDefinition) (m m' : MethodHandler) (n : Text) (e : ApiEndpoint)
    → register_method types d m ≡ ok m'
    → endpoint_of n m.endpoints ≡ some e
    → endpoint_of n m'.endpoints ≡ some e
register_method-keeps types d m m' n e h found =
    let r = register_method-Registered types d m m' h in
    elim (Bool-cases (text_eq (name_of d) n)) [
      | inl same ↦ absurd (
          cc (
            r.was_free,
            found,
            ap (λ k. endpoint_of k m.endpoints) ((text_eq_iff (name_of d) n).0 same),
          ))
      | inr other ↦ r.others n other ∙ found
    ]

next-keeps :
    (types : List GoType) (system : Text) (g : Method) (m m' : MethodHandler) (n : Text)
    (e : ApiEndpoint)
    → next types system g m ≡ ok m'
    → endpoint_of n m.endpoints ≡ some e
    → endpoint_of n m'.endpoints ≡ some e
next-keeps types system g m m' n e h found = elim (Bool-cases (ltb 0 (split_method_name g.0).1)) [
  | inl v ↦
      register_method-keeps types (definition_of system g) m m' n e
        (sym (next-versioned types system g m v) ∙ h) found
  | inr v ↦
      ap (λ (x : MethodHandler). endpoint_of n x.endpoints) (sym (ok-injective _ _ (rw v at h)))
      ∙ found
]

register_methods-keeps :
    (types : List GoType) (system : Text) (fs : List Method) (m m' : MethodHandler) (n : Text)
    (e : ApiEndpoint)
    → register_methods types system fs m ≡ ok m'
    → endpoint_of n m.endpoints ≡ some e
    → endpoint_of n m'.endpoints ≡ some e
unfolding register_methods
register_methods-keeps types system [] m m' n e h found =
    ap (λ (x : MethodHandler). endpoint_of n x.endpoints) (sym (ok-injective _ _ h)) ∙ found
register_methods-keeps types system (g ∷ fs) m m' n e h found =
    let (m1, first, rest) =
      bind-eq-ok (next types system g m) (register_methods types system fs) m' h in
    register_methods-keeps types system fs m1 m' n e rest
      (next-keeps types system g m m1 n e first found)

-- What a registry knows of a method.
abbrev Knows : Text → HandlerFunc → MethodHandler → Type 0
Knows n f m = (e : ApiEndpoint) × (endpoint_of n m.endpoints ≡ some e) × (e.def.handler_func ≡ f)

register_methods-Knows :
    (types : List GoType) (system name : Text) (f : HandlerFunc) (before behind : List Method)
    (m m' : MethodHandler)
    → register_methods types system (before ++ (name, f) ∷ behind) m ≡ ok m'
    → ltb 0 (split_method_name name).1 ≡ true
    → Knows (name_of (definition_of system (name, f))) f m'
unfolding register_methods
register_methods-Knows types system name f [] behind m m' h v =
    let (m1, first, rest) =
      bind-eq-ok (next types system (name, f) m) (register_methods types system behind) m' h in
    let r =
      register_method-Registered types (definition_of system (name, f)) m m1
        (sym (next-versioned types system (name, f) m v) ∙ first) in
    (
      r.endpoint,
      register_methods-keeps types system behind m1 m' _ r.endpoint rest r.found,
      ap (λ (d : MethodDefinition). d.handler_func) r.defined,
    )
register_methods-Knows types system name f (g ∷ before) behind m m' h v =
    let (m1, first, rest) =
      bind-eq-ok (next types system g m)
        (register_methods types system (before ++ (name, f) ∷ behind)) m' h in
    register_methods-Knows types system name f before behind m1 m' rest v

call_of-method_name :
    (find : Find) (struct_name : Text) (d : FuncDecl) (c : Call)
    → call_of find struct_name d ≡ ok c
    → c.method_name ≡ endpoint_name struct_name d.name
unfolding call_of
call_of-method_name find struct_name d c h =
    let (p, hp, h1) = bind-eq-ok (param_type_of find d.params) _ c h in
    let (r, hr, h2) = bind-eq-ok (result_type_of d.results) _ c h1 in
    ap (λ (x : Call). x.method_name) (sym (ok-injective _ _ h2))

-- A system is a pointer to a struct.
registered_struct :
    (rt : GoType) (r : Result MethodHandler) (m : MethodHandler)
    → (if is_ptr_to_struct rt.kind
        then r
        else panicked (fails "registerSystem: expected ptr to struct"))
      ≡ ok m
    → r ≡ ok m
registered_struct rt r m h = elim (Bool-cases (is_ptr_to_struct rt.kind)) [
  | inl b ↦ rw b at h
  | inr b ↦ absurd (cc (rw b at h))
]

-- A call that the generator writes for a method finds that method: if RegisterSystem registers the
-- methods of the struct without a panic, the method is among them and its version is not 0, then
-- the registry has an endpoint under the name in the generated call, with the method's function.
pub call_of-registered :
    (find : Find) (d : FuncDecl) (c : Call) (types : List GoType) (rt : GoType) (struct_name : Text)
    (f : HandlerFunc) (before behind : List Method) (m m' : MethodHandler)
    → call_of find struct_name d ≡ ok c
    → register_system types rt struct_name (before ++ (d.name, f) ∷ behind) m ≡ ok m'
    → 0 < (split_method_name d.name).1
    → (e : ApiEndpoint) × (endpoint_of c.method_name m'.endpoints ≡ some e)
      × (e.def.handler_func ≡ f)
unfolding register_system
call_of-registered find d c types rt struct_name f before behind m m' hc hs v =
    let (e, found, same) =
      register_methods-Knows types (to_kebab_case struct_name) d.name f before behind _ m'
        (registered_struct rt _ m' hs) (ground arith) in
    (
      e,
      ap (λ n. endpoint_of n m'.endpoints) (call_of-method_name find struct_name d c hc) ∙ found,
      same,
    )
