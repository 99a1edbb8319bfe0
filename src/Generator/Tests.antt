-- ===== src/Generator/Tests.antt =====
-- The generator at work on a small package.
use mathlib.Core.List.{Permᴰ, Pairwise, not-mem-nil, eq-or-mem_of_mem-cons}
use mathlib.Core.Logic.Or
use mathlib.Core.HLevel.{⊥_prop}
use mathlib.Core.List.Permᴰ
use jonson.Prelude.{ℕ, String, true, none, some, List, [], ◌∷◌, ◌≡◌, refl, ap, ◌∙◌, arith}
use jonson.Text.{Text, codes}
use jonson.Types.{GoType, ptr_to_struct}
use jonson.Validate.{ok}
use jonson.Names.{split_method_name}
use jonson.Method.{MethodHandler, MethodDefinition, ApiEndpoint, endpoint_of, bound}
use jonson.Method.Register.{register_system}
use jonson.Generator.{
  star, ident, selector, field_of, no_fields, interface_type, Field, Object, FuncDecl, File,
  Package, list_methods, list_structs, list_types, whitelist, all_funcs, all_objects, is_api_type,
  is_api_name,
}
use jonson.Generator.Procedures.{
  Call, Find, call_of, calls_of, print_call, procedure_file, extract_param,
}
use jonson.Generator.Providers.{types_file}
use jonson.Generator.Selected.{Selects, calls_of-Selects}
use jonson.Generator.Registered.{call_of-registered}
use jonson.Generator.Sorting.{Apart}
use jonson.Generator.Order.{Reordered, IsDistinct, generated-Reordered}
use jonson.Scenario.{ping, ping_name, ping_endpoint, ping_func, registry, type_session}

abbrev app_ident : Text → Field
app_ident s = record { names = codes "a" ∷ []; typ = star (ident s none) }

abbrev error_field : Field
error_field = record { names = []; typ = ident (codes "error") none }

abbrev get_field : Field
get_field = record { names = []; typ = selector (ident (codes "jonson") none) (codes "HttpGet") }

abbrev app_method : String → ℕ → FuncDecl
app_method s at = record {
  name = codes s;
  recv = some (app_ident (codes "App") ∷ []);
  params = get_field ∷ [];
  results = some (error_field ∷ []);
  filename = codes "app.go";
  pos = at;
}

abbrev ping_decl : FuncDecl
ping_decl = app_method "PingV1" 10

abbrev find_none : Find
find_none name obj = none

abbrev ping_line : Call
ping_line = record {
  filename = codes "app.go";
  name = codes "PingV1";
  method_name = codes "app/ping.v1";
  http_method = codes "jonson.RpcHttpMethodGet";
  param_type = [];
  result_type = [];
}

ping_called : call_of find_none (codes "App") ping_decl ≡ ok ping_line
unfolding call_of
ping_called = refl

ping_printed :
    print_call ping_line
    ≡ codes
        "\n// app.go -- PingV1\nfunc PingV1(ctx *jonson.Context) error {\n\t_, err := ctx.CallMethod(\"app/ping.v1\", jonson.RpcHttpMethodGet, nil, nil)\n\tif err != nil {\n\t\treturn err\n\t}\n\t\n\treturn nil\n}\n"
unfolding print_call
ping_printed = refl

names_matched : is_api_name (codes "PingV1") ≡ true
unfolding is_api_name
names_matched = refl

docs_matched : is_api_type (codes "Session is kept.\n@generate\n") ≡ true
unfolding is_api_type
docs_matched = refl

abbrev old_decl : FuncDecl
old_decl = app_method "GetV0" 20

-- A struct whose first field is of another package takes no parameters, also where they are named.
field_ignored :
    extract_param
      (codes "params" ∷ [])
      (codes "Request")
      (field_of (codes "mu" ∷ []) (selector (ident (codes "sync") none) (codes "Mutex")) no_fields)
    ≡ ok []
unfolding extract_param
field_ignored = refl

calls_of-Selects_example : Selects find_none (codes "app") (ping_decl ∷ []) (ping_line ∷ [])
unfolding calls_of
calls_of-Selects_example =
    calls_of-Selects find_none (codes "app") (ping_decl ∷ []) (ping_line ∷ []) refl

abbrev pointer : GoType
pointer = record type_session { kind = ptr_to_struct }

abbrev ping_def : MethodDefinition
ping_def = record ping { method_context = bound }

abbrev with_app : MethodHandler
with_app = record registry { systems = pointer ∷ []; endpoints = (ping_name, ping_endpoint) ∷ [] }

app_registered :
    register_system [] pointer (codes "App") ((codes "PingV1", ping_func) ∷ []) registry
    ≡ ok with_app
unfolding register_system
app_registered = refl

call_of-registered_example :
    (e : ApiEndpoint) × (endpoint_of ping_line.method_name with_app.endpoints ≡ some e)
    × (e.def.handler_func ≡ ping_func)
unfolding split_method_name
call_of-registered_example =
    call_of-registered find_none ping_decl ping_line [] pointer (codes "App") ping_func [] []
      registry with_app ping_called app_registered (omega arith)

abbrev session_object : Object
session_object = record {
  name = codes "Session";
  is_typ = true;
  spec = some (codes "Session", interface_type);
  filename = codes "app.go";
  line = 3;
  pos = 5;
}

abbrev package_of : List File → Package
package_of fs = record {
  name = codes "app";
  files = fs;
  objects = session_object ∷ [];
  doc_types = (codes "Session", codes "@generate") ∷ [];
}

abbrev new_file : File
new_file = record { funcs = ping_decl ∷ []; scope = session_object ∷ [] }

abbrev old_file : File
old_file = record { funcs = old_decl ∷ []; scope = [] }

abbrev one_way : Package
one_way = package_of (new_file ∷ old_file ∷ [])

abbrev other_way : Package
other_way = package_of (old_file ∷ new_file ∷ [])

two_apart {ℓ} :
    {A : Type ℓ} (pos_of : A → ℕ) (a b : A)
    → Apart pos_of a b
    → Pairwise (Apart pos_of) (a ∷ b ∷ [])
two_apart pos_of a b ne =
    Pairwise.cons {l = b ∷ []}
      (λ x m e. Or.elim ⊥_prop (eq-or-mem_of_mem-cons m) (λ d. ne (e ∙ ap pos_of d)) not-mem-nil)
      (Pairwise.cons (λ x m. absurd (not-mem-nil m)) Pairwise.nil)

one_way-Reordered : Reordered one_way other_way
unfolding all_funcs all_objects
one_way-Reordered = record {
  same_name = refl;
  same_objects = refl;
  same_docs = refl;
  funcs = Permᴰ.swap refl refl;
  scopes = Permᴰ.refl _;
}

one_way-IsDistinct : IsDistinct one_way
unfolding list_methods list_structs list_types whitelist all_funcs all_objects
one_way-IsDistinct = record {
  methods = two_apart (λ (d : FuncDecl). d.pos) ping_decl old_decl (λ e. omega (arith, e));
  types = Pairwise.cons (λ x m. absurd (not-mem-nil m)) Pairwise.nil;
  names = Pairwise.cons (λ x m. absurd (not-mem-nil m)) Pairwise.nil;
}

generated-Reordered_example :
    (procedure_file (codes "lib") one_way ≡ procedure_file (codes "lib") other_way)
    × (types_file one_way ≡ types_file other_way)
generated-Reordered_example =
    generated-Reordered (codes "lib") one_way other_way one_way-Reordered one_way-IsDistinct
