-- ===== src/Example/Generated.antt =====
-- The generator (cmd/generate/main.go) on the package of the example: the file of its providers is
-- the one that is checked in, jonson.providers.gen.go. The file of its calls that is checked in was
-- written before `ProcessV1`.
use jonson.Prelude.{ℕ, String, true, none, some, List, [], ◌∷◌, ◌++◌, map, ◌≡◌, refl}
use jonson.Text.{Text, codes}
use jonson.Validate.{Result, ok, panicked}
use jonson.Generator.{
  Expr, star, ident, selector, struct_type, no_fields, Field, Object, FuncDecl, File, Package,
  all_objects, list_structs, sorted_methods, sort_by, list_methods, all_funcs,
}
use jonson.Generator.Procedures.{Call, calls_of, find_object}
use jonson.Generator.Providers.{types_file}

abbrev declared : String → String → ℕ → ℕ → Object
declared name file line at = record {
  name = codes name;
  is_typ = true;
  spec = some (codes name, struct_type no_fields);
  filename = codes file;
  line = line;
  pos = at;
}

-- `func (a *Account) ...(ctx *jonson.Context, caller *Private, _ jonson.HttpGet, ...) (...)`
abbrev one : Expr → Field
one t = record { names = codes "_" ∷ []; typ = t }

abbrev of_jonson : String → Expr
of_jonson s = selector (ident (codes "jonson") none) (codes s)

abbrev procedure : String → ℕ → List Expr → List Expr → FuncDecl
procedure name at params results = record {
  name = codes name;
  recv = some (one (star (ident (codes "Account") none)) ∷ []);
  params = one (star (of_jonson "Context")) ∷ map one params;
  results = some (map one results);
  filename = codes "account.go";
  pos = at;
}

abbrev account_file : File
account_file = record {
  funcs =
      procedure "MeV1" 20 (star (ident (codes "Private") none) ∷ of_jonson "HttpGet" ∷ [])
        (star (ident (codes "MeV1Result") none) ∷ ident (codes "error") none ∷ [])
      ∷ procedure "ProcessV1" 60 (star (ident (codes "Public") none) ∷ of_jonson "HttpGet" ∷ [])
          (ident (codes "error") none ∷ [])
      ∷ [];
  scope = declared "Account" "account.go" 12 1 ∷ [];
}

abbrev provider_file : File
provider_file = record {
  funcs = [];
  scope =
      declared "Private" "provider.authorization.go" 6 100
      ∷ declared "Public" "provider.authorization.go" 14 101
      ∷ [];
}

abbrev account_package : Package
account_package = record {
  name = codes "account";
  files = account_file ∷ provider_file ∷ [];
  objects = account_file.scope ++ provider_file.scope;
  doc_types = (codes "Private", codes "@generate\n") ∷ (codes "Public", codes "@generate\n") ∷ [];
}

abbrev checked_in : String
checked_in =
    "// code generated by jonson-generate; DO NOT EDIT.\n\t\t\npackage account\n\nimport (\n\t\"reflect\"\n\"github.com/doejon/jonson\"\n)\n\n\n// provider.authorization.go:6 -- Private -- struct\nvar TypePrivate = reflect.TypeOf((**Private)(nil)).Elem()\n\nfunc RequirePrivate(ctx *jonson.Context) *Private {\n\tif v := ctx.Require(TypePrivate).(*Private); v != nil {\n\t\treturn v\n\t}\n\treturn nil\n}\n\n// provider.authorization.go:14 -- Public -- struct\nvar TypePublic = reflect.TypeOf((**Public)(nil)).Elem()\n\nfunc RequirePublic(ctx *jonson.Context) *Public {\n\tif v := ctx.Require(TypePublic).(*Public); v != nil {\n\t\treturn v\n\t}\n\treturn nil\n}\n"

providers_checked_in : types_file account_package ≡ ok (codes checked_in)
unfolding types_file sort_by
providers_checked_in = refl

abbrev endpoints : Result (List Call) → List (Text × Text)
endpoints (ok cs) = map (λ (c : Call). (c.method_name, c.http_method)) cs
endpoints (panicked p) = []

-- The calls that the generator writes for two procedures.
calls_written :
    endpoints (
      calls_of
        (find_object account_package.objects (list_structs (all_objects account_package.files)))
        account_package.name
        (sorted_methods account_package))
    ≡ (codes "account/me.v1", codes "jonson.RpcHttpMethodGet")
      ∷ (codes "account/process.v1", codes "jonson.RpcHttpMethodGet")
      ∷ []
unfolding calls_of find_object list_structs all_objects sort_by list_methods all_funcs
calls_written = refl
