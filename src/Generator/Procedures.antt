-- ===== src/Generator/Procedures.antt =====
-- `writeProcedureFile` of cmd/generate/main.go: for each procedure of the system that is named like
-- the package, a function that calls it. What a call consists of is found first and printed then.
use jonson.Prelude.{
  ℕ, Bool, true, false, ◌&&◌, Option, none, some, List, [], ◌∷◌, ◌++◌, if◌then◌else◌,
}
use jonson.Text.{Text, codes, text_eq}
use jonson.Errors.{PanicValue, of_error, plain, nil_dereference}
use jonson.Validate.{Result, ok, panicked, ◌>>=◌}
use jonson.Context.Run.{nth}
use jonson.Names.{to_kebab_case, split_method_name, get_default_method_name}
use jonson.Generator.{
  star, ident, selector, struct_type, Fields, no_fields, field_of, Field, Object, FuncDecl, Package,
  first_to_lower, prepend_header, all_objects, list_structs, sorted_methods,
}

abbrev pub missing_params : PanicValue
missing_params = of_error (plain "missing jonson.Params field in struct")

abbrev pub params_not_first : PanicValue
params_not_first = of_error (plain "jonson.Params field in struct, should be first field")

abbrev pub unexpected_results : PanicValue
unexpected_results = of_error (plain "unexpected results count")

-- a type assertion that fails
abbrev pub interface_conversion : PanicValue
interface_conversion = of_error (plain "interface conversion")

-- The generated call of one procedure.
pub record Call : Type 0 where
  pub filename : Text
  pub name : Text
  pub method_name : Text
  pub http_method : Text
  pub param_type : Text
  pub result_type : Text

-- `getRpcHttpMethod`
unfoldable pub get_rpc_http_method : List Field → Text
unfolding text_eq
get_rpc_http_method [] = codes "jonson.RpcHttpMethodPost"
get_rpc_http_method (f ∷ fs) =
    let rest = get_rpc_http_method fs in
    elim f.typ [
      | selector x sel ↦
          if text_eq sel (codes "HttpGet")
          then codes "jonson.RpcHttpMethodGet"
          else if text_eq sel (codes "HttpPost")
          then codes "jonson.RpcHttpMethodPost"
          else rest
      | _ ↦ rest
    ]

-- `findObject`
unfoldable pub find_by_name : Text → List Object → Option Object
unfolding text_eq
find_by_name name [] = none
find_by_name name (o ∷ os) =
    let rest = find_by_name name os in if text_eq name o.name then some o else rest

abbrev pub Find : Type 0
Find = Text → Option ℕ → Option Object

unfoldable pub find_object : List Object → List Object → Find
unfolding find_by_name nth
find_object objects structs name none = find_by_name name structs
find_object objects structs name (some a) = nth a objects

-- the name of the last argument, if it has one
abbrev pub is_named_params : List Text → Bool
is_named_params [] = false
is_named_params (name ∷ names) = text_eq name (codes "params")

abbrev pub missing : Bool → PanicValue → Result Text
missing true p = panicked p
missing false p = ok []

-- `extractParam`: the argument's names, the name of its type, and the fields of the struct. A first
-- field of a type of a package that is not `jonson.Params` leaves no error.
unfoldable pub extract_param : List Text → Text → Fields → Result Text
unfolding text_eq
extract_param names type_name no_fields = missing (is_named_params names) missing_params
extract_param names type_name (field_of ns (selector (ident pkg obj) sel) fs) =
    if text_eq pkg (codes "jonson") && text_eq sel (codes "Params") then ok type_name else ok []
extract_param names type_name (field_of ns (selector x sel) fs) = panicked interface_conversion
extract_param names type_name (field_of ns t fs) = missing (is_named_params names) params_not_first

abbrev pub param_of_object : List Text → Text → Option Object → Result Text
param_of_object names type_name none = ok []
param_of_object names type_name (some o) = elim o.spec [
  | some (spec_name, struct_type fs) ↦ extract_param names type_name fs
  | _ ↦ ok []
]

-- The type of the parameters: that of the last argument.
unfoldable pub param_type_of : Find → List Field → Result Text
unfolding extract_param
param_type_of find [] = ok []
param_type_of find (f ∷ g ∷ fs) = param_type_of find (g ∷ fs)
param_type_of find (f ∷ []) = elim f.typ [
  | star (ident name obj) ↦ param_of_object f.names name (find name obj)
  | _ ↦ ok []
]

-- The type of the result: none for one result, and that of the first for two.
unfoldable pub result_type_of : Option (List Field) → Result Text
result_type_of none = panicked nil_dereference
result_type_of (some (r ∷ [])) = ok []
result_type_of (some (v ∷ r ∷ [])) = elim v.typ [
  | star (ident name obj) ↦ ok name
  | _ ↦ panicked interface_conversion
]
result_type_of (some rs) = panicked unexpected_results

-- The name of the struct of a method whose receiver is a pointer.
unfoldable pub receiver_of : Option (List Field) → Option Text
receiver_of none = none
receiver_of (some []) = none
receiver_of (some (f ∷ fs)) = elim f.typ [ star (ident name obj) ↦ some name | _ ↦ none ]

abbrev pub endpoint_name : Text → Text → Text
endpoint_name struct_name go_name =
    let (method, version) = split_method_name go_name in
    get_default_method_name (to_kebab_case struct_name) method version

-- The call of a method of the given struct.
unfoldable pub call_of : Find → Text → FuncDecl → Result Call
unfolding param_type_of result_type_of get_rpc_http_method to_kebab_case split_method_name
    get_default_method_name
call_of find struct_name d = do
  param_type ← param_type_of find d.params
  result_type ← result_type_of d.results
  ok (record {
    filename = d.filename;
    name = d.name;
    method_name = endpoint_name struct_name d.name;
    http_method = get_rpc_http_method d.params;
    param_type = param_type;
    result_type = result_type;
  })

-- The struct of a method that belongs to the package's system.
unfoldable pub system_of : Text → FuncDecl → Option Text
unfolding receiver_of first_to_lower text_eq
system_of pkg_name d = elim (receiver_of d.recv) [
  | none ↦ none
  | some struct_name ↦
      if text_eq (first_to_lower struct_name) pkg_name then some struct_name else none
]

abbrev pub prepend : Call → List Call → Result (List Call)
prepend c cs = ok (c ∷ cs)

-- The loop over the methods.
unfoldable pub calls_of : Find → Text → List FuncDecl → Result (List Call)
unfolding call_of system_of
calls_of find pkg_name [] = ok []
calls_of find pkg_name (d ∷ ds) =
    let rest = calls_of find pkg_name ds in
    elim (system_of pkg_name d) [
      | none ↦ rest
      | some struct_name ↦ call_of find struct_name d >>= λ c. rest >>= prepend c
    ]

-- The text of a call; an empty type is none.
abbrev pub if_empty : Text → Text → Text → Text
if_empty [] a b = a
if_empty (c ∷ s) a b = b

unfoldable pub print_call : Call → Text
print_call c =
    codes "\n// "
    ++ c.filename
    ++ codes " -- "
    ++ c.name
    ++ codes "\nfunc "
    ++ c.name
    ++ codes "(ctx *jonson.Context"
    ++ if_empty c.param_type [] (codes ", p *" ++ c.param_type)
    ++ codes ") "
    ++ if_empty c.result_type (codes "error") (codes "(*" ++ c.result_type ++ codes ", error)")
    ++ codes " {\n\t"
    ++ if_empty c.result_type (codes "_, err") (codes "v, err")
    ++ codes " := ctx.CallMethod(\""
    ++ c.method_name
    ++ codes "\", "
    ++ c.http_method
    ++ codes ", "
    ++ if_empty c.param_type (codes "nil") (codes "p")
    ++ codes ", nil)\n\tif err != nil {\n\t\treturn "
    ++ if_empty c.result_type (codes "err") (codes "nil, err")
    ++ codes "\n\t}\n\t"
    ++ if_empty c.result_type []
        (codes "if v != nil {\n\t\treturn v.(*" ++ c.result_type ++ codes "), nil\n\t}")
    ++ codes "\n\treturn "
    ++ if_empty c.result_type (codes "nil") (codes "nil, nil")
    ++ codes "\n}\n"

unfoldable pub print_calls : List Call → Text
unfolding print_call
print_calls [] = []
print_calls (c ∷ cs) = print_call c ++ print_calls cs

abbrev pub imports_of : Text → List Call → List Text
imports_of jonson_path [] = []
imports_of jonson_path (c ∷ cs) = jonson_path ∷ []

-- What `writeProcedureFile` writes to the file; the path of jonson is a flag.
unfoldable pub write_procedure_file : Text → Find → Text → List FuncDecl → Result Text
unfolding calls_of print_calls prepend_header
write_procedure_file jonson_path find pkg_name methods = calls_of find pkg_name methods >>= λ cs.
    ok (prepend_header (print_calls cs) pkg_name (imports_of jonson_path cs))

-- The file that `main` has written for a package.
unfoldable pub procedure_file : Text → Package → Result Text
unfolding write_procedure_file find_object list_structs all_objects
procedure_file jonson_path p =
    write_procedure_file jonson_path (find_object p.objects (list_structs (all_objects p.files)))
      p.name (sorted_methods p)
