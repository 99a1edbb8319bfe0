-- ===== src/Generator/Providers.antt =====
-- `writeTypesFile` of cmd/generate/main.go: for each marked struct or interface, its reflected type
-- and a function that requires it.
use jonson.Prelude.{Option, none, some, List, [], ◌∷◌, ◌++◌}
use jonson.Text.{Text, codes, decimal}
use jonson.Validate.{Result, ok, panicked, ◌>>=◌}
use jonson.Generator.{
  struct_type, interface_type, Object, Package, prepend_header, whitelist, list_types, list_structs,
  all_objects, sorted_types,
}
use jonson.Generator.Procedures.{interface_conversion}

-- A type that gets an entry: what the comment calls it, and the type that is required.
pub record Provided : Type 0 where
  pub shown : Text
  pub type_name : Text
  pub object : Object

unfoldable pub provided_of : Object → Result (Option Provided)
provided_of o = elim o.spec [
  | none ↦ panicked interface_conversion
  | some (name, interface_type) ↦
      ok (some (record { shown = codes "interface" ++ o.name; type_name = o.name; object = o }))
  | some (name, struct_type fs) ↦
      ok (some (record { shown = codes "struct"; type_name = b'*' ∷ o.name; object = o }))
  | some (name, t) ↦ ok none
]

abbrev pub add_provided : Option Provided → List Provided → Result (List Provided)
add_provided none ps = ok ps
add_provided (some p) ps = ok (p ∷ ps)

unfoldable pub provided : List Object → Result (List Provided)
unfolding provided_of
provided [] = ok []
provided (o ∷ os) = let rest = provided os in provided_of o >>= λ p. rest >>= add_provided p

unfoldable pub print_provided : Provided → Text
unfolding decimal
print_provided p =
    codes "\n// "
    ++ p.object.filename
    ++ codes ":"
    ++ decimal p.object.line
    ++ codes " -- "
    ++ p.object.name
    ++ codes " -- "
    ++ p.shown
    ++ codes "\nvar Type"
    ++ p.object.name
    ++ codes " = reflect.TypeOf((*"
    ++ p.type_name
    ++ codes ")(nil)).Elem()\n\nfunc Require"
    ++ p.object.name
    ++ codes "(ctx *jonson.Context) "
    ++ p.type_name
    ++ codes " {\n\tif v := ctx.Require(Type"
    ++ p.object.name
    ++ codes ").("
    ++ p.type_name
    ++ codes "); v != nil {\n\t\treturn v\n\t}\n\treturn nil\n}\n"

unfoldable pub print_each : List Provided → Text
unfolding print_provided
print_each [] = []
print_each (p ∷ ps) = print_provided p ++ print_each ps

abbrev reflect_import : List Object → List Text
reflect_import [] = []
reflect_import (o ∷ os) = codes "reflect" ∷ []

abbrev jonson_import : List Provided → List Text
jonson_import [] = []
jonson_import (p ∷ ps) = codes "github.com/doejon/jonson" ∷ []

-- What `writeTypesFile` writes to the file.
unfoldable pub write_types_file : Text → List Object → Result Text
unfolding provided print_each prepend_header
write_types_file pkg_name types = provided types >>= λ ps.
    ok (prepend_header (print_each ps) pkg_name (reflect_import types ++ jonson_import ps))

-- The file that `main` has written for a package.
unfoldable pub types_file : Package → Result Text
unfolding write_types_file whitelist list_types list_structs all_objects
types_file p = write_types_file p.name (sorted_types p)
