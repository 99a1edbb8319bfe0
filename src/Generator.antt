-- ===== src/Generator.antt =====
-- cmd/generate/main.go: the parts of Go's syntax tree that it reads, what it selects, and the head
-- of its files. `go/parser` and `go/doc` make the tree. A pointer from an identifier to the object
-- it names is an address in the objects of the package, since types may name themselves.
pub mod Procedures
pub mod Providers
pub mod Selected
pub mod Methods
pub mod Registered
pub mod Order
pub mod Sorting
mod Tests
use jonson.Prelude.{
  ℕ, zero, suc, ◌+◌, Bool, true, false, ◌&&◌, not, Option, none, some, List, [], ◌∷◌, ◌++◌, map,
  any, ltb, ◌==◌, if◌then◌else◌,
}
use jonson.Text.{Text, codes, text_eq}
use jonson.Names.{is_upper, is_digit, lower, span_digits}
use mathlib.Core.List.{reverse}

-- The expressions of types, and the fields of a struct. The address is `Obj`.
mutual
  pub data Expr : Type 0 where
    star : Expr → Expr
    ident : (name : Text) (obj : Option ℕ) → Expr
    selector : Expr → (sel : Text) → Expr
    struct_type : Fields → Expr
    interface_type : Expr
    other_type : Expr

  pub data Fields : Type 0 where
    no_fields : Fields
    field_of : (names : List Text) → Expr → Fields → Fields

-- A parameter, a receiver or a result.
pub record Field : Type 0 where
  pub names : List Text
  pub typ : Expr

-- An object of a file's scope: `spec` is the name and the type of its `*ast.TypeSpec`, if it
-- declares a type; `filename`, `line` and `pos` are the position.
pub record Object : Type 0 where
  pub name : Text
  pub is_typ : Bool
  pub spec : Option (Text × Expr)
  pub filename : Text
  pub line : ℕ
  pub pos : ℕ

-- `ast.FuncDecl`
pub record FuncDecl : Type 0 where
  pub name : Text
  pub recv : Option (List Field)
  pub params : List Field
  pub results : Option (List Field)
  pub filename : Text
  pub pos : ℕ

pub record File : Type 0 where
  pub funcs : List FuncDecl
  pub scope : List Object

-- A package as `readPackage` and `doc.New` return it; `doc_types` are the documented types.
pub record Package : Type 0 where
  pub name : Text
  pub files : List File
  pub objects : List Object
  pub doc_types : List (Text × Text)

-- `inList`
unfoldable pub in_list : Text → List Text → Bool
unfolding text_eq
in_list s list = any (text_eq s) list

-- `apiNameMatcher`: `^(.+)V([0-9]+)$`, read from the end
abbrev matches_reversed : Text → Text → Bool
matches_reversed (d ∷ ds) (v ∷ c ∷ rest) = v == b'V' && not (any (λ x. x == 10) (c ∷ rest))
matches_reversed ds rest = false

unfoldable pub is_api_name : Text → Bool
unfolding span_digits
is_api_name s = let (ds, rest) = span_digits (reverse s) in matches_reversed ds rest

abbrev pub generate_mark : Text
generate_mark = codes "@generate"

-- `apiTypeMatcher`: `(^|\n)@generate($|\n)`. Whether the pattern behind its first group matches a
-- prefix, and whether a line is entered at which it does.
unfoldable pub marks_prefix : Text → Text → Bool
marks_prefix [] [] = true
marks_prefix [] (c ∷ s) = c == 10
marks_prefix (m ∷ ms) [] = false
marks_prefix (m ∷ ms) (c ∷ s) = m == c && marks_prefix ms s

unfoldable pub marks_behind : Text → Bool
unfolding marks_prefix
marks_behind [] = false
marks_behind (c ∷ s) =
    let later_line = marks_behind s in
    if c == 10 && marks_prefix generate_mark s then true else later_line

unfoldable pub is_api_type : Text → Bool
unfolding marks_behind
is_api_type doc = if marks_prefix generate_mark doc then true else marks_behind doc

-- `ast.IsExported` and `firstToLower`
unfoldable pub is_exported : Text → Bool
is_exported [] = false
is_exported (c ∷ s) = is_upper c

unfoldable pub first_to_lower : Text → Text
first_to_lower [] = []
first_to_lower (c ∷ s) = lower c ∷ s

-- `strings.Join`
unfoldable pub join : Text → List Text → Text
join sep [] = []
join sep (s ∷ []) = s
join sep (s ∷ t ∷ ts) = s ++ (sep ++ join sep (t ∷ ts))

abbrev pub quoted : Text → Text
quoted s = b'"' ∷ s ++ b'"' ∷ []

-- `prependHeader`
unfoldable pub prepend_header : Text → Text → List Text → Text
unfolding join
prepend_header content pkg_name imports =
    codes "// code generated by jonson-generate; DO NOT EDIT.\n\t\t\npackage "
    ++ pkg_name
    ++ codes "\n\nimport (\n\t"
    ++ join (codes "\n") (map quoted imports)
    ++ codes "\n)\n\n"
    ++ content

unfoldable pub filter {ℓ} : {A : Type ℓ} → (A → Bool) → List A → List A
filter p [] = []
filter p (x ∷ xs) = let rest = filter p xs in if p x then x ∷ rest else rest

-- What `main` takes from the files: the methods with the name of a procedure, the exported types,
-- and those of them that are marked.
unfoldable pub list_methods : List FuncDecl → List FuncDecl
unfolding is_api_name filter
list_methods = filter (λ (d : FuncDecl). is_api_name d.name)

unfoldable pub list_structs : List Object → List Object
unfolding is_exported filter
list_structs = filter (λ (o : Object). o.is_typ && is_exported o.name)

unfoldable pub whitelist : List (Text × Text) → List Text
unfolding is_api_type
whitelist [] = []
whitelist ((name, doc) ∷ ts) =
    let rest = whitelist ts in if is_api_type doc then name ∷ rest else rest

unfoldable pub list_types : List Text → List Object → List Object
unfolding in_list filter
list_types marked = filter (λ (o : Object). in_list o.name marked)

-- `sort.Slice` by position
module _ {ℓ} {A : Type ℓ} (pos_of : A → ℕ) where
  unfoldable pub insert_by : A → List A → List A
  insert_by a [] = a ∷ []
  insert_by a (b ∷ bs) =
      let rest = insert_by a bs in if ltb (pos_of b) (pos_of a) then b ∷ rest else a ∷ b ∷ bs

  unfoldable pub sort_by : List A → List A
  unfolding insert_by
  sort_by [] = []
  sort_by (a ∷ rest) = insert_by a (sort_by rest)

unfoldable pub all_funcs : List File → List FuncDecl
all_funcs [] = []
all_funcs (f ∷ fs) = f.funcs ++ all_funcs fs

unfoldable pub all_objects : List File → List Object
all_objects [] = []
all_objects (f ∷ fs) = f.scope ++ all_objects fs

-- `listMethods` and `listTypes` behind their sorting.
abbrev pub sorted_methods : Package → List FuncDecl
sorted_methods p = sort_by (λ (d : FuncDecl). d.pos) (list_methods (all_funcs p.files))

abbrev pub sorted_types : Package → List Object
sorted_types p =
    sort_by (λ (o : Object). o.pos)
      (list_types (whitelist p.doc_types) (list_structs (all_objects p.files)))
