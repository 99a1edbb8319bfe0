-- ===== src/Generator/Order.antt =====
-- The files and the scopes of a package are maps, which Go iterates in any order: the generated
-- files do not depend on it (cmd/generate/main.go).
use mathlib.Core.List.{Permᴰ, Pairwise, mem-cons_self}
use mathlib.Core.List.Permᴰ
use jonson.Prelude.{
  ℕ, Bool, true, false, Option, none, some, List, ◌∷◌, ◌≡◌, ◌≢◌, refl, sym, ap, ◌∙◌, Bool-cases,
  inl, inr, if◌then◌else◌,
}
use mathlib.Core.Path.{fun_ext, subst, subst₂}
use jonson.Text.{Text, text_eq}
use jonson.Text.Laws.{text_eq_iff}
use jonson.Generator.Sorting.{Apart, sort_by-Perm}
use jonson.Generator.Procedures.{find_by_name, find_object, procedure_file}
use jonson.Generator.Providers.{types_file}
use jonson.Generator.{
  Object, FuncDecl, Package, sort_by, filter, list_methods, list_structs, list_types, whitelist,
  all_funcs, all_objects, sorted_methods, sorted_types,
}

-- Different names.
abbrev pub Named : Object → Object → Type 0
Named a b = a.name ≢ b.name

Named-prop : (a b : Object) → IsProp (Named a b)
Named-prop a b = hlevel

keep_one {ℓ} :
    {A : Type ℓ} (t : Bool) (a : A) {l l' : List A}
    → Permᴰ l l'
    → Permᴰ (if t then a ∷ l else l) (if t then a ∷ l' else l')
keep_one true a d = Permᴰ.cons refl d
keep_one false a d = d

keep_two {ℓ} :
    {A : Type ℓ} (s t : Bool) (a b : A) (l : List A)
    → Permᴰ
        (if s then a ∷ (if t then b ∷ l else l) else (if t then b ∷ l else l))
        (if t then b ∷ (if s then a ∷ l else l) else (if s then a ∷ l else l))
keep_two true true a b l = Permᴰ.swap refl refl
keep_two true false a b l = Permᴰ.refl (a ∷ l)
keep_two false true a b l = Permᴰ.refl (b ∷ l)
keep_two false false a b l = Permᴰ.refl l

filter-Perm {ℓ} :
    {A : Type ℓ} (keep : A → Bool) {l l' : List A}
    → Permᴰ l l'
    → Permᴰ (filter keep l) (filter keep l')
unfolding filter
filter-Perm keep Permᴰ.nil = Permᴰ.nil
filter-Perm keep (Permᴰ.cons {a = a} {l₁ = l} {l₂ = l'} e d) =
    subst (λ x. Permᴰ (filter keep (a ∷ l)) (filter keep (x ∷ l'))) e
      (keep_one (keep a) a (filter-Perm keep d))
filter-Perm keep (Permᴰ.swap {a = a} {b} {a'} {b'} {l = l} e e') =
    subst₂ (λ x y. Permᴰ (filter keep (a ∷ b ∷ l)) (filter keep (x ∷ y ∷ l))) e' e
      (keep_two (keep a) (keep b) a b (filter keep l))
filter-Perm keep (Permᴰ.trans d d') = Permᴰ.trans (filter-Perm keep d) (filter-Perm keep d')

find_by_name_swap :
    (name : Text) (a b : Object) (l : List Object)
    → Named a b
    → find_by_name name (a ∷ b ∷ l) ≡ find_by_name name (b ∷ a ∷ l)
unfolding find_by_name
find_by_name_swap name a b l ne = elim (Bool-cases (text_eq name a.name)) [
  | inl x ↦ elim (Bool-cases (text_eq name b.name)) [
    | inl y ↦ absurd (ne (sym ((text_eq_iff _ _).0 x) ∙ (text_eq_iff _ _).0 y))
    | inr y ↦ rw (x, y)
  ]
  | inr x ↦ rw x
]

find_by_name-Perm :
    (name : Text) {l l' : List Object}
    → Permᴰ l l'
    → Pairwise Named l
    → find_by_name name l ≡ find_by_name name l'
unfolding find_by_name
find_by_name-Perm name Permᴰ.nil h = refl
find_by_name-Perm name (Permᴰ.cons {a = a} {b} e d) (Pairwise.cons h t) =
    rw (e, find_by_name-Perm name d t)
find_by_name-Perm name (Permᴰ.swap {a = a} {b} {a'} {b'} {l = l} e e') (Pairwise.cons h t) =
    find_by_name_swap name a b l (h b mem-cons_self)
    ∙ ap (λ x. find_by_name name (x ∷ a ∷ l)) e'
    ∙ ap (λ x. find_by_name name (a' ∷ x ∷ l)) e
find_by_name-Perm name (Permᴰ.trans d d') h =
    find_by_name-Perm name d h
    ∙ find_by_name-Perm name d' (Permᴰ.pairwise Named-prop (λ x y n e. n (sym e)) d h)

-- Packages with the same declarations in different orders.
pub record Reordered (p q : Package) : Type 0 where
  pub same_name : p.name ≡ q.name
  pub same_objects : p.objects ≡ q.objects
  pub same_docs : p.doc_types ≡ q.doc_types
  pub funcs : Permᴰ (all_funcs p.files) (all_funcs q.files)
  pub scopes : Permᴰ (all_objects p.files) (all_objects q.files)

-- The procedures and the marked types of a package stand at different positions, and its exported
-- types have different names.
pub record IsDistinct (p : Package) : Type 0 where
  pub methods : Pairwise (Apart (λ (d : FuncDecl). d.pos)) (list_methods (all_funcs p.files))
  pub types :
      Pairwise
        (Apart (λ (o : Object). o.pos))
        (list_types (whitelist p.doc_types) (list_structs (all_objects p.files)))
  pub names : Pairwise Named (list_structs (all_objects p.files))

list_structs-Perm : {l l' : List Object} → Permᴰ l l' → Permᴰ (list_structs l) (list_structs l')
unfolding list_structs
list_structs-Perm d = filter-Perm _ d

sorted_methods-same :
    (p q : Package) → Reordered p q → IsDistinct p → sorted_methods p ≡ sorted_methods q
unfolding list_methods
sorted_methods-same p q r h = sort_by-Perm _ (filter-Perm _ r.funcs) h.methods

sorted_types-same : (p q : Package) → Reordered p q → IsDistinct p → sorted_types p ≡ sorted_types q
unfolding list_types
sorted_types-same p q r h =
    sort_by-Perm _ (filter-Perm _ (list_structs-Perm r.scopes)) h.types
    ∙ ap
        (λ docs.
          sort_by (λ (o : Object). o.pos)
            (list_types (whitelist docs) (list_structs (all_objects q.files))))
        r.same_docs

find_object-same :
    (objects l l' : List Object)
    → Permᴰ l l'
    → Pairwise Named l
    → find_object objects l ≡ find_object objects l'
unfolding find_object
find_object-same objects l l' d h = fun_ext (λ name. fun_ext (λ (obj : Option ℕ). at name obj))
  where
    at :
        (name : Text) (obj : Option ℕ)
        → find_object objects l name obj ≡ find_object objects l' name obj
    at name none = find_by_name-Perm name d h
    at name (some a) = refl

-- The generated files do not depend on the order in which Go iterates over the files of the package
-- and over their scopes: two packages with the same declarations in any orders give the same texts,
-- if the procedures and the marked types stand at different positions and the exported types have
-- different names.
pub generated-Reordered :
    (jonson_path : Text) (p q : Package)
    → Reordered p q
    → IsDistinct p
    → (procedure_file jonson_path p ≡ procedure_file jonson_path q) × (types_file p ≡ types_file q)
unfolding procedure_file types_file
generated-Reordered jonson_path p q r h = (
  rw (
    r.same_objects,
    r.same_name,
    find_object-same q.objects _ _ (list_structs-Perm r.scopes) h.names,
    sorted_methods-same p q r h,
  ),
  rw (r.same_name, sorted_types-same p q r h),
)
