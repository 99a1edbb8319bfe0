-- ===== src/Generator/Methods.antt =====
-- What makes a method part of the package's system, the HTTP method of its call and its result
-- type (cmd/generate/main.go), as relations on its declaration.
use jonson.Prelude.{
  ℕ, false, Option, none, some, List, [], ◌∷◌, ◌≡◌, ◌≢◌, refl, sym, ap, ◌∙◌, Bool-cases, inl, inr,
  if◌then◌else◌,
}
use mathlib.Core.Path.{subst}
use mathlib.Core.Option.{some-injective}
use jonson.Text.{Text, codes, text_eq}
use jonson.Text.Laws.{text_eq_iff}
use jonson.Validate.{Result, ok, panicked}
use jonson.Validate.Binds.{ok-injective}
use jonson.Generator.{
  Expr, star, ident, selector, struct_type, interface_type, other_type, Field, FuncDecl,
  first_to_lower,
}
use jonson.Generator.Procedures.{
  system_of, get_rpc_http_method, result_type_of, receiver_of, interface_conversion,
}

-- The method `d` belongs to the package's system: its receiver is a pointer to the struct `n`, and
-- the package has the name of this struct, with a lower first letter.
pub data Belongs (pkg_name : Text) (d : FuncDecl) (n : Text) : Type 0 where
  belongs :
      (f : Field) (fs : List Field) (obj : Option ℕ)
      → d.recv ≡ some (f ∷ fs)
      → f.typ ≡ star (ident n obj)
      → first_to_lower n ≡ pkg_name
      → Belongs pkg_name d n

-- The HTTP method of a call: that of the first parameter of a type `HttpGet` or `HttpPost` of some
-- package, and POST without one.
pub data Verb : List Field → Text → Type 0 where
  unmarked : Verb [] (codes "jonson.RpcHttpMethodPost")
  marked_get :
      (f : Field) (fs : List Field) (x : Expr)
      → f.typ ≡ selector x (codes "HttpGet")
      → Verb (f ∷ fs) (codes "jonson.RpcHttpMethodGet")
  marked_post :
      (f : Field) (fs : List Field) (x : Expr)
      → f.typ ≡ selector x (codes "HttpPost")
      → Verb (f ∷ fs) (codes "jonson.RpcHttpMethodPost")
  other_parameter :
      (f : Field) (fs : List Field) (t : Text)
      → ((x : Expr) → f.typ ≢ selector x (codes "HttpGet"))
      → ((x : Expr) → f.typ ≢ selector x (codes "HttpPost"))
      → Verb fs t
      → Verb (f ∷ fs) t

-- The result type of a call: none where the method returns an error alone, and otherwise the struct
-- to which its first result points.
pub data Gives : Option (List Field) → Text → Type 0 where
  gives_error : (r : Field) → Gives (some (r ∷ [])) []
  gives_value :
      (v r : Field) (n : Text) (obj : Option ℕ)
      → v.typ ≡ star (ident n obj)
      → Gives (some (v ∷ r ∷ [])) n

pointer_name : Expr → Option Text
pointer_name e = elim e [ star (ident name obj) ↦ some name | _ ↦ none ]

pointer_name-star :
    (e : Expr) (n : Text) → pointer_name e ≡ some n → (obj : Option ℕ) × (e ≡ star (ident n obj))
unfolding pointer_name
pointer_name-star (star (ident m obj)) n h =
    (obj, ap (λ m. star (ident m obj)) (some-injective m n h))
pointer_name-star (star (star e)) n h = absurd (cc h)
pointer_name-star (star (selector e sel)) n h = absurd (cc h)
pointer_name-star (star (struct_type fs)) n h = absurd (cc h)
pointer_name-star (star interface_type) n h = absurd (cc h)
pointer_name-star (star other_type) n h = absurd (cc h)
pointer_name-star (ident m obj) n h = absurd (cc h)
pointer_name-star (selector e sel) n h = absurd (cc h)
pointer_name-star (struct_type fs) n h = absurd (cc h)
pointer_name-star interface_type n h = absurd (cc h)
pointer_name-star other_type n h = absurd (cc h)

-- The struct of a receiver, if the package has its name.
system_from : Text → Option Text → Option Text
system_from pkg_name r = elim r [
  | none ↦ none
  | some n ↦ if text_eq (first_to_lower n) pkg_name then some n else none
]

system_from-some :
    (pkg_name n : Text) (r : Option Text)
    → system_from pkg_name r ≡ some n
    → (r ≡ some n) × (first_to_lower n ≡ pkg_name)
unfolding system_from
system_from-some pkg_name n none h = absurd (cc h)
system_from-some pkg_name n (some m) h = elim (Bool-cases (text_eq (first_to_lower m) pkg_name)) [
  | inl e ↦
      let same : some m ≡ some n = rw e at h in
      (
        same,
        ap first_to_lower (sym (some-injective m n same))
            ∙ (text_eq_iff (first_to_lower m) pkg_name).0 e,
      )
  | inr e ↦ absurd (cc (rw e at h))
]

Belongs-of_receiver :
    (pkg_name : Text) (d : FuncDecl) (n : Text) (r : Option (List Field))
    → d.recv ≡ r
    → receiver_of r ≡ some n
    → first_to_lower n ≡ pkg_name
    → Belongs pkg_name d n
unfolding receiver_of pointer_name
Belongs-of_receiver pkg_name d n none e h l = absurd (cc h)
Belongs-of_receiver pkg_name d n (some []) e h l = absurd (cc h)
Belongs-of_receiver pkg_name d n (some (f ∷ fs)) e h l =
    let (obj, t) = pointer_name-star f.typ n h in belongs f fs obj e t l

pub Belongs-of_system :
    (pkg_name : Text) (d : FuncDecl) (n : Text)
    → system_of pkg_name d ≡ some n
    → Belongs pkg_name d n
unfolding system_of system_from
Belongs-of_system pkg_name d n h =
    let (r, l) = system_from-some pkg_name n (receiver_of d.recv) h in
    Belongs-of_receiver pkg_name d n d.recv refl r l

pub system_of-of_Belongs :
    (pkg_name : Text) (d : FuncDecl) (n : Text)
    → Belongs pkg_name d n
    → system_of pkg_name d ≡ some n
unfolding system_of system_from receiver_of pointer_name
system_of-of_Belongs pkg_name d n (belongs f fs obj r t e) =
    ap (system_from pkg_name) (ap receiver_of r ∙ ap pointer_name t)
    ∙ ap (λ b. if b then some n else none) ((text_eq_iff (first_to_lower n) pkg_name).1 e)

-- The HTTP method, from the type of the first parameter and those behind it.
verb_from : Expr → Text → Text
verb_from e rest = elim e [
  | selector x sel ↦
      if text_eq sel (codes "HttpGet")
      then codes "jonson.RpcHttpMethodGet"
      else if text_eq sel (codes "HttpPost")
      then codes "jonson.RpcHttpMethodPost"
      else rest
  | _ ↦ rest
]

selected : Expr → Text
selected e = elim e [ selector x sel ↦ sel | _ ↦ [] ]

not_selected :
    (f : Field) (e x y : Expr) (sel wanted : Text)
    → f.typ ≡ selector x sel
    → text_eq sel wanted ≡ false
    → f.typ ≢ selector y wanted
unfolding selected
not_selected f e x y sel wanted t d p = cc (d, (text_eq_iff sel wanted).1 (ap selected (sym t ∙ p)))

Verb-of_type :
    (f : Field) (fs : List Field) (e : Expr) (t : Text)
    → f.typ ≡ e
    → Verb fs t
    → Verb (f ∷ fs) (verb_from e t)
unfolding verb_from
Verb-of_type f fs (selector x sel) t h v = elim (Bool-cases (text_eq sel (codes "HttpGet"))) [
  | inl g ↦ rw g (marked_get f fs x (h ∙ ap (selector x) ((text_eq_iff sel (codes "HttpGet")).0 g)))
  | inr g ↦ elim (Bool-cases (text_eq sel (codes "HttpPost"))) [
    | inl q ↦
        rw (g, q)
          (marked_post f fs x (h ∙ ap (selector x) ((text_eq_iff sel (codes "HttpPost")).0 q)))
    | inr q ↦
        rw (g, q)
          (other_parameter f fs t (λ y. not_selected f x x y sel (codes "HttpGet") h g)
            (λ y. not_selected f x x y sel (codes "HttpPost") h q) v)
  ]
]
Verb-of_type f fs (star x) t h v = other_parameter f fs t (λ y p. cc (h, p)) (λ y p. cc (h, p)) v
Verb-of_type f fs (ident n obj) t h v =
    other_parameter f fs t (λ y p. cc (h, p)) (λ y p. cc (h, p)) v
Verb-of_type f fs (struct_type x) t h v =
    other_parameter f fs t (λ y p. cc (h, p)) (λ y p. cc (h, p)) v
Verb-of_type f fs interface_type t h v =
    other_parameter f fs t (λ y p. cc (h, p)) (λ y p. cc (h, p)) v
Verb-of_type f fs other_type t h v = other_parameter f fs t (λ y p. cc (h, p)) (λ y p. cc (h, p)) v

pub Verb-of_params : (fs : List Field) → Verb fs (get_rpc_http_method fs)
unfolding get_rpc_http_method verb_from
Verb-of_params [] = unmarked
Verb-of_params (f ∷ fs) = Verb-of_type f fs f.typ (get_rpc_http_method fs) refl (Verb-of_params fs)

-- The name of the struct to which a first result points.
pointed : Expr → Result Text
pointed e = elim e [ star (ident name obj) ↦ ok name | _ ↦ panicked interface_conversion ]

pointed-star :
    (e : Expr) (n : Text) → pointed e ≡ ok n → (obj : Option ℕ) × (e ≡ star (ident n obj))
unfolding pointed
pointed-star (star (ident m obj)) n h = (obj, ap (λ m. star (ident m obj)) (ok-injective m n h))
pointed-star (star (star e)) n h = absurd (cc h)
pointed-star (star (selector e sel)) n h = absurd (cc h)
pointed-star (star (struct_type fs)) n h = absurd (cc h)
pointed-star (star interface_type) n h = absurd (cc h)
pointed-star (star other_type) n h = absurd (cc h)
pointed-star (ident m obj) n h = absurd (cc h)
pointed-star (selector e sel) n h = absurd (cc h)
pointed-star (struct_type fs) n h = absurd (cc h)
pointed-star interface_type n h = absurd (cc h)
pointed-star other_type n h = absurd (cc h)

pub Gives-of_results : (rs : Option (List Field)) (t : Text) → result_type_of rs ≡ ok t → Gives rs t
unfolding result_type_of pointed
Gives-of_results none t h = absurd (cc h)
Gives-of_results (some []) t h = absurd (cc h)
Gives-of_results (some (r ∷ [])) t h =
    subst (Gives (some (r ∷ []))) (ok-injective _ _ h) (gives_error r)
Gives-of_results (some (v ∷ r ∷ [])) t h =
    let (obj, e) = pointed-star v.typ t h in gives_value v r t obj e
Gives-of_results (some (v ∷ r ∷ q ∷ rs)) t h = absurd (cc h)
