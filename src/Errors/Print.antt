-- ===== src/Errors/Print.antt =====
-- error.go: the printing of errors and of their data (`Error.String`, `ErrorData.String`, `indent`).
use mathlib.Core.List.{reverse, reverse-cons}
use jonson.Prelude.{
  ℕ, Bool, true, false, List, [], ◌∷◌, ◌++◌, ◌≡◌, refl, ap, ◌∙◌, ◌==◌, if◌then◌else◌,
}
use jonson.Text.{Text, codes}
use jonson.Errors.{Error, error, ErrorData, no_data, error_data, ErrorList, nil, cons, show_int}

-- A text, or the panic of a slice expression.
pub data Printed {ℓ} (A : Type ℓ) : Type ℓ where
  printed : A → Printed A
  out_of_range : Printed A

abbrev pub and_then {ℓ κ} : {A : Type ℓ} {B : Type κ} → Printed A → (A → Printed B) → Printed B
and_then (printed a) f = f a
and_then out_of_range f = out_of_range

-- `strings.Split(_, "\n")`; the second argument is the line that is being read.
unfoldable pub split_lines : Text → Text → List Text
split_lines [] line = line ∷ []
split_lines (c ∷ s) line =
    let closed = split_lines s [] in
    let longer = split_lines s (line ++ c ∷ []) in if c == 10 then line ∷ closed else longer

-- `strings.TrimRight(_, "\n")`, of the reversed text
unfoldable pub trim_reversed : Text → Text
trim_reversed [] = []
trim_reversed (c ∷ s) = let rest = trim_reversed s in if c == 10 then rest else c ∷ s

-- The loop over the lines.
unfoldable pub indent_lines : Text → List Text → Text
indent_lines ind [] = []
indent_lines ind (j ∷ js) = ind ++ j ++ (10 ∷ indent_lines ind js)

-- `_[:len(_)-1]`
unfoldable pub drop_last : Text → Text
drop_last [] = []
drop_last (c ∷ []) = []
drop_last (c ∷ d ∷ s) = c ∷ drop_last (d ∷ s)

-- `indent`; the text is given reversed too.
abbrev indent_ending : Text → Text → Printed Text
indent_ending ind [] = out_of_range
indent_ending ind (c ∷ s) =
    if c == 10
    then printed (indent_lines ind (split_lines (reverse s) []))
    else printed (drop_last (indent_lines ind (split_lines (reverse (trim_reversed (c ∷ s))) [])))

unfoldable pub indent : Text → Text → Printed Text
unfolding split_lines trim_reversed indent_lines drop_last
indent text ind = indent_ending ind (reverse text)

-- `strings.Join(_, "\n")`
unfoldable pub join_lines : List Text → Text
join_lines [] = []
join_lines (s ∷ []) = s
join_lines (s ∷ t ∷ ts) = s ++ (10 ∷ join_lines (t ∷ ts))

-- What `ErrorData.String` makes of its parts.
unfoldable pub data_text : List Text → List Text → Text → Text
unfolding join_lines
data_text [] [] [] = []
data_text paths details debug =
    codes "\n---\npath: "
    ++ join_lines paths
    ++ codes "\n---\ndetails:\n---\n"
    ++ join_lines details
    ++ codes "\n---\ndebug: "
    ++ debug

-- What `Error.String` makes of its parts.
abbrev pub error_line : Error → Text → Text
error_line (error c m d) text =
    codes "error code: "
    ++ (show_int c ++ (codes " | message: " ++ (codes m ++ (codes " | data: " ++ text))))

-- `Error.String` and `ErrorData.String`
unfoldable mutual
  unfolding indent data_text show_int

  pub error_string : Error → Printed Text
  error_string (error c m d) =
      and_then (data_string d) (λ text. printed (error_line (error c m d) text))

  pub data_string : ErrorData → Printed Text
  data_string no_data = printed []
  data_string (error_data path details debug) =
      and_then (detail_strings details) (λ ds. printed (data_text path ds debug))

  pub detail_strings : ErrorList → Printed (List Text)
  detail_strings nil = printed []
  detail_strings (cons e es) = and_then (error_string e) (λ s.
      and_then (indent s (codes "  ")) (λ i. and_then (detail_strings es) (λ is. printed (i ∷ is))))

-- What is printed.
abbrev pub IsPrinted {ℓ} : {A : Type ℓ} → Printed A → Type ℓ
IsPrinted {A = A} r = (a : A) × (r ≡ printed a)

if-IsPrinted {ℓ} :
    {A : Type ℓ} (b : Bool) (x y : A) → IsPrinted (if b then printed x else printed y)
if-IsPrinted true x y = (x, refl)
if-IsPrinted false x y = (y, refl)

indent_ending-IsPrinted : (ind s : Text) (c : ℕ) → IsPrinted (indent_ending ind (s ++ c ∷ []))
indent_ending-IsPrinted ind [] c = if-IsPrinted (c == 10) _ _
indent_ending-IsPrinted ind (d ∷ s) c = if-IsPrinted (d == 10) _ _

indent-IsPrinted : (ind s : Text) (c : ℕ) → IsPrinted (indent (c ∷ s) ind)
unfolding indent
indent-IsPrinted ind s c =
    let (t, e) = indent_ending-IsPrinted ind (reverse s) c in
    (t, ap (indent_ending ind) (reverse-cons c s) ∙ e)

and_then-IsPrinted {ℓ κ} :
    {A : Type ℓ} {B : Type κ} (r : Printed A) (f : A → Printed B)
    → IsPrinted r
    → ((a : A) → IsPrinted (f a))
    → IsPrinted (and_then r f)
and_then-IsPrinted r f (a, e) h = let (b, k) = h a in (b, ap (λ x. and_then x f) e ∙ k)

-- The details behind the text of the first.
abbrev with_detail : Printed Text → ErrorList → Printed (List Text)
with_detail r es = and_then r (λ s.
    and_then (indent s (codes "  ")) (λ i. and_then (detail_strings es) (λ is. printed (i ∷ is))))

first_detail :
    (e : Error) (text : Text) (es : ErrorList)
    → IsPrinted (detail_strings es)
    → IsPrinted (with_detail (printed (error_line e text)) es)
first_detail (error c m d) text es h =
    and_then-IsPrinted (indent (error_line (error c m d) text) (codes "  ")) _
      (indent-IsPrinted (codes "  ") _ _)
      (λ i. and_then-IsPrinted (detail_strings es) _ h (λ is. (_, refl)))

mutual
  unfolding error_string

  error_prints : (e : Error) → IsPrinted (error_string e)
  error_prints (error c m d) =
      and_then-IsPrinted (data_string d) _ (data_prints d) (λ text. (_, refl))

  data_prints : (d : ErrorData) → IsPrinted (data_string d)
  data_prints no_data = ([], refl)
  data_prints (error_data path details debug) =
      and_then-IsPrinted (detail_strings details) _ (details_print details) (λ ds. (_, refl))

  details_print : (es : ErrorList) → IsPrinted (detail_strings es)
  details_print nil = ([], refl)
  details_print (cons (error c m d) es) =
      let (text, e) = data_prints d in
      let (ls, k) = first_detail (error c m d) text es (details_print es) in
      (ls, ap (λ r. with_detail (and_then r (λ t. printed (error_line (error c m d) t))) es) e ∙ k)

-- The printing of an error whose details are a finite tree without nil entries, as all of the model
-- are, ends with a text, although the indentation of an empty text panics.
pub error_string-IsPrinted : (e : Error) → IsPrinted (error_string e)
error_string-IsPrinted e = error_prints e
