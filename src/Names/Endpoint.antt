-- ===== src/Names/Endpoint.antt =====
-- The names of procedures (method.handler.go): `SplitMethodName` and the endpoints.
use mathlib.Core.List.{reverse, reverse-append, reverse-cons, reverse-reverse}
use jonson.Prelude.{
  ℕ, zero, suc, ◌/◌, ◌≤◌, Bool, true, false, not, List, [], ◌∷◌, ◌++◌, ◌≡◌, ◌≢◌, refl, sym, ap, ◌∙◌,
  arith, all, ◌==◌, append_assoc,
}
use jonson.Text.{Text, decimal, digits_from}
use jonson.Text.Decimal.{decimal_inj, value_of_digits-digits_from}
use jonson.Names.{
  is_digit, to_kebab_case, span_digits, parse_uint, u64_max, split_reversed, split_method_name,
  get_default_method_name, is_identifier_char, is_valid_identifier,
}

-- The character does not occur.
abbrev pub lacks : ℕ → Text → Bool
lacks c = all (λ x. not (x == c))

-- A text is cut at the first occurrence of a character in one way.
cut_unique :
    (c : ℕ) (xs xs' ys ys' : Text)
    → lacks c xs ≡ true
    → lacks c xs' ≡ true
    → xs ++ c ∷ ys ≡ xs' ++ c ∷ ys'
    → (xs ≡ xs') × (ys ≡ ys')
cut_unique c [] [] ys ys' h h' e = ground (arith, e)
cut_unique c [] (x' ∷ xs') ys ys' h h' e = ground (arith, e, h')
cut_unique c (x ∷ xs) [] ys ys' h h' e = ground (arith, e, h)
cut_unique c (x ∷ xs) (x' ∷ xs') ys ys' h h' e =
    ground (arith, e, h, h', cut_unique c xs xs' ys ys')

lacks_of_identifier :
    (c : ℕ) (s : Text)
    → is_identifier_char c ≡ false
    → all is_identifier_char s ≡ true
    → lacks c s ≡ true
lacks_of_identifier c [] n h = refl
lacks_of_identifier c (x ∷ s) n h = ground (arith, n, h, lacks_of_identifier c s n)

identifier-all : (s : Text) → is_valid_identifier s ≡ true → all is_identifier_char s ≡ true
unfolding is_valid_identifier
identifier-all [] h = refl
identifier-all (c ∷ s) h = h

-- Systems and methods with valid names have different endpoints, if they or their versions differ.
pub get_default_method_name_inj :
    (system system' method method' : Text) (version version' : ℕ)
    → is_valid_identifier system ≡ true
    → is_valid_identifier system' ≡ true
    → is_valid_identifier method ≡ true
    → is_valid_identifier method' ≡ true
    → get_default_method_name system method version
      ≡ get_default_method_name system' method' version'
    → (system ≡ system') × (method ≡ method') × (version ≡ version')
unfolding get_default_method_name
get_default_method_name_inj s s' m m' v v' hs hs' hm hm' e =
    let lack =
      λ (c : ℕ) (t : Text) (n : is_identifier_char c ≡ false) (h : is_valid_identifier t ≡ true).
        lacks_of_identifier c t n (identifier-all t h) in
    let (same_system, rest) =
      cut_unique b'/' s s' _ _ (lack b'/' s refl hs) (lack b'/' s' refl hs') e in
    let (same_method, version) =
      cut_unique b'.' m m' _ _ (lack b'.' m refl hm) (lack b'.' m' refl hm') rest in
    (same_system, same_method, decimal_inj v v' (ground (arith, version)))

span_digits-append :
    (ds s : Text) (c : ℕ)
    → all is_digit ds ≡ true
    → is_digit c ≡ false
    → span_digits (ds ++ c ∷ s) ≡ (ds, c ∷ s)
unfolding span_digits
span_digits-append [] s c h k = rw k
span_digits-append (d ∷ ds) s c h k =
    rw (span_digits-append ds s c (ground (arith, h)) k)
      (let digit : is_digit d ≡ true = ground (arith, h) in rw digit)

digits_from-digits : (fuel n : ℕ) → all is_digit (digits_from fuel n) ≡ true
unfolding digits_from
digits_from-digits zero n = refl
digits_from-digits (suc fuel) n = ground (arith, digits_from-digits fuel (n / 10))

-- No line break, which `.` of the pattern does not match.
abbrev pub is_one_line : Text → Bool
is_one_line = all (λ x. not (x == 10))

all-reverse : (p : ℕ → Bool) (s : Text) → all p s ≡ true → all p (reverse s) ≡ true
all-reverse p [] h = refl
all-reverse p (c ∷ s) h =
    rw reverse-cons (all-snoc (reverse s) (all-reverse p s (ground (arith, h))) (ground (arith, h)))
  where
    all-snoc : (t : Text) → all p t ≡ true → p c ≡ true → all p (t ++ c ∷ []) ≡ true
    all-snoc [] k q = rw q
    all-snoc (x ∷ t) k q = ground (arith, k, all-snoc t (ground (arith, k)) q)

split_reversed-versioned :
    (d : ℕ) (ds r : Text)
    → r ≢ []
    → is_one_line r ≡ true
    → split_reversed (d ∷ ds) (b'V' ∷ r) ≡ (to_kebab_case (reverse r), parse_uint (d ∷ ds))
split_reversed-versioned d ds [] ne h = absurd (ne refl)
split_reversed-versioned d ds (c ∷ r) ne h = rw h

parse_uint-digits_from : (n : ℕ) → n ≤ u64_max → parse_uint (digits_from (suc n) n) ≡ n
unfolding parse_uint
parse_uint-digits_from n h =
    let v = value_of_digits-digits_from (suc n) n (omega arith) in rw v (ground arith)

reverse_behind {ℓ} :
    {A : Type ℓ} (xs ds : List A) (v : A) → reverse (xs ++ v ∷ reverse ds) ≡ ds ++ v ∷ reverse xs
reverse_behind xs ds v =
    reverse-append xs (v ∷ reverse ds)
    ∙ ap (λ l. l ++ reverse xs) (reverse-cons v (reverse ds))
    ∙ rw reverse-reverse (append_assoc ds (v ∷ []) (reverse xs))

reverse-ne-nil : (c : ℕ) (s : Text) → reverse (c ∷ s) ≢ []
reverse-ne-nil c s e = cc (sym (reverse-reverse (c ∷ s)) ∙ ap reverse e)

split_method_name-digits :
    (c : ℕ) (s : Text) (d : ℕ) (ds : Text)
    → is_one_line (c ∷ s) ≡ true
    → all is_digit (d ∷ ds) ≡ true
    → split_method_name ((c ∷ s) ++ b'V' ∷ reverse (d ∷ ds))
      ≡ (to_kebab_case (c ∷ s), parse_uint (d ∷ ds))
unfolding split_method_name
split_method_name-digits c s d ds line digits =
    let turned = reverse_behind (c ∷ s) (d ∷ ds) b'V' in
    let spanned = span_digits-append (d ∷ ds) (reverse (c ∷ s)) b'V' digits refl in
    ap (λ t. let (a, b) = span_digits t in split_reversed a b) turned
    ∙ ap (λ (p : Text × Text). split_reversed p.0 p.1) spanned
    ∙ split_reversed-versioned d ds (reverse (c ∷ s)) (reverse-ne-nil c s)
        (all-reverse (λ x. not (x == 10)) (c ∷ s) line)
    ∙ rw reverse-reverse

-- A method name that consists of a non-empty text with no line break, a `V` and the decimal form
-- of a version below 2 ^ 64 is split into the kebab case of that text and the version.
pub split_method_name-versioned :
    (c : ℕ) (s : Text) (version : ℕ)
    → is_one_line (c ∷ s) ≡ true
    → version ≤ u64_max
    → split_method_name ((c ∷ s) ++ b'V' ∷ decimal version) ≡ (to_kebab_case (c ∷ s), version)
unfolding decimal digits_from
split_method_name-versioned c s n line h =
    split_method_name-digits c s _ _ line (digits_from-digits (suc n) n)
    ∙ ap (λ k. (to_kebab_case (c ∷ s), k)) (parse_uint-digits_from n h)
