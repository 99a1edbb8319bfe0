-- ===== src/Names/Kebab.antt =====
-- `ToKebabCase` (kebab-case.go).
use jonson.Prelude.{
  ℕ, Bool, true, false, ◌&&◌, ◌||◌, not, List, [], ◌∷◌, map, ◌≡◌, ◌≢◌, refl, ap, ◌∙◌, arith, all,
  ◌==◌, if◌then◌else◌,
}
use jonson.Text.{Text}
use jonson.Names.{
  is_upper, is_lower, is_lower_or_digit, split_first_cap, split_all_cap, dash, lower, to_kebab_case,
  is_identifier_char, is_valid_identifier,
}

-- No capital and no underscore.
abbrev pub is_kebab_char : ℕ → Bool
is_kebab_char c = not (is_upper c) && not (c == b'_')

kebab-map : (s : Text) → all is_kebab_char (map lower (map dash s)) ≡ true
kebab-map [] = refl
kebab-map (c ∷ s) = ground (arith, kebab-map s)

map-kebab : (s : Text) → all is_kebab_char s ≡ true → map lower (map dash s) ≡ s
map-kebab [] h = refl
map-kebab (c ∷ s) h = ground (arith, map-kebab s)

split_first_cap-kebab : (s : Text) → all is_kebab_char s ≡ true → split_first_cap s ≡ s
unfolding split_first_cap
split_first_cap-kebab [] h = refl
split_first_cap-kebab (a ∷ []) h = refl
split_first_cap-kebab (a ∷ b ∷ []) h = refl
split_first_cap-kebab (a ∷ b ∷ c ∷ s) h = ground (arith, split_first_cap-kebab (b ∷ c ∷ s))

split_all_cap-kebab : (s : Text) → all is_kebab_char s ≡ true → split_all_cap s ≡ s
unfolding split_all_cap
split_all_cap-kebab [] h = refl
split_all_cap-kebab (a ∷ []) h = refl
split_all_cap-kebab (a ∷ b ∷ s) h = ground (arith, split_all_cap-kebab (b ∷ s))

to_kebab_case-kebab : (s : Text) → all is_kebab_char s ≡ true → to_kebab_case s ≡ s
unfolding to_kebab_case
to_kebab_case-kebab s h =
    ap (λ t. map lower (map dash (split_all_cap t))) (split_first_cap-kebab s h)
    ∙ ap (λ t. map lower (map dash t)) (split_all_cap-kebab s h)
    ∙ map-kebab s h

-- The kebab case of an ASCII text has no capital and no underscore, and is its own kebab case.
pub to_kebab_case_normal :
    (s : Text)
    → (all is_kebab_char (to_kebab_case s) ≡ true)
      × (to_kebab_case (to_kebab_case s) ≡ to_kebab_case s)
to_kebab_case_normal s =
    let normal : all is_kebab_char (to_kebab_case s) ≡ true =
      unfold to_kebab_case in kebab-map (split_all_cap (split_first_cap s)) in
    (normal, to_kebab_case-kebab (to_kebab_case s) normal)

-- The characters of Go's ASCII identifiers, and the dash.
abbrev pub is_name_char : ℕ → Bool
is_name_char c = is_identifier_char c || c == b'_'

all-if {ℓ} :
    {A : Type ℓ} (p : A → Bool) (b : Bool) (xs ys : List A)
    → all p xs ≡ true
    → all p ys ≡ true
    → all p (if b then xs else ys) ≡ true
all-if p true xs ys h k = h
all-if p false xs ys h k = k

-- The two passes add dashes only.
module _ (p : ℕ → Bool) (dashes : p b'-' ≡ true) where
  split_first_cap-all : (s : Text) → all p s ≡ true → all p (split_first_cap s) ≡ true
  unfolding split_first_cap
  split_first_cap-all [] h = refl
  split_first_cap-all (a ∷ []) h = h
  split_first_cap-all (a ∷ b ∷ []) h = h
  split_first_cap-all (a ∷ b ∷ c ∷ s) h =
      all-if p (is_upper a && (is_upper b && is_lower c)) _ _
        (ground (arith, dashes, h, split_first_cap-all s))
        (ground (arith, h, split_first_cap-all (b ∷ c ∷ s)))

  split_all_cap-all : (s : Text) → all p s ≡ true → all p (split_all_cap s) ≡ true
  unfolding split_all_cap
  split_all_cap-all [] h = refl
  split_all_cap-all (a ∷ []) h = h
  split_all_cap-all (a ∷ b ∷ s) h =
      all-if p (is_lower_or_digit a && is_upper b) _ _
        (ground (arith, dashes, h, split_all_cap-all s))
        (ground (arith, h, split_all_cap-all (b ∷ s)))

map-name :
    (s : Text) → all is_name_char s ≡ true → all is_identifier_char (map lower (map dash s)) ≡ true
map-name [] h = refl
map-name (c ∷ s) h = ground (arith, map-name s)

split_first_cap-ne-nil : (s : Text) → s ≢ [] → split_first_cap s ≢ []
unfolding split_first_cap
split_first_cap-ne-nil [] h = h
split_first_cap-ne-nil (a ∷ []) h = h
split_first_cap-ne-nil (a ∷ b ∷ []) h = h
split_first_cap-ne-nil (a ∷ b ∷ c ∷ s) h = ground arith

split_all_cap-ne-nil : (s : Text) → s ≢ [] → split_all_cap s ≢ []
unfolding split_all_cap
split_all_cap-ne-nil [] h = h
split_all_cap-ne-nil (a ∷ []) h = h
split_all_cap-ne-nil (a ∷ b ∷ s) h = ground arith

is_valid_identifier-map :
    (s : Text)
    → s ≢ []
    → all is_name_char s ≡ true
    → is_valid_identifier (map lower (map dash s)) ≡ true
unfolding is_valid_identifier
is_valid_identifier-map [] ne h = absurd (ne refl)
is_valid_identifier-map (c ∷ s) ne h = map-name (c ∷ s) h

-- The kebab case of a Go identifier in ASCII is a valid name of a system or a method.
pub to_kebab_case_identifier :
    (c : ℕ) (s : Text)
    → all is_name_char (c ∷ s) ≡ true
    → is_valid_identifier (to_kebab_case (c ∷ s)) ≡ true
unfolding to_kebab_case
to_kebab_case_identifier c s h =
    is_valid_identifier-map (split_all_cap (split_first_cap (c ∷ s)))
      (split_all_cap-ne-nil (split_first_cap (c ∷ s)) (split_first_cap-ne-nil (c ∷ s) (λ p. cc)))
      (split_all_cap-all is_name_char refl (split_first_cap (c ∷ s))
        (split_first_cap-all is_name_char refl (c ∷ s) h))
