-- ===== src/Log/Frames.antt =====
-- The names that `WithCallerFunction` takes out of a stack frame (log.go).
use mathlib.Core.Path.{subst}
use jonson.Prelude.{
  ℕ, List, [], ◌∷◌, ◌++◌, ◌≡◌, ◌≢◌, refl, sym, ap, ◌∙◌, ◌==◌, ==_iff, All, Bool-cases, inl, inr,
  append_assoc, ◌⊎◌,
}
use jonson.Text.{Text}
use jonson.Clock.{last_or}
use jonson.Log.{split, last_part, prepend}

-- What a part is of a text: it holds no separator and stands at the end, behind a separator if there
-- is anything before it.
pub record IsLastPart (separator : ℕ) (s part : Text) : Type 0 where
  pub free : All (λ c. c ≢ separator) part
  pub ends : (s ≡ part) ⊎ ((before : Text) × (s ≡ before ++ separator ∷ part))

-- The parts of a text: it is the only one, or others come before it.
data Parts (separator : ℕ) : Text → List Text → Type 0 where
  whole : {s : Text} → All (λ c. c ≢ separator) s → Parts separator s (s ∷ [])
  more :
      {part s : Text} {parts : List Text}
      → All (λ c. c ≢ separator) part
      → Parts separator s parts
      → Parts separator (part ++ separator ∷ s) (part ∷ parts)

prepend-Parts :
    (separator c : ℕ) (s : Text) (parts : List Text)
    → c ≢ separator
    → Parts separator s parts
    → Parts separator (c ∷ s) (prepend c parts)
prepend-Parts separator c _ _ n (whole h) = whole (n, h)
prepend-Parts separator c _ _ n (more h p) = more (n, h) p

split-Parts : (separator : ℕ) (s : Text) → Parts separator s (split separator s)
unfolding split
split-Parts separator [] = whole tt
split-Parts separator (c ∷ s) = elim (Bool-cases (c == separator)) [
  | inl e ↦ rw e (
      subst (λ d. Parts separator (d ∷ s) ([] ∷ split separator s)) (sym ((==_iff c separator).0 e))
        (more tt (split-Parts separator s)))
  | inr n ↦ rw n (
      prepend-Parts separator c s _ (λ q. absurd (cc (n, (==_iff c separator).1 q)))
        (split-Parts separator s))
]

behind :
    (separator : ℕ) (part s last : Text)
    → (s ≡ last) ⊎ ((before : Text) × (s ≡ before ++ separator ∷ last))
    → (before : Text) × (part ++ separator ∷ s ≡ before ++ separator ∷ last)
behind separator part s last (inl e) = (part, ap (λ x. part ++ separator ∷ x) e)
behind separator part s last (inr (before, e)) = (
  part ++ separator ∷ before,
  ap (λ x. part ++ separator ∷ x) e
      ∙ sym (append_assoc part (separator ∷ before) (separator ∷ last)),
)

last-Parts :
    (separator : ℕ) (s : Text) (parts : List Text) (t : Text)
    → Parts separator s parts
    → IsLastPart separator s (last_or t parts)
unfolding last_or
last-Parts separator s _ t (whole h) = record { free = h; ends = inl refl }
last-Parts separator _ _ t (more {part} {s} {parts} h p) =
    let r = last-Parts separator s parts part p in
    record { free = r.free; ends = inr (behind separator part s (last_or part parts) r.ends) }

-- The last part of a text that is split at a separator holds no separator, and stands at the end of
-- the text, behind a separator if it is not the whole text.
pub last_part-IsLastPart :
    (separator : ℕ) (s : Text) → IsLastPart separator s (last_part separator s)
unfolding last_part
last_part-IsLastPart separator s =
    last-Parts separator s (split separator s) [] (split-Parts separator s)
