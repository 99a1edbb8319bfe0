-- ===== src/Generator/Sorting.antt =====
-- The generator's sorting by positions that differ (`sort.Slice` in cmd/generate/main.go).
use mathlib.Core.List.{Permᴰ, Pairwise, mem-cons_self}
use mathlib.Core.List.Permᴰ
use jonson.Prelude.{
  ℕ, ◌<◌, ◌≤◌, true, false, List, [], ◌∷◌, ltb, ◌≡◌, ◌≢◌, refl, sym, ap, ◌∙◌, arith, Bool-cases,
  inl, inr,
}
use jonson.Generator.{insert_by, sort_by}

module _ {ℓ} {A : Type ℓ} (pos_of : A → ℕ) where
  -- At different positions.
  abbrev pub Apart : A → A → Type 0
  Apart a b = pos_of a ≢ pos_of b

  insert_behind :
      (a b : A) (l : List A)
      → pos_of b < pos_of a
      → insert_by pos_of a (b ∷ l) ≡ b ∷ insert_by pos_of a l
  unfolding insert_by
  insert_behind a b l h = let before : ltb (pos_of b) (pos_of a) ≡ true = ground arith in rw before

  insert_before :
      (a b : A) (l : List A) → pos_of a ≤ pos_of b → insert_by pos_of a (b ∷ l) ≡ a ∷ b ∷ l
  unfolding insert_by
  insert_before a b l h = let behind : ltb (pos_of b) (pos_of a) ≡ false = ground arith in rw behind

  abbrev ins : A → List A → List A
  ins = insert_by pos_of

  -- An element goes before one that is inserted where none is lower.
  insert_first :
      (a b c : A) (l : List A)
      → pos_of a < pos_of b
      → pos_of a ≤ pos_of c
      → ins a (ins b (c ∷ l)) ≡ a ∷ ins b (c ∷ l)
  insert_first a b c l lt le = elim (Bool-cases (ltb (pos_of c) (pos_of b))) [
    | inl x ↦
        let e = insert_behind b c l (ground arith) in
        ap (ins a) e ∙ insert_before a c (ins b l) le ∙ ap (λ k. a ∷ k) (sym e)
    | inr x ↦
        let e = insert_before b c l (ground arith) in
        ap (ins a) e ∙ insert_before a b (c ∷ l) (omega arith) ∙ ap (λ k. a ∷ k) (sym e)
  ]

  -- Two elements that are inserted, the lower first.
  insert_pair : (a b : A) (l : List A) → pos_of a < pos_of b → ins a (ins b l) ≡ ins b (ins a l)
  unfolding insert_by
  insert_pair a b [] lt = insert_before a b [] (omega arith) ∙ sym (insert_behind b a [] lt)
  insert_pair a b (c ∷ l) lt =
      let before = insert_pair a b l lt in
      elim (Bool-cases (ltb (pos_of c) (pos_of a))) [
        | inl x ↦
            ap (ins a) (insert_behind b c l (ground (arith, lt)))
            ∙ insert_behind a c (ins b l) (ground arith)
            ∙ ap (λ k. c ∷ k) before
            ∙ sym (
                ap (ins b) (insert_behind a c l (ground arith))
                ∙ insert_behind b c (ins a l) (ground (arith, lt)))
        | inr x ↦
            insert_first a b c l lt (ground arith)
            ∙ sym (ap (ins b) (insert_before a c l (ground arith)) ∙ insert_behind b a (c ∷ l) lt)
      ]

  insert_by_swap :
      (a b : A) (l : List A)
      → Apart a b
      → insert_by pos_of a (insert_by pos_of b l) ≡ insert_by pos_of b (insert_by pos_of a l)
  insert_by_swap a b l ne = elim (Bool-cases (ltb (pos_of a) (pos_of b))) [
    | inl x ↦ insert_pair a b l (ground arith)
    | inr x ↦ sym (insert_pair b a l (ground (arith, ne)))
  ]

  insert_by_swaps :
      (a b a' b' : A) (l : List A)
      → a ≡ b'
      → b ≡ a'
      → Apart a b
      → ins a (ins b l) ≡ ins a' (ins b' l)
  insert_by_swaps a b a' b' l e e' ne =
      insert_by_swap a b l ne ∙ ap (λ x. ins x (ins a l)) e' ∙ ap (λ x. ins a' (ins x l)) e

  Apart-prop : (a b : A) → IsProp (Apart a b)
  Apart-prop a b = hlevel

  -- Sorting by positions that differ does not depend on the order before.
  pub sort_by-Perm :
      {l l' : List A} → Permᴰ l l' → Pairwise Apart l → sort_by pos_of l ≡ sort_by pos_of l'
  unfolding sort_by
  sort_by-Perm Permᴰ.nil h = refl
  sort_by-Perm (Permᴰ.cons {l₂ = l₂} e d) (Pairwise.cons h t) =
      ap (ins _) (sort_by-Perm d t) ∙ ap (λ x. ins x (sort_by pos_of l₂)) e
  sort_by-Perm (Permᴰ.swap {a = a} {b} {a'} {b'} {l = l} e e') (Pairwise.cons h t) =
      insert_by_swaps a b a' b' (sort_by pos_of l) e e' (h b mem-cons_self)
  sort_by-Perm (Permᴰ.trans d d') h =
      sort_by-Perm d h ∙ sort_by-Perm d' (Permᴰ.pairwise Apart-prop (λ x y n e. n (sym e)) d h)
