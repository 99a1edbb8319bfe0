-- ===== src/Validate/Reference.antt =====
-- Validation (validate.go) without a collector: every call returns the errors of its own part, and
-- the parts are put together in the order of the calls.
use jonson.Prelude.{
  Bool, true, false, Option, none, some, List, [], ◌∷◌, ◌++◌, ◌≡◌, refl, sym, ap, ◌∙◌, append-nil,
  append_assoc, if◌then◌else◌,
}
use jonson.Text.{Text}
use jonson.Errors.{Error, error, error_data, of_list, negsuc, of_string, PanicValue}
use jonson.Validate.{
  Result, ok, panicked, ◌>>=◌, Script, done, crash, path, Chain, set_code, set_debug, set_message,
  validate, next, Validator, ValidatorError, new_validator, convert_all, field_data, path_of, add,
  error_of, details, run, run_chain, validate_value,
}
use jonson.Validate.Collects.{details-error_of}

-- What a validation with the given errors returns.
unfoldable pub combined_error : List Error → Option Error
combined_error [] = none
combined_error (e ∷ es) =
    some (error (negsuc 32601) "Invalid params" (error_data [] (of_list (e ∷ es)) []))

abbrev followed : List Error → Result (List Error) → Result (List Error)
followed es rest = rest >>= λ later. ok (es ++ later)

module _ (encode : Text → Text) where
  unfoldable mutual
    unfolding convert_all field_data combined_error

    -- the errors of a value at the path `base`
    pub reported : Script → List Text → Result (List Error)
    reported done base = ok []
    reported (crash p) base = panicked p
    reported (path elems chain) base = convert_all elems >>= λ converted.
        reported_chain chain base (record {
          added = false;
          path = base ++ converted;
          debug = [];
          code = negsuc 32601;
          message = "Invalid params";
        })

    -- the errors of what is called on a `*validatorError`, and of what follows it
    pub reported_chain : Chain → List Text → ValidatorError → Result (List Error)
    reported_chain (set_code c chain) base e = reported_chain chain base (record e { code = c })
    reported_chain (set_debug s chain) base e =
        reported_chain chain base (record e { debug = encode s })
    reported_chain (set_message m chain) base e =
        let rest = reported_chain chain base (record e { message = m; added = true }) in
        if e.added
        then panicked (of_string "validator: cannot add error twice")
        else followed (error e.code m (field_data e.path e.debug) ∷ []) rest
    reported_chain (validate child chain) base e =
        (if e.added
          then panicked (of_string "cannot call validate after adding the error")
          else reported child (base ++ e.path))
        >>= λ nested.
            followed nested
              (reported_chain (chain (combined_error nested)) base (record e { added = true }))
    reported_chain (next rest) base e = reported rest base

abbrev collect : Validator → List Error → Validator
collect v es = record v { errors = v.errors ++ es }

-- A validator that goes on with the errors that were reported.
abbrev collected : Validator → Result (List Error) → Result Validator
collected v r = r >>= λ es. ok (collect v es)

combined_error-error_of_fields :
    (es : List Error) (base : List Text)
    → error_of (record { errors = es; base_path = base }) ≡ combined_error es
unfolding error_of combined_error
combined_error-error_of_fields [] base = refl
combined_error-error_of_fields (e ∷ es) base = refl

collected-followed :
    (v : Validator) (es : List Error) (r : Result (List Error))
    → collected (collect v es) r ≡ collected v (followed es r)
collected-followed v es (panicked p) = refl
collected-followed v es (ok later) =
    ap (λ l. ok (record v { errors = l })) (append_assoc v.errors es later)

-- What follows the path of a call.
path-collected :
    (v : Validator) (r : Result (List Text)) (mk : List Text → ValidatorError)
    (k : ValidatorError → Result Validator) (k' : ValidatorError → Result (List Error))
    → ((e : ValidatorError) → k e ≡ collected v (k' e))
    → ((r >>= λ c. ok (mk c)) >>= k) ≡ collected v (r >>= λ c. k' (mk c))
path-collected v (panicked p) mk k k' h = refl
path-collected v (ok c) mk k k' h = h (mk c)

-- What follows a nested validation.
nested-collected :
    (v : Validator) (base : List Text) (r : Result (List Error))
    (k : Option Error → Validator → Result Validator) (k' : Option Error → Result (List Error))
    → ((o : Option Error) (w : Validator) → w.base_path ≡ v.base_path → k o w ≡ collected w (k' o))
    → (collected (new_validator base) r >>= λ c.
        k (error_of c) (record v { errors = v.errors ++ details (error_of c) }))
      ≡ collected v (r >>= λ es. followed es (k' (combined_error es)))
unfolding new_validator
nested-collected v base (panicked p) k k' h = refl
nested-collected v base (ok es) k k' h =
    ap (λ l. k (error_of (nested es)) (record v { errors = v.errors ++ l }))
      (details-error_of (nested es))
    ∙ ap (λ o. k o (collect v es)) (combined_error-error_of_fields es base)
    ∙ h (combined_error es) (collect v es) refl
    ∙ collected-followed v es (k' (combined_error es))
  where
    nested : List Error → Validator
    nested es = record { errors = es; base_path = base }

-- What follows an error that is added, unless one has been added.
added-collected :
    (b : Bool) (v : Validator) (x : Error) (p : PanicValue) (k : Validator → Result Validator)
    (r : Result (List Error))
    → k (collect v (x ∷ [])) ≡ collected (collect v (x ∷ [])) r
    → ((if b then panicked p else ok (collect v (x ∷ []))) >>= k)
      ≡ collected v (if b then panicked p else followed (x ∷ []) r)
added-collected true v x p k r h = refl
added-collected false v x p k r h = h ∙ collected-followed v (x ∷ []) r

-- A nested validation, unless an error has been added.
guarded-collected :
    (b : Bool) (v : Validator) (base : List Text) (p : PanicValue) (q : Result Validator)
    (r : Result (List Error)) (k : Option Error → Validator → Result Validator)
    (k' : Option Error → Result (List Error))
    → q ≡ collected (new_validator base) r
    → ((o : Option Error) (w : Validator) → w.base_path ≡ v.base_path → k o w ≡ collected w (k' o))
    → ((if b then panicked p else q) >>= λ c.
        k (error_of c) (record v { errors = v.errors ++ details (error_of c) }))
      ≡ collected v ((if b then panicked p else r) >>= λ es. followed es (k' (combined_error es)))
guarded-collected true v base p q r k k' e h = refl
guarded-collected false v base p q r k k' e h =
    ap (λ x. x >>= λ c. k (error_of c) (record v { errors = v.errors ++ details (error_of c) })) e
    ∙ nested-collected v base r k k' h

module _ (encode : Text → Text) where
  mutual
    unfolding run run_chain reported reported_chain path_of add

    run-reported :
        (s : Script) (v : Validator) → run encode s v ≡ collected v (reported encode s v.base_path)
    run-reported done v = ap (λ l. ok (record v { errors = l })) (sym (append-nil v.errors))
    run-reported (crash p) v = refl
    run-reported (path elems chain) v =
        path-collected v (convert_all elems) _ (λ e. run_chain encode chain e v)
          (λ e. reported_chain encode chain v.base_path e) (λ e. run_chain-reported chain e v)

    run_chain-reported :
        (c : Chain) (e : ValidatorError) (v : Validator)
        → run_chain encode c e v ≡ collected v (reported_chain encode c v.base_path e)
    run_chain-reported (set_code c chain) e v = run_chain-reported chain (record e { code = c }) v
    run_chain-reported (set_debug s chain) e v =
        run_chain-reported chain (record e { debug = encode s }) v
    run_chain-reported (set_message m chain) e v =
        let e' : ValidatorError = record e { message = m; added = true } in
        let x = error e.code m (field_data e.path e.debug) in
        added-collected e.added v x _ (run_chain encode chain e') _
          (run_chain-reported chain e' (collect v (x ∷ [])))
    run_chain-reported (validate child chain) e v =
        let e' : ValidatorError = record e { added = true } in
        let base = v.base_path ++ e.path in
        guarded-collected e.added v base _ _ (reported encode child base)
          (λ o w. run_chain encode (chain o) e' w)
          (λ o. reported_chain encode (chain o) v.base_path e')
          (run-reported child (new_validator base))
          (λ o w same.
            run_chain-reported (chain o) e' w
            ∙ ap (λ b. collected w (reported_chain encode (chain o) b e')) same)
    run_chain-reported (next rest) e v = run-reported rest v

  -- `Validate` of a value returns what the reference returns for the errors that its calls report by
  -- themselves: nil if they report none, and otherwise one invalid-params error whose details are
  -- all of them, those of nested values at their places, in the order of the calls. It panics where
  -- the reference panics, with the same value.
  pub validate_value-reported :
      (base : List Text) (s : Script)
      → validate_value encode base s ≡ (reported encode s base >>= λ es. ok (combined_error es))
  unfolding validate_value new_validator
  validate_value-reported base s =
      ap (λ r. r >>= λ c. ok (error_of c)) (run-reported s (new_validator base))
      ∙ summed (reported encode s base)
    where
      summed :
          (r : Result (List Error))
          → (collected (new_validator base) r >>= λ c. ok (error_of c))
            ≡ (r >>= λ es. ok (combined_error es))
      summed (panicked p) = refl
      summed (ok es) = ap (λ o. ok o) (combined_error-error_of_fields es base)
