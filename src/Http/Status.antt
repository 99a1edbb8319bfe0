-- ===== src/Http/Status.antt =====
-- The status with which an error is answered (the switch on its code in http.handler.go).
use jonson.Prelude.{
  ℕ, String, true, false, sym, List, [], ◌∷◌, ◌≡◌, ◌≢◌, ap, ◌==◌, arith, All, Bool-cases, inl, inr,
}
use mathlib.Core.Path.{subst}
use jonson.Errors.{ℤ, pos, negsuc, Error, error, ErrorData, code}
use jonson.Http.{status_of}

-- The statuses of the codes of errors.
abbrev listed : List ℤ
listed =
    negsuc 31999 ∷ negsuc 32601 ∷ negsuc 32699 ∷ negsuc 32000 ∷ negsuc 32001 ∷ negsuc 32600 ∷ []

pub data HasStatus : ℤ → ℕ → Type 0 where
  method_not_allowed : HasStatus (negsuc 31999) 405
  invalid_params : HasStatus (negsuc 32601) 400
  not_parsed : HasStatus (negsuc 32699) 400
  unauthorized : HasStatus (negsuc 32000) 403
  unauthenticated : HasStatus (negsuc 32001) 403
  method_not_found : HasStatus (negsuc 32600) 404
  other_code : (c : ℤ) → All (λ d. c ≢ d) listed → HasStatus c 500

differs : (n k : ℕ) → (n == k) ≡ false → negsuc n ≢ negsuc k
differs n k e p =
    let same : n ≡ k = ap (λ (c : ℤ). elim c [ pos x ↦ x | negsuc x ↦ x ]) p in
    ground (arith, e, same)

of_code :
    (n k : ℕ) (m : String) (d : ErrorData)
    → (n == k) ≡ true
    → HasStatus (negsuc k) (status_of (error (negsuc k) m d))
    → HasStatus (negsuc n) (status_of (error (negsuc n) m d))
of_code n k m d e h =
    let same : n ≡ k = ground (arith, e) in
    subst (λ j. HasStatus (negsuc j) (status_of (error (negsuc j) m d))) (sym same) h

pub HasStatus-status_of : (e : Error) → HasStatus (code e) (status_of e)
unfolding status_of
HasStatus-status_of (error (pos n) m d) =
    other_code (pos n)
      ((λ p. cc p), ((λ p. cc p), ((λ p. cc p), ((λ p. cc p), ((λ p. cc p), ((λ p. cc p), tt))))))
HasStatus-status_of (error (negsuc n) m d) = elim (Bool-cases (n == 31999)) [
  | inl e ↦ of_code n 31999 m d e method_not_allowed
  | inr e1 ↦ elim (Bool-cases (n == 32601)) [
    | inl e ↦ of_code n 32601 m d e invalid_params
    | inr e2 ↦ elim (Bool-cases (n == 32699)) [
      | inl e ↦ of_code n 32699 m d e not_parsed
      | inr e3 ↦ elim (Bool-cases (n == 32000)) [
        | inl e ↦ of_code n 32000 m d e unauthorized
        | inr e4 ↦ elim (Bool-cases (n == 32001)) [
          | inl e ↦ of_code n 32001 m d e unauthenticated
          | inr e5 ↦ elim (Bool-cases (n == 32600)) [
            | inl e ↦ of_code n 32600 m d e method_not_found
            | inr e6 ↦
                rw (e1, e2, e3, e4, e5, e6)
                  (other_code (negsuc n) (
                    differs n _ e1,
                    (
                      differs n _ e2,
                      (differs n _ e3, (differs n _ e4, (differs n _ e5, (differs n _ e6, tt)))),
                    ),
                  ))
          ]
        ]
      ]
    ]
  ]
]
