-- ===== src/Jonsontest/Chain.antt =====
-- Chains of impersonations in tests (`checkImpersonation` of jonsontest/auth.go).
use jonson.Prelude.{true, Option, none, List, [], ◌∷◌, ◌≡◌}
use jonson.Text.{Text}
use jonson.Value.{account}
use jonson.Context.Prog.{returned}
use jonson.Context.Run.{Exec}
use jonson.Jonsontest.{has_pair}

-- Each account of the chain may impersonate the next one.
abbrev pub Links : List (Text × Text) → Text → List Text → Type 0
Links pairs current [] = Unit
Links pairs current (next ∷ rest) = (has_pair pairs current next ≡ true) × Links pairs next rest

-- The account that an answer tells.
told : Exec → Option Text
told (returned (account resp err), s) = resp
told _ = none
