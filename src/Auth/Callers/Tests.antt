-- ===== src/Auth/Callers/Tests.antt =====
-- Two callers of one `Public`.
use jonson.Prelude.{ℕ, Bool, true, false, Option, none, some, List, [], ◌∷◌, refl}
use jonson.Text.{Text, codes}
use jonson.Value.{account}
use jonson.Context.Prog.{Public}
use jonson.Context.Run.{nth, update}
use jonson.Auth.Callers.{
  Caller, waiting, asking, reading, answered, finished, Callers, no_callers, arrive, lock_checked,
  read, lock_fresh, ask, unlock, Steps, here, later,
}
use jonson.Auth.Callers.Agreement.{IsOneLookup, Steps-IsOneLookup}

abbrev alice : Option Text
alice = some (codes "alice")

-- The `Public` while it is looked up, and afterwards.
abbrev looked_up : Bool → Bool → Option Text → Public
looked_up checked locked uuid = record {
  checked = checked;
  account_uuid = uuid;
  err = none;
  locked = locked;
}

abbrev state_of : Public → List Caller → ℕ → Callers
state_of u cs n = record { public = u; callers = cs; asked = n }

abbrev locked_state : Callers
locked_state = state_of (looked_up false true none) (asking ∷ waiting ∷ []) 0

abbrev asked_state : Callers
asked_state = state_of (looked_up false true alice) (answered alice none ∷ waiting ∷ []) 1

abbrev released_state : Callers
released_state =
    state_of (looked_up true false alice) (finished (account alice none) ∷ waiting ∷ []) 1

abbrev end_state : Callers
end_state =
    state_of (looked_up true false alice)
      (finished (account alice none) ∷ finished (account alice none) ∷ []) 1

to_locked : Steps no_callers locked_state
unfolding nth update
to_locked =
    later {t = state_of (looked_up false false none) (waiting ∷ waiting ∷ []) 0}
      (later {t = state_of (looked_up false false none) (waiting ∷ []) 0}
        (later {t = no_callers} here arrive) arrive)
      (lock_fresh 0 refl refl refl)

to_end : Steps no_callers end_state
unfolding nth update
to_end =
    later {t = record released_state { callers = finished (account alice none) ∷ reading ∷ [] }}
      (later {t = released_state}
        (later {t = asked_state} (later {t = locked_state} to_locked (ask 0 alice none refl))
          (unlock 0 alice none refl))
        (lock_checked 1 refl refl refl))
      (read 1 refl)

Steps-IsOneLookup_example : IsOneLookup end_state
Steps-IsOneLookup_example = Steps-IsOneLookup {s = end_state} to_end
