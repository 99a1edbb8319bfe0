-- ===== src/Auth/Callers.antt =====
-- Several goroutines that call `AccountUuid` of one `Public` at once (auth.go), step by step.
pub mod Exclusive
pub mod Agreement
mod Tests
use jonson.Prelude.{
  ℕ, zero, suc, ◌+◌, ◌≤◌, Bool, true, false, Option, none, some, List, [], ◌∷◌, ◌++◌, ◌≡◌, refl, ap,
  ◌∙◌, arith,
}
use jonson.Text.{Text}
use jonson.Value.{Value, account}
use jonson.Errors.{GoError}
use jonson.Context.Prog.{Public}
use jonson.Context.Run.{nth, update}
use jonson.Auth.{fresh_public, cached_answer}

-- Where a caller is in `AccountUuid`: before the lock, behind it with a `Public` that is not
-- checked, behind the answer but not the deferred function, behind the unlock of a checked
-- `Public`, or at the end. A client that panics ends the call with the panic.
pub data Caller : Type 0 where
  waiting asking reading panicking failed : Caller
  answered : Option Text → Option GoError → Caller
  finished : Value → Caller

-- `asked` is history: how often the client was asked.
pub record Callers : Type 0 where
  pub public : Public
  pub callers : List Caller
  pub asked : ℕ

abbrev pub no_callers : Callers
no_callers = record { public = fresh_public; callers = []; asked = 0 }

pub data Step (s : Callers) : Callers → Type 0 where
  arrive : Step s (record s { callers = s.callers ++ waiting ∷ [] })
  lock_checked :
      (i : ℕ)
      → nth i s.callers ≡ some waiting
      → s.public.locked ≡ false
      → s.public.checked ≡ true
      → Step s (record s { callers = update i reading s.callers })
  read :
      (i : ℕ)
      → nth i s.callers ≡ some reading
      → Step s (record s { callers = update i (finished (cached_answer s.public)) s.callers })
  lock_fresh :
      (i : ℕ)
      → nth i s.callers ≡ some waiting
      → s.public.locked ≡ false
      → s.public.checked ≡ false
      → Step s (record s {
        public = record s.public { locked = true };
        callers = update i asking s.callers;
      })
  -- the account of a `Private`
  take_private :
      (i : ℕ) (uuid : Text)
      → nth i s.callers ≡ some asking
      → Step s (record s {
        public = record s.public { account_uuid = some uuid; err = none };
        callers = update i (answered (some uuid) none) s.callers;
      })
  ask :
      (i : ℕ) (resp : Option Text) (err : Option GoError)
      → nth i s.callers ≡ some asking
      → Step s (record s {
        public = record s.public { account_uuid = resp; err = err };
        callers = update i (answered resp err) s.callers;
        asked = suc s.asked;
      })
  ask_panics :
      (i : ℕ)
      → nth i s.callers ≡ some asking
      → Step s (record s { callers = update i panicking s.callers; asked = suc s.asked })
  -- the deferred function
  unlock :
      (i : ℕ) (resp : Option Text) (err : Option GoError)
      → nth i s.callers ≡ some (answered resp err)
      → Step s (record s {
        public = record s.public { checked = true; locked = false };
        callers = update i (finished (account resp err)) s.callers;
      })
  unlock_panics :
      (i : ℕ)
      → nth i s.callers ≡ some panicking
      → Step s (record s {
        public = record s.public { checked = true; locked = false };
        callers = update i failed s.callers;
      })

pub data Steps (s : Callers) : Callers → Type 0 where
  here : Steps s s
  later : {t u : Callers} → Steps s t → Step t u → Steps s u
