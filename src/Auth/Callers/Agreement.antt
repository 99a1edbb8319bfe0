-- ===== src/Auth/Callers/Agreement.antt =====
-- What several callers of `AccountUuid` are answered (auth.go).
use jonson.Prelude.{
  ℕ, zero, suc, ◌≤◌, Bool, true, false, Option, none, some, List, [], ◌∷◌, ◌≡◌, refl, sym, ap,
  arith, All, All-append, All-map,
}
use mathlib.Core.Option.{some-injective}
use mathlib.Core.Path.{subst}
use jonson.Text.{Text}
use jonson.Value.{account}
use jonson.Errors.{GoError}
use jonson.Context.Run.{nth, update}
use jonson.Auth.{cached_answer}
use jonson.Auth.Callers.{
  Caller, waiting, asking, reading, panicking, failed, answered, finished, Callers, no_callers,
  Step, arrive, lock_checked, read, lock_fresh, take_private, ask, ask_panics, unlock,
  unlock_panics, Steps, here, later,
}
use jonson.Auth.Callers.Exclusive.{
  total, holds, held, one_if, one_if-bounded, IsExclusive, Steps-IsExclusive,
}

-- A caller that has an answer has the account that is kept.
abbrev pub Agrees : Bool → Option Text → Caller → Type 0
Agrees checked kept (answered resp err) = resp ≡ kept
Agrees checked kept (finished (account resp err)) = (checked ≡ true) × (resp ≡ kept)
Agrees checked kept (finished v) = ⊥
Agrees checked kept reading = checked ≡ true
Agrees checked kept _ = Unit

pub record IsAgreed (s : Callers) : Type 0 where
  pub shut : s.public.locked ≡ true → s.public.checked ≡ false
  pub told : All (Agrees s.public.checked s.public.account_uuid) s.callers

All-update {ℓ κ} :
    {A : Type ℓ} (P : A → Type κ) (i : ℕ) (new : A) (xs : List A)
    → All P xs
    → P new
    → All P (update i new xs)
unfolding update
All-update P i new [] h p = h
All-update P zero new (x ∷ xs) h p = (p, h.1)
All-update P (suc i) new (x ∷ xs) h p = (h.0, All-update P i new xs h.1 p)

All-nth {ℓ κ} :
    {A : Type ℓ} (P : A → Type κ) (i : ℕ) (x : A) (xs : List A) → All P xs → nth i xs ≡ some x → P x
unfolding nth
All-nth P i x [] h at = absurd (cc at)
All-nth P zero x (y ∷ xs) h at = subst P (some-injective _ _ at) h.0
All-nth P (suc i) x (y ∷ xs) h at = All-nth P i x xs h.1 at

-- A caller that does not hold the mutex of an unchecked `Public` has no answer.
agrees_anew :
    (kept kept' : Option Text) (c : Caller)
    → holds c ≡ 0
    → Agrees false kept c
    → Agrees false kept' c
agrees_anew kept kept' waiting h a = tt
agrees_anew kept kept' asking h a = tt
agrees_anew kept kept' reading h a = absurd (cc a)
agrees_anew kept kept' panicking h a = tt
agrees_anew kept kept' failed h a = tt
agrees_anew kept kept' (answered resp err) h a = absurd (omega (arith, h))
agrees_anew kept kept' (finished (account resp err)) h a = absurd (cc a.0)
agrees_anew kept kept' (finished v) h a = a

all_anew :
    (kept kept' : Option Text) (cs : List Caller)
    → total holds cs ≤ 0
    → All (Agrees false kept) cs
    → All (Agrees false kept') cs
unfolding total
all_anew kept kept' [] h a = tt
all_anew kept kept' (c ∷ cs) h a =
    (agrees_anew kept kept' c (omega (arith, h)) a.0, all_anew kept kept' cs (omega (arith, h)) a.1)

-- The holder changes the account that is kept.
kept_anew :
    (kept kept' : Option Text) (i : ℕ) (old new : Caller) (cs : List Caller)
    → nth i cs ≡ some old
    → holds old ≡ 1
    → total holds cs ≤ 1
    → Agrees false kept' new
    → All (Agrees false kept) cs
    → All (Agrees false kept') (update i new cs)
unfolding nth update total
kept_anew kept kept' i old new [] at h t p a = absurd (cc at)
kept_anew kept kept' zero old new (c ∷ cs) at h t p a =
    (p, all_anew kept kept' cs (omega (arith, t, h, ap holds (some-injective _ _ at))) a.1)
kept_anew kept kept' (suc i) old new (c ∷ cs) at h t p a = (
  agrees_anew kept kept' c (omega (arith, t, h, held i old cs at)) a.0,
  kept_anew kept kept' i old new cs at h (omega (arith, t)) p a.1,
)

locked_by : (b : Bool) (n : ℕ) → n ≡ one_if b → 1 ≤ n → b ≡ true
locked_by true n e h = refl
locked_by false n e h = absurd (omega (arith, e, h))

-- The holder of the mutex has the `Public` unchecked.
held-unchecked :
    (i : ℕ) (c : Caller) (s : Callers)
    → nth i s.callers ≡ some c
    → holds c ≡ 1
    → IsExclusive s
    → IsAgreed s
    → s.public.checked ≡ false
held-unchecked i c s at one h a = a.shut (
    locked_by s.public.locked (total holds s.callers) h.mutex
      (omega (arith, one, held i c s.callers at)))

-- A new answer of the holder.
answered_anew :
    (i : ℕ) (resp : Option Text) (new : Caller) (s : Callers)
    → nth i s.callers ≡ some asking
    → Agrees false resp new
    → IsExclusive s
    → IsAgreed s
    → All (Agrees s.public.checked resp) (update i new s.callers)
answered_anew i resp new s at p h a =
    let unchecked = held-unchecked i asking s at refl h a in
    subst (λ b. All (Agrees b resp) (update i new s.callers)) (sym unchecked)
      (kept_anew s.public.account_uuid resp i asking new s.callers at refl
        (omega (arith, h.mutex, one_if-bounded s.public.locked)) p
        (subst (λ b. All (Agrees b s.public.account_uuid) s.callers) unchecked a.told))

-- What is agreed on stays so when the `Public` becomes checked.
agrees_checked :
    (checked : Bool) (kept : Option Text) (c : Caller) → Agrees checked kept c → Agrees true kept c
agrees_checked checked kept waiting a = tt
agrees_checked checked kept asking a = tt
agrees_checked checked kept reading a = refl
agrees_checked checked kept panicking a = tt
agrees_checked checked kept failed a = tt
agrees_checked checked kept (answered resp err) a = a
agrees_checked checked kept (finished (account resp err)) a = (refl, a.1)
agrees_checked checked kept (finished v) a = a

all_checked : (s : Callers) → IsAgreed s → All (Agrees true s.public.account_uuid) s.callers
all_checked s a =
    All-map (Agrees s.public.checked s.public.account_uuid) (Agrees true s.public.account_uuid)
      s.callers (agrees_checked s.public.checked s.public.account_uuid) a.told

read_agrees :
    (checked locked : Bool) (kept : Option Text) (err : Option GoError)
    → checked ≡ true
    → Agrees checked kept (
        finished (
          cached_answer
            (record { checked = checked; account_uuid = kept; err = err; locked = locked })))
read_agrees checked locked none err h = (h, refl)
read_agrees checked locked (some uuid) err h = (h, refl)

Step-IsAgreed : {s t : Callers} → Step s t → IsExclusive s → IsAgreed s → IsAgreed t
Step-IsAgreed {s} arrive h a = record {
  shut = a.shut;
  told = All-append _ s.callers (waiting ∷ []) a.told (tt, tt);
}
Step-IsAgreed {s} (lock_checked i at free done) h a = record {
  shut = a.shut;
  told = All-update _ i reading s.callers a.told done;
}
Step-IsAgreed {s} (read i at) h a = record {
  shut = a.shut;
  told = All-update _ i (finished (cached_answer s.public)) s.callers a.told (
      read_agrees s.public.checked s.public.locked s.public.account_uuid s.public.err
        (All-nth _ i reading s.callers a.told at));
}
Step-IsAgreed {s} (lock_fresh i at free new) h a = record {
  shut = λ q. new;
  told = All-update _ i asking s.callers a.told tt;
}
Step-IsAgreed {s} (take_private i uuid at) h a = record {
  shut = a.shut;
  told = answered_anew i (some uuid) (answered (some uuid) none) s at refl h a;
}
Step-IsAgreed {s} (ask i resp err at) h a = record {
  shut = a.shut;
  told = answered_anew i resp (answered resp err) s at refl h a;
}
Step-IsAgreed {s} (ask_panics i at) h a = record {
  shut = a.shut;
  told = All-update _ i panicking s.callers a.told tt;
}
Step-IsAgreed {s} (unlock i resp err at) h a = record {
  shut = λ q. absurd (cc q);
  told =
      All-update (Agrees true s.public.account_uuid) i (finished (account resp err)) s.callers
        (all_checked s a) (refl, All-nth _ i (answered resp err) s.callers (all_checked s a) at);
}
Step-IsAgreed {s} (unlock_panics i at) h a = record {
  shut = λ q. absurd (cc q);
  told = All-update (Agrees true s.public.account_uuid) i failed s.callers (all_checked s a) tt;
}

pub Steps-IsAgreed : {s : Callers} → Steps no_callers s → IsAgreed s
Steps-IsAgreed here = record { shut = λ q. absurd (cc q); told = tt }
Steps-IsAgreed (later steps step) =
    Step-IsAgreed step (Steps-IsExclusive steps) (Steps-IsAgreed steps)

-- There is one look-up, and all callers get what it found.
pub record IsOneLookup (s : Callers) : Type 0 where
  pub exclusive : IsExclusive s
  pub agreed : IsAgreed s

-- However many goroutines call AccountUuid of a new Public in whatever interleaving: at most one
-- holds its mutex, which is locked exactly then, the client is asked at most once, and each caller
-- that has got an answer has got the account that is kept, so all of them have got the same one.
pub Steps-IsOneLookup : {s : Callers} → Steps no_callers s → IsOneLookup s
Steps-IsOneLookup steps = record {
  exclusive = Steps-IsExclusive steps;
  agreed = Steps-IsAgreed steps;
}
