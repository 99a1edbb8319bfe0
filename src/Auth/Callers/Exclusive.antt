-- ===== src/Auth/Callers/Exclusive.antt =====
-- The mutex of a `Public`, and how often its client is asked (auth.go).
use jonson.Prelude.{
  ℕ, zero, suc, ◌+◌, ◌≤◌, Bool, true, false, none, some, List, [], ◌∷◌, ◌++◌, ◌≡◌, refl, ap, ◌∙◌,
  arith,
}
use mathlib.Core.Option.{some-injective}
use jonson.Value.{account}
use jonson.Context.Run.{nth, update}
use jonson.Auth.{cached_answer}
use jonson.Auth.Callers.{
  Caller, waiting, asking, reading, panicking, failed, answered, finished, Callers, no_callers,
  Step, arrive, lock_checked, read, lock_fresh, take_private, ask, ask_panics, unlock,
  unlock_panics, Steps, here, later,
}

-- How much some callers weigh together.
unfoldable pub total : (Caller → ℕ) → List Caller → ℕ
total w [] = 0
total w (c ∷ cs) = w c + total w cs

total-append :
    (w : Caller → ℕ) (cs : List Caller) (c : Caller) → total w (cs ++ c ∷ []) ≡ total w cs + w c
unfolding total
total-append w [] c = omega arith
total-append w (d ∷ cs) c = omega (arith, total-append w cs c)

total-update :
    (w : Caller → ℕ) (i : ℕ) (old new : Caller) (cs : List Caller)
    → nth i cs ≡ some old
    → total w (update i new cs) + w old ≡ total w cs + w new
unfolding total nth update
total-update w i old new [] h = absurd (cc h)
total-update w zero old new (c ∷ cs) h = omega (arith, ap w (some-injective _ _ h))
total-update w (suc i) old new (c ∷ cs) h = omega (arith, total-update w i old new cs h)

-- The callers that hold the mutex, and those of them that have not asked yet.
abbrev pub holds : Caller → ℕ
holds asking = 1
holds panicking = 1
holds (answered resp err) = 1
holds _ = 0

abbrev pub asks : Caller → ℕ
asks asking = 1
asks _ = 0

total-asks : (cs : List Caller) → total asks cs ≤ total holds cs
unfolding total
total-asks [] = omega arith
total-asks (asking ∷ cs) = omega (arith, total-asks cs)
total-asks (waiting ∷ cs) = omega (arith, total-asks cs)
total-asks (reading ∷ cs) = omega (arith, total-asks cs)
total-asks (panicking ∷ cs) = omega (arith, total-asks cs)
total-asks (answered resp err ∷ cs) = omega (arith, total-asks cs)
total-asks (failed ∷ cs) = omega (arith, total-asks cs)
total-asks (finished v ∷ cs) = omega (arith, total-asks cs)

abbrev pub one_if : Bool → ℕ
one_if true = 1
one_if false = 0

pub one_if-bounded : (b : Bool) → one_if b ≤ 1
one_if-bounded true = omega arith
one_if-bounded false = omega arith

pub record IsExclusive (s : Callers) : Type 0 where
  pub mutex : total holds s.callers ≡ one_if s.public.locked
  pub once : s.asked + total asks s.callers ≤ 1
  pub untouched : s.public.checked ≡ false → s.public.locked ≡ false → s.asked ≡ 0

pub held : (i : ℕ) (c : Caller) (cs : List Caller) → nth i cs ≡ some c → holds c ≤ total holds cs
held i c cs at = omega (arith, total-update holds i c waiting cs at)

-- The deferred function.
released-IsExclusive :
    (i : ℕ) (old new : Caller) (s : Callers)
    → nth i s.callers ≡ some old
    → holds old ≡ 1
    → asks old ≡ 0
    → holds new ≡ 0
    → asks new ≡ 0
    → IsExclusive s
    → IsExclusive (record s {
      public = record s.public { checked = true; locked = false };
      callers = update i new s.callers;
    })
released-IsExclusive i old new s at h1 a1 h2 a2 h = record {
  mutex = omega (
    arith,
    h.mutex,
    h1,
    h2,
    one_if-bounded s.public.locked,
    total-update holds i old new s.callers at,
  );
  once = omega (arith, h.once, a1, a2, total-update asks i old new s.callers at);
  untouched = λ q r. absurd (cc q);
}

Step-IsExclusive : {s t : Callers} → Step s t → IsExclusive s → IsExclusive t
Step-IsExclusive {s} arrive h = record {
  mutex = total-append holds s.callers waiting ∙ omega (arith, h.mutex);
  once = omega (arith, h.once, total-append asks s.callers waiting);
  untouched = h.untouched;
}
Step-IsExclusive {s} (lock_checked i at free done) h = record {
  mutex = omega (arith, h.mutex, total-update holds i waiting reading s.callers at);
  once = omega (arith, h.once, total-update asks i waiting reading s.callers at);
  untouched = h.untouched;
}
Step-IsExclusive {s} (lock_fresh i at free new) h = record {
  mutex = omega (arith, h.mutex, ap one_if free, total-update holds i waiting asking s.callers at);
  once = omega (
    arith,
    h.untouched new free,
    h.mutex,
    ap one_if free,
    total-asks s.callers,
    total-update asks i waiting asking s.callers at,
  );
  untouched = λ q r. absurd (cc r);
}
Step-IsExclusive {s} (take_private i uuid at) h = record {
  mutex =
      omega (arith, h.mutex, total-update holds i asking (answered (some uuid) none) s.callers at);
  once = omega (arith, h.once, total-update asks i asking (answered (some uuid) none) s.callers at);
  untouched = h.untouched;
}
Step-IsExclusive {s} (ask i resp err at) h = record {
  mutex = omega (arith, h.mutex, total-update holds i asking (answered resp err) s.callers at);
  once = omega (arith, h.once, total-update asks i asking (answered resp err) s.callers at);
  untouched = λ q r. absurd (omega (arith, h.mutex, ap one_if r, held i asking s.callers at));
}
Step-IsExclusive {s} (ask_panics i at) h = record {
  mutex = omega (arith, h.mutex, total-update holds i asking panicking s.callers at);
  once = omega (arith, h.once, total-update asks i asking panicking s.callers at);
  untouched = λ q r. absurd (omega (arith, h.mutex, ap one_if r, held i asking s.callers at));
}
Step-IsExclusive {s} (unlock i resp err at) h =
    released-IsExclusive i (answered resp err) (finished (account resp err)) s at refl refl refl
      refl h
Step-IsExclusive {s} (unlock_panics i at) h =
    released-IsExclusive i panicking failed s at refl refl refl refl h
Step-IsExclusive {s} (read i at) h =
    let c = finished (cached_answer s.public) in
    record {
      mutex = omega (arith, h.mutex, total-update holds i reading c s.callers at);
      once = omega (arith, h.once, total-update asks i reading c s.callers at);
      untouched = h.untouched;
    }

-- However many goroutines call AccountUuid of a new Public in whatever interleaving, at most one
-- holds its mutex, which is locked exactly then, and the client is asked at most once.
pub Steps-IsExclusive : {s : Callers} → Steps no_callers s → IsExclusive s
unfolding total
Steps-IsExclusive here = record { mutex = refl; once = omega arith; untouched = λ q r. refl }
Steps-IsExclusive (later steps step) = Step-IsExclusive step (Steps-IsExclusive steps)
