-- ===== src/Graceful/Shutdown.antt =====
-- What loops that ask `IsUp` can rely on, and how often `ListenAndServe` returns (graceful.go).
use jonson.Prelude.{ℕ, suc, ◌≤◌, Bool, true, false, Option, ◌≡◌, refl, ap, arith}
use jonson.Graceful.{
  Chan, open_chan, closed_chan, close, is_up, Phase, stopping, returned, GracefulProvider,
  new_graceful_provider, close_status, Step, start, listen_fails, signal, receive, closes, stopped,
  close_fails, timed_out, Steps, here, later,
}

-- The server is being shut down or was.
abbrev pub is_after : Phase → Bool
is_after stopping = true
is_after (returned failed) = true
is_after _ = false

-- What holds of a provider at all times.
pub record IsGraceful (g : GracefulProvider) : Type 0 where
  pub told : is_after g.phase ≡ true → is_up g.check_status ≡ false
  pub not_yet : is_up g.check_status ≡ true → g.returns ≡ 0
  pub stops_once : g.phase ≡ stopping → g.returns ≡ 0
  pub at_most_once : g.returns ≤ 1

close-IsGraceful :
    (c : Chan) (g : GracefulProvider)
    → g.check_status ≡ c
    → IsGraceful g
    → IsGraceful (close_status (close c) g)
unfolding close close_status is_up
close-IsGraceful open_chan g e h = record {
  told = λ q. refl;
  not_yet = λ q. absurd (cc q);
  stops_once = λ q. h.not_yet (ap is_up e);
  at_most_once = h.at_most_once;
}
close-IsGraceful closed_chan g e h = record {
  told = λ q. absurd (cc q);
  not_yet = h.not_yet;
  stops_once = λ q. absurd (cc q);
  at_most_once = h.at_most_once;
}

-- The return of `ListenAndServe`.
returned-IsGraceful :
    (failed : Bool) (g : GracefulProvider)
    → IsGraceful g
    → g.phase ≡ stopping
    → IsGraceful (record g { phase = returned failed; listening = false; returns = suc g.returns })
returned-IsGraceful failed g h x =
    let down = h.told (ap is_after x) in
    record {
      told = λ q. down;
      not_yet = λ q. absurd (cc (down, q));
      stops_once = λ q. absurd (cc q);
      at_most_once = omega (arith, h.stops_once x);
    }

Step-IsGraceful : {g k : GracefulProvider} → Step g k → IsGraceful g → IsGraceful k
Step-IsGraceful (start x) h = record {
  told = λ q. absurd (cc q);
  not_yet = h.not_yet;
  stops_once = λ q. absurd (cc q);
  at_most_once = h.at_most_once;
}
Step-IsGraceful (listen_fails x) h = record {
  told = λ q. absurd (cc q);
  not_yet = h.not_yet;
  stops_once = λ q. absurd (cc q);
  at_most_once = h.at_most_once;
}
Step-IsGraceful (signal x) h = record {
  told = h.told;
  not_yet = h.not_yet;
  stops_once = h.stops_once;
  at_most_once = h.at_most_once;
}
Step-IsGraceful (receive x y) h = record {
  told = λ q. absurd (cc q);
  not_yet = h.not_yet;
  stops_once = λ q. absurd (cc q);
  at_most_once = h.at_most_once;
}
Step-IsGraceful {g} (closes x) h = close-IsGraceful g.check_status g refl h
Step-IsGraceful {g} (stopped x) h = returned-IsGraceful false g h x
Step-IsGraceful {g} (close_fails x) h = returned-IsGraceful true g h x
Step-IsGraceful {g} (timed_out d x y) h = returned-IsGraceful true g h x

new-IsGraceful : IsGraceful new_graceful_provider
unfolding new_graceful_provider
new-IsGraceful = record {
  told = λ q. absurd (cc q);
  not_yet = λ q. refl;
  stops_once = λ q. refl;
  at_most_once = omega arith;
}

-- From a new provider on, with or without a timeout, in any interleaving of its goroutines and the
-- signals: IsUp is false from before the shutdown of the server on, and ListenAndServe returns at
-- most once.
pub Steps-IsGraceful :
    (timeout : Option ℕ) {g : GracefulProvider}
    → Steps (record new_graceful_provider { timeout = timeout }) g
    → IsGraceful g
Steps-IsGraceful timeout here = record {
  told = new-IsGraceful.told;
  not_yet = new-IsGraceful.not_yet;
  stops_once = new-IsGraceful.stops_once;
  at_most_once = new-IsGraceful.at_most_once;
}
Steps-IsGraceful timeout (later steps step) = Step-IsGraceful step (Steps-IsGraceful timeout steps)

close-down :
    (c : Chan) (g : GracefulProvider)
    → g.check_status ≡ c
    → is_up c ≡ false
    → is_up (close_status (close c) g).check_status ≡ false
unfolding close close_status is_up
close-down open_chan g e h = absurd (cc h)
close-down closed_chan g e h = ap is_up e

Step-down :
    {g k : GracefulProvider}
    → Step g k
    → is_up g.check_status ≡ false
    → is_up k.check_status ≡ false
Step-down (start x) h = h
Step-down (listen_fails x) h = h
Step-down (signal x) h = h
Step-down (receive x y) h = h
Step-down {g} (closes x) h = close-down g.check_status g refl h
Step-down (stopped x) h = h
Step-down (close_fails x) h = h
Step-down (timed_out d x y) h = h

-- A server that went down never comes up again, whatever happens.
pub Steps-down :
    {g k : GracefulProvider}
    → Steps g k
    → is_up g.check_status ≡ false
    → is_up k.check_status ≡ false
Steps-down here h = h
Steps-down (later steps step) h = Step-down step (Steps-down steps h)
