-- ===== src/Graceful/Tests.antt =====
-- A shutdown by a signal, a second call, and the test provider.
use jonson.Prelude.{ℕ, true, some, ◌≡◌, refl}
use jonson.Validate.{panicked, ◌>>=◌}
use jonson.Graceful.{
  Chan, open_chan, closed_chan, close, close_of_closed, Phase, waiting, closing, stopping, crashed,
  GracefulProvider, new_graceful_provider, with_timeout, Step, start, signal, receive, closes,
  Steps, here, later, new_test_provider, shutdown, restart, close_status,
}
use jonson.Graceful.Shutdown.{IsGraceful, Steps-IsGraceful}

abbrev initial : GracefulProvider
initial = with_timeout 5 new_graceful_provider

-- The provider in the given phase after a call.
abbrev at_phase : Phase → Chan → ℕ → ℕ → GracefulProvider
at_phase p c waiting_signals returns = record initial {
  phase = p;
  check_status = c;
  signals = waiting_signals;
  notified = true;
  listening = true;
  returns = returns;
}

to_closing : Steps initial (at_phase closing open_chan 0 0)
unfolding with_timeout new_graceful_provider
to_closing =
    later {h = at_phase waiting open_chan 1 0}
      (later {h = at_phase waiting open_chan 0 0} (later {h = initial} here (start refl))
        (signal refl))
      (receive refl refl)

to_stopping : Steps initial (at_phase stopping closed_chan 0 0)
unfolding with_timeout new_graceful_provider close close_status
to_stopping = later {h = at_phase closing open_chan 0 0} to_closing (closes refl)

Steps-IsGraceful_example : IsGraceful (at_phase stopping closed_chan 0 0)
unfolding with_timeout
Steps-IsGraceful_example =
    Steps-IsGraceful (some 5) {g = at_phase stopping closed_chan 0 0} to_stopping

abbrev second_call : GracefulProvider
second_call = record (at_phase closing closed_chan 0 1) { listening = true }

-- The second call panics where the first one closed the channel.
second_call_panics : Step second_call (record second_call { phase = crashed close_of_closed })
unfolding with_timeout new_graceful_provider close close_status
second_call_panics = closes refl

-- A test that shuts down twice panics, unless it restarts in between.
shutdown_twice : (shutdown new_test_provider >>= shutdown) ≡ panicked close_of_closed
unfolding shutdown new_test_provider
shutdown_twice = refl

shutdown_again :
    (shutdown new_test_provider >>= λ g. shutdown (restart g)) ≡ shutdown new_test_provider
unfolding shutdown new_test_provider restart
shutdown_again = refl
