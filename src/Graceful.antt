-- ===== src/Graceful.antt =====
-- graceful.go: the shutdown of a server, and jonsontest/graceful.go: the provider that mimics it.
-- `ListenAndServe` is a goroutine that goes from phase to phase, beside the goroutine of the server
-- and the signals of the operating system. The server is net/http's.
pub mod Shutdown
mod Tests
use jonson.Prelude.{
  ℕ, suc, ◌+◌, ◌≤◌, Bool, true, false, not, Option, none, some, ◌≡◌, if◌then◌else◌,
}
use jonson.Errors.{PanicValue, of_error, plain}
use jonson.Validate.{Result, ok, panicked}

-- `make(chan struct{})` on which nothing is ever sent, and `close`.
pub data Chan : Type 0 where
  open_chan closed_chan : Chan

abbrev pub close_of_closed : PanicValue
close_of_closed = of_error (plain "close of closed channel")

unfoldable pub close : Chan → Result Chan
close open_chan = ok closed_chan
close closed_chan = panicked close_of_closed

-- The `select` of `IsUp`: a closed channel is always ready, with `ok` false; an open one never is.
unfoldable pub is_up : Chan → Bool
is_up open_chan = true
is_up closed_chan = false

-- `IsDown`
unfoldable pub is_down : Chan → Bool
unfolding is_up
is_down c = not (is_up c)

-- `graceful` of jonsontest: `NewGracefulProvider`, `Shutdown` and `Restart`.
pub record TestProvider : Type 0 where
  pub is_active : Chan

unfoldable pub new_test_provider : TestProvider
new_test_provider = record { is_active = open_chan }

abbrev pub with_chan : Result Chan → Result TestProvider
with_chan (ok c) = ok (record { is_active = c })
with_chan (panicked p) = panicked p

unfoldable pub shutdown : TestProvider → Result TestProvider
unfolding close
shutdown g = with_chan (close g.is_active)

unfoldable pub restart : TestProvider → TestProvider
restart g = record { is_active = open_chan }

-- What `ListenAndServe` does: it waits for a signal, closes the channel, shuts the server down and
-- returns the error of the shutdown.
pub data Phase : Type 0 where
  idle waiting closing stopping exited : Phase
  returned : (failed : Bool) → Phase
  crashed : PanicValue → Phase

-- `GracefulProvider` at work. `timeout` is in nanoseconds, `signals` counts what waits in
-- `quitChan`, `notified` is whether signals are sent to it, `returns` is history.
pub record GracefulProvider : Type 0 where
  pub timeout : Option ℕ
  pub check_status : Chan
  pub signals : ℕ
  pub notified : Bool
  pub listening : Bool
  pub phase : Phase
  pub returns : ℕ

-- `NewGracefulProvider` and `WithTimeout`
unfoldable pub new_graceful_provider : GracefulProvider
new_graceful_provider = record {
  timeout = none;
  check_status = open_chan;
  signals = 0;
  notified = false;
  listening = false;
  phase = idle;
  returns = 0;
}

unfoldable pub with_timeout : ℕ → GracefulProvider → GracefulProvider
with_timeout d g = record g { timeout = some d }

abbrev pub is_resting : Phase → Bool
is_resting idle = true
is_resting (returned failed) = true
is_resting _ = false

-- The phase and the channel behind `close`.
unfoldable pub close_status : Result Chan → GracefulProvider → GracefulProvider
close_status (ok c) g = record g { check_status = c; phase = stopping }
close_status (panicked p) g = record g { phase = crashed p }

pub data Step (g : GracefulProvider) : GracefulProvider → Type 0 where
  -- a call of `ListenAndServe`, which starts the server
  start :
      is_resting g.phase ≡ true
      → Step g (record g { phase = waiting; notified = true; listening = true })
  -- the server cannot listen: the process exits
  listen_fails : g.listening ≡ true → Step g (record g { phase = exited; listening = false })
  -- a signal; the channel holds one, and others are dropped
  signal : g.notified ≡ true → Step g (record g { signals = 1 })
  receive : g.phase ≡ waiting → g.signals ≡ 1 → Step g (record g { signals = 0; phase = closing })
  closes : g.phase ≡ closing → Step g (close_status (close g.check_status) g)
  stopped :
      g.phase ≡ stopping
      → Step g (record g { phase = returned false; listening = false; returns = suc g.returns })
  -- the listener cannot be closed, or the timeout passes while connections are at work
  close_fails :
      g.phase ≡ stopping
      → Step g (record g { phase = returned true; listening = false; returns = suc g.returns })
  timed_out :
      (d : ℕ)
      → g.phase ≡ stopping
      → g.timeout ≡ some d
      → Step g (record g { phase = returned true; listening = false; returns = suc g.returns })

pub data Steps (g : GracefulProvider) : GracefulProvider → Type 0 where
  here : Steps g g
  later : {h k : GracefulProvider} → Steps g h → Step h k → Steps g k
