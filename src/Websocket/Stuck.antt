-- ===== src/Websocket/Stuck.antt =====
-- What becomes of the goroutines of a websocket client whose writer has stopped (ws.handler.go).
use jonson.Prelude.{
  ℕ, zero, suc, ◌≤◌, false, some, List, [], ◌∷◌, ◌++◌, ◌≡◌, ◌≢◌, sym, ◌∙◌, arith, length,
}
use mathlib.Core.Option.{some-injective}
use jonson.Text.{Text}
use jonson.Value.{Request}
use jonson.Context.Run.{nth, update}
use jonson.Method.Messages.{Json, Runtime}
use jonson.Http.{Payload}
use jonson.Websocket.{
  WebsocketOptions, WsClient, capacity, working, sending, Step, read, read_fails, process, panics,
  notify, send, write, write_fails, ping, ping_fails, Steps, here, later, reply_of,
}

-- The writer is gone, the channel is full and goroutine `i` waits for room in it.
pub record IsStuck (i : ℕ) (t : Text) (c : WsClient) : Type 0 where
  pub stopped : c.writing ≡ false
  pub full : capacity ≤ length c.queue
  pub waits : nth i c.tasks ≡ some (sending t)

nth-append {ℓ} :
    {A : Type ℓ} (i : ℕ) (x : A) (xs ys : List A) → nth i xs ≡ some x → nth i (xs ++ ys) ≡ some x
unfolding nth
nth-append i x [] ys h = absurd (cc h)
nth-append zero x (y ∷ xs) ys h = h
nth-append (suc i) x (y ∷ xs) ys h = nth-append i x xs ys h

-- An update of another entry.
nth-update_other {ℓ} :
    {A : Type ℓ} (i j : ℕ) (x y z : A) (xs : List A)
    → nth i xs ≡ some x
    → nth j xs ≡ some y
    → x ≢ y
    → nth i (update j z xs) ≡ some x
unfolding nth update
nth-update_other i j x y z [] h g ne = absurd (cc h)
nth-update_other zero zero x y z (w ∷ xs) h g ne = absurd (ne (some-injective _ _ (sym h ∙ g)))
nth-update_other zero (suc j) x y z (w ∷ xs) h g ne = h
nth-update_other (suc i) zero x y z (w ∷ xs) h g ne = h
nth-update_other (suc i) (suc j) x y z (w ∷ xs) h g ne = nth-update_other i j x y z xs h g ne

module _ (marshal : Payload → Text) (json : Json) (rt : Runtime) (req : Request)
    (options : WebsocketOptions) where
  Step-IsStuck :
      (i : ℕ) (t : Text) {c d : WsClient}
      → Step marshal json rt req options c d
      → IsStuck i t c
      → IsStuck i t d
  Step-IsStuck i t {c} (read body x y z w) h = record {
    stopped = h.stopped;
    full = h.full;
    waits = nth-append i (sending t) c.tasks _ h.waits;
  }
  Step-IsStuck i t (read_fails x y) h = record {
    stopped = h.stopped;
    full = h.full;
    waits = h.waits;
  }
  Step-IsStuck i t {c} (process j body rs s batch x y z) h = record {
    stopped = h.stopped;
    full = h.full;
    waits =
        nth-update_other i j (sending t) (working body) (reply_of marshal batch rs) c.tasks h.waits
          y (λ e. cc e);
  }
  Step-IsStuck i t (panics j body p s batch x y z) h = record {
    stopped = h.stopped;
    full = h.full;
    waits = h.waits;
  }
  Step-IsStuck i t {c} (notify text x) h = record {
    stopped = h.stopped;
    full = h.full;
    waits = nth-append i (sending t) c.tasks _ h.waits;
  }
  Step-IsStuck i t (send j text x y room) h = absurd (omega (arith, h.full))
  Step-IsStuck i t (write text rest x y z e) h = absurd (cc (h.stopped, y))
  Step-IsStuck i t (write_fails text rest x y e) h = absurd (cc (h.stopped, y))
  Step-IsStuck i t (ping x y z) h = h
  Step-IsStuck i t (ping_fails x y) h = absurd (cc (h.stopped, y))

  -- A goroutine that waits to send to a full channel after the writer has stopped waits for ever:
  -- no steps of any goroutines free it.
  pub Steps-IsStuck :
      (i : ℕ) (t : Text) {c d : WsClient}
      → Steps marshal json rt req options c d
      → IsStuck i t c
      → IsStuck i t d
  Steps-IsStuck i t here h = h
  Steps-IsStuck i t (later steps step) h = Step-IsStuck i t step (Steps-IsStuck i t steps h)
