-- ===== src/Websocket/Delivery.antt =====
-- What is sent to a websocket client gets to the peer (`writer` and `send` of ws.handler.go).
use jonson.Prelude.{
  ℕ, ◌<◌, true, false, some, List, [], ◌∷◌, ◌++◌, ◌≡◌, refl, sym, ap, ◌∙◌, arith, append_assoc,
  append-nil, length,
}
use jonson.Text.{Text}
use jonson.Value.{Request}
use jonson.Context.Run.{nth}
use jonson.Method.Messages.{Json, Runtime}
use jonson.Http.{Payload}
use jonson.Websocket.{
  WebsocketOptions, WsClient, capacity, sending, write, send, Steps, here, later,
}

-- The writer and the connection are at work.
pub record IsLive (c : WsClient) : Type 0 where
  pub no_crash : c.crashed ≡ false
  pub writes : c.writing ≡ true
  pub opened : c.is_open ≡ true

module _ (marshal : Payload → Text) (json : Json) (rt : Runtime) (req : Request)
    (options : WebsocketOptions) where
  abbrev Runs : WsClient → WsClient → Type 0
  Runs c d = Steps marshal json rt req options c d

  -- A state that the writer reaches from `c` by writing `texts`.
  record Wrote (texts : List Text) (c d : WsClient) : Type 0 where
    wrote : d.written ≡ c.written ++ texts
    emptied : d.queue ≡ []
    same_tasks : d.tasks ≡ c.tasks
    live : IsLive d

  drained :
      (texts : List Text) {b : WsClient} (c : WsClient)
      → Runs b c
      → IsLive c
      → c.queue ≡ texts
      → (d : WsClient) × Runs b d × Wrote texts c d
  drained [] c runs h e = (
    c,
    runs,
    record { wrote = sym (append-nil c.written); emptied = e; same_tasks = refl; live = h },
  )
  drained (t ∷ ts) c runs h e =
      let next = record c { queue = ts; written = c.written ++ t ∷ [] } in
      let (d, all_runs, w) =
        drained ts next (later runs (write t ts h.no_crash h.writes h.opened e))
          (record { no_crash = h.no_crash; writes = h.writes; opened = h.opened }) refl in
      (
        d,
        all_runs,
        record {
          wrote = w.wrote ∙ append_assoc c.written (t ∷ []) ts;
          emptied = w.emptied;
          same_tasks = w.same_tasks;
          live = w.live;
        },
      )

  -- The send and the write that follow a drained queue.
  sent_after :
      (i : ℕ) (t : Text) (texts : List Text) (c d : WsClient)
      → Runs c d
      → Wrote texts c d
      → nth i c.tasks ≡ some (sending t)
      → (e : WsClient) × Runs c e × e.written ≡ c.written ++ texts ++ t ∷ [] × IsLive e
  sent_after i t texts c d runs w at =
      let room : length d.queue < capacity = omega (arith, ap length w.emptied) in
      let sent = later runs (send i t w.live.no_crash (ap (nth i) w.same_tasks ∙ at) room) in
      let (e, all_runs, w') =
        drained (t ∷ []) _ sent
          (record { no_crash = w.live.no_crash; writes = w.live.writes; opened = w.live.opened })
          (ap (λ q. q ++ t ∷ []) w.emptied) in
      (e, all_runs, w'.wrote ∙ ap (λ l. l ++ t ∷ []) w.wrote, w'.live)

  -- A text that a goroutine wants to send, while the writer and the connection are at work and the
  -- program has not crashed, can always be delivered: some steps lead to a state in which it is
  -- written, behind everything that waited before it, and the client is still at work.
  pub delivered :
      (i : ℕ) (t : Text) (c : WsClient)
      → IsLive c
      → nth i c.tasks ≡ some (sending t)
      → (d : WsClient) × Runs c d × d.written ≡ c.written ++ c.queue ++ t ∷ [] × IsLive d
  delivered i t c h at =
      let (d, runs, w) = drained c.queue c here h refl in sent_after i t c.queue c d runs w at
