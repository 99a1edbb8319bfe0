-- ===== src/Http/Regexp.antt =====
-- http.handler.go: direct handlers for paths that match a pattern (`HttpRegexpHandler`). A pattern
-- is what `FindStringSubmatch` makes of a path, and the patterns are in one order of their map.
use jonson.Prelude.{none, List, [], ◌∷◌, ◌++◌}
use jonson.Text.{Text}
use jonson.Types.{GoType, type_http_request, type_http_response_writer, type_secret}
use jonson.Value.{Value, Request, http_request, http_response_writer, secret}
use jonson.Context.{new_context}
use jonson.Context.Prog.{Outcome, blocked, out_of_fuel, Prog}
use jonson.Context.Final.{finalize}
use jonson.Context.Run.{State, Exec, store_each, set_ctx, with_ctx, leave}
use jonson.Method.Call.{execute}
use jonson.Method.Messages.{Runtime}

pub record Route : Type 0 where
  pub pattern : Text → List Text
  pub handler : List Text → Prog

pub data RouteHandling : Type 0 where
  unmatched : RouteHandling
  ran : Outcome → RouteHandling

abbrev pub route_items : Request → List (GoType × Value)
route_items req =
    (type_http_request, http_request req)
    ∷ (type_http_response_writer, http_response_writer)
    ∷ (type_secret, secret)
    ∷ []

-- `defer ctx.Finalize(nil)`, also where the handler panics.
unfoldable pub finish_route : (Text → Text) → Exec → Exec
unfolding finalize
finish_route encode (blocked, s) = (blocked, s)
finish_route encode (out_of_fuel, s) = (out_of_fuel, s)
finish_route encode (o, s) =
    let f = finalize encode none s.ctx in
    (o, record s { ctx = f.ctx; finalizations = s.finalizations ++ f.called })

-- The function that `RegisterRegexp` registers.
unfoldable pub run_route : Runtime → Route → List Text → Request → State → Exec
unfolding finish_route execute store_each new_context
run_route rt r parts req s = with_ctx (store_each (route_items req) new_context) s (λ c.
    leave s.ctx (
      finish_route rt.encode (
        execute rt.stack rt.providers rt.encode rt.endpoints rt.fuel (r.handler parts)
          (set_ctx s c))))

abbrev pub handling_of : Exec → RouteHandling × State
handling_of (o, s) = (ran o, s)

abbrev pub try_route :
    Runtime → Route → List Text → Request → State → RouteHandling × State → RouteHandling × State
try_route rt r [] req s rest = rest
try_route rt r (p ∷ parts) req s rest = handling_of (run_route rt r (p ∷ parts) req s)

-- `HttpRegexpHandler.Handle`
unfoldable pub handle_regexp : Runtime → List Route → Request → State → RouteHandling × State
unfolding run_route
handle_regexp rt [] req s = (unmatched, s)
handle_regexp rt (r ∷ rs) req s =
    let rest = handle_regexp rt rs req s in try_route rt r (r.pattern req.path) req s rest
