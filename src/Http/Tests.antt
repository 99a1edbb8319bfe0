-- ===== src/Http/Tests.antt =====
-- The theorems on the HTTP handlers in the small application.
use jonson.Prelude.{[], ◌∷◌, none, ◌≡◌, refl}
use jonson.Text.{Text, codes}
use jonson.Value.{Request}
use jonson.Errors.{of_string}
use jonson.Context.Prog.{Outcome, require, panic}
use jonson.Http.{Payload, handle_method}
use jonson.Http.Laws.{Serves, handle_method-Serves}
use jonson.Http.Regexp.{Route, ran, handle_regexp}
use jonson.Scenario.{type_database, runtime, toy_json, start}

abbrev to_json : Payload → Text
to_json p = codes "{}"

abbrev get_ping : Request
get_ping = record { method = codes "GET"; path = codes "/app/ping.v1"; body = none }

handle_method-Serves_example :
    Serves to_json toy_json runtime get_ping start
      (handle_method to_json toy_json runtime get_ping start).0
      (handle_method to_json toy_json runtime get_ping start).1
handle_method-Serves_example = handle_method-Serves to_json toy_json runtime get_ping start

-- A direct handler that requires the database, and panics.
abbrev panicking_route : Route
panicking_route = record {
  pattern = λ path. path ∷ [];
  handler = λ parts. require type_database (λ v. panic (of_string "no route"));
}

-- Its context is finalized all the same.
route_finalized :
    (handle_regexp runtime (panicking_route ∷ []) get_ping start).0
    ≡ ran (Outcome.panicked (of_string "no route"))
unfolding handle_regexp
route_finalized = refl

route_finalizers :
    (handle_regexp runtime (panicking_route ∷ []) get_ping start).1.finalizations ≡ 1 ∷ []
unfolding handle_regexp
route_finalizers = refl
