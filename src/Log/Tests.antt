-- ===== src/Log/Tests.antt =====
-- The loggers of the example application (internal/example/main.go): `MeV1` requires one.
use jonson.Prelude.{ℕ, none, some, List, [], ◌∷◌, ◌++◌, ◌≡◌, refl, arith}
use jonson.Text.{Text, codes}
use jonson.Types.{
  GoType, type_rpc_meta, type_logger, type_logger_options, type_http_get, type_http_post,
}
use jonson.Value.{Value, caller_function, RpcMeta, rpc_meta, logger, http, rpc_http_method_get}
use jonson.Errors.{PanicValue, of_string}
use jonson.Validate.{ok}
use jonson.Context.{has, get_value, new_context, push}
use jonson.Context.Prog.{returned}
use jonson.Context.Run.{State, nth, run, require_type, ready, Providers}
use jonson.Log.{Heap, no_op_logger, new_logger, new_logger_options, require_logger, function_value}
use jonson.Log.Attributes.{Built, by_function, by_rpc_meta, build, attributes, IsMeta}
use jonson.Clock.{last_or}
use jonson.Http.{new_http_get, new_http_post}
use jonson.Factory.Make.{FactoryOptions, Made, new_factory, made}
use jonson.Factory.Loggers.{IsFresh, equipped, new_factory-logs}
use jonson.Scenario.{no_call}

abbrev frame : Text
frame = codes "example/systems/account.(*Account).MeV1"

frame_parts :
    function_value frame ≡ caller_function (codes "MeV1") (codes "account.(*Account).MeV1")
unfolding function_value
frame_parts = refl

abbrev conversion : GoType → Value → PanicValue
conversion t v = of_string "interface conversion"

-- `(&jonson.LoggerOptions{}).WithCallerFunction().WithCallerRpcMeta()`
abbrev calls : List Built
calls = by_function [] ∷ by_rpc_meta [] ∷ []

abbrev heap : Heap
heap = record { initializer = [] } ∷ []

abbrev meta : RpcMeta
meta = record { method = codes "account/me.v1"; http_method = rpc_http_method_get; source = http }

abbrev called : State
called = record {
  ctx = push (ready new_context type_rpc_meta (rpc_meta meta)) new_context;
  publics = [];
  finalizations = [];
}

called-IsFresh : IsFresh called
unfolding has new_context
called-IsFresh = record {
  numbered = (omega arith, (omega arith, tt));
  opened = refl;
  no_logger = refl;
  no_options = refl;
}

called-IsMeta : IsMeta (some meta) (get_value type_rpc_meta called.ctx)
unfolding get_value new_context
called-IsMeta = refl

abbrev options : List FactoryOptions
options = record { logger = some (logger (some 1) []); logger_options = some 0 } ∷ []

-- What `NewFactory` registers, the latest first.
abbrev registered : Value → ℕ → Providers
registered log a =
    (type_logger_options, new_logger_options (record { logger = log; options = a }))
    ∷ (type_logger, new_logger (record { logger = log; options = a }))
    ∷ (type_http_post, new_http_post)
    ∷ (type_http_get, new_http_get)
    ∷ []

abbrev chosen : Made
chosen =
    made (logger (some 1) []) 0 (build conversion calls 0 heap) (registered (logger (some 1) []) 0)

abbrev by_default : Made
by_default = made no_op_logger 1 (heap ++ heap) (registered no_op_logger 1)

chosen_made : new_factory options (build conversion calls 0 heap) ≡ ok chosen
unfolding new_factory
chosen_made = refl

default_made : new_factory [] heap ≡ ok by_default
unfolding new_factory
default_made = refl

heap_empty : nth 0 heap ≡ some (record { initializer = [] })
unfolding nth
heap_empty = refl

new_factory-logs_example :
    (run
        (require_type "" chosen.factory.providers no_call 1)
        no_call
        (require_logger conversion chosen.heap frame)
        called
      ≡ (
        returned (logger (some 1) (attributes frame (some meta) calls)),
        equipped (logger (some 1) []) 0 called,
      ))
    × (run
          (require_type "" by_default.factory.providers no_call 1)
          no_call
          (require_logger conversion by_default.heap frame)
          called
        ≡ (returned no_op_logger, equipped no_op_logger 1 called))
new_factory-logs_example =
    new_factory-logs conversion "" no_call 0 frame calls (some 1) [] 0 heap chosen by_default
      (some meta) called heap_empty chosen_made default_made called-IsFresh called-IsMeta

-- Without metadata there is only the attribute with the names of the caller; the last key counts.
one_attribute :
    attributes frame none (by_function (codes "a" ∷ codes "fn" ∷ []) ∷ by_rpc_meta [] ∷ [])
    ≡ (codes "fn", function_value frame) ∷ []
unfolding last_or
one_attribute = refl
