-- ===== src/Factory/Make.antt =====
-- `NewFactory` of factory.go, with the two providers that it registers (http.method.go, log.go).
use jonson.Prelude.{ℕ, true, Option, none, some, List, [], ◌∷◌, ◌++◌, length}
use jonson.Text.{codes}
use jonson.Types.{
  type_context, type_http_get, type_http_post, type_logger, type_logger_options,
  type_http_method_provider, type_logger_provider,
}
use jonson.Value.{Value}
use jonson.Errors.{of_string}
use jonson.Validate.{Result, ok, panicked, ◌>>=◌}
use jonson.Context.Run.{Providers}
use jonson.Http.{new_http_get, new_http_post}
use jonson.Log.{Heap, LoggerProvider, no_op_logger, new_logger, new_logger_options}
use jonson.Factory.Scan.{ProviderMethod, register_provider}

-- Both fields are pointers, and may be nil.
pub record FactoryOptions : Type 0 where
  pub logger : Option Value
  pub logger_options : Option ℕ

pub record Factory : Type 0 where
  pub providers : Providers
  pub logger : Value

-- What `NewFactory` leaves: the factory, the options, which it has completed, and the heap.
pub record Made : Type 0 where
  pub factory : Factory
  pub options : FactoryOptions
  pub heap : Heap

abbrev pub or_default {ℓ} : {A : Type ℓ} → A → Option A → A
or_default a none = a
or_default a (some b) = b

-- `newHttpMethodProvider`; reflection lists methods by their names.
abbrev pub http_method_provider : List ProviderMethod
http_method_provider =
    record {
      name = codes "NewHttpGet";
      ins = type_http_method_provider ∷ type_context ∷ [];
      outs = type_http_get ∷ [];
      code = new_http_get;
    }
    ∷ record {
      name = codes "NewHttpPost";
      ins = type_http_method_provider ∷ type_context ∷ [];
      outs = type_http_post ∷ [];
      code = new_http_post;
    }
    ∷ []

-- `newLoggerProvider`
abbrev pub logger_provider : LoggerProvider → List ProviderMethod
logger_provider l =
    record {
      name = codes "NewLogger";
      ins = type_logger_provider ∷ type_context ∷ [];
      outs = type_logger ∷ [];
      code = new_logger l;
    }
    ∷ record {
      name = codes "NewLoggerOptions";
      ins = type_logger_provider ∷ type_context ∷ [];
      outs = type_logger_options ∷ [];
      code = new_logger_options l;
    }
    ∷ []

abbrev pub made : Value → ℕ → Heap → Providers → Made
made log a heap ps = record {
  factory = record { providers = ps; logger = log };
  options = record { logger = some log; logger_options = some a };
  heap = heap;
}

-- The registrations, for a logger and the address of its options.
unfoldable pub register_own : Value → ℕ → Heap → Result Made
unfolding register_provider
register_own log a heap = register_provider true http_method_provider [] >>= λ ps.
    register_provider true (logger_provider (record { logger = log; options = a })) ps >>= λ ps'.
    ok (made log a heap ps')

-- `if opts.LoggerOptions == nil { opts.LoggerOptions = &LoggerOptions{} }`
unfoldable pub with_defaults : FactoryOptions → Heap → Result Made
unfolding register_own
with_defaults o heap = elim o.logger_options [
  | none ↦
      register_own (or_default no_op_logger o.logger) (length heap)
        (heap ++ record { initializer = [] } ∷ [])
  | some a ↦ register_own (or_default no_op_logger o.logger) a heap
]

-- `NewFactory`
unfoldable pub new_factory : List FactoryOptions → Heap → Result Made
unfolding with_defaults
new_factory [] heap = with_defaults (record { logger = none; logger_options = none }) heap
new_factory (o ∷ []) heap = with_defaults o heap
new_factory (o ∷ p ∷ os) heap = panicked (of_string "only a single options element is allowed")
