-- ===== src/Log.antt =====
-- log.go: the loggers that a factory provides. A `*slog.Logger` is its handler with the attributes
-- that `With` has added; `LoggerOptions` are mutable and shared by pointer, so they live on a heap,
-- a list in which an address is a position. `frame.Function`, the name of the function that has
-- called `RequireLogger`, is the runtime's: a parameter.
pub mod Frames
pub mod Attributes
mod Tests
use jonson.Prelude.{ℕ, Bool, Option, none, some, List, [], ◌∷◌, ◌++◌, ◌==◌, if◌then◌else◌}
use jonson.Text.{Text, codes}
use jonson.Types.{GoType, type_rpc_meta, type_logger, type_logger_options}
use jonson.Value.{
  Value, LogValue, caller_function, caller_rpc_meta, RpcMeta, RpcSource, http, http_rpc, ws,
  internal, nil_value, rpc_meta, logger, logger_options,
}
use jonson.Errors.{PanicValue, nil_dereference}
use jonson.Clock.{last_or}
use jonson.Context.{Fallible, value, failure}
use jonson.Context.Prog
use jonson.Context.Prog.{Prog, done, panic, require, ◌>>=◌}
use jonson.Context.Run.{nth, update}

-- `NewNoOpLogger`
abbrev pub no_op_logger : Value
no_op_logger = logger none []

-- An initializer gets the name of the function that has required the logger, and the logger.
abbrev pub Initializer : Type 0
Initializer = Text → Value → Prog

pub record LoggerOptions : Type 0 where
  pub initializer : List Initializer

abbrev pub Heap : Type 0
Heap = List LoggerOptions

-- `l.Initializer = append(l.Initializer, f)`
unfoldable pub append_initializer : Initializer → ℕ → Heap → Heap
unfolding nth update
append_initializer f a heap = elim (nth a heap) [
  | none ↦ heap
  | some o ↦ update a (record { initializer = o.initializer ++ f ∷ [] }) heap
]

abbrev pub prepend : ℕ → List Text → List Text
prepend c [] = (c ∷ []) ∷ []
prepend c (part ∷ parts) = (c ∷ part) ∷ parts

-- `strings.Split` at a single character: there is one part more than separators.
unfoldable pub split : ℕ → Text → List Text
split separator [] = [] ∷ []
split separator (c ∷ s) =
    let parts = split separator s in if c == separator then [] ∷ parts else prepend c parts

-- `parts[len(parts)-1]`
unfoldable pub last_part : ℕ → Text → Text
unfolding split last_or
last_part separator s = last_or [] (split separator s)

abbrev pub source_text : RpcSource → Text
source_text http = codes "http"
source_text http_rpc = codes "httpRpc"
source_text ws = codes "ws"
source_text internal = codes "internal"

abbrev pub meta_value : RpcMeta → LogValue
meta_value m = caller_rpc_meta (source_text m.source) m.method m.http_method

-- `log{Name: funcName, Struct: structFunc}` for a name such as pkg/path/account.(*Account).MeV1
unfoldable pub function_value : Text → LogValue
unfolding last_part
function_value frame = caller_function (last_part b'.' frame) (last_part b'/' frame)

-- `conversion` is the panic of Go's runtime for a value that is not of the asserted type.
module _ (conversion : GoType → Value → PanicValue) where
  -- `logger.With(key, v)`, which a nil logger does not survive
  abbrev pub log_with : Text → LogValue → Value → Prog
  log_with key v (logger handler attributes) = done (logger handler (attributes ++ (key, v) ∷ []))
  log_with key v nil_value = panic nil_dereference
  log_with key v other = panic (conversion type_logger other)

  -- The initializer of `WithCallerFunction`
  unfoldable pub add_caller_function : Text → Initializer
  unfolding function_value
  add_caller_function key frame log = log_with key (function_value frame) log

  abbrev pub add_meta : Text → Value → Fallible Value → Prog
  add_meta key log (failure e) = done log
  add_meta key log (value (rpc_meta m)) = log_with key (meta_value m) log
  add_meta key log (value v) = panic (conversion type_rpc_meta v)

  -- The initializer of `WithCallerRpcMeta`
  unfoldable pub add_caller_rpc_meta : Text → Initializer
  add_caller_rpc_meta key frame log = Prog.get_value type_rpc_meta (add_meta key log)

  -- `LoggerOptions.WithCallerFunction`: of several keys the last one counts.
  unfoldable pub with_caller_function : List Text → ℕ → Heap → Heap
  unfolding append_initializer add_caller_function last_or
  with_caller_function keys a heap =
      append_initializer (add_caller_function (last_or (codes "function") keys)) a heap

  -- `LoggerOptions.WithCallerRpcMeta`
  unfoldable pub with_caller_rpc_meta : List Text → ℕ → Heap → Heap
  unfolding append_initializer add_caller_rpc_meta last_or
  with_caller_rpc_meta keys a heap =
      append_initializer (add_caller_rpc_meta (last_or (codes "rpcMeta") keys)) a heap

  -- `for _, v := range opts.Initializer { log = v(ctx, log) }`
  unfoldable pub run_initializers : Text → List Initializer → Value → Prog
  unfolding ◌>>=◌
  run_initializers frame [] log = done log
  run_initializers frame (f ∷ fs) log = f frame log >>= run_initializers frame fs

  abbrev pub initialized : Heap → Text → Value → ℕ → Prog
  initialized heap frame log a = elim (nth a heap) [
    | none ↦ panic nil_dereference
    | some o ↦ run_initializers frame o.initializer log
  ]

  -- The result of `requireLoggerOptions`, which may be nil.
  abbrev pub with_options : Heap → Text → Value → Value → Prog
  with_options heap frame log nil_value = panic nil_dereference
  with_options heap frame log (logger_options a) = initialized heap frame log a
  with_options heap frame log v = panic (conversion type_logger_options v)

  abbrev pub with_logger : Heap → Text → Value → Prog
  with_logger heap frame nil_value = done nil_value
  with_logger heap frame (logger handler attributes) =
      require type_logger_options (with_options heap frame (logger handler attributes))
  with_logger heap frame v = panic (conversion type_logger v)

  -- `RequireLogger`
  unfoldable pub require_logger : Heap → Text → Prog
  unfolding run_initializers nth
  require_logger heap frame = require type_logger (with_logger heap frame)

-- `newLoggerProvider`
pub record LoggerProvider : Type 0 where
  pub logger : Value
  pub options : ℕ

-- `loggerProvider.NewLogger` and `loggerProvider.NewLoggerOptions`
unfoldable pub new_logger : LoggerProvider → Prog
new_logger l = done l.logger

unfoldable pub new_logger_options : LoggerProvider → Prog
new_logger_options l = done (logger_options l.options)
