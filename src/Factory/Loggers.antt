-- ===== src/Factory/Loggers.antt =====
-- A logger from `NewFactory` to `RequireLogger` (factory.go, context.go, log.go).
use mathlib.Core.Path.{subst}
use jonson.Prelude.{
  ℕ, suc, String, false, Option, none, some, List, [], ◌∷◌, ◌++◌, ◌≡◌, refl, sym, ap, ◌∙◌, length,
}
use jonson.Text.{Text}
use jonson.Types.{GoType, type_rpc_meta, type_logger, type_logger_options}
use jonson.Value.{Value, LogValue, RpcMeta, logger, logger_options}
use jonson.Errors.{PanicValue}
use jonson.Validate.{ok}
use jonson.Validate.Binds.{ok-injective}
use jonson.Context.{has, get_value}
use jonson.Context.Prog.{MethodCall, returned, done}
use jonson.Context.Run.{State, Exec, run, nth, provider, require_type}
use jonson.Context.Run.Extends.{IsNumbered}
use jonson.Context.Run.Immediate.{
  with_value, with_value-IsNumbered, require_type-done, get_value-with_value, has-with_value,
}
use jonson.Log.{Heap, LoggerOptions, no_op_logger, require_logger, new_logger, new_logger_options}
use jonson.Log.Attributes.{Built, build, attributes, IsMeta, require_logger-attributes}
use jonson.Factory.Make.{Made, register_own, with_defaults, new_factory}

nth-append : (heap : Heap) (o : LoggerOptions) → nth (length heap) (heap ++ o ∷ []) ≡ some o
unfolding nth
nth-append [] o = refl
nth-append (x ∷ heap) o = nth-append heap o

-- What the registrations give.
record Offers (log : Value) (a : ℕ) (heap : Heap) (m : Made) : Type 0 where
  kept : m.heap ≡ heap
  first : provider type_logger m.factory.providers ≡ some (done log)
  second : provider type_logger_options m.factory.providers ≡ some (done (logger_options a))

register_own-Offers :
    (log : Value) (a : ℕ) (heap : Heap) (m : Made)
    → register_own log a heap ≡ ok m
    → Offers log a heap m
unfolding register_own provider new_logger new_logger_options
register_own-Offers log a heap m h =
    let e = ok-injective _ m h in
    record {
      kept = ap (λ x. x.heap) (sym e);
      first = ap (λ x. provider type_logger x.factory.providers) (sym e);
      second = ap (λ x. provider type_logger_options x.factory.providers) (sym e);
    }

-- An open context that holds no logger and no options.
pub record IsFresh (s : State) : Type 0 where
  pub numbered : IsNumbered s.ctx
  pub opened : s.ctx.finalized ≡ false
  pub no_logger : has type_logger s.ctx.values ≡ false
  pub no_options : has type_logger_options s.ctx.values ≡ false

-- The state with both values behind the others.
abbrev pub equipped : Value → ℕ → State → State
equipped log a s = with_value type_logger_options (logger_options a) (with_value type_logger log s)

module _ (conversion : GoType → Value → PanicValue) (stack : String)
    (call : MethodCall → State → Exec) (fuel : ℕ) (frame : Text) where
  offered :
      (bs : List Built) (h : Option ℕ) (l : List (Text × LogValue)) (a : ℕ) (heap : Heap) (m : Made)
      (meta : Option RpcMeta) (s : State)
      → nth a heap ≡ some (record { initializer = [] })
      → Offers (logger h l) a (build conversion bs a heap) m
      → IsFresh s
      → IsMeta meta (get_value type_rpc_meta s.ctx)
      → run
          (require_type stack m.factory.providers call (suc fuel))
          call
          (require_logger conversion (build conversion bs a heap) frame)
          s
        ≡ (returned (logger h (l ++ attributes frame meta bs)), equipped (logger h l) a s)
  offered bs h l a heap m meta s empty o fresh known =
      require_logger-attributes conversion (require_type stack m.factory.providers call (suc fuel))
        call frame bs a heap h l meta s (with_value type_logger (logger h l) s)
        (equipped (logger h l) a s) empty
        (require_type-done stack m.factory.providers call fuel type_logger (logger h l) s
          fresh.numbered fresh.opened refl fresh.no_logger o.first)
        (require_type-done stack m.factory.providers call fuel type_logger_options
          (logger_options a) (with_value type_logger (logger h l) s)
          (with_value-IsNumbered type_logger (logger h l) s fresh.numbered) fresh.opened refl
          (has-with_value type_logger_options type_logger (logger h l) s refl fresh.no_options)
          o.second)
        (subst (IsMeta meta)
          (sym (
            get_value-with_value type_rpc_meta type_logger_options (logger_options a)
              (with_value type_logger (logger h l) s) refl
            ∙ get_value-with_value type_rpc_meta type_logger (logger h l) s refl))
          known)

  -- A factory that `NewFactory` makes of a logger and of options on which `WithCallerFunction` and
  -- `WithCallerRpcMeta` were called provides that logger: `RequireLogger`, under an open context
  -- without a logger, returns it with one attribute for each call, in their order, without that of
  -- the metadata where the context has none, and leaves the logger and the options in the context.
  -- A factory without options provides a logger that discards, without attributes.
  pub new_factory-logs :
      (bs : List Built) (h : Option ℕ) (l : List (Text × LogValue)) (a : ℕ) (heap : Heap)
      (m d : Made) (meta : Option RpcMeta) (s : State)
      → nth a heap ≡ some (record { initializer = [] })
      → new_factory
          (record { logger = some (logger h l); logger_options = some a } ∷ [])
          (build conversion bs a heap)
        ≡ ok m
      → new_factory [] heap ≡ ok d
      → IsFresh s
      → IsMeta meta (get_value type_rpc_meta s.ctx)
      → (run
            (require_type stack m.factory.providers call (suc fuel))
            call
            (require_logger conversion m.heap frame)
            s
          ≡ (returned (logger h (l ++ attributes frame meta bs)), equipped (logger h l) a s))
        × (run
              (require_type stack d.factory.providers call (suc fuel))
              call
              (require_logger conversion d.heap frame)
              s
            ≡ (returned no_op_logger, equipped no_op_logger (length heap) s))
  unfolding new_factory with_defaults
  new_factory-logs bs h l a heap m d meta s empty given default fresh known =
      let o = register_own-Offers (logger h l) a (build conversion bs a heap) m given in
      let o' =
        register_own-Offers no_op_logger (length heap) (heap ++ record { initializer = [] } ∷ []) d
          default in
      (
        ap
              (λ k.
                run (require_type stack m.factory.providers call (suc fuel)) call
                  (require_logger conversion k frame) s)
              o.kept
            ∙ offered bs h l a heap m meta s empty o fresh known,
        ap
              (λ k.
                run (require_type stack d.factory.providers call (suc fuel)) call
                  (require_logger conversion k frame) s)
              o'.kept
            ∙ offered [] none [] (length heap) (heap ++ record { initializer = [] } ∷ []) d meta s
                (nth-append heap (record { initializer = [] })) o' fresh known,
      )
