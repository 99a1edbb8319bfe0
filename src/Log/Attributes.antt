-- ===== src/Log/Attributes.antt =====
-- The attributes of the logger that `RequireLogger` returns (log.go).
use jonson.Prelude.{
  ℕ, zero, suc, Option, none, some, List, [], ◌∷◌, ◌++◌, map, ◌≡◌, refl, sym, ap, ◌∙◌, append_assoc,
  append-nil,
}
use jonson.Text.{Text, codes}
use jonson.Types.{GoType, type_rpc_meta, type_logger, type_logger_options}
use jonson.Value.{Value, LogValue, RpcMeta, rpc_meta, logger, logger_options}
use jonson.Errors.{GoError, PanicValue}
use jonson.Clock.{last_or}
use jonson.Context.{Fallible, value, failure, get_value}
use jonson.Context.Prog.{MethodCall, returned}
use jonson.Context.Run.{State, Exec, after, run, nth, update}
use jonson.Context.Run.Sequence.{run->>=}
use jonson.Log.{
  Initializer, LoggerOptions, Heap, append_initializer, function_value, meta_value,
  add_caller_function, add_caller_rpc_meta, with_caller_function, with_caller_rpc_meta,
  run_initializers, initialized, with_options, with_logger, require_logger, add_meta,
}

-- A call of a method of `LoggerOptions`, with its keys.
pub data Built : Type 0 where
  by_function by_rpc_meta : List Text → Built

-- The attributes that the calls add for a frame, under the metadata of a call, if there is any.
abbrev pub attributes : Text → Option RpcMeta → List Built → List (Text × LogValue)
attributes frame meta [] = []
attributes frame meta (by_function keys ∷ bs) =
    (last_or (codes "function") keys, function_value frame) ∷ attributes frame meta bs
attributes frame none (by_rpc_meta keys ∷ bs) = attributes frame none bs
attributes frame (some m) (by_rpc_meta keys ∷ bs) =
    (last_or (codes "rpcMeta") keys, meta_value m) ∷ attributes frame (some m) bs

attributes-cons :
    (frame : Text) (meta : Option RpcMeta) (b : Built) (bs : List Built)
    → attributes frame meta (b ∷ []) ++ attributes frame meta bs ≡ attributes frame meta (b ∷ bs)
attributes-cons frame meta (by_function keys) bs = refl
attributes-cons frame none (by_rpc_meta keys) bs = refl
attributes-cons frame (some m) (by_rpc_meta keys) bs = refl

-- What `GetValue` answers where there is metadata, and where there is none.
abbrev pub IsMeta : Option RpcMeta → Fallible Value → Type 0
IsMeta none r = (e : GoError) × (r ≡ failure e)
IsMeta (some m) r = r ≡ value (rpc_meta m)

nth-update :
    (a : ℕ) (x y : LoggerOptions) (xs : Heap) → nth a xs ≡ some x → nth a (update a y xs) ≡ some y
unfolding nth update
nth-update a x y [] h = absurd (cc h)
nth-update zero x y (z ∷ zs) h = refl
nth-update (suc a) x y (z ∷ zs) h = nth-update a x y zs h

append_initializer-nth :
    (f : Initializer) (a : ℕ) (fs : List Initializer) (heap : Heap)
    → nth a heap ≡ some (record { initializer = fs })
    → nth a (append_initializer f a heap) ≡ some (record { initializer = fs ++ f ∷ [] })
unfolding append_initializer
append_initializer-nth f a fs heap h =
    rw (append_initializer, h)
      (nth-update a (record { initializer = fs }) (record { initializer = fs ++ f ∷ [] }) heap h)

module _ (conversion : GoType → Value → PanicValue) where
  abbrev initializer_of : Built → Initializer
  initializer_of (by_function keys) =
      add_caller_function conversion (last_or (codes "function") keys)
  initializer_of (by_rpc_meta keys) =
      add_caller_rpc_meta conversion (last_or (codes "rpcMeta") keys)

  abbrev pub build_one : Built → ℕ → Heap → Heap
  build_one (by_function keys) a heap = with_caller_function conversion keys a heap
  build_one (by_rpc_meta keys) a heap = with_caller_rpc_meta conversion keys a heap

  -- The calls, one after the other, on the options at an address.
  abbrev pub build : List Built → ℕ → Heap → Heap
  build [] a heap = heap
  build (b ∷ bs) a heap = build bs a (build_one b a heap)

  build_one-nth :
      (b : Built) (a : ℕ) (fs : List Initializer) (heap : Heap)
      → nth a heap ≡ some (record { initializer = fs })
      → nth a (build_one b a heap) ≡ some (record { initializer = fs ++ initializer_of b ∷ [] })
  unfolding with_caller_function with_caller_rpc_meta
  build_one-nth (by_function keys) a fs heap h = append_initializer-nth _ a fs heap h
  build_one-nth (by_rpc_meta keys) a fs heap h = append_initializer-nth _ a fs heap h

  build-nth :
      (bs : List Built) (a : ℕ) (fs : List Initializer) (heap : Heap)
      → nth a heap ≡ some (record { initializer = fs })
      → nth a (build bs a heap) ≡ some (record { initializer = fs ++ map initializer_of bs })
  build-nth [] a fs heap h = h ∙ ap (λ l. some (record { initializer = l })) (sym (append-nil fs))
  build-nth (b ∷ bs) a fs heap h =
      build-nth bs a (fs ++ initializer_of b ∷ []) (build_one b a heap)
        (build_one-nth b a fs heap h)
      ∙ ap (λ l. some (record { initializer = l }))
          (append_assoc fs (initializer_of b ∷ []) (map initializer_of bs))

  module _ (reqs : GoType → State → Exec) (call : MethodCall → State → Exec) (frame : Text) where
    initializer-run :
        (b : Built) (h : Option ℕ) (l : List (Text × LogValue)) (meta : Option RpcMeta) (s : State)
        → IsMeta meta (get_value type_rpc_meta s.ctx)
        → run reqs call (initializer_of b frame (logger h l)) s
          ≡ (returned (logger h (l ++ attributes frame meta (b ∷ []))), s)
    unfolding run add_caller_function add_caller_rpc_meta
    initializer-run (by_function keys) h l meta s m = refl
    initializer-run (by_rpc_meta keys) h l none s (e, m) =
        ap
          (λ r.
            run reqs call (add_meta conversion (last_or (codes "rpcMeta") keys) (logger h l) r) s)
          m
        ∙ ap (λ k. (returned (logger h k), s)) (sym (append-nil l))
    initializer-run (by_rpc_meta keys) h l (some x) s m =
        ap
          (λ r.
            run reqs call (add_meta conversion (last_or (codes "rpcMeta") keys) (logger h l) r) s)
          m

    run_initializers-run :
        (bs : List Built) (h : Option ℕ) (l : List (Text × LogValue)) (meta : Option RpcMeta)
        (s : State)
        → IsMeta meta (get_value type_rpc_meta s.ctx)
        → run reqs call (run_initializers conversion frame (map initializer_of bs) (logger h l)) s
          ≡ (returned (logger h (l ++ attributes frame meta bs)), s)
    unfolding run run_initializers
    run_initializers-run [] h l meta s m = ap (λ k. (returned (logger h k), s)) (sym (append-nil l))
    run_initializers-run (b ∷ bs) h l meta s m =
        run->>= reqs call (initializer_of b frame (logger h l))
          (run_initializers conversion frame (map initializer_of bs)) s
        ∙ ap
            (λ e. after e (λ v s'.
              run reqs call (run_initializers conversion frame (map initializer_of bs) v) s'))
            (initializer-run b h l meta s m)
        ∙ run_initializers-run bs h (l ++ attributes frame meta (b ∷ [])) meta s m
        ∙ ap (λ k. (returned (logger h k), s))
            (append_assoc l (attributes frame meta (b ∷ [])) (attributes frame meta bs)
              ∙ ap (λ k. l ++ k) (attributes-cons frame meta b bs))

    -- `RequireLogger`, with options that were built by calls of `WithCallerFunction` and
    -- `WithCallerRpcMeta` on empty ones, returns the logger that `Require` returns, with an attribute
    -- for each call, in the order of the calls: the last of the given keys, or the default one, with
    -- the names of the caller, and with the metadata of the call, which is left out where the context
    -- has none.
    pub require_logger-attributes :
        (bs : List Built) (a : ℕ) (heap : Heap) (h : Option ℕ) (l : List (Text × LogValue))
        (meta : Option RpcMeta) (s s1 s2 : State)
        → nth a heap ≡ some (record { initializer = [] })
        → reqs type_logger s ≡ (returned (logger h l), s1)
        → reqs type_logger_options s1 ≡ (returned (logger_options a), s2)
        → IsMeta meta (get_value type_rpc_meta s2.ctx)
        → run reqs call (require_logger conversion (build bs a heap) frame) s
          ≡ (returned (logger h (l ++ attributes frame meta bs)), s2)
    unfolding run require_logger
    require_logger-attributes bs a heap h l meta s s1 s2 empty first second m =
        ap
          (λ e. after e (λ v r. run reqs call (with_logger conversion (build bs a heap) frame v) r))
          first
        ∙ ap
            (λ e. after e (λ v r.
              run reqs call (with_options conversion (build bs a heap) frame (logger h l) v) r))
            second
        ∙ (rw (initialized, build-nth bs a [] heap empty) (run_initializers-run bs h l meta s2 m))
