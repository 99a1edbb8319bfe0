-- ===== src/Context/Run/Sequence.antt =====
-- The run of two programs one after the other.
use jonson.Prelude.{◌∷◌, ◌++◌, ◌≡◌, refl, length, []}
use jonson.Types.{GoType}
use jonson.Value.{Value}
use jonson.Validate.{Result, ok, panicked}
use jonson.Context.{Context, invalidate, new_context}
use jonson.Context
use jonson.Context.Prog.{
  MethodCall, Outcome, returned, blocked, out_of_fuel, Prog, done, panic, block, require, attempt,
  items, in_fork, new_public, load_public, save_public, call_method, ◌>>=◌,
}
use jonson.Context.Run.{
  State, Exec, after, settle, leave, with_ctx, store_each, run, set_ctx, nth, update,
}

after-after :
    (e : Exec) (f g h : Value → State → Exec)
    → ((v : Value) (s : State) → h v s ≡ after (f v s) g)
    → after e h ≡ after (after e f) g
after-after (returned v, s) f g h k = k v s
after-after (Outcome.panicked p, s) f g h k = refl
after-after (blocked, s) f g h k = refl
after-after (out_of_fuel, s) f g h k = refl

settle-after :
    (e : Exec) (f h : Outcome → State → Exec) (g : Value → State → Exec)
    → ((o : Outcome) (s : State) → h o s ≡ after (f o s) g)
    → settle e h ≡ after (settle e f) g
settle-after (returned v, s) f h g k = k (returned v) s
settle-after (Outcome.panicked p, s) f h g k = k (Outcome.panicked p) s
settle-after (blocked, s) f h g k = refl
settle-after (out_of_fuel, s) f h g k = refl

with_ctx-after :
    (r : Result Context) (s : State) (f h : Context → Exec) (g : Value → State → Exec)
    → ((c : Context) → h c ≡ after (f c) g)
    → with_ctx r s h ≡ after (with_ctx r s f) g
with_ctx-after (ok c) s f h g k = k c
with_ctx-after (panicked p) s f h g k = refl

module _ (req : GoType → State → Exec) (call : MethodCall → State → Exec) where
  -- The second program starts in the state that the first one leaves, if that one returns.
  pub run->>= :
      (p : Prog) (f : Value → Prog) (s : State)
      → run req call (p >>= f) s ≡ after (run req call p s) (λ v s'. run req call (f v) s')
  unfolding run ◌>>=◌
  run->>= (done v) f s = refl
  run->>= (panic p) f s = refl
  run->>= block f s = refl
  run->>= (require t k) f s =
      after-after (req t s) (λ v s'. run req call (k v) s') (λ v s'. run req call (f v) s')
        (λ v s'. run req call (k v >>= f) s') (λ v s'. run->>= (k v) f s')
  run->>= (Prog.get_value t k) f s = run->>= (k (Context.get_value t s.ctx)) f s
  run->>= (Prog.store_value t v p) f s =
      with_ctx-after (Context.store_value t v s.ctx) s (λ c. run req call p (set_ctx s c))
        (λ c. run req call (p >>= f) (set_ctx s c)) (λ v s'. run req call (f v) s')
        (λ c. run->>= p f (set_ctx s c))
  run->>= (Prog.invalidate ts p) f s = run->>= p f (set_ctx s (invalidate ts s.ctx))
  run->>= (attempt p h) f s =
      settle-after (run req call p s) (λ o s'. run req call (h o) s')
        (λ o s'. run req call (h o >>= f) s') (λ v s'. run req call (f v) s')
        (λ o s'. run->>= (h o) f s')
  run->>= (items k) f s = run->>= (k s.ctx.values) f s
  run->>= (in_fork vs p k) f s =
      with_ctx-after (store_each vs new_context) s
        (λ c. after (leave s.ctx (run req call p (set_ctx s c))) (λ v s'. run req call (k v) s'))
        (λ c.
          after (leave s.ctx (run req call p (set_ctx s c))) (λ v s'. run req call (k v >>= f) s'))
        (λ v s'. run req call (f v) s')
        (λ c.
          after-after (leave s.ctx (run req call p (set_ctx s c))) (λ v s'. run req call (k v) s')
            (λ v s'. run req call (f v) s') (λ v s'. run req call (k v >>= f) s')
            (λ v s'. run->>= (k v) f s'))
  run->>= (new_public u k) f s =
      run->>= (k (length s.publics)) f (record s { publics = s.publics ++ u ∷ [] })
  run->>= (load_public a k) f s = run->>= (k (nth a s.publics)) f s
  run->>= (save_public a u p) f s = run->>= p f (record s { publics = update a u s.publics })
  run->>= (call_method m k) f s =
      after-after (call m s) (λ v s'. run req call (k v) s') (λ v s'. run req call (f v) s')
        (λ v s'. run req call (k v >>= f) s') (λ v s'. run->>= (k v) f s')
