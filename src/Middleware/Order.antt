-- ===== src/Middleware/Order.antt =====
-- The order in which a stack of middlewares handles a message.
use mathlib.Core.List.{reverse-append}
use mathlib.Core.Path.{fun_ext}
use vumi.Base.{String, ◌≡◌, refl, sym, ap, ◌∙◌, Option, none, List, [], ◌∷◌, ◌++◌, reverse}
use vumi.Base.Exec.{Exec, ok, err, middleware_error, ◌>>=◌, bind_assoc}
use vumi.Middleware.{
  Direction, consume, publish, Middleware, handle_all, apply_consume, apply_publish, never_none,
}

module _ {S M : Type 0} where
  -- A message goes through one list of middlewares and then through the next; where the first
  -- raises, the second never sees it.
  pub handle_all-append :
      (ms ns : List (Middleware S M)) (dir : Direction) (name : String) (message : M)
      (connector : String) (s : S)
      → handle_all (ms ++ ns) dir name message connector s
        ≡ (handle_all ms dir name message connector >>= (λ m. handle_all ns dir name m connector)) s
  unfolding handle_all
  handle_all-append [] ns dir name message connector s = refl
  handle_all-append (m ∷ ms) ns dir name message connector s =
      let rest = λ (list : List (Middleware S M)) (x : M). handle_all list dir name x connector in
      sym (
        bind_assoc (m.handle dir name message connector) (λ result. never_none result >>= rest ms)
          (rest ns) s
        ∙ ap (λ (f : Option M → Exec S M). (m.handle dir name message connector >>= f) s)
            (fun_ext (λ result. fun_ext (λ t.
              bind_assoc (never_none result) (rest ms) (rest ns) t
              ∙ ap (λ (f : M → Exec S M). (never_none result >>= f) t)
                  (fun_ext
                    (λ x. fun_ext (λ u. sym (handle_all-append ms ns dir name x connector u))))))))

  -- A stack that was put together of two handles a consumed message by the first part and then by
  -- the second, and a published message by the second part and then by the first. A part that
  -- raises ends the handling: the other part never sees the message.
  pub apply-append :
      (ms ns : List (Middleware S M)) (name : String) (message : M) (connector : String) (s : S)
      → (apply_consume (ms ++ ns) name message connector s
          ≡ (apply_consume ms name message connector >>= (λ m. apply_consume ns name m connector))
              s)
        × (apply_publish (ms ++ ns) name message connector s
            ≡ (apply_publish ns name message connector >>= (λ m. apply_publish ms name m connector))
                s)
  unfolding apply_consume apply_publish
  apply-append ms ns name message connector s = (
    handle_all-append ms ns consume name message connector s,
    rw (reverse-append ms ns)
        (handle_all-append (reverse ns) (reverse ms) publish name message connector s),
  )

  -- A middleware that gives no message ends the handling with `MiddlewareError`, in the state that
  -- it left, and the middlewares after it never see the message.
  pub apply_consume-none :
      (ms ns : List (Middleware S M)) (m : Middleware S M) (name : String) (message x : M)
      (connector : String) (s t u : S)
      → apply_consume ms name message connector s ≡ (ok x, t)
      → m.handle consume name x connector t ≡ (ok none, u)
      → apply_consume (ms ++ m ∷ ns) name message connector s ≡ (err middleware_error, u)
  unfolding apply_consume handle_all
  apply_consume-none ms ns m name message x connector s t u before here =
      handle_all-append ms (m ∷ ns) consume name message connector s ∙ rw before (rw here refl)
