-- ===== src/Connector/Handlers.antt =====
-- Which handler a message gets, and what becomes of one that its handler ignores.
use vumi.Base.{
  is_some, String, ◌≡◌, refl, sym, ap, ◌∙◌, true, false, Bool, Option, none, some, [], str_eq,
  eq_refl, if◌then◌else◌,
}
use vumi.Base.Dict.{
  set_default-present, Dict, lookup, lookup_or, insert, set_default, lookup-insert,
}
use vumi.Base.Exec.{Exec, Result, ok, ◌>>=◌, lift}
use vumi.Message.{Payload}
use vumi.Message.Methods.{check_routing_endpoint, get_routing_endpoint}
use vumi.Middleware.{apply_consume}
use vumi.Connector.{
  Handler, Connector, set_endpoint_handler, set_default_endpoint_handler, or_default, pick, ran,
  handled, handler_for, consume_message, trap,
}

module _ {S : Type 0} (mtype : String) (h : Handler S) (c : Connector S) where
  -- A handler that was set for an endpoint, or for the default endpoint where none was named, is
  -- the one that a message of its type at that endpoint gets. At another endpoint of the type the
  -- handler is the one from before, if the type had handlers; and those of other types stay.
  pub handler_for-set_endpoint_handler :
      (e : Option String) (handlers : Dict (Handler S))
      → lookup mtype c.endpoint_handlers ≡ some handlers
      → (endpoint : String)
      → (handler_for mtype endpoint (set_endpoint_handler mtype h e c) ≡ (
          if str_eq (check_routing_endpoint e) endpoint
          then ok (some h)
          else handler_for mtype endpoint c))
        × ((other : String)
            → str_eq mtype other ≡ false
            → handler_for other endpoint (set_endpoint_handler mtype h e c)
              ≡ handler_for other endpoint c)
  unfolding set_endpoint_handler handler_for
  handler_for-set_endpoint_handler e handlers is endpoint =
      let name = check_routing_endpoint e in
      let d = lookup mtype c.default_handlers in
      let all = insert name h (lookup_or mtype c.endpoint_handlers []) in
      let same : all ≡ insert name h handlers =
        ap (λ (o : Option (Dict (Handler S))). insert name h (elim o [ none ↦ [] | some x ↦ x ]))
          is in
      let there : lookup mtype (insert mtype all c.endpoint_handlers)
          ≡ some (insert name h handlers) =
        lookup-insert mtype mtype all c.endpoint_handlers
        ∙ ap (λ b. if b then some all else lookup mtype c.endpoint_handlers) (eq_refl mtype)
        ∙ ap some same in
      (
        ap (λ o. pick o endpoint d) there
            ∙ ap (λ o. ok (or_default o d)) (lookup-insert name endpoint h handlers)
            ∙ chosen (str_eq name endpoint) (lookup endpoint handlers)
            ∙ ap (λ o. if str_eq name endpoint then ok (some h) else pick o endpoint d) (sym is),
        λ other ne.
            ap (λ o. pick o endpoint (lookup other c.default_handlers))
              (lookup-insert mtype other all c.endpoint_handlers
                ∙ ap (λ b. if b then some all else lookup other c.endpoint_handlers) ne),
      )
    where
      chosen :
          (b : Bool) (old : Option (Handler S))
          → ok (or_default (if b then some h else old) (lookup mtype c.default_handlers))
            ≡ (if b then ok (some h) else ok (or_default old (lookup mtype c.default_handlers)))
      chosen true old = refl
      chosen false old = refl

module _ {S : Type 0} (c : Connector S) (ignore : Payload → String → Exec S (Unit {0}))
    (mtype endpoint : String) (msg msg' : Payload) (h : Handler S) (s : S) where
  -- A message that names an endpoint with a handler goes through the middlewares and then to that
  -- handler. What the two do is what consuming it does, but for an `IgnoreMessage`, whose reason
  -- goes to `ignore` with the message as it was before the middlewares. Any other error is raised.
  pub consume_message_lem :
      get_routing_endpoint msg ≡ (ok endpoint, msg')
      → handler_for mtype endpoint c ≡ ok (some h)
      → consume_message c ignore mtype msg s
        ≡ trap (ignore msg') ((apply_consume c.middlewares mtype msg' c.name >>= h) s)
  unfolding consume_message
  consume_message_lem e is =
      ap
        (λ (p : Result String × Payload).
          (ran p >>= (λ (named : String × Payload).
              lift (handler_for mtype named.0 c) >>= (λ (found : Option (Handler S)).
                handled found (apply_consume c.middlewares mtype named.1 c.name) (ignore named.1))))
            s)
        e
      ∙ ap
          (λ (f : Result (Option (Handler S))).
            (lift f >>= (λ (found : Option (Handler S)).
                handled found (apply_consume c.middlewares mtype msg' c.name) (ignore msg')))
              s)
          is

-- A type of message without a handler for the endpoint goes to its default handler.
pub handler_for-set_default_endpoint_handler :
    {S : Type 0} (mtype endpoint : String) (h : Handler S) (c : Connector S)
    (handlers : Dict (Handler S))
    → lookup mtype c.endpoint_handlers ≡ some handlers
    → lookup endpoint handlers ≡ none
    → handler_for mtype endpoint (set_default_endpoint_handler mtype h c) ≡ ok (some h)
unfolding set_default_endpoint_handler handler_for set_default
handler_for-set_default_endpoint_handler mtype endpoint h c handlers is absent =
    let kept : lookup mtype (set_default mtype [] c.endpoint_handlers) ≡ some handlers =
      ap (λ (d : Dict (Dict (Handler _))). lookup mtype d)
        (set_default-present mtype [] c.endpoint_handlers (ap is_some is))
      ∙ is in
    ap (λ o. pick o endpoint (lookup mtype (insert mtype h c.default_handlers))) kept
    ∙ ap (λ o. ok (or_default o (lookup mtype (insert mtype h c.default_handlers)))) absent
    ∙ ap ok (
        lookup-insert mtype mtype h c.default_handlers
        ∙ ap (λ b. if b then some h else lookup mtype c.default_handlers) (eq_refl mtype))
