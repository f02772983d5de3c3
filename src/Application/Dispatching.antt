-- ===== src/Application/Dispatching.antt =====
-- What an application worker consumes and publishes by its connector.
use vumi.Base.{String, ◌≡◌, refl, ap, ◌∙◌, Bool, false, Option, none, some, List}
use vumi.Base.Int.{ℤ}
use vumi.Base.Dict.{Dict, lookup, lookup-insert}
use vumi.Base.PySet.{member}
use vumi.Base.Exec.{Exec, Result, ok, err, invalid_endpoint, ◌>>=◌}
use vumi.Message.{Payload, Value}
use vumi.Message.Methods.{get_routing_endpoint, has_any, protected_fields}
use vumi.Message.Replies.{IsAddressed, IsReply, IsReply-routed, reserved, reply_lem}
use vumi.Message.Routing.{routed, set_routing_endpoint-eq}
use vumi.Middleware.{apply_consume, apply_publish}
use vumi.Connector.{
  Handler, Connector, publish_message, consume_message, set_endpoint_handler, trap, ran, run,
}
use vumi.Connector.Handlers.{handler_for-set_endpoint_handler, consume_message_lem}
use vumi.Application.{
  Application, dispatch_event, dispatch_user_message, setup_connectors, reply_to, send_to,
  check_endpoint, or_default_endpoint,
}

module _ {S : Type 0} (connector : Connector S) (now : ℤ) (new_id : String) (content : Value)
    (continue_session : Bool) (kw p : Payload) (from to group id name type meta helper : Value)
    (h : IsAddressed p from to group id name type meta helper) where
  reply_to-publish :
      (endpoint : String) (s : S)
      → has_any protected_fields kw ≡ false
      → has_any reserved kw ≡ false
      → get_routing_endpoint p ≡ (ok endpoint, p)
      → (out : Payload) × IsReply now new_id content continue_session kw p from to group id name
          type meta helper h endpoint out
        × (reply_to connector now new_id p content continue_session kw s
            ≡ publish_message connector "outbound" out (some endpoint) s)
  unfolding reply_to
  reply_to-publish endpoint s free own e =
      let (out, done, is) =
        reply_lem now new_id content continue_session kw p from to group id name type meta helper h
          free own endpoint p e in
      (
        out,
        is,
        ap
              (λ (r : Result Payload × Payload).
                (ran r >>= (λ (replied : Payload × Payload).
                    run get_routing_endpoint replied.1 >>= (λ (named : String × Payload).
                      publish_message connector "outbound" replied.0 (some named.0))))
                  s)
              done
            ∙ ap
                (λ (r : Result String × Payload).
                  (ran r >>= (λ (named : String × Payload).
                      publish_message connector "outbound" out (some named.0)))
                    s)
                e,
      )

  -- Replying to a message with its fields and its routing metadata, where the connector has an
  -- outbound publisher and its middlewares let every message pass, as `pass` says, hands exactly one
  -- message to that publisher, after the middlewares: what `pass` makes of a reply to the message,
  -- at the endpoint that the message came in by, with the content and the session event that were
  -- asked for. It ends as the publisher ends. The keyword arguments are such as `reply` takes.
  pub reply_to_lem :
      (endpoint : String) (s : S) (publisher : Handler S) (pass : Payload → Payload × S)
      → has_any protected_fields kw ≡ false
      → has_any reserved kw ≡ false
      → get_routing_endpoint p ≡ (ok endpoint, p)
      → lookup "outbound" connector.publishers ≡ some publisher
      → ((m : Payload)
          → apply_publish connector.middlewares "outbound" m connector.name s
            ≡ (ok (pass m).0, (pass m).1))
      → (out : Payload) × IsReply now new_id content continue_session kw p from to group id name
          type meta helper h endpoint out
        × (reply_to connector now new_id p content continue_session kw s
            ≡ publisher (pass out).0 (pass out).1)
  unfolding publish_message
  reply_to_lem endpoint s publisher pass free own e there passes =
      let (out, is, done) = reply_to-publish endpoint s free own e in
      let (d, routing) = is.routing in
      let again = routed out d (some endpoint) in
      (
        again,
        IsReply-routed now new_id content continue_session kw p from to group id name type meta
            helper h endpoint out d is,
        done
            ∙ rw (set_routing_endpoint-eq out d (some endpoint) routing)
                (rw there (rw (passes again) refl)),
      )

module _ {S : Type 0} (connector : Connector S) (now : ℤ) (id : String) where
  -- A message for an endpoint, or for the default one where none is named, that is not among the
  -- allowed ones is refused with `InvalidEndpoint`, and the state does not change.
  pub send_to-refused :
      (allowed : List String) (options : Dict Payload) (to_addr content : Value)
      (endpoint : Option String) (kw : Payload) (s : S)
      → member (or_default_endpoint endpoint) allowed ≡ false
      → send_to connector now id (some allowed) options to_addr content endpoint kw s
        ≡ (err invalid_endpoint, s)
  unfolding send_to check_endpoint
  send_to-refused allowed options to_addr content endpoint kw s h = rw h refl

module _ {S : Type 0} (app : Application S) (c : Connector S) (inbound events : Dict (Handler S))
    (ignore : Payload → String → Exec S (Unit {0})) (msg msg' : Payload) (s : S) where
  -- After `setup_connectors` on a connector that consumes messages and events, a message at the
  -- default endpoint goes through the middlewares to `dispatch_user_message`, and an event to
  -- `dispatch_event`; a failure by `IgnoreMessage` goes to `ignore`.
  pub consume_message-setup_connectors :
      lookup "inbound" c.endpoint_handlers ≡ some inbound
      → lookup "event" c.endpoint_handlers ≡ some events
      → get_routing_endpoint msg ≡ (ok "default", msg')
      → (consume_message (setup_connectors app c) ignore "inbound" msg s
          ≡ trap
              (ignore msg')
              ((apply_consume c.middlewares "inbound" msg' c.name >>= dispatch_user_message app) s))
        × (consume_message (setup_connectors app c) ignore "event" msg s
            ≡ trap
                (ignore msg')
                ((apply_consume c.middlewares "event" msg' c.name >>= dispatch_event app) s))
  unfolding setup_connectors
  consume_message-setup_connectors i e at =
      let c1 = set_endpoint_handler "inbound" (dispatch_user_message app) none c in
      let c2 = set_endpoint_handler "event" (dispatch_event app) none c1 in
      let ev1 : lookup "event" c1.endpoint_handlers ≡ some events =
        unfold set_endpoint_handler in
        (lookup-insert "inbound" "event" _ c.endpoint_handlers ∙ e) in
      let set1 =
        handler_for-set_endpoint_handler "inbound" (dispatch_user_message app) c none inbound i
          "default" in
      let set2 =
        handler_for-set_endpoint_handler "event" (dispatch_event app) c1 none events ev1
          "default" in
      (
        consume_message_lem c2 ignore "inbound" "default" msg msg' (dispatch_user_message app) s at
            (set2.1 "inbound" refl ∙ set1.0),
        consume_message_lem c2 ignore "event" "default" msg msg' (dispatch_event app) s at set2.0,
      )
