-- ===== src/Connector.antt =====
-- vumi/connectors.py: the handlers of `BaseConnector`, and how a message passes from a consumer to
-- its handler and from the worker to a publisher. A handler and a publisher are functions of the
-- message on the state `S` of the worker. The AMQP channels behind them are not modelled.
pub mod Handlers
mod Tests
use vumi.Base.{ℕ, String, Option, none, some, List, [], ◌∷◌, if◌then◌else◌}
use vumi.Base.Int.{ℤ}
use vumi.Base.Dict.{Dict, lookup, lookup_or, insert, set_default}
use vumi.Base.Exec.{
  Exec, Result, ok, err, Error, ignore_message, key_error, type_error, pure, raise, skip, lift,
  or_raise, ◌>>=◌, ◌>>◌,
}
use vumi.Message.{Payload, Value, text, make, event}
use vumi.Message.Methods.{get_routing_endpoint, set_routing_endpoint, check_routing_endpoint}
use vumi.Middleware.{Middleware, apply_consume, apply_publish}

abbrev pub Handler : Type 0 → Type 0
Handler S = Payload → Exec S (Unit {0})

pub record Connector (S : Type 0) : Type 0 where
  pub name : String
  pub endpoint_handlers : Dict (Dict (Handler S))
  pub default_handlers : Dict (Handler S)
  pub publishers : Dict (Handler S)
  pub middlewares : List (Middleware S Payload)

module _ {S : Type 0} where
  -- `_set_endpoint_handler`
  unfoldable pub set_endpoint_handler :
      String → Handler S → Option String → Connector S → Connector S
  set_endpoint_handler mtype handler endpoint_name c = record c {
    endpoint_handlers =
        insert mtype
          (insert (check_routing_endpoint endpoint_name) handler
            (lookup_or mtype c.endpoint_handlers []))
          c.endpoint_handlers;
  }

  -- `_set_default_endpoint_handler`
  unfoldable pub set_default_endpoint_handler : String → Handler S → Connector S → Connector S
  set_default_endpoint_handler mtype handler c = record c {
    endpoint_handlers = set_default mtype [] c.endpoint_handlers;
    default_handlers = insert mtype handler c.default_handlers;
  }

  -- What a handler does that a connector starts with: it logs a warning.
  abbrev pub no_handler : Handler S
  no_handler msg = skip

  -- A `ReceiveInboundConnector` after `setup`, with the publisher that the worker gives it.
  unfoldable pub receive_inbound : String → List (Middleware S Payload) → Handler S → Connector S
  unfolding set_default_endpoint_handler
  receive_inbound name middlewares outbound = set_default_endpoint_handler "event" no_handler (
      set_default_endpoint_handler "inbound" no_handler (record {
        name = name;
        endpoint_handlers = [];
        default_handlers = [];
        publishers = ("outbound", outbound) ∷ [];
        middlewares = middlewares;
      }))

  -- A `ReceiveOutboundConnector` after `setup`.
  unfoldable pub receive_outbound :
      String → List (Middleware S Payload) → Handler S → Handler S → Connector S
  unfolding set_default_endpoint_handler
  receive_outbound name middlewares inbound events =
      set_default_endpoint_handler "outbound" no_handler (record {
        name = name;
        endpoint_handlers = [];
        default_handlers = [];
        publishers = ("inbound", inbound) ∷ ("event", events) ∷ [];
        middlewares = middlewares;
      })

  abbrev pub or_default : Option (Handler S) → Option (Handler S) → Option (Handler S)
  or_default none d = d
  or_default (some h) d = some h

  abbrev pub pick :
      Option (Dict (Handler S)) → String → Option (Handler S) → Result (Option (Handler S))
  pick none endpoint_name d = err key_error
  pick (some handlers) endpoint_name d = ok (or_default (lookup endpoint_name handlers) d)

  -- The handler that `_consume_message` picks.
  unfoldable pub handler_for : String → String → Connector S → Result (Option (Handler S))
  handler_for mtype endpoint_name c =
      pick (lookup mtype c.endpoint_handlers) endpoint_name (lookup mtype c.default_handlers)

  -- `addErrback`: the state is the one that the failed call left.
  abbrev pub trap : (String → Exec S (Unit {0})) → Result (Unit {0}) × S → Result (Unit {0}) × S
  trap ignore (ok u, s) = (ok u, s)
  trap ignore (err (ignore_message reason), s) = ignore reason s
  trap ignore (err e, s) = (err e, s)

  abbrev pub caught : Exec S (Unit {0}) → (String → Exec S (Unit {0})) → Exec S (Unit {0})
  caught m ignore s = trap ignore (m s)

  abbrev pub ran : {A : Type 0} → Result A × Payload → Exec S (A × Payload)
  ran (ok a, msg) = pure (a, msg)
  ran (err e, msg) = raise e

  -- What an operation on the payload gives, and the payload that it leaves.
  abbrev pub run : {A : Type 0} → Exec Payload A → Payload → Exec S (A × Payload)
  run op msg = ran (op msg)

  abbrev pub route : Option String → Payload → Exec S (Unit {0} × Payload)
  route none msg = pure (tt, msg)
  route (some endpoint_name) msg = run (set_routing_endpoint (some endpoint_name)) msg

  -- A call whose deferred is lost, since the next line raises.
  abbrev pub lost : {A B : Type 0} → Exec S A → Error → Exec S B
  lost m e s = (err e, (m s).1)

  abbrev pub passed_to : Option (Handler S) → Error → Exec S Payload → Exec S (Unit {0})
  passed_to none e m = lost m e
  passed_to (some handler) e m = do out ← m; handler out

  -- `_publish_message`
  unfoldable pub publish_message :
      Connector S → String → Payload → Option String → Exec S (Unit {0})
  unfolding set_routing_endpoint apply_publish
  publish_message c mtype msg endpoint_name = do
    routed ← route endpoint_name msg
    passed_to (lookup mtype c.publishers) key_error
        (apply_publish c.middlewares mtype routed.1 c.name)

  -- Where there is no handler, adding it as a callback raises.
  abbrev pub handled :
      Option (Handler S) → Exec S Payload → (String → Exec S (Unit {0})) → Exec S (Unit {0})
  handled none m ignore = lost m type_error
  handled (some handler) m ignore = caught (do out ← m; handler out) ignore

  -- `_consume_message`, whose failure by `IgnoreMessage` goes to `ignore`.
  unfoldable pub consume_message :
      Connector S → (Payload → String → Exec S (Unit {0})) → String → Payload → Exec S (Unit {0})
  unfolding get_routing_endpoint handler_for apply_consume
  consume_message c ignore mtype msg = do
    named ← run get_routing_endpoint msg
    found ← lift (handler_for mtype named.0 c)
    handled found (apply_consume c.middlewares mtype named.1 c.name) (ignore named.1)

  -- `BaseConnector._ignore_message`
  abbrev pub ignore_inbound : Payload → String → Exec S (Unit {0})
  ignore_inbound msg reason = skip

  -- `ReceiveOutboundConnector._ignore_message`: the sender gets a `nack` with the reason.
  unfoldable pub ignore_outbound : Connector S → ℤ → String → Payload → String → Exec S (Unit {0})
  unfolding make publish_message
  ignore_outbound c now id msg reason = do
    message_id ← or_raise (lookup "message_id" msg) key_error
    nack ← lift (
        make event now id (
          ("user_message_id", message_id)
          ∷ ("nack_reason", text reason)
          ∷ ("event_type", text "nack")
          ∷ []))
    publish_message c "event" nack none
