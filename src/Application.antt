-- ===== src/Application.antt =====
-- vumi/application/base.py: `ApplicationWorker`. What an application does with a message or an event
-- is a record of handlers on its state `S`, as the methods that a subclass overrides.
pub mod Dispatching
mod Tests
use vumi.Base.{
  String, Bool, true, false, not, Option, none, some, List, [], ◌∷◌, if◌then◌else◌, str_eq,
}
use vumi.Base.Int.{ℤ}
use vumi.Base.Dict.{Dict, lookup, lookup_or, update}
use vumi.Base.PySet.{member}
use vumi.Base.Exec.{
  Exec, Result, ok, err, invalid_endpoint, key_error, pure, raise, skip, lift, or_raise, ◌>>=◌,
  ◌>>◌,
}
use vumi.Message.{Payload, Value, null, text, dict, sequence}
use vumi.Message.Methods.{reply, reply_group, get_routing_endpoint, set_routing_endpoint}
use vumi.Message.Methods as Methods
use vumi.Connector.{Handler, Connector, run, publish_message, set_endpoint_handler}

pub record Application (S : Type 0) : Type 0 where
  pub consume_ack : Handler S
  pub consume_nack : Handler S
  pub consume_delivery_report : Handler S
  pub consume_unknown_event : Handler S
  pub consume_user_message : Handler S
  pub new_session : Handler S
  pub close_session : Handler S

-- An application that overrides `consume_user_message` alone: a new session is a user message, and
-- the other methods do nothing.
abbrev pub default_application : {S : Type 0} → Handler S → Application S
default_application consume = record {
  consume_ack = λ event. skip;
  consume_nack = λ event. skip;
  consume_delivery_report = λ event. skip;
  consume_unknown_event = λ event. skip;
  consume_user_message = consume;
  new_session = consume;
  close_session = λ message. skip;
}

module _ {S : Type 0} (app : Application S) where
  -- `_event_handlers.get(event_type, consume_unknown_event)`
  abbrev pub event_handler : Option Value → Handler S
  event_handler (some (text t)) =
      if str_eq t "ack"
      then app.consume_ack
      else if str_eq t "nack"
      then app.consume_nack
      else if str_eq t "delivery_report"
      then app.consume_delivery_report
      else app.consume_unknown_event
  event_handler _ = app.consume_unknown_event

  unfoldable pub dispatch_event : Handler S
  dispatch_event event = event_handler (lookup "event_type" event) event

  -- `_session_handlers.get(session_event, consume_user_message)`
  abbrev pub session_handler : Option Value → Handler S
  session_handler (some (text t)) =
      if str_eq t "new"
      then app.new_session
      else if str_eq t "close"
      then app.close_session
      else app.consume_user_message
  session_handler _ = app.consume_user_message

  unfoldable pub dispatch_user_message : Handler S
  dispatch_user_message message = session_handler (lookup "session_event" message) message

  -- `setup_connectors`
  unfoldable pub setup_connectors : Connector S → Connector S
  unfolding dispatch_user_message dispatch_event set_endpoint_handler
  setup_connectors c =
      set_endpoint_handler "event" dispatch_event none
        (set_endpoint_handler "inbound" dispatch_user_message none c)

-- An endpoint that is none is the default one.
abbrev pub or_default_endpoint : Option String → String
or_default_endpoint none = "default"
or_default_endpoint (some e) = e

unfoldable pub check_endpoint :
    {S : Type 0} → Option (List String) → Option String → Exec S (Unit {0})
check_endpoint none endpoint = skip
check_endpoint (some allowed_endpoints) endpoint =
    if member (or_default_endpoint endpoint) allowed_endpoints then skip else raise invalid_endpoint

module _ {S : Type 0} (connector : Connector S) (now : ℤ) (id : String) where
  -- `_publish_message`
  abbrev pub publish_outbound : Payload → Option String → Exec S (Unit {0})
  publish_outbound message endpoint_name =
      publish_message connector "outbound" message endpoint_name

  unfoldable pub reply_to : Payload → Value → Bool → Payload → Exec S (Unit {0})
  unfolding reply get_routing_endpoint publish_message
  reply_to original_message content continue_session kws = do
    replied ← run (reply now id content continue_session kws) original_message
    named ← run get_routing_endpoint replied.1
    publish_outbound replied.0 (some named.0)

  unfoldable pub reply_to_group : Payload → Value → Bool → Payload → Exec S (Unit {0})
  unfolding reply_group get_routing_endpoint publish_message
  reply_to_group original_message content continue_session kws = do
    replied ← run (reply_group now id content continue_session kws) original_message
    named ← run get_routing_endpoint replied.1
    publish_outbound replied.0 (some named.0)

  -- `options` is the `send_to` of the static configuration.
  unfoldable pub send_to :
      Option (List String)
      → Dict Payload
      → Value
      → Value
      → Option String
      → Payload
      → Exec S (Unit {0})
  unfolding check_endpoint Methods.send publish_message
  send_to allowed_endpoints options to_addr content endpoint kw = do
    check_endpoint allowed_endpoints (some (or_default_endpoint endpoint))
    msg ← lift (
        Methods.send now id to_addr content
          (update (lookup_or (or_default_endpoint endpoint) options []) kw))
    publish_outbound msg (some (or_default_endpoint endpoint))
