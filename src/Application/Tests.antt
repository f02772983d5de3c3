-- ===== src/Application/Tests.antt =====
-- The theorems on application workers at concrete inputs.
use vumi.Base.{◌≡◌, refl, true, List, [], ◌∷◌, ◌++◌}
use vumi.Base.Int.{pos}
use vumi.Base.Dict.{lookup, set_default}
use vumi.Base.Exec.{ok, modify, ◌>>=◌}
use vumi.Message.{Payload, Value}
use vumi.Message.Methods.{get_routing_endpoint, routing_metadata, has_any}
use vumi.Message.Replies.{IsAddressed, IsReply}
use vumi.Middleware.{apply_consume, apply_publish, handle_all}
use vumi.Connector.{Handler, Connector, consume_message, ignore_inbound, trap}
use vumi.Application.{
  Application, default_application, dispatch_event, dispatch_user_message, setup_connectors,
  reply_to,
}
use vumi.Application.Dispatching.{reply_to_lem, consume_message-setup_connectors}

-- The state is the list of what was published.
abbrev keep : Handler (List Payload)
keep m = modify (λ sent. sent ++ m ∷ [])

abbrev connector : Connector (List Payload)
connector = record {
  name = "conn";
  endpoint_handlers = ("inbound", []) ∷ ("event", []) ∷ [];
  default_handlers = [];
  publishers = ("outbound", keep) ∷ [];
  middlewares = [];
}

abbrev app : Application (List Payload)
app = default_application (λ m. modify (λ sent. sent ++ m ∷ []))

abbrev message : Payload
message =
    ("to_addr", Value.text "123")
    ∷ ("from_addr", Value.text "456")
    ∷ ("transport_name", Value.text "sms")
    ∷ ("transport_type", Value.text "sms")
    ∷ ("message_id", Value.text "m1")
    ∷ ("group", Value.null)
    ∷ ("helper_metadata", Value.dict [])
    ∷ ("transport_metadata", Value.dict [])
    ∷ ("routing_metadata", Value.dict [])
    ∷ []

message-IsAddressed :
    IsAddressed message
      (Value.text "456")
      (Value.text "123")
      Value.null
      (Value.text "m1")
      (Value.text "sms")
      (Value.text "sms")
      (Value.dict [])
      (Value.dict [])
unfolding lookup
message-IsAddressed = record {
  from_addr = refl;
  to_addr = refl;
  group_of = refl;
  message_id = refl;
  transport_name = refl;
  transport_type = refl;
  transport_metadata = refl;
  helper_metadata = refl;
}

endpoint : get_routing_endpoint message ≡ (ok "default", message)
unfolding get_routing_endpoint routing_metadata lookup set_default
endpoint = refl

reply_to_lem_example :
    (out : Payload) × IsReply
      (pos 7)
      "m2"
      (Value.text "hi")
      true
      []
      message
      (Value.text "456")
      (Value.text "123")
      Value.null
      (Value.text "m1")
      (Value.text "sms")
      (Value.text "sms")
      (Value.dict [])
      (Value.dict [])
      message-IsAddressed
      "default"
      out
    × (reply_to connector (pos 7) "m2" message (Value.text "hi") true [] [] ≡ keep out [])
unfolding has_any lookup apply_publish handle_all
reply_to_lem_example =
    reply_to_lem connector (pos 7) "m2" (Value.text "hi") true [] message (Value.text "456")
      (Value.text "123") Value.null (Value.text "m1") (Value.text "sms") (Value.text "sms")
      (Value.dict []) (Value.dict []) message-IsAddressed "default" [] keep (λ m. (m, [])) refl refl
      endpoint refl (λ m. refl)

consume_message-setup_connectors_example :
    (consume_message (setup_connectors app connector) ignore_inbound "inbound" message []
      ≡ trap
          (ignore_inbound message)
          ((apply_consume [] "inbound" message "conn" >>= dispatch_user_message app) []))
    × (consume_message (setup_connectors app connector) ignore_inbound "event" message []
        ≡ trap
            (ignore_inbound message)
            ((apply_consume [] "event" message "conn" >>= dispatch_event app) []))
unfolding lookup
consume_message-setup_connectors_example =
    consume_message-setup_connectors app connector [] [] ignore_inbound message message [] refl refl
      endpoint
