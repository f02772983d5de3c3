-- ===== src/Dispatch/Table/Tests.antt =====
-- The theorem on the routing table at concrete connectors.
use vumi.Base.{String, ◌≡◌, refl, some, List, [], ◌∷◌, ◌++◌}
use vumi.Base.Dict.{Dict, lookup}
use vumi.Base.Exec.{ok, modify, skip}
use vumi.Message.{Payload, Value, Scalar}
use vumi.Message.Routing.{routed}
use vumi.Connector.{
  Handler, Connector, consume_message, receive_inbound, receive_outbound,
  set_default_endpoint_handler,
}
use vumi.Dispatch.Table.{RoutingTable, add_ri_handlers, add_ro_handlers}
use vumi.Dispatch.Table.Forwarding.{IsAt, forwarding_lem}

-- The state is the list of what was published.
abbrev keep : Handler (List Payload)
keep m = modify (λ sent. sent ++ m ∷ [])

-- The application side receives outbound messages, and the transport side inbound ones.
abbrev app : Connector (List Payload)
app = receive_outbound "app" [] keep keep

abbrev sms : Connector (List Payload)
sms = receive_inbound "sms" [] keep

abbrev table : Payload → RoutingTable
table msg =
    ("sms", ("default", ("app", "in")) ∷ []) ∷ ("app", ("default", ("sms", "out")) ∷ []) ∷ []

abbrev connectors : Dict (Connector (List Payload))
connectors = ("app", app) ∷ ("sms", sms) ∷ []

abbrev named : Dict Scalar
named = ("endpoint_name", Scalar.text "default") ∷ []

abbrev message : Payload
message = ("routing_metadata", Value.dict named) ∷ []

message-IsAt : IsAt message named "default"
unfolding lookup
message-IsAt = (refl, refl)

forwarding_lem_example :
    let ignore = λ (m : Payload) (reason : String). skip in
    let ri = add_ri_handlers connectors table (receive_inbound "sms" [] keep) in
    let ro = add_ro_handlers connectors table (receive_outbound "app" [] keep keep) in
    let to_app = routed message named (some "in") in
    let to_transport = routed message named (some "out") in
    (consume_message ri ignore "inbound" message [] ≡ (ok tt, (keep to_app []).1))
    × (consume_message ri ignore "event" message [] ≡ (ok tt, (keep to_app []).1))
    × (consume_message ro ignore "outbound" message [] ≡ (ok tt, (keep to_transport []).1))
unfolding lookup receive_inbound receive_outbound set_default_endpoint_handler
forwarding_lem_example =
    forwarding_lem connectors table message named "default" message-IsAt (λ m reason. skip) [] "sms"
      "app" keep keep keep "app" "in" app keep keep "sms" "out" sms keep refl refl refl refl refl
      refl refl refl refl
