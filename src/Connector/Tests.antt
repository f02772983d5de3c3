-- ===== src/Connector/Tests.antt =====
-- Runs of a connector.
use vumi.Base.{String, ◌≡◌, refl, List, [], ◌∷◌, ◌++◌}
use vumi.Base.Dict.{lookup, set_default}
use vumi.Base.Exec.{ok, ignore_message, raise, modify}
use vumi.Message.{Payload, Value, Scalar}
use vumi.Message.Methods.{get_routing_endpoint, routing_metadata}
use vumi.Middleware.{apply_consume}
use vumi.Connector.{Handler, Connector, handler_for, consume_message, ignore_inbound}

-- The state is a list of marks that the handlers leave.
abbrev mark : String → Handler (List String)
mark m msg = modify (λ s. s ++ m ∷ [])

abbrev ignoring : Handler (List String)
ignoring msg = raise (ignore_message "no")

abbrev connector : Connector (List String)
connector = record {
  name = "conn";
  endpoint_handlers = ("inbound", ("foo", ignoring) ∷ []) ∷ ("event", []) ∷ [];
  default_handlers = [];
  publishers = [];
  middlewares = [];
}

abbrev msg : Payload
msg = ("routing_metadata", Value.dict (("endpoint_name", Scalar.text "foo") ∷ [])) ∷ []

ignored : (consume_message connector ignore_inbound "inbound" msg []).0 ≡ ok tt
unfolding lookup get_routing_endpoint routing_metadata set_default handler_for consume_message
    apply_consume
ignored = refl
