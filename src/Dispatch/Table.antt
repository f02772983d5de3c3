-- ===== src/Dispatch/Table.antt =====
-- vumi/dispatchers/endpoint_dispatchers.py: `Dispatcher` and `RoutingTableDispatcher`, which send what
-- comes in at an endpoint of one connector out at an endpoint of another. The connectors are those
-- that the worker has set up.
pub mod Forwarding
mod Tests
use vumi.Base.{String, Option, none, some, List, [], ◌∷◌}
use vumi.Base.Dict.{Dict, lookup, insert}
use vumi.Base.Exec.{
  Exec, Result, ok, err, Error, key_error, pure, raise, skip, lift, or_raise, ◌>>=◌, ◌>>◌,
}
use vumi.Message.{Payload}
use vumi.Message.Methods.{get_routing_endpoint}
use vumi.Connector.{Handler, Connector, run, publish_message, set_default_endpoint_handler}

abbrev pub Target : Type 0
Target = String × String

-- The targets by connector and endpoint.
abbrev pub RoutingTable : Type 0
RoutingTable = Dict (Dict Target)

abbrev pub target_at : String → Option (Dict Target) → Option Target
target_at endpoint_name none = none
target_at endpoint_name (some endpoint_routing) = lookup endpoint_name endpoint_routing

-- With the message, which the look at its endpoint may change.
unfoldable pub find_target :
    {S : Type 0} → RoutingTable → Payload → String → Exec S (Option Target × Payload)
unfolding get_routing_endpoint
find_target routing_table msg connector_name = do
  named ← run get_routing_endpoint msg
  pure (target_at named.0 (lookup connector_name routing_table), named.1)

module _ {S : Type 0} (connectors : Dict (Connector S)) where
  -- `publish_inbound`, `publish_outbound` and `publish_event`, by the kind of message
  unfoldable pub publish_to : String → Payload → Target → Exec S (Unit {0})
  unfolding publish_message
  publish_to mtype msg (connector_name, endpoint) = do
    c ← or_raise (lookup connector_name connectors) key_error
    publish_message c mtype msg (some endpoint)

  abbrev pub publish_found : String → Option Target × Payload → Exec S (Unit {0})
  publish_found mtype (none, msg) = skip
  publish_found mtype (some target, msg) = publish_to mtype msg target

  -- `process_inbound`, `process_outbound` and `process_event`
  unfoldable pub process : RoutingTable → String → String → Payload → Exec S (Unit {0})
  unfolding find_target publish_to
  process routing_table mtype connector_name msg = do
    found ← find_target routing_table msg connector_name
    publish_found mtype found

  -- `default_errback`: the error is logged, and the handler ends well.
  abbrev pub logged : Result (Unit {0}) × S → Result (Unit {0}) × S
  logged (res, s) = (ok tt, s)

  -- `_mkhandler`, with the table of the configuration for the message
  unfoldable pub make_handler : (Payload → RoutingTable) → String → String → Handler S
  unfolding process
  make_handler get_config mtype connector_name msg s =
      logged (process (get_config msg) mtype connector_name msg s)

  -- `add_ri_handlers` and `add_ro_handlers` of `setup_connectors`
  unfoldable pub add_ri_handlers : (Payload → RoutingTable) → Connector S → Connector S
  unfolding make_handler set_default_endpoint_handler
  add_ri_handlers get_config c =
      set_default_endpoint_handler "event" (make_handler get_config "event" c.name)
        (set_default_endpoint_handler "inbound" (make_handler get_config "inbound" c.name) c)

  unfoldable pub add_ro_handlers : (Payload → RoutingTable) → Connector S → Connector S
  unfolding make_handler set_default_endpoint_handler
  add_ro_handlers get_config c =
      set_default_endpoint_handler "outbound" (make_handler get_config "outbound" c.name) c
