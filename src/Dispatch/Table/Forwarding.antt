-- ===== src/Dispatch/Table/Forwarding.antt =====
-- What a dispatcher with a routing table does with a message that one of its connectors consumes.
use vumi.Base.{String, ◌≡◌, refl, ap, ◌∙◌, none, some, []}
use vumi.Base.Dict.{Dict, lookup, insert, set_default}
use vumi.Base.Exec.{Exec, ok}
use vumi.Message.{Payload, Value, Scalar}
use vumi.Message.Methods.{get_routing_endpoint}
use vumi.Message.Routing.{routing_metadata-eq, routed, set_routing_endpoint-eq}
use vumi.Middleware.{apply_consume, apply_publish, handle_all}
use vumi.Connector.{
  Handler, Connector, publish_message, consume_message, set_default_endpoint_handler, handler_for,
  trap, receive_inbound, receive_outbound,
}
use vumi.Connector.Handlers.{consume_message_lem}
use vumi.Dispatch.Table.{
  RoutingTable, target_at, find_target, publish_to, process, make_handler, add_ri_handlers,
  add_ro_handlers,
}

-- A message at the endpoint `e`.
module _ (msg : Payload) (d : Dict Scalar) (e : String) where
  abbrev pub IsAt : Type 0
  IsAt =
      (lookup "routing_metadata" msg ≡ some (Value.dict d))
      × (lookup "endpoint_name" d ≡ some (Scalar.text e))

  endpoint-eq : IsAt → get_routing_endpoint msg ≡ (ok e, msg)
  unfolding get_routing_endpoint
  endpoint-eq at = rw (routing_metadata-eq msg d at.0) (rw (at.1) refl)

module _ {S : Type 0} (connectors : Dict (Connector S)) (get_config : Payload → RoutingTable)
    (mtype name : String) (msg : Payload) (d : Dict Scalar) (e : String) (at : IsAt msg d e)
    (s : S) where
  -- A message for which the table has no target is dropped: nothing changes, and no error is raised.
  pub make_handler-no_target :
      target_at e (lookup name (get_config msg)) ≡ none
      → make_handler connectors get_config mtype name msg s ≡ (ok tt, s)
  unfolding make_handler process find_target
  make_handler-no_target no_target = rw (endpoint-eq msg d e at) (rw no_target refl)

  -- A message with a target.
  make_handler-target :
      (to : Connector S) (to_name to_endpoint : String) (publisher : Handler S)
      → target_at e (lookup name (get_config msg)) ≡ some (to_name, to_endpoint)
      → lookup to_name connectors ≡ some to
      → to.middlewares ≡ []
      → lookup mtype to.publishers ≡ some publisher
      → make_handler connectors get_config mtype name msg s
        ≡ (ok tt, (publisher (routed msg d (some to_endpoint)) s).1)
  unfolding make_handler process find_target publish_to publish_message apply_publish handle_all
  make_handler-target to to_name to_endpoint publisher target is plain published =
      rw (endpoint-eq msg d e at) (
        rw target (
          rw is (
            rw (set_routing_endpoint-eq msg d (some to_endpoint) at.0)
              (rw published (rw plain refl)))))

module _ {S : Type 0} (connectors : Dict (Connector S)) (get_config : Payload → RoutingTable)
    (msg : Payload) (d : Dict Scalar) (e : String) (at : IsAt msg d e)
    (ignore : Payload → String → Exec S (Unit {0})) (s : S) where
  -- A connector whose handler for a kind of message is that of the dispatcher gives it every message
  -- of that kind.
  consume-eq :
      (mtype name : String) (c : Connector S)
      → c.middlewares ≡ []
      → handler_for mtype e c ≡ ok (some (make_handler connectors get_config mtype name))
      → consume_message c ignore mtype msg s
        ≡ trap (ignore msg) (make_handler connectors get_config mtype name msg s)
  unfolding apply_consume handle_all
  consume-eq mtype name c plain handled =
      consume_message_lem c ignore mtype e msg msg (make_handler connectors get_config mtype name) s
        (endpoint-eq msg d e at) handled
      ∙ rw plain refl

  set_up :
      (name : String) (outbound inbound event : Handler S)
      → let ri = add_ri_handlers connectors get_config (receive_inbound name [] outbound) in
        let ro = add_ro_handlers connectors get_config (receive_outbound name [] inbound event) in
        let handler = λ (mtype : String). make_handler connectors get_config mtype name in
        (handler_for "inbound" e ri ≡ ok (some (handler "inbound")))
        × (handler_for "event" e ri ≡ ok (some (handler "event")))
        × (handler_for "outbound" e ro ≡ ok (some (handler "outbound")))
  unfolding add_ri_handlers add_ro_handlers receive_inbound receive_outbound
      set_default_endpoint_handler handler_for set_default insert lookup
  set_up name outbound inbound event = (refl, refl, refl)

  -- A dispatcher without middlewares sends what it receives where the routing table says. An inbound
  -- message or an event that names its endpoint, received by a connector that the dispatcher has set
  -- up to receive inbound messages, goes to the publisher for its kind of the connector that the table
  -- names for it, which has publishers for inbound messages and events. An outbound message, received
  -- by a connector that is set up to receive outbound messages, goes to the outbound publisher of the
  -- connector that the table names. Each goes with the endpoint from the table; the state ends as the
  -- publisher leaves it, and handling ends well even if the publisher does not.
  pub forwarding_lem :
      (ri_name ro_name : String) (ri_outbound ro_inbound ro_event : Handler S)
      (app_name app_endpoint : String) (app : Connector S) (inbound event : Handler S)
      (transport_name transport_endpoint : String) (transport : Connector S) (outbound : Handler S)
      → target_at e (lookup ri_name (get_config msg)) ≡ some (app_name, app_endpoint)
      → lookup app_name connectors ≡ some app
      → app.middlewares ≡ []
      → lookup "inbound" app.publishers ≡ some inbound
      → lookup "event" app.publishers ≡ some event
      → target_at e (lookup ro_name (get_config msg)) ≡ some (transport_name, transport_endpoint)
      → lookup transport_name connectors ≡ some transport
      → transport.middlewares ≡ []
      → lookup "outbound" transport.publishers ≡ some outbound
      → let ri = add_ri_handlers connectors get_config (receive_inbound ri_name [] ri_outbound) in
        let ro =
          add_ro_handlers connectors get_config (receive_outbound ro_name [] ro_inbound ro_event) in
        let to_app = routed msg d (some app_endpoint) in
        let to_transport = routed msg d (some transport_endpoint) in
        (consume_message ri ignore "inbound" msg s ≡ (ok tt, (inbound to_app s).1))
        × (consume_message ri ignore "event" msg s ≡ (ok tt, (event to_app s).1))
        × (consume_message ro ignore "outbound" msg s ≡ (ok tt, (outbound to_transport s).1))
  unfolding add_ri_handlers add_ro_handlers receive_inbound receive_outbound
      set_default_endpoint_handler
  forwarding_lem ri_name ro_name ri_outbound ro_inbound ro_event app_name app_endpoint app inbound
        event transport_name transport_endpoint transport outbound to_app is_app plain_app pi pe
        to_transport is_transport plain_transport po =
      let sent_in : (mtype : String) (p : Handler S)
          → lookup mtype app.publishers ≡ some p
          → make_handler connectors get_config mtype ri_name msg s
            ≡ (ok tt, (p (routed msg d (some app_endpoint)) s).1) =
        λ mtype p published.
          make_handler-target connectors get_config mtype ri_name msg d e at s app app_name
            app_endpoint p to_app is_app plain_app published in
      let sent_out =
        make_handler-target connectors get_config "outbound" ro_name msg d e at s transport
          transport_name transport_endpoint outbound to_transport is_transport plain_transport po in
      let ri = add_ri_handlers connectors get_config (receive_inbound ri_name [] ri_outbound) in
      let ro =
        add_ro_handlers connectors get_config (receive_outbound ro_name [] ro_inbound ro_event) in
      let handled = set_up ri_name ri_outbound ro_inbound ro_event in
      let handled_out = set_up ro_name ri_outbound ro_inbound ro_event in
      (
        consume-eq "inbound" ri_name ri refl handled.0
            ∙ ap (trap (ignore msg)) (sent_in "inbound" inbound pi),
        consume-eq "event" ri_name ri refl handled.1
            ∙ ap (trap (ignore msg)) (sent_in "event" event pe),
        consume-eq "outbound" ro_name ro refl handled_out.2 ∙ ap (trap (ignore msg)) sent_out,
      )
