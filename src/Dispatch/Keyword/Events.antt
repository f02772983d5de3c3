-- ===== src/Dispatch/Keyword/Events.antt =====
-- An event of `ContentKeywordRouter` finds the application that the message was sent for.
use vumi.Base.{ℕ, String, ◌≡◌, refl, ap, true, false, some, [], ◌∷◌, str_eq}
use vumi.Base.Dict.{Dict, lookup, insert, update}
use vumi.Base.PySet.{member}
use vumi.Base.Exec.{ok}
use vumi.Session.{create_session, load_session}
use vumi.Session.Store.{session, create_session_lem}
use vumi.Message.{Payload, text}
use vumi.Dispatch.{Kind, inbound_event, outbound_message, Dispatcher, Middlewares}
use vumi.Dispatch.Simple.{field_of-eq, publication, with_sent, publish-eq}
use vumi.Dispatch.Grouping.{Worker}
use vumi.Dispatch.Keyword.{
  keyword_event, keyword_outbound, message_key, route_event, remember, recover,
}

-- The dispatcher after a message was published.
abbrev pub sent_on : Middlewares → Kind → String → Payload → Dispatcher → Dispatcher
sent_on apply_publish kind to m d =
    with_sent apply_publish kind (publication apply_publish kind to (apply_publish kind to m)) d

module _ (msg : Payload) (id name : String) (now : ℕ) (stamp : String) (limit : ℕ)
    (w : Worker) where
  -- What the store holds for the message.
  abbrev memory : Dict String
  memory = session (some limit) now stamp (message_key id) (("name", name) ∷ []) w.redis

  abbrev remembered : Worker
  remembered = record w {
    redis =
        (create_session (some limit) now stamp (message_key id) (("name", name) ∷ []) w.redis).1;
  }

  lookup-memory : lookup "name" memory ≡ some name
  unfolding update lookup insert
  lookup-memory = refl

  remember-eq :
      lookup "message_id" msg ≡ some (text id)
      → lookup "transport_name" msg ≡ some (text name)
      → remember limit now stamp msg w ≡ (ok tt, remembered)
  remember-eq i n =
      let (done, loaded, lives, same) =
        create_session_lem (some limit) now stamp (message_key id) (("name", name) ∷ []) w.redis in
      rw (field_of-eq "message_id" (text id) msg i)
        (rw (field_of-eq "transport_name" (text name) msg n) (rw done refl))

module _ (apply_publish : Middlewares) (name id : String) (event : Payload) where
  route_event-eq :
      (d : Dispatcher)
      → str_eq name "" ≡ false
      → member name d.exposed_names ≡ true
      → route_event apply_publish (some name) event d
        ≡ (ok tt, sent_on apply_publish inbound_event name event d)
  route_event-eq d nonempty there =
      rw nonempty (ap recover (publish-eq apply_publish inbound_event name event d there))

  keyword_event-eq :
      (s : Dict String) (w : Worker)
      → lookup "user_message_id" event ≡ some (text id)
      → load_session (message_key id) w.redis ≡ (ok s, w.redis)
      → lookup "name" s ≡ some name
      → str_eq name "" ≡ false
      → member name w.dispatcher.exposed_names ≡ true
      → keyword_event apply_publish event w ≡ (
        ok tt,
        record w { dispatcher = sent_on apply_publish inbound_event name event w.dispatcher },
      )
  unfolding keyword_event
  keyword_event-eq s w u loaded is nonempty there =
      rw (field_of-eq "user_message_id" (text id) event u)
        (rw loaded (rw is (rw (route_event-eq w.dispatcher nonempty there) refl)))

module _ (apply_publish : Middlewares) (msg : Payload) (id name : String) (now : ℕ) (stamp : String)
    (limit : ℕ) (w : Worker) (mappings : Dict String) (from transport : String) where
  abbrev published : Worker
  published = record w {
    dispatcher = sent_on apply_publish outbound_message transport msg w.dispatcher;
  }

  keyword_outbound-eq :
      lookup "from_addr" msg ≡ some (text from)
      → lookup from mappings ≡ some transport
      → lookup "message_id" msg ≡ some (text id)
      → lookup "transport_name" msg ≡ some (text name)
      → member transport w.dispatcher.transport_names ≡ true
      → keyword_outbound apply_publish mappings limit now stamp msg w
        ≡ (ok tt, remembered msg id name now stamp limit published)
  unfolding keyword_outbound
  keyword_outbound-eq f route i n there = rw (field_of-eq "from_addr" (text from) msg f) (
      rw route (
        rw (publish-eq apply_publish outbound_message transport msg w.dispatcher there)
          (remember-eq msg id name now stamp limit published i n)))

  -- An outbound message is dispatched to the transport of its `from_addr`, which has a
  -- publisher, and is published there once. An event for the message's id is then published
  -- once, to the exposed name that the message had as its transport name, if that name is not
  -- empty and has a publisher. Either is published as the middlewares leave it, and where a middleware
  -- fails nothing is published, and the router goes on.
  pub keyword_event-keyword_outbound :
      (event : Payload)
      → lookup "from_addr" msg ≡ some (text from)
      → lookup from mappings ≡ some transport
      → lookup "message_id" msg ≡ some (text id)
      → lookup "transport_name" msg ≡ some (text name)
      → lookup "user_message_id" event ≡ some (text id)
      → str_eq name "" ≡ false
      → member transport w.dispatcher.transport_names ≡ true
      → member name w.dispatcher.exposed_names ≡ true
      → let (res, w') = keyword_outbound apply_publish mappings limit now stamp msg w in
        let (res', w'') = keyword_event apply_publish event w' in
        (res ≡ ok tt)
        × (w'.dispatcher ≡ sent_on apply_publish outbound_message transport msg w.dispatcher)
        × (res' ≡ ok tt)
        × (w''.dispatcher ≡ sent_on apply_publish inbound_event name event w'.dispatcher)
  keyword_event-keyword_outbound event f route i n u nonempty out_there in_there =
      let w1 = remembered msg id name now stamp limit published in
      let (done, loaded, lives, same) =
        create_session_lem (some limit) now stamp (message_key id) (("name", name) ∷ []) w.redis in
      rw (keyword_outbound-eq f route i n out_there) (
        rw
          (keyword_event-eq apply_publish name id event
            (memory msg id name now stamp limit published) w1 u loaded
            (lookup-memory msg id name now stamp limit published) nonempty in_there)
          (refl, refl, refl, refl))
