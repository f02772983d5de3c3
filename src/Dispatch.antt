-- ===== src/Dispatch.antt =====
-- vumi/dispatchers/base.py: what a dispatch worker publishes, and the routers that have no store.
-- The queue of a publisher is the list `sent`, the newest message last; `logged` counts the errors
-- in the log. A middleware stack is an argument: it gives the message on, or fails, in which case
-- nothing is published. `msg.copy()` is the message, since payloads here are values.
pub mod Simple
pub mod Redirect
pub mod Grouping
pub mod Keyword
pub mod Balancer
pub mod Table
mod Tests
use vumi.Base.{
  ℕ, ◌+◌, String, Bool, true, false, not, Option, none, some, List, [], ◌∷◌, ◌++◌, if◌then◌else◌,
  str_eq, length, ◌==◌,
}
use vumi.Base.Dict.{Dict, lookup, lookup_or, insert, contains}
use vumi.Base.PySet.{member}
use vumi.Base.Exec.{
  Exec, Result, ok, err, Error, key_error, type_error, config_error, pure, raise, lift, gets,
  modify, skip, or_raise, ◌>>=◌, ◌>>◌, for_each,
}
use vumi.Message.{Payload, Value, null, text, dict, sequence}

pub data Kind : Type 0 where
  inbound_message inbound_event outbound_message : Kind

pub record Publication : Type 0 where
  pub kind : Kind
  pub endpoint : String
  pub payload : Payload

pub record Dispatcher : Type 0 where
  pub transport_names : List String
  pub exposed_names : List String
  pub sent : List Publication
  pub logged : ℕ

-- `self._middlewares.apply_publish`
abbrev pub Middlewares : Type 0
Middlewares = Kind → String → Payload → Result Payload

-- The names in `exposed_publisher`, `exposed_event_publisher` and `transport_publisher`.
abbrev pub names_of : Kind → Dispatcher → List String
names_of inbound_message d = d.exposed_names
names_of inbound_event d = d.exposed_names
names_of outbound_message d = d.transport_names

abbrev pub send : Kind → String → Result Payload → Dispatcher → Dispatcher
send kind endpoint (ok payload) d = record d {
  sent = d.sent ++ record { kind = kind; endpoint = endpoint; payload = payload } ∷ [];
}
send kind endpoint (err e) d = d

-- `publish_inbound_message`, `publish_inbound_event` and `publish_outbound_message`
unfoldable pub publish : Middlewares → Kind → String → Payload → Exec Dispatcher (Unit {0})
publish apply_publish kind endpoint msg = do
  names ← gets (names_of kind)
  if member endpoint names
      then modify (send kind endpoint (apply_publish kind endpoint msg))
      else raise key_error

-- `log.error(DispatcherError(…))`
abbrev pub log_error : Exec Dispatcher (Unit {0})
log_error = modify (λ d. record d { logged = d.logged + 1 })

-- `msg[field]`
unfoldable pub field_of : String → Payload → Result Value
field_of key msg = elim (lookup key msg) [ none ↦ err key_error | some v ↦ ok v ]

-- `mapping.get(v)`: a value that is no text is in no mapping, and one without a hash in none at all.
abbrev pub get_at : {V : Type 0} → Value → Dict V → Result (Option V)
get_at (text t) mapping = ok (lookup t mapping)
get_at (dict _) mapping = err type_error
get_at (sequence _) mapping = err type_error
get_at _ mapping = ok none

-- `mapping[v]`
abbrev pub item_at : {V : Type 0} → Value → Dict V → Exec Dispatcher V
item_at v mapping = do found ← lift (get_at v mapping); or_raise found key_error

module _ (apply_publish : Middlewares) where
  -- `SimpleDispatchRouter`: `dispatch_inbound_message` and `dispatch_inbound_event`
  unfoldable pub simple_inbound : Kind → Dict (List String) → Payload → Exec Dispatcher (Unit {0})
  unfolding publish field_of
  simple_inbound kind route_mappings msg = do
    transport_name ← lift (field_of "transport_name" msg)
    names ← item_at transport_name route_mappings
    for_each names (λ (name : String). publish apply_publish kind name msg)

  -- The name that is published to, once it was looked up among the mappings.
  abbrev pub remapped : Value → Option String → Value
  remapped name none = name
  remapped name (some new) = text new

  abbrev pub publish_known : Value → Payload → Exec Dispatcher (Unit {0})
  publish_known (text name) msg = do
    names ← gets (names_of outbound_message)
    if member name names then publish apply_publish outbound_message name msg else log_error
  publish_known _ msg = log_error

  unfoldable pub simple_outbound : Dict String → Payload → Exec Dispatcher (Unit {0})
  unfolding publish field_of
  simple_outbound transport_mappings msg = do
    name ← lift (field_of "transport_name" msg)
    new ← lift (get_at name transport_mappings)
    publish_known (remapped name new) msg

  -- `TransportToTransportRouter.dispatch_inbound_message`
  unfoldable pub transport_inbound : Dict (List String) → Payload → Exec Dispatcher (Unit {0})
  unfolding simple_inbound
  transport_inbound route_mappings msg = simple_inbound outbound_message route_mappings msg

  -- Its `dispatch_inbound_event` and `dispatch_outbound_message`
  abbrev pub transport_discard : Payload → Exec Dispatcher (Unit {0})
  transport_discard msg = skip

  -- `ToAddrRouter.dispatch_inbound_message`; a compiled pattern is a test of an address, which may
  -- raise where the address is no text.
  unfoldable pub to_addr_inbound :
      List (String × (Value → Result Bool)) → Payload → Exec Dispatcher (Unit {0})
  unfolding publish field_of
  to_addr_inbound mappings msg = do
    toaddr ← lift (field_of "to_addr" msg)
    for_each mappings (λ (m : String × (Value → Result Bool)). do
      matches ← lift (m.1 toaddr)
      if matches then publish apply_publish inbound_message m.0 msg else skip)

  -- `FromAddrMultiplexRouter.setup_routing`
  unfoldable pub multiplex_setup : Exec Dispatcher String
  multiplex_setup = do
    names ← gets (names_of inbound_message)
    elim names [
      | [] ↦ raise config_error
      | name ∷ rest ↦ if length rest == 0 then pure name else raise config_error
    ]

  unfoldable pub multiplex_inbound : Kind → String → Payload → Exec Dispatcher (Unit {0})
  unfolding publish
  multiplex_inbound kind exposed_name msg =
      publish apply_publish kind exposed_name (insert "transport_name" (text exposed_name) msg)

  unfoldable pub multiplex_outbound : Dict String → Payload → Exec Dispatcher (Unit {0})
  unfolding publish field_of
  multiplex_outbound fromaddr_mappings msg = do
    from_addr ← lift (field_of "from_addr" msg)
    name ← item_at from_addr fromaddr_mappings
    publish apply_publish outbound_message name (insert "transport_name" (text name) msg)

  -- `RedirectRouter`: `_dispatch_inbound`, for a message or an event
  unfoldable pub redirect_inbound : Kind → Dict String → Payload → Exec Dispatcher (Unit {0})
  unfolding publish field_of
  redirect_inbound kind inbound_mappings msg = do
    transport_name ← lift (field_of "transport_name" msg)
    redirect_to ← item_at transport_name inbound_mappings
    if str_eq redirect_to ""
        then raise config_error
        else publish apply_publish kind redirect_to (insert "transport_name" (text redirect_to) msg)

  abbrev pub redirect : Option String → Payload → Exec Dispatcher (Unit {0})
  redirect none msg = log_error
  redirect (some name) msg =
      if str_eq name "" then log_error else publish apply_publish outbound_message name msg

  unfoldable pub redirect_outbound : Dict String → Payload → Exec Dispatcher (Unit {0})
  unfolding publish field_of
  redirect_outbound outbound_mappings msg = do
    transport_name ← lift (field_of "transport_name" msg)
    redirect_to ← lift (get_at transport_name outbound_mappings)
    redirect redirect_to msg
