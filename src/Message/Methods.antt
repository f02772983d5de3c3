-- ===== src/Message/Methods.antt =====
-- The methods of vumi/message.py by which a message names its endpoint, and by which a reply and a
-- new message are made.
use vumi.Base.{String, Bool, false, Option, none, some, List, [], ◌∷◌, if◌then◌else◌, ◌||◌}
use vumi.Base.Int.{ℤ}
use vumi.Base.Dict.{Dict, lookup, insert, contains, set_default, update}
use vumi.Base.Exec.{Exec, Result, err, type_error, pure, raise, modify, gets, ◌>>=◌, ◌>>◌}
use vumi.Message.{
  Scalar, Value, Payload, is_null, get_item, set_item, built, make, null, text, dict, user_message,
  nested,
}

-- `check_routing_endpoint`
abbrev pub check_routing_endpoint : Option String → String
check_routing_endpoint none = "default"
check_routing_endpoint (some e) = e

-- The dict that `self.routing_metadata` gives, which is put in where there is none.
unfoldable pub routing_metadata : Exec Payload (Dict Scalar)
routing_metadata = do
  modify (set_default "routing_metadata" (dict []))
  v ← gets (lookup "routing_metadata")
  elim v [ some (dict d) ↦ pure d | _ ↦ raise type_error ]

unfoldable pub set_routing_endpoint : Option String → Exec Payload (Unit {0})
unfolding routing_metadata
set_routing_endpoint endpoint_name = do
  d ← routing_metadata
  modify (
      insert "routing_metadata"
        (dict (insert "endpoint_name" (text (check_routing_endpoint endpoint_name)) d)))

-- A name that is no text can name no endpoint.
abbrev pub endpoint_in : Option Scalar → Exec Payload String
endpoint_in none = pure (check_routing_endpoint none)
endpoint_in (some null) = pure (check_routing_endpoint none)
endpoint_in (some (text e)) = pure (check_routing_endpoint (some e))
endpoint_in (some (nested _)) = raise type_error

unfoldable pub get_routing_endpoint : Exec Payload String
unfolding routing_metadata
get_routing_endpoint = do d ← routing_metadata; endpoint_in (lookup "endpoint_name" d)

abbrev pub protected_fields : List String
protected_fields =
    "to_addr" ∷ "from_addr" ∷ "group" ∷ "in_reply_to" ∷ "transport_name" ∷ "transport_type"
    ∷ "transport_metadata" ∷ []

unfoldable pub has_any : List String → Payload → Bool
has_any [] kw = false
has_any (f ∷ fs) kw = contains f kw || has_any fs kw

-- The fields of a reply, before the keyword arguments; a field that is missing is a `KeyError`.
unfoldable pub reply_fields : Bool → Exec Payload Payload
unfolding get_item
reply_fields continue_session = do
  helper_metadata ← get_item "helper_metadata"
  from_addr ← get_item "from_addr"
  to_addr ← get_item "to_addr"
  group ← get_item "group"
  message_id ← get_item "message_id"
  transport_name ← get_item "transport_name"
  transport_type ← get_item "transport_type"
  transport_metadata ← get_item "transport_metadata"
  pure (
      ("helper_metadata", helper_metadata)
      ∷ ("session_event", if continue_session then null else text "close")
      ∷ ("to_addr", from_addr)
      ∷ ("from_addr", to_addr)
      ∷ ("group", group)
      ∷ ("in_reply_to", message_id)
      ∷ ("transport_name", transport_name)
      ∷ ("transport_type", transport_type)
      ∷ ("transport_metadata", transport_metadata)
      ∷ [])

-- An operation on another message, whose payload it returns.
abbrev pub on_payload : Exec Payload (Unit {0}) → Payload → Exec Payload Payload
on_payload op out p = (built (op out), p)

unfoldable pub reply : ℤ → String → Value → Bool → Payload → Exec Payload Payload
unfolding has_any reply_fields make get_routing_endpoint set_routing_endpoint
reply now id content continue_session kw =
    if has_any protected_fields kw then raise type_error else do
      fields ← reply_fields continue_session
      out ← (λ p. (make user_message now id (("content", content) ∷ update fields kw), p))
      endpoint ← get_routing_endpoint
      on_payload (set_routing_endpoint (some endpoint)) out

unfoldable pub reply_group : ℤ → String → Value → Bool → Payload → Exec Payload Payload
unfolding reply get_item set_item
reply_group now id content continue_session kw = do
  out ← reply now id content continue_session kw
  group ← get_item "group"
  if is_null group then pure out else on_payload (set_item "to_addr" null) out

-- `TransportUserMessage.send`; an argument given twice is a `TypeError`.
unfoldable pub send : ℤ → String → Value → Value → Payload → Result Payload
unfolding has_any make
send now id to_addr content kw =
    if has_any ("in_reply_to" ∷ "session_event" ∷ []) kw
    then err type_error
    else let a = set_default "from_addr" null kw in
      let b = set_default "transport_name" null a in
      let c = set_default "transport_type" null b in
      make user_message now id (
        ("to_addr", to_addr)
        ∷ ("in_reply_to", null)
        ∷ ("content", content)
        ∷ ("session_event", null)
        ∷ c)
