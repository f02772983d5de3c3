-- ===== src/Message.antt =====
-- vumi/message.py: the payloads of `TransportMessage`, `TransportUserMessage` and `TransportEvent`.
-- A method that reads and changes `self.payload` is an `Exec` on the payload. The generated id and
-- the time are arguments. `_process_fields` is an argument of the constructor, so that no other
-- field has its name.
pub mod Methods
pub mod Fields
pub mod Validity
pub mod Made
pub mod Protected
pub mod Replies
pub mod Routing
mod Tests
use vumi.Base.{
  String, Bool, true, false, Option, none, some, List, [], ◌∷◌, if◌then◌else◌, str_eq, ◌||◌, not,
}
use vumi.Base.Int.{ℤ}
use vumi.Base.Dict.{Dict, lookup, insert, contains, set_default, update, erase}
use vumi.Base.PySet.{member}
use vumi.Base.Exec.{
  Exec, Result, ok, err, missing_field, invalid_field, type_error, key_error, pure, raise, modify,
  gets, or_raise, skip, lift, ◌>>=◌, ◌>>◌, continue,
}

-- A value inside a nested dict: `nested` is any other JSON, which the messages never look into.
pub data Scalar : Type 0 where
  null : Scalar
  text : String → Scalar
  nested : String → Scalar

-- The value of a field: `other` is a number or a Boolean, `sequence` a list.
pub data Value : Type 0 where
  null : Value
  text : String → Value
  time : ℤ → Value
  dict : Dict Scalar → Value
  other sequence : String → Value

abbrev pub Payload : Type 0
Payload = Dict Value

pub data Class : Type 0 where
  transport_message user_message event : Class

abbrev pub is_null : Value → Bool
is_null null = true
is_null _ = false

abbrev pub is_one_of : List String → Value → Bool
is_one_of ts (text t) = member t ts
is_one_of ts _ = false

-- `v in ts` for a set: a dict or a list has no hash.
abbrev pub is_member : List String → Value → Result Bool
is_member ts (dict _) = err type_error
is_member ts (sequence _) = err type_error
is_member ts v = ok (is_one_of ts v)

-- `v is not None`
abbrev pub is_given : Value → Result Bool
is_given v = ok (not (is_null v))

-- `MESSAGE_TYPE`
abbrev pub type_of : Class → Value
type_of transport_message = null
type_of user_message = text "user_message"
type_of event = text "event"

abbrev pub message_version : String
message_version = "20110921"

-- `self[key]`
unfoldable pub get_item : String → Exec Payload Value
get_item key p = or_raise (lookup key p) key_error p

unfoldable pub set_item : String → Value → Exec Payload (Unit {0})
set_item key v = modify (insert key v)

unfoldable pub assert_field_present : List String → Exec Payload (Unit {0})
assert_field_present [] = skip
assert_field_present (field ∷ fields) = do
  present ← gets (contains field)
  if present then assert_field_present fields else raise (missing_field field)

unfoldable pub assert_field_value : String → List String → Exec Payload (Unit {0})
unfolding assert_field_present get_item
assert_field_value field values = do
  assert_field_present (field ∷ [])
  v ← get_item field
  if is_one_of values v then skip else raise (invalid_field field)

-- `TransportMessage.process_fields`
unfoldable pub process_base : Class → ℤ → Payload → Payload
process_base cls now fields =
    let a = set_default "message_version" (text message_version) fields in
    let b = set_default "message_type" (type_of cls) a in
    let c = set_default "timestamp" (time now) b in
    let d = set_default "routing_metadata" (dict []) c in set_default "helper_metadata" (dict []) d

-- What `TransportUserMessage.process_fields` adds.
unfoldable pub process_user : String → Payload → Payload
process_user id fields =
    let a = set_default "message_id" (text id) fields in
    let b = set_default "in_reply_to" null a in
    let c = set_default "session_event" null b in
    let d = set_default "content" null c in
    let e = set_default "transport_metadata" (dict []) d in set_default "group" null e

-- What `TransportEvent.process_fields` adds.
unfoldable pub process_event : String → Payload → Payload
process_event id fields = set_default "event_id" (text id) fields

unfoldable pub process_fields : Class → ℤ → String → Payload → Payload
unfolding process_base process_user process_event
process_fields transport_message now id fields = process_base transport_message now fields
process_fields user_message now id fields = process_user id (process_base user_message now fields)
process_fields event now id fields = process_event id (process_base event now fields)

-- `TransportMessage.validate_fields`
unfoldable pub validate_base : Exec Payload (Unit {0})
unfolding assert_field_present assert_field_value get_item
validate_base = do
  assert_field_value "message_version" (message_version ∷ [])
  modify (set_default "helper_metadata" (dict []))
  assert_field_present ("message_type" ∷ "timestamp" ∷ "helper_metadata" ∷ [])
  message_type ← get_item "message_type"
  if is_null message_type then raise (invalid_field "message_type") else skip

abbrev pub session_events : List String
session_events = "new" ∷ "resume" ∷ "close" ∷ []

-- `v in SESSION_EVENTS`, with `None` among them
abbrev pub is_session_event : Value → Result Bool
is_session_event null = ok true
is_session_event v = is_member session_events v

abbrev pub user_fields : List String
user_fields =
    "message_id" ∷ "to_addr" ∷ "from_addr" ∷ "in_reply_to" ∷ "session_event" ∷ "content"
    ∷ "transport_name" ∷ "transport_type" ∷ "transport_metadata" ∷ "group" ∷ []

-- What `TransportUserMessage.validate_fields` adds.
unfoldable pub validate_user : Exec Payload (Unit {0})
unfolding assert_field_present get_item
validate_user = do
  modify (set_default "group" null)
  assert_field_present user_fields
  session_event ← get_item "session_event"
  valid ← lift (is_session_event session_event)
  if valid then skip else raise (invalid_field "session_event")

abbrev pub delivery_statuses : List String
delivery_statuses = "pending" ∷ "failed" ∷ "delivered" ∷ []

-- `EVENT_TYPES`: the extra field of a type of event, and its check.
abbrev pub extra_field : String → Option (String × (Value → Result Bool))
extra_field event_type =
    if str_eq event_type "ack"
    then some ("sent_message_id", is_given)
    else if str_eq event_type "nack"
    then some ("nack_reason", is_given)
    else if str_eq event_type "delivery_report"
    then some ("delivery_status", is_member delivery_statuses)
    else none

abbrev pub extra_of : Value → Result (Option (String × (Value → Result Bool)))
extra_of (text event_type) = ok (extra_field event_type)
extra_of (dict _) = err type_error
extra_of (sequence _) = err type_error
extra_of _ = ok none

-- What `TransportEvent.validate_fields` adds.
unfoldable pub validate_event : Exec Payload (Unit {0})
unfolding assert_field_present get_item
validate_event = do
  assert_field_present ("user_message_id" ∷ "event_id" ∷ "event_type" ∷ [])
  event_type ← get_item "event_type"
  extra_check ← lift (extra_of event_type)
  elim extra_check [
    | none ↦ raise (invalid_field "event_type")
    | some (extra, check) ↦ do
      assert_field_present (extra ∷ [])
      v ← get_item extra
      passed ← lift (check v)
      if passed then skip else raise (invalid_field extra)
  ]

unfoldable pub validate_fields : Class → Exec Payload (Unit {0})
unfolding validate_base validate_user validate_event
validate_fields transport_message = validate_base
validate_fields user_message = do validate_base; validate_user
validate_fields event = do validate_base; validate_event

abbrev pub built : Result (Unit {0}) × Payload → Result Payload
built (ok u, p) = ok p
built (err e, p) = err e

-- `cls(_process_fields=False, **fields)`, as `from_json` calls it.
unfoldable pub load : Class → Payload → Result Payload
unfolding validate_fields
load cls fields = built (validate_fields cls fields)

-- `cls(**fields)`
unfoldable pub make : Class → ℤ → String → Payload → Result Payload
unfolding process_fields load
make cls now id fields = load cls (process_fields cls now id fields)
