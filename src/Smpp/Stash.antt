-- ===== src/Smpp/Stash.antt =====
-- `SmppMessageDataStash` of vumi/transports/smpp/smpp_transport.py. Messages are kept as the texts
-- that `to_json` gives; the two expiry times are those of the configuration.
use Prim.Native.Char.{code}
use Prim.Native.String as Text
use Prim.Native.String.{◌++◌}
use vumi.Base.{
  ℕ, ◌==◌, String, Bool, true, ◌&&◌, Option, none, some, [], ◌∷◌, length, str_eq, if◌then◌else◌,
}
use vumi.Base.Int.{pos, leb_ℤ, eqb_ℤ}
use vumi.Base.Decimal.{show_nat, parse_int}
use vumi.Base.Dict.{Dict, lookup, keys}
use vumi.Base.Text.{join, sorted}
use vumi.Base.Exec.{Exec, Result, value_error, key_error, pure, or_raise, lift, skip, ◌>>=◌, ◌>>◌}
use vumi.Redis.State.{Redis}
use vumi.Redis.Keys.{expire, delete}
use vumi.Redis.Texts.{get, setex}
use vumi.Redis.Hashes.{hset, hmset, hgetall, hincrby}
use vumi.Message.{Payload}

pub record Config : Type 0 where
  pub third_party_id_expiry : ℕ
  pub submit_sm_expiry : ℕ
  pub to_json : Payload → String
  pub from_json : String → Result Payload

unfoldable pub sequence_number_key : ℕ → String
sequence_number_key seq_no = "sequence_number:" ++ show_nat seq_no

unfoldable pub multipart_info_key : String → String
multipart_info_key message_id = "multipart_info:" ++ message_id

unfoldable pub message_key : String → String
message_key message_id = "message:" ++ message_id

unfoldable pub remote_message_key : String → String
remote_message_key message_id = "remote_message:" ++ message_id

unfoldable pub part_key : String → String
part_key remote_id = "part:" ++ remote_id

-- `k.startswith(prefix)`, with what comes after the prefix
unfoldable pub without_prefix : String → String → Option String
without_prefix Text.[] s = some s
without_prefix (Text.◌∷◌ c p) Text.[] = none
without_prefix (Text.◌∷◌ c p) (Text.◌∷◌ d s) = if code c == code d then without_prefix p s else none

-- `dict((k[5:], v) for k, v in mp_info.items() if k.startswith('part:'))`; the keys of a dict
-- differ, and so do what is left of them.
abbrev pub add_part : Option String → String → Dict String → Dict String
add_part none v rest = rest
add_part (some id) v rest = (id, v) ∷ rest

unfoldable pub part_status : Dict String → Dict String
unfolding without_prefix
part_status [] = []
part_status ((k, v) ∷ info) = add_part (without_prefix "part:" k) v (part_status info)

-- `all(pv == 'ack' for pv in …)`
unfoldable pub all_ack : Dict String → Bool
all_ack [] = true
all_ack ((_, v) ∷ parts) = str_eq v "ack" && all_ack parts

abbrev pub Event : Type 0
Event = String × String

-- The event type that the parts show, or none while it is open.
unfoldable pub event_type_of :
    Option String → Option String → Dict String → Exec Redis (Option String)
event_type_of (some result) parts statuses = pure (some result)
event_type_of none parts statuses = do
  text ← or_raise parts key_error
  n ← or_raise (parse_int text) value_error
  pure (
      if leb_ℤ n (pos (length statuses))
      then some (if all_ack statuses then "ack" else "fail")
      else none)

module _ (config : Config) (now : ℕ) where
  open config use {third_party_id_expiry, submit_sm_expiry, to_json, from_json}

  unfoldable pub init_multipart_info : String → ℕ → Exec Redis ℕ
  init_multipart_info message_id part_count = do
    hmset (multipart_info_key message_id) (("parts", show_nat part_count) ∷ [])
    expire now (multipart_info_key message_id) third_party_id_expiry

  unfoldable pub set_sequence_number_message_id : ℕ → String → Exec Redis Bool
  unfolding sequence_number_key
  set_sequence_number_message_id sequence_number message_id =
      setex now (sequence_number_key sequence_number) third_party_id_expiry message_id

  unfoldable pub cache_message : String → Payload → Exec Redis Bool
  cache_message message_id message =
      setex now (message_key message_id) submit_sm_expiry (to_json message)

  -- `if json_data`: an empty text counts as nothing.
  unfoldable pub load_cached : Option String → Result (Option Payload)
  load_cached none = Result.ok none
  load_cached (some Text.[]) = Result.ok none
  load_cached (some (Text.◌∷◌ c s)) = elim (from_json (Text.◌∷◌ c s)) [
    | Result.ok message ↦ Result.ok (some message)
    | Result.err e ↦ Result.err e
  ]

  unfoldable pub get_cached_message : String → Exec Redis (Option Payload)
  unfolding load_cached
  get_cached_message message_id = do
    json_data ← get (message_key message_id)
    lift (load_cached json_data)

  unfoldable pub set_remote_message_id : Option String → String → Exec Redis (Option String)
  set_remote_message_id none smpp_message_id = pure none
  set_remote_message_id (some message_id) smpp_message_id = do
    setex now (remote_message_key smpp_message_id) third_party_id_expiry message_id
    pure (some message_id)

unfoldable pub get_sequence_number_message_id : ℕ → Exec Redis (Option String)
unfolding sequence_number_key
get_sequence_number_message_id sequence_number = get (sequence_number_key sequence_number)

unfoldable pub delete_cached_message : String → Exec Redis Bool
delete_cached_message message_id = delete (message_key message_id)

unfoldable pub get_internal_message_id : String → Exec Redis (Option String)
get_internal_message_id smpp_message_id = get (remote_message_key smpp_message_id)

unfoldable pub get_multipart_info : String → Exec Redis (Dict String)
get_multipart_info message_id = hgetall (multipart_info_key message_id)

unfoldable pub mark_success : String → String → Dict String → Exec Redis (Unit {0})
mark_success key remote_id [] = skip
mark_success key remote_id (_ ∷ _) = do hset key (part_key remote_id) "ack"; skip

unfoldable pub update_multipart_info_success : String → String → Exec Redis (Unit {0})
unfolding mark_success get_multipart_info
update_multipart_info_success message_id remote_id = do
  mp_info ← get_multipart_info message_id
  mark_success (multipart_info_key message_id) remote_id mp_info

unfoldable pub mark_failure : String → String → Dict String → Exec Redis (Unit {0})
mark_failure key remote_id [] = skip
mark_failure key remote_id (_ ∷ _) = do
  hset key (part_key remote_id) "fail"
  hset key "event_result" "fail"
  skip

unfoldable pub update_multipart_info_failure : String → String → Exec Redis (Unit {0})
unfolding mark_failure get_multipart_info
update_multipart_info_failure message_id remote_id = do
  mp_info ← get_multipart_info message_id
  mark_failure (multipart_info_key message_id) remote_id mp_info

-- The atomic increment, by which only the first of the concurrent responses sends the event.
unfoldable pub confirm_multipart_event : String → String → Option String → Exec Redis (Option Event)
confirm_multipart_event message_id remote_id none = pure none
confirm_multipart_event message_id remote_id (some event_type) = do
  counter ← hincrby (multipart_info_key message_id) "event_counter" (pos 1)
  pure (if eqb_ℤ counter (pos 1) then some (event_type, remote_id) else none)

-- `none` is `(False, None, None)`.
unfoldable pub determine_multipart_event :
    Dict String → String → String → String → Exec Redis (Option Event)
unfolding part_status event_type_of confirm_multipart_event
determine_multipart_event [] message_id event_type remote_id = pure (some (event_type, remote_id))
determine_multipart_event (e ∷ info) message_id event_type remote_id = do
  let mp_info = e ∷ info
  let statuses = part_status mp_info
  let remote_ids = join "," (sorted (keys statuses))
  result ← event_type_of (lookup "event_result" mp_info) (lookup "parts" mp_info) statuses
  confirm_multipart_event message_id remote_ids result

unfoldable pub get_multipart_event_info : String → String → String → Exec Redis (Option Event)
unfolding get_multipart_info determine_multipart_event
get_multipart_event_info message_id event_type remote_id = do
  mp_info ← get_multipart_info message_id
  determine_multipart_event mp_info message_id event_type remote_id
