-- ===== src/Smpp/Transport.antt =====
-- `SmppTransceiverTransport` of vumi/transports/smpp/smpp_transport.py, with the responses of
-- `SmppTransceiverProtocol`. The processor that submits a message is a step that is logged, as are
-- events and failures. The reactor's delayed call is the delay that it was scheduled with.
use Prim.Native.Char.{code}
use Prim.Native.String as Text
use Prim.Native.String.{◌++◌}
use vumi.Base.{
  ℕ, ◌+◌, String, Bool, true, false, ◌&&◌, Option, none, some, List, [], ◌∷◌, leb, ltb, str_eq,
  if◌then◌else◌,
}
use vumi.Base.PySet.{member}
use vumi.Base.Exec.{Exec, type_error, pure, raise, lift, modify, gets, skip, when, ◌>>=◌, ◌>>◌}
use mathlib.Core.List.{◌++◌ as append}
use vumi.Redis.State.{Redis}
use vumi.Message.{Payload, Value, get_item}
use vumi.Smpp.Stash.{
  Config, Event, update_multipart_info_success, update_multipart_info_failure,
  get_multipart_event_info, get_cached_message, delete_cached_message, cache_message,
  get_sequence_number_message_id, set_remote_message_id, get_internal_message_id,
}

-- What the transport sends: events, failures, and messages to the SMSC.
pub data Outgoing : Type 0 where
  ack nack delivery_report : String → String → Outgoing
  failure : Payload → String → Outgoing
  submit : Payload → Outgoing

pub record Smpp : Type 0 where
  pub redis : Redis
  pub throttled : Bool
  pub paused : Bool
  pub throttled_message_ids : List String
  pub unthrottle_call : Option ℕ
  pub tps_counter : ℕ
  pub tps_limit : ℕ
  pub out : List Outgoing

module _ {A : Type 0} where
  -- A call of the message stash.
  abbrev pub stash : Exec Redis A → Exec Smpp A
  stash m s = let (res, r) = m s.redis in (res, record s { redis = r })

abbrev pub send : Outgoing → Exec Smpp (Unit {0})
send o = modify (λ s. record s { out = append s.out (o ∷ []) })

unfoldable pub start_throttling : Exec Smpp (Unit {0})
start_throttling =
    modify (λ s. if s.throttled then s else record s { throttled = true; paused = true })

unfoldable pub stop_throttling : Exec Smpp (Unit {0})
stop_throttling =
    modify (λ s. if s.throttled then record s { throttled = false; paused = false } else s)

unfoldable pub reset_mt_throttle_counter : Exec Smpp (Unit {0})
reset_mt_throttle_counter = modify (λ s. record s { tps_counter = 0 })

unfoldable pub incr_mt_throttle_counter : Exec Smpp (Unit {0})
incr_mt_throttle_counter = modify (λ s. record s { tps_counter = s.tps_counter + 1 })

unfoldable pub need_mt_throttling : Smpp → Bool
need_mt_throttling s = leb s.tps_limit s.tps_counter

-- Called once a second where there is a limit.
unfoldable pub reset_mt_tps : Exec Smpp (Unit {0})
unfolding need_mt_throttling reset_mt_throttle_counter stop_throttling
reset_mt_tps = do
  s ← gets (λ t. t)
  when (s.throttled && need_mt_throttling s) (do reset_mt_throttle_counter; stop_throttling)

unfoldable pub check_mt_throttling : Exec Smpp (Unit {0})
unfolding incr_mt_throttle_counter need_mt_throttling start_throttling
check_mt_throttling = do
  incr_mt_throttle_counter
  needed ← gets need_mt_throttling
  when needed start_throttling

-- `callLater`, unless there is a call already
unfoldable pub check_stop_throttling : ℕ → Exec Smpp (Unit {0})
check_stop_throttling delay =
    modify (λ s. elim s.unthrottle_call [
      | none ↦ record s { unthrottle_call = some delay }
      | some d ↦ s
    ])

unfoldable pub append_throttle_retry : String → Exec Smpp (Unit {0})
append_throttle_retry message_id = modify (λ s.
    if member message_id s.throttled_message_ids
    then s
    else record s { throttled_message_ids = append s.throttled_message_ids (message_id ∷ []) })

-- The two assignments of `_check_stop_throttling`.
unfoldable pub set_waiting : List String → Exec Smpp (Unit {0})
set_waiting ids = modify (λ s. record s { throttled_message_ids = ids })

unfoldable pub forget_call : Exec Smpp (Unit {0})
forget_call = modify (λ s. record s { unthrottle_call = none })

-- `message[field]` as a text
abbrev pub as_text : Value → Exec Smpp String
as_text (Value.text s) = pure s
as_text _ = raise type_error

unfoldable pub text_field : String → Payload → Exec Smpp String
unfolding get_item
text_field field message = do v ← lift (get_item field message).0; as_text v

-- `text.encode('ascii')` raises nothing
unfoldable pub is_ascii : String → Bool
is_ascii Text.[] = true
is_ascii (Text.◌∷◌ c s) = ltb (code c) 128 && is_ascii s

unfoldable pub reject_for_invalid_address : Payload → String → String → Exec Smpp (Unit {0})
unfolding text_field
reject_for_invalid_address message field address = do
  message_id ← text_field "message_id" message
  send (nack message_id ("Invalid " ++ field ++ ": " ++ address))

module _ (config : Config) (now : ℕ) where
  unfoldable pub submit_and_cache : Payload → Exec Smpp (Unit {0})
  unfolding text_field
  submit_and_cache message = do
    send (submit message)
    message_id ← text_field "message_id" message
    stash (cache_message config now message_id message)
    skip

  -- `mt_tps > 0` is `bind_requires_throttling`.
  unfoldable pub handle_outbound_message : Payload → Exec Smpp (Unit {0})
  unfolding check_mt_throttling text_field reject_for_invalid_address submit_and_cache
  handle_outbound_message message = do
    limit ← gets (λ s. s.tps_limit)
    when (ltb 0 limit) check_mt_throttling
    to_addr ← text_field "to_addr" message
    if is_ascii to_addr
        then (do
          from_addr ← text_field "from_addr" message
          if is_ascii from_addr
              then submit_and_cache message
              else reject_for_invalid_address message "from_addr" from_addr)
        else reject_for_invalid_address message "to_addr" to_addr

  -- `command_status or 'Unspecified'`
  abbrev pub reason_of : String → String
  reason_of status = if str_eq status "" then "Unspecified" else status

  abbrev pub fail_message : String → String → Option Payload → Exec Smpp (Unit {0})
  fail_message message_id status none = skip
  fail_message message_id status (some message) = do
    stash (delete_cached_message message_id)
    send (nack message_id (reason_of status))
    send (failure message (reason_of status))

  unfoldable pub process_submit_sm_event : String → String → String → String → Exec Smpp (Unit {0})
  process_submit_sm_event message_id event_type remote_id command_status =
      if str_eq event_type "ack"
      then (do send (ack message_id remote_id); stash (delete_cached_message message_id); skip)
      else (do
        message ← stash (get_cached_message config now message_id)
        fail_message message_id command_status message)

  unfoldable pub process_event : String → String → Option Event → Exec Smpp (Unit {0})
  unfolding process_submit_sm_event
  process_event message_id command_status none = skip
  process_event message_id command_status (some (event_type, remote_id)) =
      process_submit_sm_event message_id event_type remote_id command_status

  unfoldable pub resume_if_throttled : Exec Smpp (Unit {0})
  unfolding check_stop_throttling
  resume_if_throttled = do
    throttled ← gets (λ s. s.throttled)
    when throttled (check_stop_throttling 0)

  unfoldable pub handle_submit_sm_success : String → String → String → Exec Smpp (Unit {0})
  unfolding process_event resume_if_throttled
  handle_submit_sm_success message_id smpp_message_id command_status = do
    stash (update_multipart_info_success message_id smpp_message_id)
    event ← stash (get_multipart_event_info message_id "ack" smpp_message_id)
    process_event message_id command_status event
    resume_if_throttled

  unfoldable pub handle_submit_sm_failure : String → String → String → Exec Smpp (Unit {0})
  unfolding process_event resume_if_throttled
  handle_submit_sm_failure message_id smpp_message_id command_status = do
    stash (update_multipart_info_failure message_id smpp_message_id)
    event ← stash (get_multipart_event_info message_id "fail" smpp_message_id)
    process_event message_id command_status event
    resume_if_throttled

  unfoldable pub handle_submit_sm_throttled : ℕ → String → Exec Smpp (Unit {0})
  unfolding start_throttling append_throttle_retry check_stop_throttling
  handle_submit_sm_throttled throttle_delay message_id = do
    start_throttling
    append_throttle_retry message_id
    check_stop_throttling throttle_delay

  -- By the status of the response.
  unfoldable pub submit_sm_callback : ℕ → String → String → String → Exec Smpp (Unit {0})
  unfolding handle_submit_sm_success handle_submit_sm_throttled handle_submit_sm_failure
  submit_sm_callback throttle_delay message_id smpp_message_id command_status =
      if str_eq command_status "ESME_ROK"
      then handle_submit_sm_success message_id smpp_message_id command_status
      else if str_eq command_status "ESME_RTHROTTLED"
      then handle_submit_sm_throttled throttle_delay message_id
      else if str_eq command_status "ESME_RMSGQFUL"
      then handle_submit_sm_throttled throttle_delay message_id
      else handle_submit_sm_failure message_id smpp_message_id command_status

  -- `_handle_submit_sm_resp_callback`
  abbrev pub with_message_id : ℕ → String → String → Option String → Exec Smpp (Unit {0})
  with_message_id throttle_delay smpp_message_id command_status none = skip
  with_message_id throttle_delay smpp_message_id command_status (some id) =
      submit_sm_callback throttle_delay id smpp_message_id command_status

  unfoldable pub on_submit_sm_resp : ℕ → ℕ → String → String → Exec Smpp (Unit {0})
  unfolding submit_sm_callback
  on_submit_sm_resp throttle_delay sequence_number smpp_message_id command_status = do
    found ← stash (get_sequence_number_message_id sequence_number)
    message_id ← stash (set_remote_message_id config now found smpp_message_id)
    with_message_id throttle_delay smpp_message_id command_status message_id

  abbrev pub retry_or_again : Option Payload → Exec Smpp (Unit {0})
  retry_or_again none = check_stop_throttling 0
  retry_or_again (some message) = handle_outbound_message message

  -- What `_check_stop_throttling` does with the first of the waiting messages.
  unfoldable pub retry_first : List String → Exec Smpp (Unit {0})
  unfolding stop_throttling check_stop_throttling handle_outbound_message set_waiting
  retry_first [] = stop_throttling
  retry_first (message_id ∷ rest) = do
    set_waiting rest
    message ← stash (get_cached_message config now message_id)
    retry_or_again message

  -- `_check_stop_throttling`, which the delayed call runs
  unfoldable pub run_check_stop_throttling : Exec Smpp (Unit {0})
  unfolding retry_first forget_call
  run_check_stop_throttling = do
    forget_call
    waiting ← gets (λ s. s.throttled_message_ids)
    retry_first waiting

abbrev pub report_for : String → Option String → Exec Smpp (Unit {0})
report_for delivery_status none = skip
report_for delivery_status (some message_id) = send (delivery_report message_id delivery_status)

-- `handle_delivery_report`
unfoldable pub handle_delivery_report : String → String → Exec Smpp (Unit {0})
handle_delivery_report receipted_message_id delivery_status = do
  found ← stash (get_internal_message_id receipted_message_id)
  report_for delivery_status found
