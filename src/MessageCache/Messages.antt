-- ===== src/MessageCache/Messages.antt =====
-- Adding messages and events to the cache. `get_timestamp` stands for `time.mktime` of the
-- timestamp of a message.
use vumi.Base.{String, Bool, none, not, List, [], ◌∷◌, if◌then◌else◌, str_eq, ltb, ℕ}
use Prim.Native.String.{◌++◌}
use vumi.Base.Int.{ℤ, pos, negsuc, eqb_ℤ}
use vumi.Base.Exec.{Exec, type_error, pure, raise, gets, lift, skip, when, ◌>>=◌, ◌>>◌}
use vumi.Redis.State.{Redis}
use vumi.Redis.Texts.{incr}
use vumi.Redis.Hashes.{hincrby}
use vumi.Redis.Sets.{sadd}
use vumi.Redis.Zsets.{zadd, zcard, zrange}
use vumi.Message.{Value, Payload, get_item}
use vumi.MessageCache.Keys.{
  outbound_key, outbound_count_key, inbound_key, inbound_count_key, to_addr_key, from_addr_key,
  status_key, event_key, event_count_key,
}
use vumi.MessageCache.Counters.{
  uses_counters, uses_event_counters, truncate_inbound_message_keys, truncate_outbound_message_keys,
  truncate_event_keys,
}

-- `if new_entry` on what `zadd` returned
abbrev pub is_new : ℤ → Bool
is_new n = not (eqb_ℤ n (pos 0))

-- `msg[field]`, and `msg[field]` where the code goes on to use it as a text. The status of a valid
-- delivery report is a text too.
abbrev pub item : Payload → String → Exec Redis Value
item msg field = lift (get_item field msg).0

abbrev pub as_text : Value → Exec Redis String
as_text (Value.text s) = pure s
as_text _ = raise type_error

unfoldable pub text_item : Payload → String → Exec Redis String
unfolding get_item
text_item msg field = do v ← item msg field; as_text v

module _ (batch_id : String) where
  unfoldable pub increment_event_status : String → Exec Redis ℤ
  increment_event_status event_type = hincrby (status_key batch_id) event_type (pos 1)

  unfoldable pub add_to_addr : String → ℤ → Exec Redis ℤ
  add_to_addr to_addr timestamp = zadd (to_addr_key batch_id) ((to_addr, timestamp) ∷ [])

  unfoldable pub add_from_addr : String → ℤ → Exec Redis ℤ
  add_from_addr from_addr timestamp = zadd (from_addr_key batch_id) ((from_addr, timestamp) ∷ [])

  unfoldable pub count_inbound : Exec Redis (Unit {0})
  count_inbound = do
    incr (inbound_count_key batch_id) (pos 1)
    truncate_inbound_message_keys batch_id none
    skip

  unfoldable pub add_inbound_message_key : String → ℤ → Exec Redis (Unit {0})
  unfolding count_inbound
  add_inbound_message_key message_key timestamp = do
    new_entry ← zadd (inbound_key batch_id) ((message_key, timestamp) ∷ [])
    when (is_new new_entry)
        (do counting ← gets (uses_counters batch_id); when counting count_inbound)

  unfoldable pub count_outbound : Exec Redis (Unit {0})
  count_outbound = do
    incr (outbound_count_key batch_id) (pos 1)
    truncate_outbound_message_keys batch_id none
    skip

  unfoldable pub add_outbound_message_key : String → ℤ → Exec Redis (Unit {0})
  unfolding count_outbound increment_event_status
  add_outbound_message_key message_key timestamp = do
    new_entry ← zadd (outbound_key batch_id) ((message_key, timestamp) ∷ [])
    when (is_new new_entry) (do
      increment_event_status "sent"
      counting ← gets (uses_counters batch_id)
      when counting count_outbound)

  unfoldable pub count_event : Exec Redis (Unit {0})
  count_event = do incr (event_count_key batch_id) (pos 1); truncate_event_keys batch_id none; skip

  -- The key of an event goes into a sorted set, or into a set where events are not counted.
  unfoldable pub add_event_key : String → ℤ → Exec Redis Bool
  unfolding count_event
  add_event_key key timestamp = do
    counting ← gets (uses_event_counters batch_id)
    if counting
        then (do
          new_entry ← zadd (event_key batch_id) ((key, timestamp) ∷ [])
          when (is_new new_entry) count_event
          pure (is_new new_entry))
        else (do new_entry ← sadd (event_key batch_id) (key ∷ []); pure (ltb 0 new_entry))

  unfoldable pub count_status : String → Payload → Exec Redis (Unit {0})
  unfolding increment_event_status text_item
  count_status event_type msg = do
    increment_event_status event_type
    when (str_eq event_type "delivery_report") (do
      status ← text_item msg "delivery_status"
      increment_event_status (event_type ++ "." ++ status)
      skip)

  module _ (get_timestamp : Value → ℤ) where
    unfoldable pub add_inbound_message : Payload → Exec Redis (Unit {0})
    unfolding text_item add_inbound_message_key add_from_addr
    add_inbound_message msg = do
      timestamp ← item msg "timestamp"
      message_id ← text_item msg "message_id"
      add_inbound_message_key message_id (get_timestamp timestamp)
      from_addr ← text_item msg "from_addr"
      add_from_addr from_addr (get_timestamp timestamp)
      skip

    unfoldable pub add_outbound_message : Payload → Exec Redis (Unit {0})
    unfolding text_item add_outbound_message_key add_to_addr
    add_outbound_message msg = do
      timestamp ← item msg "timestamp"
      message_id ← text_item msg "message_id"
      add_outbound_message_key message_id (get_timestamp timestamp)
      to_addr ← text_item msg "to_addr"
      add_to_addr to_addr (get_timestamp timestamp)
      skip

    unfoldable pub add_event : Payload → Exec Redis (Unit {0})
    unfolding text_item add_event_key count_status
    add_event event = do
      event_id ← text_item event "event_id"
      timestamp ← item event "timestamp"
      new_entry ← add_event_key event_id (get_timestamp timestamp)
      when new_entry (do event_type ← text_item event "event_type"; count_status event_type event)

  unfoldable pub get_from_addrs : Bool → Exec Redis (List String)
  get_from_addrs asc = zrange (from_addr_key batch_id) (pos 0) (negsuc 0) (not asc)

  unfoldable pub count_from_addrs : Exec Redis ℕ
  count_from_addrs = zcard (from_addr_key batch_id)

  unfoldable pub get_to_addrs : Bool → Exec Redis (List String)
  get_to_addrs asc = zrange (to_addr_key batch_id) (pos 0) (negsuc 0) (not asc)

  unfoldable pub count_to_addrs : Exec Redis ℕ
  count_to_addrs = zcard (to_addr_key batch_id)

  -- The two below without `with_timestamp`.
  unfoldable pub get_inbound_message_keys : ℤ → ℤ → Bool → Exec Redis (List String)
  get_inbound_message_keys start stop asc = zrange (inbound_key batch_id) start stop (not asc)

  unfoldable pub get_outbound_message_keys : ℤ → ℤ → Bool → Exec Redis (List String)
  get_outbound_message_keys start stop asc = zrange (outbound_key batch_id) start stop (not asc)
