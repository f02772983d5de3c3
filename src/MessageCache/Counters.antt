-- ===== src/MessageCache/Counters.antt =====
-- Batches and the two ways in which their messages are counted: by the size of the sorted set of
-- their keys, or by a counter beside a set that is truncated.
use vumi.Base.{
  ℕ, ◌+◌, ◌==◌, String, Bool, true, Option, none, some, List, [], ◌∷◌, if◌then◌else◌, leb,
}
use vumi.Base.Int.{ℤ, pos, negsuc, ◌-ℤ◌}
use vumi.Base.Decimal.{show_int, parse_int}
use vumi.Base.Dict.{Dict}
use vumi.Base.Exec.{Exec, value_error, pure, gets, or_raise, skip, when, for_each, ◌>>=◌, ◌>>◌}
use vumi.Redis.State.{Redis}
use vumi.Redis.Keys.{exists, delete}
use vumi.Redis.Texts.{get, set}
use vumi.Redis.Hashes.{hsetnx, hgetall}
use vumi.Redis.Sets.{sadd, srem, scard, smembers, sismember}
use vumi.Redis.Zset.{at}
use vumi.Redis.Zsets.{zcard, zcount, zrange_withscores, zremrangebyrank}
use vumi.MessageCache.Keys.{
  batch_key, outbound_key, outbound_count_key, inbound_key, inbound_count_key, to_addr_key,
  from_addr_key, status_key, event_key, event_count_key,
}

-- `TRUNCATE_MESSAGE_KEY_COUNT_AT`
abbrev pub truncate_message_key_count_at : ℕ
truncate_message_key_count_at = 2000

-- `truncate_at or self.TRUNCATE_MESSAGE_KEY_COUNT_AT`
abbrev pub limit_of : Option ℕ → ℕ
limit_of none = truncate_message_key_count_at
limit_of (some n) = if n == 0 then truncate_message_key_count_at else n

-- `_truncate_keys`; the index `truncate_at * -1` is `negsuc limit`, that is -(limit + 1)
unfoldable pub truncate_keys : String → Option ℕ → Exec Redis ℕ
truncate_keys redis_key truncate_at = do
  current_size ← zcard redis_key
  if leb current_size (limit_of truncate_at + 1)
      then pure 0
      else zremrangebyrank redis_key (pos 0) (negsuc (limit_of truncate_at))

-- `0 if count is None else int(count)`
abbrev pub int_or_zero : Option String → Exec Redis ℤ
int_or_zero none = pure (pos 0)
int_or_zero (some s) = or_raise (parse_int s) value_error

unfoldable pub get_count : String → Exec Redis ℤ
get_count count_key = do count ← get count_key; int_or_zero count

-- The throughput: how many keys lie within `sample_time` of the latest.
unfoldable pub throughput : String → ℤ → Exec Redis ℤ
unfolding ◌-ℤ◌
throughput redis_key sample_time = do
  last_seen ← zrange_withscores redis_key (pos 0) (pos 0) true
  elim last_seen [
    | [] ↦ pure (pos 0)
    | latest ∷ _ ↦ do
      count ← zcount redis_key (at (latest.0 -ℤ sample_time)) (at latest.0)
      or_raise (parse_int count) value_error
  ]

-- The events that a batch counts: the types, the delivery reports by status, and `sent`.
abbrev pub status_fields : List String
status_fields =
    "ack" ∷ "nack" ∷ "delivery_report" ∷ "delivery_report.pending" ∷ "delivery_report.failed"
    ∷ "delivery_report.delivered" ∷ "sent" ∷ []

-- `get_event_status`, its loop: `int` of each value
unfoldable pub all_ints : Dict String → Exec Redis (Dict ℤ)
all_ints [] = pure []
all_ints ((k, v) ∷ stats) = do
  n ← or_raise (parse_int v) value_error
  rest ← all_ints stats
  pure ((k, n) ∷ rest)

module _ (batch_id : String) where
  unfoldable pub uses_counters : Redis → Bool
  uses_counters r = exists (inbound_count_key batch_id) r

  unfoldable pub uses_event_counters : Redis → Bool
  uses_event_counters r = exists (event_count_key batch_id) r

  unfoldable pub truncate_inbound_message_keys : Option ℕ → Exec Redis ℕ
  truncate_inbound_message_keys truncate_at = truncate_keys (inbound_key batch_id) truncate_at

  unfoldable pub truncate_outbound_message_keys : Option ℕ → Exec Redis ℕ
  truncate_outbound_message_keys truncate_at = truncate_keys (outbound_key batch_id) truncate_at

  unfoldable pub truncate_event_keys : Option ℕ → Exec Redis ℕ
  truncate_event_keys truncate_at = truncate_keys (event_key batch_id) truncate_at

  unfoldable pub inbound_message_count : Exec Redis ℤ
  inbound_message_count = get_count (inbound_count_key batch_id)

  unfoldable pub inbound_message_keys_size : Exec Redis ℕ
  inbound_message_keys_size = zcard (inbound_key batch_id)

  unfoldable pub count_inbound_message_keys : Exec Redis ℤ
  unfolding uses_counters inbound_message_count inbound_message_keys_size
  count_inbound_message_keys = do
    counting ← gets uses_counters
    if counting then inbound_message_count else do n ← inbound_message_keys_size; pure (pos n)

  unfoldable pub outbound_message_count : Exec Redis ℤ
  outbound_message_count = get_count (outbound_count_key batch_id)

  unfoldable pub outbound_message_keys_size : Exec Redis ℕ
  outbound_message_keys_size = zcard (outbound_key batch_id)

  unfoldable pub count_outbound_message_keys : Exec Redis ℤ
  unfolding uses_counters outbound_message_count outbound_message_keys_size
  count_outbound_message_keys = do
    counting ← gets uses_counters
    if counting then outbound_message_count else do n ← outbound_message_keys_size; pure (pos n)

  unfoldable pub event_count : Exec Redis ℤ
  event_count = get_count (event_count_key batch_id)

  unfoldable pub count_event_keys : Exec Redis ℤ
  unfolding uses_event_counters event_count
  count_event_keys = do
    counting ← gets uses_event_counters
    if counting then event_count else do n ← scard (event_key batch_id); pure (pos n)

  -- `count or 0` is the count: nothing here returns None.
  unfoldable pub switch_to_counters : Exec Redis (Unit {0})
  unfolding uses_counters count_inbound_message_keys count_outbound_message_keys
  switch_to_counters = do
    counting ← gets uses_counters
    if counting then skip else (do
      inbound_count ← count_inbound_message_keys
      outbound_count ← count_outbound_message_keys
      set (inbound_count_key batch_id) (show_int inbound_count)
      set (outbound_count_key batch_id) (show_int outbound_count)
      truncate_inbound_message_keys none
      truncate_outbound_message_keys none
      skip)

  unfoldable pub init_field : String → Exec Redis (Unit {0})
  init_field field = do hsetnx (status_key batch_id) field "0"; skip

  unfoldable pub init_status : Exec Redis (Unit {0})
  unfolding init_field
  init_status = for_each status_fields init_field

  unfoldable pub batch_start : Bool → Exec Redis (Unit {0})
  unfolding init_status
  batch_start use_counters = do
    sadd (batch_key []) (batch_id ∷ [])
    init_status
    when use_counters (do
      set (inbound_count_key batch_id) "0"
      set (outbound_count_key batch_id) "0"
      set (event_count_key batch_id) "0")

  unfoldable pub batch_exists : Exec Redis Bool
  batch_exists = sismember (batch_key []) batch_id

  unfoldable pub clear_batch : Exec Redis (Unit {0})
  clear_batch = do
    delete (inbound_key batch_id)
    delete (inbound_count_key batch_id)
    delete (outbound_key batch_id)
    delete (outbound_count_key batch_id)
    delete (event_key batch_id)
    delete (event_count_key batch_id)
    delete (status_key batch_id)
    delete (to_addr_key batch_id)
    delete (from_addr_key batch_id)
    srem (batch_key []) batch_id
    skip

  unfoldable pub get_event_status : Exec Redis (Dict ℤ)
  unfolding all_ints
  get_event_status = do stats ← hgetall (status_key batch_id); all_ints stats

  unfoldable pub count_inbound_throughput : ℤ → Exec Redis ℤ
  unfolding throughput
  count_inbound_throughput sample_time = throughput (inbound_key batch_id) sample_time

  unfoldable pub count_outbound_throughput : ℤ → Exec Redis ℤ
  unfolding throughput
  count_outbound_throughput sample_time = throughput (outbound_key batch_id) sample_time

unfoldable pub get_batch_ids : Exec Redis (List String)
get_batch_ids = smembers (batch_key [])
