-- ===== src/Failures.antt =====
-- vumi/transports/failures.py: `FailureWorker`, which keeps failed messages in the store and sends
-- those whose failure was temporary again, later and later. Times are whole seconds. What the module
-- `datetime` writes and reads, the generated key and JSON are parameters.
pub mod Backoff
pub mod Plan
pub mod Schedule
pub mod Taking
mod Tests
use Prim.Native.String.{◌++◌, compare}
use text.Mathlib.Text.{is_le}
use mathlib.Core.Option
use vumi.Base.{
  ℕ, zero, suc, ◌+◌, ◌-◌, ◌*◌, ◌%◌, String, Bool, true, false, Option, none, some, List, [], ◌∷◌,
  ◌==◌, ltb, str_eq, not, if◌then◌else◌,
}
use Prim.Native.Nat.{min}
use vumi.Base.Int.{ℤ, pos}
use vumi.Base.Decimal.{show_nat}
use vumi.Base.Dict.{Dict, lookup, lookup_or, insert}
use vumi.Base.Exec.{Exec, key_error, type_error, pure, raise, or_raise, skip, when, ◌>>=◌, ◌>>◌}
use vumi.Redis.State.{Redis}
use vumi.Redis.Hashes.{hmset, hgetall}
use vumi.Redis.Sets.{sadd, smembers, spop, scard}
use vumi.Redis.Zsets.{zadd, zrem, zrange}

-- The four numbers are those of `configure_retries`. `isoformat` writes a time without its fraction
-- of a second, and `mktime` is the number of seconds of such a text.
pub record Config : Type 0 where
  pub granularity : ℕ
  pub max_delay : ℕ
  pub initial_delay : ℕ
  pub delay_factor : ℕ
  pub isoformat : ℕ → String
  pub mktime : String → ℤ

-- A failed message: its JSON, or a dict of which only the retry metadata is looked at.
pub data Message : Type 0 where
  json : String → Message
  fields : Option (Dict ℕ) → String → Message

abbrev pub timestamps_key : String
timestamps_key = "retry_timestamps"

unfoldable pub bucket_key : String → String
bucket_key timestamp = "retry_keys." ++ timestamp

unfoldable pub add_to_failure_set : String → Exec Redis ℕ
add_to_failure_set key = sadd "failure_keys" (key ∷ [])

unfoldable pub get_failure_keys : Exec Redis (List String)
get_failure_keys = smembers "failure_keys"

unfoldable pub get_failure : String → Exec Redis (Dict String)
get_failure failure_key = hgetall failure_key

-- `if not retry_key`
abbrev pub key_or_empty : Option String → Option String
key_or_empty none = none
key_or_empty (some key) = if str_eq key "" then none else some key

abbrev pub metadata_or_empty : Option (Dict ℕ) → Dict ℕ
metadata_or_empty none = []
metadata_or_empty (some rmd) = rmd

-- `failure_code == FailureMessage.FC_TEMPORARY`
abbrev pub is_temporary : Option String → Bool
is_temporary none = false
is_temporary (some code) = str_eq code "temporary"

module _ (config : Config) where
  open config use {granularity, max_delay, initial_delay, delay_factor, isoformat, mktime}

  -- `failure_key`, of the time and an id
  unfoldable pub failure_key : ℕ → String → String
  failure_key now id = "failure." ++ isoformat now ++ "." ++ id

  -- The end of the interval of `granularity` seconds that `now + delta` falls in.
  unfoldable pub next_write_time : ℕ → ℕ → ℕ
  next_write_time delta now =
      let timestamp = now + delta in timestamp + (granularity - timestamp % granularity)

  unfoldable pub get_next_write_timestamp : ℕ → ℕ → String
  unfolding next_write_time
  get_next_write_timestamp delta now = isoformat (next_write_time delta now)

  unfoldable pub store_read_timestamp : String → Exec Redis ℤ
  store_read_timestamp timestamp = zadd timestamps_key ((timestamp, mktime timestamp) ∷ [])

  unfoldable pub store_retry : String → ℕ → ℕ → Exec Redis (Unit {0})
  unfolding get_next_write_timestamp store_read_timestamp bucket_key
  store_retry key retry_delay now = do
    let timestamp = get_next_write_timestamp retry_delay now
    sadd (bucket_key timestamp) (key ∷ [])
    store_read_timestamp timestamp
    skip

  unfoldable pub first_due : String → List String → Option String
  first_due timestamp [] = none
  first_due timestamp (next ∷ _) = if is_le (compare next timestamp) then some next else none

  unfoldable pub get_next_read_timestamp : ℕ → Exec Redis (Option String)
  unfolding first_due
  get_next_read_timestamp now = do
    next_timestamp ← zrange timestamps_key (pos 0) (pos 0) false
    pure (first_due (isoformat now) next_timestamp)

  -- `pick` is the choice of SPOP. An empty text counts as no timestamp.
  unfoldable pub pop_retry_key : ℕ → Option String → Exec Redis (Option String)
  pop_retry_key pick none = pure none
  pop_retry_key pick (some timestamp) = if str_eq timestamp "" then pure none else (do
    failure_key ← spop pick (bucket_key timestamp)
    left ← scard (bucket_key timestamp)
    when (ltb left 1) (do zrem timestamps_key timestamp; skip)
    pure failure_key)

  unfoldable pub get_next_retry_key : ℕ → ℕ → Exec Redis (Option String)
  unfolding get_next_read_timestamp pop_retry_key
  get_next_retry_key pick now = do
    timestamp ← get_next_read_timestamp now
    pop_retry_key pick timestamp

  -- What is published is the raw message of the failure.
  unfoldable pub deliver_retry : String → Exec Redis String
  unfolding get_failure
  deliver_retry retry_key = do
    failure ← get_failure retry_key
    or_raise (lookup "message" failure) key_error

  -- The body of the loop, with what the later rounds do.
  abbrev pub deliver_key :
      Exec Redis (Option (List String)) → Option String → Exec Redis (Option (List String))
  deliver_key later none = pure (some [])
  deliver_key later (some key) = do
    published ← deliver_retry key
    rest ← later
    pure (Option.map (λ l. published ∷ l) rest)

  -- `deliver_retries`, with what it publishes; `none` where the fuel ran out. An empty key ends it.
  unfoldable pub deliver_retries : ℕ → ℕ → ℕ → Exec Redis (Option (List String))
  unfolding get_next_retry_key deliver_retry
  deliver_retries zero pick now = pure none
  deliver_retries (suc fuel) pick now = do
    retry_key ← get_next_retry_key pick now
    deliver_key (deliver_retries fuel pick now) (key_or_empty retry_key)

  unfoldable pub next_retry_delay : ℕ → ℕ
  next_retry_delay delay =
      if delay == 0 then initial_delay else min (delay * delay_factor) max_delay

  unfoldable pub update_retry_metadata : Dict ℕ → Dict ℕ
  unfolding next_retry_delay
  update_retry_metadata rmd =
      ("retries", lookup_or "retries" rmd 0 + 1)
      ∷ ("delay", next_retry_delay (lookup_or "delay" rmd 0))
      ∷ []

  -- `to_json` is that of vumi/message.py, on a message that is not JSON yet.
  module _ (to_json : Message → String) where
    abbrev pub message_json : Message → String
    message_json (json s) = s
    message_json (fields rmd rest) = to_json (fields rmd rest)

    unfoldable pub store_failure : ℕ → String → Message → String → ℕ → Exec Redis String
    unfolding failure_key add_to_failure_set store_retry
    store_failure now id message reason retry_delay = do
      let key = failure_key now id
      hmset key (
          ("message", message_json message)
          ∷ ("reason", reason)
          ∷ ("retry_delay", show_nat retry_delay)
          ∷ [])
      add_to_failure_set key
      when (not (retry_delay == 0)) (store_retry key retry_delay now)
      pure key

    -- A message that is a text has no `get`.
    unfoldable pub do_retry : ℕ → String → Message → String → Exec Redis String
    unfolding update_retry_metadata store_failure
    do_retry now id (json s) reason = raise type_error
    do_retry now id (fields rmd rest) reason = do
      let updated = update_retry_metadata (metadata_or_empty rmd)
      store_failure now id (fields (some updated) rest) reason (lookup_or "delay" updated 0)

    -- `handle_failure`, which `process_message` calls with the parts of the failure message
    unfoldable pub handle_failure :
        ℕ → String → Message → Option String → String → Exec Redis String
    unfolding do_retry store_failure
    handle_failure now id message failure_code reason =
        if is_temporary failure_code
        then do_retry now id message reason
        else store_failure now id message reason 0
