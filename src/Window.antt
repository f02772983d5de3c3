-- ===== src/Window.antt =====
-- vumi/components/window_manager.py: `WindowManager` over the store of fake_redis.py. The clock is
-- the argument `now`, a uuid and `json` are parameters, and the two looping calls are the functions
-- that they call. The callback of the monitor is an argument.
pub mod Keys
pub mod Flight
pub mod External
pub mod Items
mod Tests
use vumi.Base.{
  ℕ, zero, suc, ◌-◌, ◌*◌, String, ◌==◌, ◌||◌, Bool, true, false, not, ◌&&◌, Option, none, some,
  List, [], ◌∷◌, if◌then◌else◌, ltb, str_eq, is_some,
}
use vumi.Base.Int.{ℤ, pos, negsuc, ◌-ℤ◌}
use vumi.Base.Text.{join}
use vumi.Base.Exec.{
  Exec, Result, window_exception, type_error, pure, raise, lift, skip, ◌>>=◌, ◌>>◌, for_each,
}
use vumi.Redis.State.{Redis}
use vumi.Redis.Keys.{delete}
use vumi.Redis.Texts.{get, set}
use vumi.Redis.Lists.{llen, lpush, lrem, rpoplpush}
use vumi.Redis.Zset.{at, neg_inf}
use vumi.Redis.Zsets.{zadd, zrem, zrange, zrangebyscore, zscore}

-- `":".join(["windows", …])`
unfoldable pub window_key : List String → String
unfolding join
window_key keys = join ":" ("windows" ∷ keys)

abbrev pub flight_key : List String → String
flight_key keys = window_key ("inflight" ∷ keys)

abbrev pub stats_key : List String → String
stats_key keys = window_key ("flightstats" ∷ keys)

abbrev pub map_key : List String → String
map_key keys = window_key ("keymap" ∷ keys)

-- The numbers that the manager was made with.
pub record WindowManager : Type 0 where
  pub window_size : ℕ
  pub flight_lifetime : ℕ

-- `flight_lifetime or (gc_interval * window_size)`
unfoldable pub new : ℕ → Option ℕ → ℕ → WindowManager
new window_size none gc_interval = record {
  window_size = window_size;
  flight_lifetime = gc_interval * window_size;
}
new window_size (some t) gc_interval = record {
  window_size = window_size;
  flight_lifetime = if t == 0 then gc_interval * window_size else t;
}

unfoldable pub get_windows : Exec Redis (List String)
get_windows = zrange (window_key []) (pos 0) (negsuc 0) false

unfoldable pub window_exists : String → Exec Redis Bool
window_exists window_id = do score ← zscore (window_key []) window_id; pure (is_some score)

unfoldable pub create_window : ℤ → String → Bool → Exec Redis ℤ
unfolding window_exists
create_window now window_id strict = do
  found ← (if strict then window_exists window_id else pure false)
  if found then raise window_exception else do zadd "windows" ((window_id, now) ∷ []); pure now

unfoldable pub count_waiting : String → Exec Redis ℕ
count_waiting window_id = llen (window_key (window_id ∷ []))

unfoldable pub count_in_flight : String → Exec Redis ℕ
count_in_flight window_id = llen (flight_key (window_id ∷ []))

unfoldable pub remove_window : String → Exec Redis (Unit {0})
unfolding count_waiting
remove_window window_id = do
  waiting_list ← count_waiting window_id
  if ltb 0 waiting_list then raise window_exception else do zrem "windows" window_id; skip

unfoldable pub set_timestamp : ℤ → String → String → Exec Redis ℤ
set_timestamp now window_id key = zadd (stats_key (window_id ∷ [])) ((key, now) ∷ [])

unfoldable pub clear_timestamp : String → String → Exec Redis Bool
clear_timestamp window_id key = zrem (stats_key (window_id ∷ [])) key

-- `key or uuid.uuid4().get_hex()`
abbrev pub key_or : String → Option String → String
key_or uuid none = uuid
key_or uuid (some key) = if str_eq key "" then uuid else key

-- An item is returned only where `rpoplpush` returned one.
abbrev pub stamp_next : ℤ → String → Option String → Exec Redis (Option String)
stamp_next now window_id none = pure none
stamp_next now window_id (some key) =
    if str_eq key "" then pure none else do set_timestamp now window_id key; pure (some key)

unfoldable pub get_next_key : WindowManager → ℤ → String → Exec Redis (Option String)
unfolding count_waiting count_in_flight
get_next_key m now window_id = do
  waiting_list ← count_waiting window_id
  if waiting_list == 0 then pure none else do
    flight_size ← count_in_flight window_id
    if ltb flight_size m.window_size
        then (do
          next_key ← rpoplpush (window_key (window_id ∷ [])) (flight_key (window_id ∷ []))
          stamp_next now window_id next_key)
        else pure none

unfoldable pub get_expired_flight_keys : WindowManager → ℤ → String → Exec Redis (List String)
get_expired_flight_keys m now window_id =
    zrangebyscore (stats_key (window_id ∷ [])) neg_inf (at (now -ℤ pos m.flight_lifetime)) (pos 0)
      none

unfoldable pub clear_flight_key : String → String → Exec Redis (Unit {0})
clear_flight_key window_id key = do lrem (flight_key (window_id ∷ [])) key (pos 1); skip

unfoldable pub clear_expired_flight_keys : WindowManager → ℤ → Exec Redis (Unit {0})
unfolding get_windows get_expired_flight_keys clear_flight_key
clear_expired_flight_keys m now = do
  windows ← get_windows
  for_each windows (λ (window_id : String). do
    expired_keys ← get_expired_flight_keys m now window_id
    for_each expired_keys (clear_flight_key window_id))

unfoldable pub set_external_id : String → String → String → Exec Redis (Unit {0})
set_external_id window_id key external_id = do
  set (map_key (window_id ∷ "internal" ∷ external_id ∷ [])) key
  set (map_key (window_id ∷ "external" ∷ key ∷ [])) external_id

unfoldable pub get_internal_id : String → String → Exec Redis (Option String)
get_internal_id window_id external_id = get (map_key (window_id ∷ "internal" ∷ external_id ∷ []))

unfoldable pub get_external_id : String → String → Exec Redis (Option String)
get_external_id window_id key = get (map_key (window_id ∷ "external" ∷ key ∷ []))

abbrev pub forget_id : String → String → Option String → Exec Redis (Unit {0})
forget_id window_id key none = skip
forget_id window_id key (some external_id) = if str_eq external_id "" then skip else do
  delete (map_key (window_id ∷ "external" ∷ key ∷ []))
  delete (map_key (window_id ∷ "internal" ∷ external_id ∷ []))
  skip

unfoldable pub clear_external_id : String → String → Exec Redis (Unit {0})
unfolding get_external_id
clear_external_id window_id key = do
  external_id ← get_external_id window_id key
  forget_id window_id key external_id

unfoldable pub remove_key : String → String → Exec Redis (Unit {0})
unfolding clear_external_id clear_timestamp
remove_key window_id key = do
  lrem (flight_key (window_id ∷ [])) key (pos 1)
  delete (window_key (window_id ∷ key ∷ []))
  delete (stats_key (window_id ∷ key ∷ []))
  clear_external_id window_id key
  clear_timestamp window_id key
  skip

-- `json` at the data of a window.
module _ {A : Type 0} (dumps : A → String) (loads : String → Result A) where
  unfoldable pub add : String → String → A → Option String → Exec Redis String
  add uuid window_id payload key = do
    set (window_key (window_id ∷ key_or uuid key ∷ [])) (dumps payload)
    lpush (window_key (window_id ∷ [])) (key_or uuid key)
    pure (key_or uuid key)

  unfoldable pub get_data : String → String → Exec Redis A
  get_data window_id key = do
    json_data ← get (window_key (window_id ∷ key ∷ []))
    elim json_data [ none ↦ raise type_error | some t ↦ lift (loads t) ]

module _ (m : WindowManager) (now : ℤ) (key_callback : String → String → Exec Redis (Unit {0}))
    (cleanup_callback : String → Exec Redis (Unit {0})) where
  -- The `while key` loop; the fuel bounds the number of keys, since the callback may add some.
  unfoldable pub drain : ℕ → String → Exec Redis (Unit {0})
  unfolding get_next_key
  drain zero window_id = skip
  drain (suc fuel) window_id = do
    key ← get_next_key m now window_id
    elim key [ none ↦ skip | some k ↦ do key_callback window_id k; drain fuel window_id ]

  unfoldable pub monitor_window : ℕ → Bool → String → Exec Redis (Unit {0})
  unfolding drain count_waiting count_in_flight remove_window
  monitor_window fuel cleanup window_id = do
    drain fuel window_id
    if cleanup
        then (do
          waiting ← count_waiting window_id
          in_flight ← (if ltb 0 waiting then pure waiting else count_in_flight window_id)
          if ltb 0 in_flight then skip else do cleanup_callback window_id; remove_window window_id)
        else skip

  unfoldable pub monitor_windows : ℕ → Bool → Exec Redis (Unit {0})
  unfolding monitor_window get_windows
  monitor_windows fuel cleanup = do
    windows ← get_windows
    for_each windows (monitor_window fuel cleanup)
