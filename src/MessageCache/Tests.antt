-- ===== src/MessageCache/Tests.antt =====
-- The theorems on the cache at concrete inputs.
use vumi.Base.{◌≡◌, refl, true, some, [], ◌∷◌, length, is_some, if◌then◌else◌}
use vumi.Base.Int.{pos, ◌+ℤ◌}
use vumi.Base.Decimal.{parse_int}
use vumi.Base.Dict.{lookup}
use vumi.Base.Exec.{ok}
use vumi.Redis.State.{Redis, text, zset, value_at, as_zset}
use vumi.Redis.Keys.{exists}
use vumi.Redis.Zset as Zset
use vumi.Redis.Zset.{Zval, zscore}
use vumi.MessageCache.Keys.{inbound_key, outbound_key, inbound_count_key}
use vumi.MessageCache.Counters.{
  count_inbound_message_keys, count_outbound_message_keys, uses_counters, switch_to_counters,
}
use vumi.MessageCache.Messages.{add_inbound_message_key}
use vumi.MessageCache.Counting.{Counts, truncated, add_inbound_message_key_lem}
use vumi.MessageCache.Switch.{switch_to_counters_lem}

abbrev messages : Zval
messages = (pos 1, "a") ∷ (pos 2, "b") ∷ (pos 5, "c") ∷ []

abbrev sent : Zval
sent = (pos 3, "d") ∷ []

abbrev store : Redis
store = record {
  values = ("batches:inbound:b", zset messages) ∷ ("batches:outbound:b", zset sent) ∷ [];
  known = [];
  expiries = [];
}

abbrev counted : Redis
counted = record {
  values = ("batches:inbound:b", zset messages) ∷ ("batches:inbound_count:b", text "7") ∷ [];
  known = [];
  expiries = [];
}

counted-Counts : Counts "b" messages (pos 7) counted
unfolding lookup parse_int uses_counters exists inbound_key inbound_count_key zscore
counted-Counts = record {
  keys = refl;
  unique = (refl, (refl, (refl, tt)));
  counting = refl;
  stored = refl;
}

add_inbound_message_key_lem_example :
    let (res, r') = add_inbound_message_key "b" "x" (pos 9) counted in
    let z' = (Zset.zadd (("x", pos 9) ∷ []) messages).0 in
    let known = is_some (zscore "x" messages) in
    let count = if known then pos 7 else pos 7 +ℤ pos 1 in
    (res ≡ ok tt)
    × Counts "b" (if known then z' else truncated z') count r'
    × (count_inbound_message_keys "b" r' ≡ (ok count, r'))
    × (zscore "x" z' ≡ some (pos 9))
add_inbound_message_key_lem_example =
    add_inbound_message_key_lem "b" "x" (pos 9) messages (pos 7) counted counted-Counts

switch_to_counters_lem_example :
    let (res, r') = switch_to_counters "b" store in
    (res ≡ ok tt)
    × (uses_counters "b" r' ≡ true)
    × (count_inbound_message_keys "b" store ≡ (ok (pos (length messages)), store))
    × (count_inbound_message_keys "b" r' ≡ (ok (pos (length messages)), r'))
    × (count_outbound_message_keys "b" store ≡ (ok (pos (length sent)), store))
    × (count_outbound_message_keys "b" r' ≡ (ok (pos (length sent)), r'))
    × (as_zset (value_at r' (inbound_key "b")) ≡ some (truncated messages))
    × (as_zset (value_at r' (outbound_key "b")) ≡ some (truncated sent))
unfolding lookup uses_counters exists inbound_key outbound_key inbound_count_key
switch_to_counters_lem_example = switch_to_counters_lem "b" messages sent store refl refl refl
