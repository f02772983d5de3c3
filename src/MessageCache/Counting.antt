-- ===== src/MessageCache/Counting.antt =====
-- Counting the messages of a batch.
use vumi.Base.{
  ℕ, zero, suc, ◌+◌, ◌-◌, drop, leb, String, ◌≡◌, ◌≢◌, refl, sym, true, none, some, [], ◌∷◌, arith,
  length, is_some, ◌∙◌, ap, if◌then◌else◌, Bool-cases, inl, inr,
}
use vumi.Base.Int.{ℤ, pos, ◌+ℤ◌}
use vumi.Base.Decimal.{show_int}
use vumi.Base.Decimal.RoundTrip.{parse-show_int}
use vumi.Base.Exec.{ok}
use vumi.Redis.State.{Redis, text, value_at, set_key, as_zset}
use vumi.Redis.Keys.{exists}
use vumi.Redis.Texts.{get, incr}
use vumi.Redis.Texts.Counter.{count_of, incr-eq}
use vumi.Redis.Zset as Zset
use vumi.Redis.Zset.{Zval, zscore}
use vumi.Redis.Zset.Members.{IsUnique}
use vumi.Redis.Zsets as Zsets
use vumi.Redis.Zset.Sizes.{zadd-count, zadd_one}
use vumi.Redis.Effects.{zadd-Puts, set_key-Puts}
use vumi.MessageCache.Keys.{inbound_key, inbound_count_key}
use vumi.MessageCache.Counters.{
  get_count, count_inbound_message_keys, uses_counters, truncate_message_key_count_at,
  truncate_inbound_message_keys,
}
use vumi.MessageCache.Distinct.{inbound-ne_inbound_count}
use vumi.MessageCache.Messages.{add_inbound_message_key, count_inbound}
use vumi.MessageCache.Truncation.{newest, truncate_keys_lem}

-- A batch that uses counters, with the keys `z` of its inbound messages and the count `c`.
pub record Counts (b : String) (z : Zval) (c : ℤ) (r : Redis) : Type 0 where
  pub keys : as_zset (value_at r (inbound_key b)) ≡ some z
  pub unique : IsUnique z
  pub counting : uses_counters b r ≡ true
  pub stored : count_of (value_at r (inbound_count_key b)) ≡ some c

pub get_count-eq :
    (k : String) (c : ℤ) (r : Redis) → count_of (value_at r k) ≡ some c → get_count k r ≡ (ok c, r)
unfolding get_count get
get_count-eq k c r h = ground (arith, h)

-- In a batch that uses counters the count is the one that is stored.
pub count_inbound-eq :
    {b : String} {z : Zval} {c : ℤ} {r : Redis}
    → Counts b z c r
    → count_inbound_message_keys b r ≡ (ok c, r)
unfolding count_inbound_message_keys
count_inbound-eq {b} {z} {c} {r} h = rw h.counting (get_count-eq (inbound_count_key b) c r h.stored)

pub uses_counters-text :
    (b s : String) (r : Redis)
    → value_at r (inbound_count_key b) ≡ some (text s)
    → uses_counters b r ≡ true
unfolding uses_counters exists
uses_counters-text b s r h = ground (arith, h)

uses_counters-same :
    (b : String) (r r' : Redis)
    → value_at r' (inbound_count_key b) ≡ value_at r (inbound_count_key b)
    → uses_counters b r' ≡ uses_counters b r
unfolding uses_counters exists
uses_counters-same b r r' h = ap is_some h

-- What is in the sorted set changes, and the counter does not.
put_keys :
    {b : String} {z : Zval} {c : ℤ} {r r' : Redis} (z' : Zval)
    → Counts b z c r
    → as_zset (value_at r' (inbound_key b)) ≡ some z'
    → IsUnique z'
    → ((j : String) → inbound_key b ≢ j → value_at r' j ≡ value_at r j)
    → Counts b z' c r'
put_keys {b} {z} {c} {r} {r'} z' h held u rest =
    let same = rest (inbound_count_key b) (inbound-ne_inbound_count b b) in
    record {
      keys = held;
      unique = u;
      counting = uses_counters-same b r r' same ∙ h.counting;
      stored = ap count_of same ∙ h.stored;
    }

-- `incr` on the counter.
incr-Counts :
    {b : String} {z : Zval} {c : ℤ} {r : Redis}
    → Counts b z c r
    → Counts b z (c +ℤ pos 1) (incr (inbound_count_key b) (pos 1) r).1
incr-Counts {b} {z} {c} {r} h =
    let k = inbound_count_key b in
    let s = show_int (c +ℤ pos 1) in
    let put = set_key-Puts k (text s) r in
    rw (incr-eq k c (pos 1) r h.stored) (record {
      keys =
          ap as_zset (put.rest (inbound_key b) (λ e. inbound-ne_inbound_count b b (sym e)))
          ∙ h.keys;
      unique = h.unique;
      counting = uses_counters-text b s (set_key k (text s) r) put.at;
      stored = ap count_of put.at ∙ parse-show_int (c +ℤ pos 1);
    })

drop-IsUnique : (n : ℕ) (z : Zval) → IsUnique z → IsUnique (drop n z)
drop-IsUnique zero z u = u
drop-IsUnique (suc n) [] u = tt
drop-IsUnique (suc n) (e ∷ z) u = drop-IsUnique n z u.1

-- Of more than 2001 keys, the 2000 newest.
abbrev pub truncated : Zval → Zval
truncated z =
    if leb (length z) (truncate_message_key_count_at + 1)
    then z
    else newest truncate_message_key_count_at z

truncated-IsUnique : (z : Zval) → IsUnique z → IsUnique (truncated z)
truncated-IsUnique z u = elim (Bool-cases (leb (length z) (truncate_message_key_count_at + 1))) [
  | inl small ↦ rw small u
  | inr large ↦ rw large (drop-IsUnique (length z - truncate_message_key_count_at) z u)
]

count_inbound-Counts :
    {b : String} {z : Zval} {c : ℤ} {r : Redis}
    → Counts b z c r
    → let (res, r') = count_inbound b r in (res ≡ ok tt) × Counts b (truncated z) (c +ℤ pos 1) r'
unfolding count_inbound truncate_inbound_message_keys
count_inbound-Counts {b} {z} {c} {r} h =
    let h1 = incr-Counts h in
    let r1 = (incr (inbound_count_key b) (pos 1) r).1 in
    let (done, held, _, _, rest) = truncate_keys_lem (inbound_key b) none z r1 h1.keys in
    let up : (incr (inbound_count_key b) (pos 1) r).0 ≡ ok (c +ℤ pos 1) =
      ap (λ p. p.0) (incr-eq (inbound_count_key b) c (pos 1) r h.stored) in
    rw up (rw done (refl, put_keys (truncated z) h1 held (truncated-IsUnique z h.unique) rest))

-- In a batch that uses counters, adding the key of an inbound message counts it exactly if it was
-- not among the keys. The key is put among the others with its timestamp, which replaces an older one.
-- Only when a new key makes more than 2001 are the oldest dropped then, down to 2000; the new key may
-- be one of those. The count goes on.
pub add_inbound_message_key_lem :
    (b message_key : String) (timestamp : ℤ) (z : Zval) (c : ℤ) (r : Redis)
    → Counts b z c r
    → let (res, r') = add_inbound_message_key b message_key timestamp r in
      let z' = (Zset.zadd ((message_key, timestamp) ∷ []) z).0 in
      let known = is_some (zscore message_key z) in
      let count = if known then c else c +ℤ pos 1 in
      (res ≡ ok tt)
      × Counts b (if known then z' else truncated z') count r'
      × (count_inbound_message_keys b r' ≡ (ok count, r'))
      × (zscore message_key z' ≡ some timestamp)
unfolding add_inbound_message_key
add_inbound_message_key_lem b k t z c r h =
    let m = (k, t) ∷ [] in
    let r1 = (Zsets.zadd (inbound_key b) m r).1 in
    let (done, put) = zadd-Puts (inbound_key b) r z h.keys m in
    let (unique, score) = zadd_one k t z h.unique in
    let h1 = put_keys (Zset.zadd m z).0 h (ap as_zset put.at) unique put.rest in
    let size = zadd-count k t z h.unique in
    elim (Bool-cases (is_some (zscore k z))) [
      | inl old ↦ rw (done, size) (rw old (refl, h1, count_inbound-eq h1, score))
      | inr new ↦
          let (up, h2) = count_inbound-Counts h1 in
          rw (done, size) (rw new (rw h1.counting (up, h2, count_inbound-eq h2, score)))
    ]
