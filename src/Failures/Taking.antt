-- ===== src/Failures/Taking.antt =====
-- One round of the delivery: the key that `get_next_retry_key` takes, and what is left.
use Prim.Native.Nat.{min}
use vumi.Base.{
  ℕ, zero, suc, ◌<◌, String, ◌≡◌, ◌≢◌, refl, Bool, true, false, none, some, List, [], ◌∷◌, arith,
  str_eq, eq_refl, length, get_elem?, ltb, not, sym, ap, ◌∙◌, if◌then◌else◌,
}
use vumi.Base.Int.{◌+ℤ◌}
use vumi.Base.Dict.{Dict}
use vumi.Base.PySet.{member, discard, discard-NoDup}
use vumi.Base.Slices.{slice}
use vumi.Base.Exec.{ok}
use vumi.Redis.State.{Redis, set, hash, value_at, as_zset, mutate}
use vumi.Redis.Effects.{Puts, mutate-Puts, zrem-Puts}
use vumi.Redis.Zset as Zset
use vumi.Redis.Zset.{Zval, zscore, keep_members}
use vumi.Redis.Zset.Order.{sort-eq_of_IsSorted, IsSorted-tail}
use vumi.Redis.Zset.Members.{IsUnique}
use vumi.Redis.Zsets as Zsets
use vumi.Redis.Zsets.{zrange}
use vumi.Failures.{Config, timestamps_key, bucket_key, first_due, get_next_read_timestamp}
use vumi.Failures.Plan.{
  AllStored, Bucket, entries, Holds, IsStored, AllBuckets, AllStored-discard, AllStored-frame,
  Avoids, AllBuckets-frame, bucket_key-ne, bucket_key-ne_timestamps,
}

pub get_elem?-member :
    (l : List String) (i : ℕ)
    → i < length l
    → (x : String) × (get_elem? l i ≡ some x) × (member x l ≡ true)
unfolding member
get_elem?-member [] i h = ground (arith, h)
get_elem?-member (y ∷ l) zero h = (y, refl, ground (arith, eq_refl y))
get_elem?-member (y ∷ l) (suc i) h =
    let (x, at, there) = get_elem?-member l i (omega arith) in (x, at, ground (arith, there))

-- Leaving out what is not there changes nothing.
keep_members-absent :
    (t : String) (z : Zval) → zscore t z ≡ none → keep_members (λ v. not (str_eq v t)) z ≡ z
unfolding keep_members zscore
keep_members-absent t [] h = refl
keep_members-absent t (e ∷ z) h = ground (arith, keep_members-absent t z)

zrem-first :
    (b : Bucket) (plan : List Bucket)
    → IsUnique (entries (b ∷ plan))
    → (Zset.zrem b.timestamp (entries (b ∷ plan))).0 ≡ entries plan
unfolding Zset.zrem keep_members
zrem-first b plan u = rw (eq_refl b.timestamp) (keep_members-absent b.timestamp (entries plan) u.0)

Avoids-absent :
    (t : String) (plan : List Bucket) → zscore t (entries plan) ≡ none → Avoids (bucket_key t) plan
unfolding zscore
Avoids-absent t [] h = tt
Avoids-absent t (b ∷ plan) h = (
  bucket_key-ne t b.timestamp (λ e. absurd (ground (arith, h, e, eq_refl t))),
  Avoids-absent t plan (ground (arith, h)),
)

Avoids-timestamps : (plan : List Bucket) → Avoids timestamps_key plan
Avoids-timestamps [] = tt
Avoids-timestamps (b ∷ plan) = (bucket_key-ne_timestamps b.timestamp, Avoids-timestamps plan)

module _ (config : Config) (text_of : String → String) (now : ℕ) where
  pub first_lem-nil :
      (r : Redis) → Holds text_of [] r → get_next_read_timestamp config now r ≡ (ok none, r)
  unfolding get_next_read_timestamp zrange Zset.zrange Zset.sort slice first_due
  first_lem-nil r h = rw (h.timestamps) refl

  pub first_lem :
      (b : Bucket) (plan : List Bucket) (r : Redis)
      → Holds text_of (b ∷ plan) r
      → get_next_read_timestamp config now r
        ≡ (ok (first_due config (config.isoformat now) (b.timestamp ∷ [])), r)
  unfolding get_next_read_timestamp zrange Zset.zrange ◌+ℤ◌
  first_lem b plan r h = rw (h.timestamps) (
      rw (sort-eq_of_IsSorted (entries (b ∷ plan)) h.sorted) (
        let one : min 1 (suc (length (entries plan))) ≡ 1 = ground arith in
        let start : min 0 (suc (length (entries plan))) ≡ 0 = ground arith in
        rw one (rw start refl)))

-- The plan without one key; a bucket that is empty then is gone.
abbrev pub without : String → Bucket → List Bucket → List Bucket
without key b plan =
    let keys = discard key b.keys in
    if ltb (length keys) 1 then plan else record b { keys = keys } ∷ plan

module _ (text_of : String → String) (b : Bucket) (plan : List Bucket) (r : Redis) (x : String)
    (h : Holds text_of (b ∷ plan) r) where
  abbrev pub key : String
  key = bucket_key b.timestamp

  -- The store after the key was popped from its bucket.
  abbrev pub popped : Redis
  popped = mutate key (set (discard x b.keys)) r

  pub popped-Puts : Puts key (set (discard x b.keys)) r popped
  popped-Puts = mutate-Puts key (set (discard x b.keys)) r

  bucket-no_hash : (m : Dict String) → value_at r key ≢ some (hash m)
  bucket-no_hash m e = absurd (ground (arith, e, h.buckets.0.held))

  popped-timestamps : as_zset (value_at popped timestamps_key) ≡ some (entries (b ∷ plan))
  popped-timestamps =
      let apart : key ≢ timestamps_key = λ e. bucket_key-ne_timestamps b.timestamp (sym e) in
      rw (popped-Puts.rest timestamps_key apart) (h.timestamps)

  popped-AllBuckets : AllBuckets text_of popped plan
  popped-AllBuckets =
      AllBuckets-frame text_of key r popped bucket-no_hash popped-Puts.rest plan
        (Avoids-absent b.timestamp plan h.unique.0) h.buckets.1

  pub popped-AllStored : AllStored text_of popped b.keys
  popped-AllStored =
      AllStored-frame text_of key r popped bucket-no_hash popped-Puts.rest b.keys h.buckets.0.stored

  pub more_left :
      ltb (length (discard x b.keys)) 1 ≡ false
      → Holds text_of (record b { keys = discard x b.keys } ∷ plan) popped
  more_left more = record {
    timestamps = popped-timestamps;
    sorted = h.sorted;
    unique = h.unique;
    buckets = (
      record {
        held = popped-Puts.at;
        named = h.buckets.0.named;
        some_key = ground (arith, more);
        no_dup = discard-NoDup x b.keys h.buckets.0.no_dup;
        stored = AllStored-discard text_of popped x b.keys popped-AllStored;
      },
      popped-AllBuckets,
    );
  }

  -- The store after the timestamp of the empty bucket was removed as well.
  abbrev pub removed : Redis
  removed = (Zsets.zrem timestamps_key b.timestamp popped).1

  pub none_left :
      (n : Bool) × ((Zsets.zrem timestamps_key b.timestamp popped).0 ≡ ok n)
      × Holds text_of plan removed
      × (IsStored text_of popped x → IsStored text_of removed x)
  none_left =
      let (done, put) =
        zrem-Puts timestamps_key popped (entries (b ∷ plan)) popped-timestamps b.timestamp in
      let no_hash : (m : Dict String) → value_at popped timestamps_key ≢ some (hash m) =
        λ m e. absurd (ground (arith, e, popped-timestamps)) in
      (
        _,
        done,
        record {
          timestamps = ap as_zset put.at ∙ ap (λ z. some z) (zrem-first b plan h.unique);
          sorted = IsSorted-tail (b.score, b.timestamp) (entries plan) h.sorted;
          unique = h.unique.1;
          buckets =
              AllBuckets-frame text_of timestamps_key popped removed no_hash put.rest plan
                (Avoids-timestamps plan) popped-AllBuckets;
        },
        λ s.
            (AllStored-frame text_of timestamps_key popped removed no_hash put.rest (x ∷ [])
              (s, tt)).0,
      )
