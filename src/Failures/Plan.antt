-- ===== src/Failures/Plan.antt =====
-- What the store holds for the failure worker: buckets of keys by the time that they are due, and
-- the failures under those keys.
use text.Mathlib.TextLemmas.{append_cancel_left}
use vumi.Base.{
  ◌<◌, String, ◌≡◌, ◌≢◌, refl, true, false, some, List, [], ◌∷◌, arith, str_eq, eq_iff, length, ap,
  ◌∙◌, Bool-cases, inl, inr,
}
use vumi.Base.Int.{ℤ}
use vumi.Base.Text.{differ, differ-ne}
use vumi.Base.Dict.{Dict, lookup}
use vumi.Base.PySet.{member, discard, NoDup}
use vumi.Redis.State.{Redis, set, hash, value_at, as_zset}
use vumi.Redis.Zset.{Zval}
use vumi.Redis.Zset.Order.{IsSorted}
use vumi.Redis.Zset.Members.{IsUnique}
use vumi.Failures.{timestamps_key, bucket_key}

pub record Bucket : Type 0 where
  pub score : ℤ
  pub timestamp : String
  pub keys : List String

abbrev pub entries : List Bucket → Zval
entries [] = []
entries (b ∷ plan) = (b.score, b.timestamp) ∷ entries plan

-- A key that is none of the buckets.
abbrev pub Avoids : String → List Bucket → Type 0
Avoids k [] = Unit
Avoids k (b ∷ plan) = (k ≢ bucket_key b.timestamp) × Avoids k plan

module _ (text_of : String → String) where
  -- A failure under a key, with its message.
  abbrev pub IsStored : Redis → String → Type 0
  IsStored r key =
      (str_eq key "" ≡ false)
      × (m : Dict String) × (value_at r key ≡ some (hash m))
      × (lookup "message" m ≡ some (text_of key))

  abbrev pub AllStored : Redis → List String → Type 0
  AllStored r [] = Unit
  AllStored r (key ∷ keys) = IsStored r key × AllStored r keys

  pub record IsBucket (r : Redis) (b : Bucket) : Type 0 where
    pub held : value_at r (bucket_key b.timestamp) ≡ some (set b.keys)
    pub named : str_eq b.timestamp "" ≡ false
    pub some_key : 0 < length b.keys
    pub no_dup : NoDup b.keys
    pub stored : AllStored r b.keys

  abbrev pub AllBuckets : Redis → List Bucket → Type 0
  AllBuckets r [] = Unit
  AllBuckets r (b ∷ plan) = IsBucket r b × AllBuckets r plan

  -- The timestamps are in the order of the sorted set, and each has a bucket with a key at least.
  pub record Holds (plan : List Bucket) (r : Redis) : Type 0 where
    pub timestamps : as_zset (value_at r timestamps_key) ≡ some (entries plan)
    pub sorted : IsSorted (entries plan)
    pub unique : IsUnique (entries plan)
    pub buckets : AllBuckets r plan

  pub IsStored-member :
      (r : Redis) (x : String) (keys : List String)
      → AllStored r keys
      → member x keys ≡ true
      → IsStored r x
  unfolding member
  IsStored-member r x [] all h = ground (arith, h)
  IsStored-member r x (y ∷ keys) all h = elim (Bool-cases (str_eq y x)) [
    | inl same ↦ let e : y ≡ x = (eq_iff y x).0 same in rw (← e) (all.0)
    | inr other ↦ IsStored-member r x keys all.1 (ground (arith, h, other))
  ]

  pub AllStored-discard :
      (r : Redis) (x : String) (keys : List String)
      → AllStored r keys
      → AllStored r (discard x keys)
  unfolding discard
  AllStored-discard r x [] all = tt
  AllStored-discard r x (y ∷ keys) all = elim (Bool-cases (str_eq y x)) [
    | inl same ↦ rw same (AllStored-discard r x keys all.1)
    | inr other ↦ rw other (all.0, AllStored-discard r x keys all.1)
  ]

  -- A write to a key that holds no hash touches no failure, and no bucket of another key.
  module _ (k : String) (r r' : Redis) (no_hash : (m : Dict String) → value_at r k ≢ some (hash m))
      (rest : (j : String) → k ≢ j → value_at r' j ≡ value_at r j) where
    pub AllStored-frame : (keys : List String) → AllStored r keys → AllStored r' keys
    AllStored-frame [] all = tt
    AllStored-frame (y ∷ keys) all =
        let (named, m, held, text) = all.0 in
        let apart : k ≢ y = λ e. no_hash m (ap (value_at r) e ∙ held) in
        ((named, m, rest y apart ∙ held, text), AllStored-frame keys all.1)

    pub AllBuckets-frame :
        (plan : List Bucket) → Avoids k plan → AllBuckets r plan → AllBuckets r' plan
    AllBuckets-frame [] av all = tt
    AllBuckets-frame (b ∷ plan) av all = (
      record {
        held = rest (bucket_key b.timestamp) av.0 ∙ all.0.held;
        named = all.0.named;
        some_key = all.0.some_key;
        no_dup = all.0.no_dup;
        stored = AllStored-frame b.keys all.0.stored;
      },
      AllBuckets-frame plan av.1 all.1,
    )

-- The keys of two buckets differ, and differ from the key of the timestamps.
pub bucket_key-ne : (s t : String) → s ≢ t → bucket_key s ≢ bucket_key t
unfolding bucket_key
bucket_key-ne s t ne e = ne (append_cancel_left "retry_keys." s t e)

pub bucket_key-ne_timestamps : (t : String) → timestamps_key ≢ bucket_key t
unfolding bucket_key differ
bucket_key-ne_timestamps t = differ-ne "retry_t" "retry_keys." "imestamps" t refl
