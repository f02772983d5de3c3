-- ===== src/Redis/Hashes.antt =====
-- The hash operations of vumi/persist/fake_redis.py.
use vumi.Base.{ℕ, ◌+◌, String, Option, none, some, List, [], ◌∷◌, map, length, if◌then◌else◌}
use vumi.Base.Dict.{Dict, lookup, insert, erase, contains, update}
use vumi.Base.Int.{ℤ, ◌+ℤ◌}
use vumi.Base.Decimal.{show_int}
use vumi.Redis.Texts.{number_of}
use vumi.Base.Exec.{Exec, ok, pure, modify, ◌>>=◌, ◌>>◌}
use vumi.Redis.State.{Redis, hash, mutate, setdefault_key, get_hash}

unfoldable pub hset : String → String → String → Exec Redis ℕ
hset key field value = do
  mapping ← get_hash key
  modify (setdefault_key key (hash []))
  modify (mutate key (hash (insert field value mapping)))
  pure (if contains field mapping then 0 else 1)

unfoldable pub hexists : String → String → Exec Redis ℕ
hexists key field = do mapping ← get_hash key; pure (if contains field mapping then 1 else 0)

unfoldable pub hsetnx : String → String → String → Exec Redis ℕ
unfolding hexists hset
hsetnx key field value r =
    (do mapping ← get_hash key; if contains field mapping then pure 0 else hset key field value) r

unfoldable pub hget : String → String → Exec Redis (Option String)
hget key field = do mapping ← get_hash key; pure (lookup field mapping)

-- The loop over `fields`: the mapping that is left, and how many fields were in it.
unfoldable pub delete_fields : List String → Dict String → Dict String × ℕ
delete_fields [] mapping = (mapping, 0)
delete_fields (f ∷ fs) mapping =
    let (rest, n) = delete_fields fs (erase f mapping) in
    (rest, if contains f mapping then n + 1 else n)

unfoldable pub hdel : String → List String → Exec Redis ℕ
unfolding delete_fields
hdel key fields r = elim (lookup key r.values) [
  | none ↦ (ok 0, r)
  | some _ ↦
      (do
        mapping ← get_hash key
        let result = delete_fields fields mapping
        modify (mutate key (hash result.0))
        pure result.1)
        r
]

unfoldable pub hmset : String → Dict String → Exec Redis (Unit {0})
hmset key mapping = do
  old ← get_hash key
  modify (setdefault_key key (hash []))
  modify (mutate key (hash (update old mapping)))

unfoldable pub hgetall : String → Exec Redis (Dict String)
hgetall key = get_hash key

unfoldable pub hlen : String → Exec Redis ℕ
hlen key = do mapping ← get_hash key; pure (length mapping)

unfoldable pub hvals : String → Exec Redis (List String)
hvals key = do mapping ← get_hash key; pure (map (λ e. e.1) mapping)

-- A field that is not there counts as 0; one that is no number raises before anything is written.
unfoldable pub hincrby : String → String → ℤ → Exec Redis ℤ
hincrby key field amount = do
  mapping ← get_hash key
  old ← number_of (lookup field mapping)
  modify (setdefault_key key (hash []))
  modify (mutate key (hash (insert field (show_int (old +ℤ amount)) mapping)))
  pure (old +ℤ amount)
