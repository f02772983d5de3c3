-- ===== src/Redis/Zsets.antt =====
-- The sorted set operations of `FakeRedis`, over `Zset`.
use vumi.Base.{ℕ, String, Bool, Option, none, List, [], map, length}
use vumi.Base.Int.{ℤ, pos}
use vumi.Base.Decimal.{show_nat}
use vumi.Base.Dict.{Dict}
use vumi.Base.Exec.{Exec, pure, modify, ◌>>=◌, ◌>>◌}
use vumi.Redis.State.{Redis, zset, mutate, setdefault_key, get_zset}
use vumi.Redis.Zset
use vumi.Redis.Zset.{Zval, Bound}

unfoldable pub zadd : String → Dict ℤ → Exec Redis ℤ
zadd key valscores = do
  zval ← get_zset key
  modify (setdefault_key key (zset []))
  modify (mutate key (zset (Zset.zadd valscores zval).0))
  pure (Zset.zadd valscores zval).1

unfoldable pub zrem : String → String → Exec Redis Bool
zrem key value = do
  zval ← get_zset key
  modify (setdefault_key key (zset []))
  modify (mutate key (zset (Zset.zrem value zval).0))
  pure (Zset.zrem value zval).1

unfoldable pub zcard : String → Exec Redis ℕ
zcard key = do zval ← get_zset key; pure (Zset.zcard zval)

abbrev pub members : Zval → List String
members = map (λ e. e.1)

-- Without `withscores`.
unfoldable pub zrange : String → ℤ → ℤ → Bool → Exec Redis (List String)
zrange key start stop desc = do
  zval ← get_zset key
  pure (members (Zset.zrange start stop desc zval))

-- With `withscores`.
unfoldable pub zrange_withscores : String → ℤ → ℤ → Bool → Exec Redis Zval
zrange_withscores key start stop desc = do
  zval ← get_zset key
  pure (Zset.zrange start stop desc zval)

unfoldable pub zrangebyscore : String → Bound → Bound → ℤ → Option ℤ → Exec Redis (List String)
zrangebyscore key min max start num = do
  zval ← get_zset key
  pure (members (Zset.zrangebyscore min max start num zval))

unfoldable pub zcount : String → Bound → Bound → Exec Redis String
unfolding zrangebyscore show_nat
zcount key min max = do
  found ← zrangebyscore key min max (pos 0) none
  pure (show_nat (length found))

unfoldable pub zscore : String → String → Exec Redis (Option ℤ)
zscore key value = do zval ← get_zset key; pure (Zset.zscore value zval)

unfoldable pub zremrangebyrank : String → ℤ → ℤ → Exec Redis ℕ
zremrangebyrank key start stop = do
  zval ← get_zset key
  modify (setdefault_key key (zset []))
  modify (mutate key (zset (Zset.zremrangebyrank start stop zval).0))
  pure (Zset.zremrangebyrank start stop zval).1
