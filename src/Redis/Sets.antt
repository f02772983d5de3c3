-- ===== src/Redis/Sets.antt =====
-- The set operations of vumi/persist/fake_redis.py.
use vumi.Base.{
  ℕ, ◌-◌, ◌%◌, String, Bool, Option, none, some, List, [], ◌∷◌, length, get_elem?, if◌then◌else◌,
  ltb,
}
use vumi.Base.PySet.{member, add_all, discard}
use vumi.Base.Exec.{Exec, pure, modify, ◌>>=◌, ◌>>◌}
use vumi.Redis.State.{Redis, set, mutate, setdefault_key, get_set}

unfoldable pub sadd : String → List String → Exec Redis ℕ
sadd key values = do
  sval ← get_set key
  modify (setdefault_key key (set []))
  modify (mutate key (set (add_all values sval)))
  pure (length (add_all values sval) - length sval)

unfoldable pub smembers : String → Exec Redis (List String)
smembers key = get_set key

abbrev pub pop_member : String → List String → Option String → Exec Redis (Option String)
pop_member key sval none = pure none
pop_member key sval (some v) = do modify (mutate key (set (discard v sval))); pure (some v)

-- Which member a Python set pops is not determined: `pick` chooses.
unfoldable pub spop : ℕ → String → Exec Redis (Option String)
spop pick key = do sval ← get_set key; pop_member key sval (get_elem? sval (pick % length sval))

unfoldable pub srem : String → String → Exec Redis ℕ
srem key value = do
  sval ← get_set key
  if member value sval then (do modify (mutate key (set (discard value sval))); pure 1) else pure 0

unfoldable pub scard : String → Exec Redis ℕ
scard key = do sval ← get_set key; pure (length sval)

unfoldable pub smove : String → String → String → Exec Redis ℕ
smove src dst value = do
  result ← srem src value
  if ltb 0 result then (do sadd dst (value ∷ []); pure result) else pure result

-- `union.update` for each key of `(key,) + args`
unfoldable pub union_of : List String → List String → Exec Redis (List String)
union_of [] union = pure union
union_of (k ∷ ks) union = do sval ← get_set k; union_of ks (add_all sval union)

unfoldable pub sunion : String → List String → Exec Redis (List String)
unfolding union_of
sunion key args = union_of (key ∷ args) []

unfoldable pub sismember : String → String → Exec Redis Bool
sismember key value = do sval ← get_set key; pure (member value sval)
