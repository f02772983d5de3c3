-- ===== src/Tagpool.antt =====
-- vumi/components/tagpool.py: `TagpoolManager` over the store of fake_redis.py. Pool names and tags
-- are byte strings already, so `_encode` and `_decode` are the identity. `json` and the time are
-- parameters: `json` as the two texts that the manager writes and reads, `now` as `time.time()`.
pub mod Keys
pub mod Pool
pub mod Reasons
pub mod Frame
pub mod Acquire
pub mod Release
pub mod Declare
pub mod Purge
mod Tests
use vumi.Base.{
  ℕ, String, ◌≡◌, Bool, true, false, not, ◌||◌, Option, none, some, List, [], ◌∷◌, ◌++◌, map,
  str_eq, if◌then◌else◌, ltb, ◌==◌,
}
use vumi.Base.Int.{ℤ, pos}
use vumi.Base.Dict.{Dict, lookup, insert, lookup_or}
use vumi.Base.PySet.{member, add, add_all}
use vumi.Base.Text.{join, sorted}
use vumi.Base.Exec.{
  Exec, Result, ok, Error, tagpool_error, type_error, pure, raise, lift, ◌>>=◌, ◌>>◌, for_each,
  skip,
}
use vumi.Redis.State.{Redis}
use vumi.Redis.Keys.{delete}
use vumi.Redis.Hashes.{hset, hget, hgetall, hmset}
use vumi.Redis.Sets.{sadd, srem, smove, scard, smembers, sunion}
use vumi.Redis.Lists.{lpop, rpush, lrem}

-- A value in the dict of a reason. `nested` is any other JSON, which the manager never looks into.
pub data Scalar : Type 0 where
  null : Scalar
  text : String → Scalar
  time : ℤ → Scalar
  nested : String → Scalar

abbrev pub Reason : Type 0
Reason = Dict Scalar

-- `json.dumps` and `json.loads` at a reason and at a pair of a pool and a tag.
pub record Json : Type 0 where
  pub dumps : Reason → String
  pub loads : String → Result Reason
  pub dumps_tag : String → String → String
  pub loads_tag : String → Result (String × String)

abbrev pub Tag : Type 0
Tag = String × String

pub pool_list_key : String
unfolding join
pool_list_key = join ":" ("tagpools" ∷ "list" ∷ [])

-- `":".join(["tagpools", pool, state])`
pub pool_key : String → String → String
unfolding join
pool_key pool state = join ":" ("tagpools" ∷ pool ∷ state ∷ [])

-- The three keys of `_tag_pool_keys`.
abbrev pub free_list_key : String → String
free_list_key pool = pool_key pool "free:list"

abbrev pub free_set_key : String → String
free_set_key pool = pool_key pool "free:set"

abbrev pub inuse_set_key : String → String
inuse_set_key pool = pool_key pool "inuse:set"

-- `_tag_pool_metadata_key`
abbrev pub metadata_key : String → String
metadata_key pool = pool_key pool "metadata"

-- `_tag_pool_reason_key`
abbrev pub reason_key : String → String
reason_key pool = pool_key pool "reason:hash"

-- `_owner_tag_list_key`
pub owner_key : Option String → String
unfolding join
owner_key none = join ":" ("tagpools" ∷ "unowned" ∷ "tags" ∷ [])
owner_key (some owner) = join ":" ("tagpools" ∷ "owners" ∷ owner ∷ "tags" ∷ [])

pub register_pool : String → Exec Redis (Unit {0})
register_pool pool = do sadd pool_list_key (pool ∷ []); skip

pub unregister_pool : String → Exec Redis (Unit {0})
unregister_pool pool = do srem pool_list_key pool; skip

abbrev pub of_owner : Option String → Scalar
of_owner none = null
of_owner (some o) = text o

-- What `reason.get('owner')` is to `_owner_tag_list_key`: a text, or nothing.
abbrev pub owner_of : Option Scalar → Exec Redis (Option String)
owner_of none = pure none
owner_of (some null) = pure none
owner_of (some (text o)) = pure (some o)
owner_of (some _) = raise type_error

-- The new tags that are not among the old ones, each once and in order.
pub new_tags : List String → List String → List String
new_tags [] old = []
new_tags (t ∷ ts) old =
    let rest = new_tags ts old in if member t old || member t ts then rest else t ∷ rest

pub declare_tag : String → String → Exec Redis (Unit {0})
declare_tag pool tag = do sadd (free_set_key pool) (tag ∷ []); rpush (free_list_key pool) tag; skip

-- `_declare_tags`
pub declare_pool_tags : String → List String → Exec Redis (Unit {0})
declare_pool_tags pool local_tags = do
  old ← sunion (free_set_key pool) (inuse_set_key pool ∷ [])
  for_each (sorted (new_tags local_tags old)) (declare_tag pool)

-- `pools.setdefault(pool, []).append(local_tag)` for each tag
pub group_tags : List Tag → Dict (List String) → Dict (List String)
group_tags [] pools = pools
group_tags ((pool, tag) ∷ tags) pools =
    group_tags tags (insert pool (lookup_or pool pools [] ++ tag ∷ []) pools)

unfoldable pub declare_tags : List Tag → Exec Redis (Unit {0})
unfolding declare_pool_tags group_tags register_pool
declare_tags tags =
    for_each (group_tags tags [])
      (λ (e : String × List String). do register_pool e.0; declare_pool_tags e.0 e.1)

pub purge_pool : String → Exec Redis (Unit {0})
purge_pool pool = do
  in_use_count ← scard (inuse_set_key pool)
  if ltb 0 in_use_count then raise tagpool_error else do
    delete (free_set_key pool)
    delete (free_list_key pool)
    delete (inuse_set_key pool)
    delete (metadata_key pool)
    unregister_pool pool

unfoldable pub list_pools : Exec Redis (List String)
list_pools = smembers pool_list_key

unfoldable pub free_tags : String → Exec Redis (List Tag)
free_tags pool = do tags ← smembers (free_set_key pool); pure (map (λ t. (pool, t)) tags)

unfoldable pub inuse_tags : String → Exec Redis (List Tag)
inuse_tags pool = do tags ← smembers (inuse_set_key pool); pure (map (λ t. (pool, t)) tags)

-- `metadata` is the dict with its values written as JSON.
unfoldable pub set_metadata : String → Dict String → Exec Redis (Unit {0})
set_metadata pool metadata = do
  register_pool pool
  delete (metadata_key pool)
  hmset (metadata_key pool) metadata

unfoldable pub get_metadata : String → Exec Redis (Dict String)
get_metadata pool = hgetall (metadata_key pool)

module _ (json : Json) where
  open json use {dumps, loads, dumps_tag, loads_tag}

  abbrev pub reason_or_empty : Option Reason → Reason
  reason_or_empty none = []
  reason_or_empty (some reason) = reason

  -- The reason as it is stored.
  abbrev pub stamped : ℤ → Option String → Option Reason → Reason
  stamped now owner reason =
      insert "owner" (of_owner owner) (insert "timestamp" (time now) (reason_or_empty reason))

  pub store_reason : ℤ → String → String → Option String → Option Reason → Exec Redis (Unit {0})
  store_reason now pool local_tag owner reason = do
    hset (reason_key pool) local_tag (dumps (stamped now owner reason))
    sadd (owner_key owner) (dumps_tag pool local_tag ∷ [])
    skip

  pub remove_reason : String → String → Exec Redis (Unit {0})
  remove_reason pool local_tag = do
    raw ← hget (reason_key pool) local_tag
    elim raw [
      | none ↦ skip
      | some t ↦ do
        reason ← lift (loads t)
        owner ← owner_of (lookup "owner" reason)
        srem (owner_key owner) (dumps_tag pool local_tag)
        skip
    ]

  -- `_acquire_tag`
  pub acquire_local : ℤ → String → Option String → Option Reason → Exec Redis (Option String)
  acquire_local now pool owner reason = do
    tag ← lpop (free_list_key pool)
    elim tag [
      | none ↦ pure none
      | some t ↦ do
        smove (free_set_key pool) (inuse_set_key pool) t
        store_reason now pool t owner reason
        pure (some t)
    ]

  pub acquire_tag : ℤ → String → Option String → Option Reason → Exec Redis (Option Tag)
  unfolding acquire_local
  acquire_tag now pool owner reason = do
    local_tag ← acquire_local now pool owner reason
    pure (elim local_tag [ none ↦ none | some t ↦ some (pool, t) ])

  -- `_acquire_specific_tag`
  pub acquire_specific_local : ℤ → String → String → Option String → Option Reason → Exec Redis ℕ
  acquire_specific_local now pool local_tag owner reason = do
    moved ← lrem (free_list_key pool) local_tag (pos 1)
    if ltb 0 moved
        then (do
          smove (free_set_key pool) (inuse_set_key pool) local_tag
          store_reason now pool local_tag owner reason
          pure moved)
        else pure moved

  pub acquire_specific_tag : ℤ → Tag → Option String → Option Reason → Exec Redis (Option Tag)
  unfolding acquire_specific_local
  acquire_specific_tag now (pool, local_tag) owner reason = do
    acquired ← acquire_specific_local now pool local_tag owner reason
    pure (if ltb 0 acquired then some (pool, local_tag) else none)

  -- `_release_tag`
  pub release_tag : Tag → Exec Redis (Unit {0})
  release_tag (pool, local_tag) = do
    count ← smove (inuse_set_key pool) (free_set_key pool) local_tag
    if count == 1
        then (do rpush (free_list_key pool) local_tag; remove_reason pool local_tag)
        else skip

  pub acquired_by : Tag → Exec Redis (Option Scalar × Option Reason)
  acquired_by (pool, local_tag) = do
    raw ← hget (reason_key pool) local_tag
    elim raw [
      | none ↦ pure (none, none)
      | some t ↦ do reason ← lift (loads t); pure (lookup "owner" reason, some reason)
    ]

  pub load_all : List String → Exec Redis (List Tag)
  load_all [] = pure []
  load_all (t ∷ ts) = do tag ← lift (loads_tag t); rest ← load_all ts; pure (tag ∷ rest)

  unfoldable pub owned_tags : Option String → Exec Redis (List Tag)
  unfolding load_all
  owned_tags owner = do raw_tags ← smembers (owner_key owner); load_all raw_tags
