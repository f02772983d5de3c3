-- ===== src/Tagpool/Purge.antt =====
-- `purge_pool`: refused while tags are in use, and complete otherwise.
use Prim.Native.String.{count}
use vumi.Base.{
  String, ◌≡◌, ◌≢◌, refl, sym, ap, ◌∙◌, true, none, some, List, [], ◌∷◌, arith, ltb, length, ◌≤◌,
  Bool-cases, inl, inr,
}
use vumi.Base.PySet.{member, discard, discard-absent}
use vumi.Base.Exec.{ok, err, tagpool_error}
use vumi.Redis.State.{Redis, value_at, as_list, as_set}
use vumi.Redis.Keys.{delete}
use vumi.Redis.Sets.{scard}
use vumi.Redis.Effects.{delete-Clears}
use vumi.Redis.Effects.Sets.{srem-Puts, srem-absent}
use vumi.Tagpool.{
  free_list_key, free_set_key, inuse_set_key, metadata_key, pool_key, pool_list_key, purge_pool,
  unregister_pool,
}
use vumi.Tagpool.Pool.{Holds}
use vumi.Tagpool.Keys.{state-ne, pool_list_key-ne}

-- While a tag is in use, purging the pool raises an error and changes nothing.
pub purge_pool-inuse :
    (pool x : String) (l s u : List String) (r : Redis)
    → Holds pool l s (x ∷ u) r
    → purge_pool pool r ≡ (err tagpool_error, r)
unfolding purge_pool scard
purge_pool-inuse pool x l s u r h =
    let e : ltb 0 (length (x ∷ u)) ≡ true = ground arith in rw (h.inuse_set, e)

unregister_lem :
    (pool : String) (pools : List String) (r : Redis)
    → as_set (value_at r pool_list_key) ≡ some pools
    → ((unregister_pool pool r).0 ≡ ok tt)
      × (as_set (value_at (unregister_pool pool r).1 pool_list_key) ≡ some (discard pool pools))
      × ((j : String) → pool_list_key ≢ j → value_at (unregister_pool pool r).1 j ≡ value_at r j)
unfolding unregister_pool
unregister_lem pool pools r h = elim (Bool-cases (member pool pools)) [
  | inl there ↦
      let (one, put) = srem-Puts pool_list_key r pools h pool there in
      rw one (refl, ground (arith, put.at), λ j ne. put.rest j ne)
  | inr absent ↦
      rw (srem-absent pool_list_key r pools h pool absent)
        (refl, rw (discard-absent pool pools absent) h, λ j ne. refl)
]

-- With no tag in use, purging the pool succeeds: its queue, its sets and its metadata are gone,
-- and it is off the list of pools.
pub purge_pool_lem :
    (pool : String) (l s pools : List String) (r : Redis)
    → Holds pool l s [] r
    → as_set (value_at r pool_list_key) ≡ some pools
    → let (res, r') = purge_pool pool r in
      (res ≡ ok tt)
      × Holds pool [] [] [] r'
      × (value_at r' (metadata_key pool) ≡ none)
      × (as_set (value_at r' pool_list_key) ≡ some (discard pool pools))
unfolding purge_pool scard delete
purge_pool_lem pool l s pools r h hp =
    let r1 = (delete (free_set_key pool) r).1 in
    let r2 = (delete (free_list_key pool) r1).1 in
    let r3 = (delete (inuse_set_key pool) r2).1 in
    let r4 = (delete (metadata_key pool) r3).1 in
    let c1 = delete-Clears (free_set_key pool) r in
    let c2 = delete-Clears (free_list_key pool) r1 in
    let c3 = delete-Clears (inuse_set_key pool) r2 in
    let c4 = delete-Clears (metadata_key pool) r3 in
    let away =
      λ (j : String) (n1 : free_set_key pool ≢ j) (n2 : free_list_key pool ≢ j)
          (n3 : inuse_set_key pool ≢ j) (n4 : metadata_key pool ≢ j).
        c4.rest j n4 ∙ c3.rest j n3 ∙ c2.rest j n2 ∙ c1.rest j n1 in
    let listed : as_set (value_at r4 pool_list_key) ≡ some pools =
      ap as_set (
        away pool_list_key (off "free:set" (omega arith)) (off "free:list" (omega arith))
          (off "inuse:set" (omega arith)) (off "metadata" (omega arith)))
      ∙ hp in
    let (done, left, same) = unregister_lem pool pools r4 listed in
    let at_list =
      same (free_list_key pool) (pool_list_key-ne pool _ (omega arith))
      ∙ c4.rest (free_list_key pool) (state-ne pool _ _ refl)
      ∙ c3.rest (free_list_key pool) (state-ne pool _ _ refl)
      ∙ c2.at in
    let at_set =
      same (free_set_key pool) (pool_list_key-ne pool _ (omega arith))
      ∙ c4.rest (free_set_key pool) (state-ne pool _ _ refl)
      ∙ c3.rest (free_set_key pool) (state-ne pool _ _ refl)
      ∙ c2.rest (free_set_key pool) (state-ne pool _ _ refl)
      ∙ c1.at in
    let at_inuse =
      same (inuse_set_key pool) (pool_list_key-ne pool _ (omega arith))
      ∙ c4.rest (inuse_set_key pool) (state-ne pool _ _ refl)
      ∙ c3.at in
    rw h.inuse_set (
      done,
      record {
        free_list = ap as_list at_list;
        free_set = ap as_set at_set;
        inuse_set = ap as_set at_inuse;
      },
      same (metadata_key pool) (pool_list_key-ne pool _ (omega arith)) ∙ c4.at,
      left,
    )
  where
    off : (state : String) → 4 ≤ count state → pool_key pool state ≢ pool_list_key
    off state long e = pool_list_key-ne pool state long (sym e)
