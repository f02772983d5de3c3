-- ===== src/Tagpool/Release.antt =====
-- `release_tag`, and what a tag that was acquired and released says of its owner.
use vumi.Base.{
  String, ◌≡◌, refl, ◌∙◌, true, false, Option, some, List, [], ◌∷◌, ◌++◌, arith, eq_refl,
}
use vumi.Base.Int.{ℤ}
use vumi.Base.PySet.{member, add, discard}
use vumi.Base.Dict.{Dict, insert, lookup, lookup-insert}
use vumi.Base.Exec.{ok}
use vumi.Redis.State.{Redis, value_at, as_list}
use vumi.Redis.Lists.{rpush}
use vumi.Redis.Sets.{smove}
use vumi.Redis.Effects.{rpush-Puts, hget-eq}
use vumi.Redis.Effects.Sets.{smove-member, smove-absent}
use vumi.Tagpool.{
  Json, Reason, of_owner, free_list_key, free_set_key, inuse_set_key, reason_key, owner_key,
  stamped, acquire_tag, release_tag, acquired_by,
}
use vumi.Tagpool.Acquire.{acquire_tag_lem}
use vumi.Tagpool.Pool.{Holds, Reasons, IsConsistent, give-IsConsistent}
use vumi.Tagpool.Keys.{state-ne}
use vumi.Tagpool.Frame.{Holds-SameButReasons, Reasons-SameButTags}
use vumi.Tagpool.Reasons.{remove_reason_lem}

module _ (json : Json) (pool x : String) (l s u : List String) (r : Redis) where
  open json use {loads, dumps, dumps_tag}

  -- A tag in use whose stored reason can be read back and names the owner goes, when it is
  -- released, to the end of the queue and into the free set, and leaves the tags in use and the
  -- owner's list. The pool stays consistent. The reason itself stays stored.
  pub release_tag_lem :
      (owner : Option String) (m : Dict String) (o : List String) (raw : String) (reason : Reason)
      → member x u ≡ true
      → IsConsistent l s u
      → Holds pool l s u r
      → Reasons pool (owner_key owner) m o r
      → lookup x m ≡ some raw
      → loads raw ≡ ok reason
      → lookup "owner" reason ≡ some (of_owner owner)
      → let (res, r') = release_tag json (pool, x) r in
        (res ≡ ok tt)
        × Holds pool (l ++ x ∷ []) (add x s) (discard x u) r'
        × IsConsistent (l ++ x ∷ []) (add x s) (discard x u)
        × Reasons pool (owner_key owner) m (discard (dumps_tag pool x) o) r'
  unfolding release_tag
  release_tag_lem owner m o raw reason inuse c h g hraw hload hown =
      let (one, out, into, same) =
        smove-member (inuse_set_key pool) (free_set_key pool) x u s r (state-ne pool _ _ refl)
          h.inuse_set h.free_set inuse in
      let r1 = (smove (inuse_set_key pool) (free_set_key pool) x r).1 in
      let queue : as_list (value_at r1 (free_list_key pool)) ≡ some l =
        rw (same (free_list_key pool) (state-ne pool _ _ refl) (state-ne pool _ _ refl))
          h.free_list in
      let (pushed, put) = rpush-Puts (free_list_key pool) r1 l queue x in
      let r2 = (rpush (free_list_key pool) x r1).1 in
      let h2 : Holds pool (l ++ x ∷ []) (add x s) (discard x u) r2 = record {
        free_list = ground (arith, put.at);
        free_set = rw (put.rest (free_set_key pool) (state-ne pool _ _ refl)) into;
        inuse_set = rw (put.rest (inuse_set_key pool) (state-ne pool _ _ refl)) out;
      } in
      let g2 =
        Reasons-SameButTags pool owner r r2 m o (λ j nl ns nu. put.rest j nl ∙ same j nu ns) g in
      let (done, gone, kept) =
        remove_reason_lem json pool x m o owner raw reason r2 g2 hraw hload hown in
      rw (one, pushed)
        (
          done,
          Holds-SameButReasons pool owner r2 _ _ _ _ kept h2,
          give-IsConsistent x l s u c inuse,
          gone,
        )

  -- Releasing a tag that is not in use changes nothing.
  pub release_tag-absent :
      member x u ≡ false → Holds pool l s u r → release_tag json (pool, x) r ≡ (ok tt, r)
  unfolding release_tag
  release_tag-absent absent h = rw (
      smove-absent (inuse_set_key pool) (free_set_key pool) x u s r (state-ne pool _ _ refl)
        h.inuse_set h.free_set absent)

module _ (json : Json) (now : ℤ) (pool x : String) (owner : Option String) (reason : Option Reason)
    (m : Dict String) (o : List String)
    (round : json.loads (json.dumps (stamped json now owner reason))
      ≡ ok (stamped json now owner reason)) where
  open json use {dumps}

  stamped_owner : lookup "owner" (stamped json now owner reason) ≡ some (of_owner owner)
  stamped_owner = rw lookup-insert

  acquired_by_stored :
      (n : Dict String) (p : List String) (r : Redis)
      → lookup x n ≡ some (dumps (stamped json now owner reason))
      → Reasons pool (owner_key owner) n p r
      → acquired_by json (pool, x) r
        ≡ (ok (some (of_owner owner), some (stamped json now owner reason)), r)
  unfolding acquired_by
  acquired_by_stored n p r found g =
      rw (hget-eq (reason_key pool) r n g.reasons x, found, round, stamped_owner)

  -- If the reason can be read back, `acquired_by` after `acquire_tag` returns the owner that the
  -- tag was acquired for and the reason with the time and the owner in it.
  pub acquired_by-acquire_tag :
      (l s u : List String) (r : Redis)
      → IsConsistent (x ∷ l) s u
      → Holds pool (x ∷ l) s u r
      → Reasons pool (owner_key owner) m o r
      → let r' = (acquire_tag json now pool owner reason r).1 in
        acquired_by json (pool, x) r'
        ≡ (ok (some (of_owner owner), some (stamped json now owner reason)), r')
  acquired_by-acquire_tag l s u r c h g =
      let (_, acquired, _) = acquire_tag_lem json now pool owner reason m o x l s u r c h g in
      let found : lookup x (insert x (dumps (stamped json now owner reason)) m)
          ≡ some (dumps (stamped json now owner reason)) =
        rw (lookup-insert, eq_refl) in
      acquired_by_stored _ _ _ found acquired.reasons

  -- `release_tag` leaves the reason: of a tag that is in use with a reason that can be read back, once
  -- it is released and so free again, `acquired_by` still returns the owner and the reason.
  pub acquired_by-release_tag :
      (l s u : List String) (r : Redis)
      → member x u ≡ true
      → IsConsistent l s u
      → Holds pool l s u r
      → Reasons pool (owner_key owner) (insert x (dumps (stamped json now owner reason)) m) o r
      → let r' = (release_tag json (pool, x) r).1 in
        Holds pool (l ++ x ∷ []) (add x s) (discard x u) r'
        × (acquired_by json (pool, x) r'
            ≡ (ok (some (of_owner owner), some (stamped json now owner reason)), r'))
  acquired_by-release_tag l s u r inuse c h g =
      let stored = insert x (dumps (stamped json now owner reason)) m in
      let found : lookup x stored ≡ some (dumps (stamped json now owner reason)) =
        rw (lookup-insert, eq_refl) in
      let (_, held, _, gone) =
        release_tag_lem json pool x l s u r owner stored o _ _ inuse c h g found round
          stamped_owner in
      (held, acquired_by_stored _ _ _ found gone)
