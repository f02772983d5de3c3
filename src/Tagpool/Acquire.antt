-- ===== src/Tagpool/Acquire.antt =====
-- `acquire_tag` and `acquire_specific_tag` against the view of a pool as a queue of free tags and
-- a set of tags in use.
use vumi.Base.{
  ℕ, String, ◌≡◌, refl, sym, ap, ◌∙◌, true, false, Option, none, some, List, [], ◌∷◌, arith,
  eq_refl,
}
use vumi.Base.Int.{ℤ, pos}
use vumi.Base.PySet.{NoDup, member, add, discard}
use vumi.Base.Dict.{Dict, insert}
use vumi.Base.Exec.{ok, ◌>>◌, pure, Exec}
use vumi.Redis.State.{Redis}
use vumi.Redis.Lists.{lpop, lrem}
use vumi.Redis.Lists.Removal.{others, occurrences, quota, lrem_lem}
use vumi.Redis.Sets.{smove}
use vumi.Redis.Effects.{lpop-Puts, lpop-nil}
use vumi.Redis.Effects.Sets.{smove-member}
use vumi.Tagpool.{
  Json, Reason, free_list_key, free_set_key, inuse_set_key, owner_key, store_reason, stamped,
  acquire_tag, acquire_specific_tag,
}
use vumi.Tagpool.Pool.{
  Holds, Reasons, IsConsistent, take-IsConsistent, others-absent, occurrences-NoDup,
}
use vumi.Tagpool.Keys.{state-ne}
use vumi.Tagpool.Frame.{Holds-SameButReasons, Reasons-SameButTags}
use vumi.Tagpool.Reasons.{store_reason_lem}

first : (x : String) (l : List String) → member x (x ∷ l) ≡ true
unfolding member
first x l = ground (arith, eq_refl x)

head_gone : (x : String) (l : List String) → NoDup (x ∷ l) → others x (x ∷ l) ≡ l
head_gone x l n = ground (arith, eq_refl x, n, occurrences-NoDup x l n.1, others-absent x l)

module _ (json : Json) (now : ℤ) (pool : String) (owner : Option String) (reason : Option Reason)
    (m : Dict String) (o : List String) where
  open json use {dumps, dumps_tag}

  -- After a tag was acquired: it is in use, its reason and its owner are stored, and the queue
  -- and the sets are consistent.
  pub record Acquired (x : String) (l s u : List String) (r' : Redis) : Type 0 where
    pub holds : Holds pool l (discard x s) (add x u) r'
    pub reasons :
        Reasons pool
          (owner_key owner)
          (insert x (dumps (stamped json now owner reason)) m)
          (add (dumps_tag pool x) o)
          r'

  -- The two steps that both ways to acquire a tag end in.
  abbrev claim : {A : Type 0} → String → A → Exec Redis A
  claim x v = do
    smove (free_set_key pool) (inuse_set_key pool) x
    store_reason json now pool x owner reason
    pure v

  claim_lem :
      {A : Type 0} (v : A) (x : String) (l s u : List String) (r : Redis)
      → member x s ≡ true
      → Holds pool l s u r
      → Reasons pool (owner_key owner) m o r
      → ((claim x v r).0 ≡ ok v) × Acquired x l s u (claim x v r).1
  claim_lem v x l s u r free h g =
      let (one, out, into, same) =
        smove-member (free_set_key pool) (inuse_set_key pool) x s u r (state-ne pool _ _ refl)
          h.free_set h.inuse_set free in
      let r1 = (smove (free_set_key pool) (inuse_set_key pool) x r).1 in
      let h1 : Holds pool l (discard x s) (add x u) r1 = record {
        free_list =
            rw (same (free_list_key pool) (state-ne pool _ _ refl) (state-ne pool _ _ refl))
              h.free_list;
        free_set = out;
        inuse_set = into;
      } in
      let g1 = Reasons-SameButTags pool owner r r1 m o (λ j nl ns nu. same j ns nu) g in
      let (done, stored, kept) = store_reason_lem json pool x m o now owner reason r1 g1 in
      rw (one, done)
        (
          refl,
          record {
            holds = Holds-SameButReasons pool owner r1 _ l (discard x s) (add x u) kept h1;
            reasons = stored;
          },
        )

  -- From a pool with a free tag, `acquire_tag` returns the tag at the front of the queue. The tag
  -- leaves the queue and the free set and is in use, its reason (with the time and the owner) and
  -- the owner's list name it, and the pool is consistent if it was before.
  pub acquire_tag_lem :
      (x : String) (l s u : List String) (r : Redis)
      → IsConsistent (x ∷ l) s u
      → Holds pool (x ∷ l) s u r
      → Reasons pool (owner_key owner) m o r
      → let (res, r') = acquire_tag json now pool owner reason r in
        (res ≡ ok (some (pool, x))) × Acquired x l s u r' × IsConsistent l (discard x s) (add x u)
  unfolding acquire_tag
  acquire_tag_lem x l s u r c h g =
      let (popped, put) = lpop-Puts (free_list_key pool) r x l h.free_list in
      let r1 = (lpop (free_list_key pool) r).1 in
      let free : member x s ≡ true = ground (arith, first x l, c.same x) in
      let h1 : Holds pool l s u r1 = record {
        free_list = ground (arith, put.at);
        free_set = rw (put.rest (free_set_key pool) (state-ne pool _ _ refl)) h.free_set;
        inuse_set = rw (put.rest (inuse_set_key pool) (state-ne pool _ _ refl)) h.inuse_set;
      } in
      let g1 = Reasons-SameButTags pool owner r r1 m o (λ j nl ns nu. put.rest j nl) g in
      let (done, acquired) = claim_lem (some x) x l s u r1 free h1 g1 in
      let left : others x (x ∷ l) ≡ l = head_gone x l c.no_dup in
      rw (popped, done) (refl, acquired, rw left at (take-IsConsistent x (x ∷ l) s u c (first x l)))

  -- `acquire_specific_tag` on a free tag returns the tag; it leaves the queue, wherever it stood,
  -- with the order of the others unchanged, and is in use as after `acquire_tag`.
  pub acquire_specific_tag_lem :
      (x : String) (l s u : List String) (r : Redis)
      → member x l ≡ true
      → IsConsistent l s u
      → Holds pool l s u r
      → Reasons pool (owner_key owner) m o r
      → let (res, r') = acquire_specific_tag json now (pool, x) owner reason r in
        (res ≡ ok (some (pool, x)))
        × Acquired x (others x l) s u r'
        × IsConsistent (others x l) (discard x s) (add x u)
  unfolding acquire_specific_tag
  acquire_specific_tag_lem x l s u r mem c h g =
      let (count, (l', held, fewer, same), rest) =
        lrem_lem (free_list_key pool) x (pos 1) l r h.free_list in
      let r1 = (lrem (free_list_key pool) x (pos 1) r).1 in
      let once : occurrences x l ≡ 1 = ground (arith, occurrences-NoDup x l c.no_dup, mem) in
      let none_left : occurrences x l' ≡ 0 = ground (arith, fewer, once) in
      let one : quota (pos 1) (occurrences x l) ≡ 1 = ground (arith, once) in
      let l'-eq : l' ≡ others x l = sym (others-absent x l' none_left) ∙ same in
      let free : member x s ≡ true = ground (arith, c.same x, mem) in
      let h1 : Holds pool (others x l) s u r1 = record {
        free_list = held ∙ ap some l'-eq;
        free_set = rw (rest (free_set_key pool) (state-ne pool _ _ refl)) h.free_set;
        inuse_set = rw (rest (inuse_set_key pool) (state-ne pool _ _ refl)) h.inuse_set;
      } in
      let g1 = Reasons-SameButTags pool owner r r1 m o (λ j nl ns nu. rest j nl) g in
      let (done, acquired) = claim_lem {A = ℕ} 1 x (others x l) s u r1 free h1 g1 in
      rw (count, one, done) (refl, acquired, take-IsConsistent x l s u c mem)

  -- On a tag that is not free, `acquire_specific_tag` returns nothing and the pool is as it was.
  pub acquire_specific_tag-absent :
      (x : String) (l s u : List String) (r : Redis)
      → member x l ≡ false
      → IsConsistent l s u
      → Holds pool l s u r
      → let (res, r') = acquire_specific_tag json now (pool, x) owner reason r in
        (res ≡ ok none) × Holds pool l s u r'
  unfolding acquire_specific_tag
  acquire_specific_tag-absent x l s u r mem c h =
      let (count, (l', held, fewer, same), rest) =
        lrem_lem (free_list_key pool) x (pos 1) l r h.free_list in
      let never : occurrences x l ≡ 0 = ground (arith, occurrences-NoDup x l c.no_dup, mem) in
      let none_left : occurrences x l' ≡ 0 = ground (arith, fewer, never) in
      let zero : quota (pos 1) (occurrences x l) ≡ 0 = ground (arith, never) in
      let l'-eq : l' ≡ l = sym (others-absent x l' none_left) ∙ same ∙ others-absent x l never in
      rw (count, zero)
        (
          refl,
          record {
            free_list = held ∙ ap some l'-eq;
            free_set = rw (rest (free_set_key pool) (state-ne pool _ _ refl)) h.free_set;
            inuse_set = rw (rest (inuse_set_key pool) (state-ne pool _ _ refl)) h.inuse_set;
          },
        )

  -- From a pool whose queue is empty, `acquire_tag` returns nothing and changes nothing.
  pub acquire_tag-nil :
      (s u : List String) (r : Redis)
      → Holds pool [] s u r
      → acquire_tag json now pool owner reason r ≡ (ok none, r)
  unfolding acquire_tag
  acquire_tag-nil s u r h = rw (lpop-nil (free_list_key pool) r h.free_list)
