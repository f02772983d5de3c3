-- ===== src/Tagpool/Pool.antt =====
-- What the store holds for one pool, and when that is consistent.
use vumi.Base.{
  String, ◌≡◌, refl, sym, ap, ◌∙◌, true, false, ◌||◌, some, List, [], ◌∷◌, ◌++◌, arith, str_eq,
  eq_iff, if◌then◌else◌,
}
use vumi.Base.PySet.{NoDup, member, add, discard, member-add, member-discard}
use vumi.Base.Dict.{Dict}
use vumi.Redis.State.{Redis, value_at, as_list, as_set, as_hash}
use vumi.Redis.Lists.Removal.{others, occurrences}
use vumi.Tagpool.{free_list_key, free_set_key, inuse_set_key, reason_key}

-- The queue of free tags, the set of free tags and the set of tags in use.
pub record Holds (pool : String) (l s u : List String) (r : Redis) : Type 0 where
  pub free_list : as_list (value_at r (free_list_key pool)) ≡ some l
  pub free_set : as_set (value_at r (free_set_key pool)) ≡ some s
  pub inuse_set : as_set (value_at r (inuse_set_key pool)) ≡ some u

-- The reasons that the pool's tags were acquired for, and the tags of one owner.
pub record Reasons (pool owner_list : String) (m : Dict String) (o : List String) (r : Redis)
    : Type 0 where
  pub reasons : as_hash (value_at r (reason_key pool)) ≡ some m
  pub owned : as_set (value_at r owner_list) ≡ some o

-- The queue holds each free tag once, and no tag is both free and in use.
pub record IsConsistent (l s u : List String) : Type 0 where
  pub no_dup : NoDup l
  pub same : (x : String) → member x l ≡ member x s
  pub apart : (x : String) → member x s ≡ true → member x u ≡ false

module _ (x : String) where
  pub member-append :
      (y : String) (l : List String) → member y (l ++ x ∷ []) ≡ (member y l || str_eq x y)
  unfolding member
  member-append y [] = ground arith
  member-append y (z ∷ l) = ground (arith, member-append y l)

  pub NoDup-append : (l : List String) → member x l ≡ false → NoDup l → NoDup (l ++ x ∷ [])
  unfolding member
  NoDup-append [] h n = (refl, tt)
  NoDup-append (y ∷ l) h n =
      ground (arith, NoDup-append l, member-append y l, eq_iff x y, eq_iff y x)

  pub member-others :
      (y : String) (l : List String)
      → member y (others x l) ≡ (if str_eq x y then false else member y l)
  unfolding member
  member-others y [] = ground arith
  member-others y (z ∷ l) = ground (arith, member-others y l, eq_iff z x, eq_iff x y, eq_iff z y)

  pub NoDup-others : (l : List String) → NoDup l → NoDup (others x l)
  unfolding member
  NoDup-others [] n = tt
  NoDup-others (y ∷ l) n = ground (arith, NoDup-others l, member-others y l)

  pub occurrences-NoDup :
      (l : List String) → NoDup l → occurrences x l ≡ (if member x l then 1 else 0)
  unfolding member
  occurrences-NoDup [] n = refl
  occurrences-NoDup (y ∷ l) n = ground (arith, occurrences-NoDup l, eq_iff y x)

  pub others-absent : (l : List String) → occurrences x l ≡ 0 → others x l ≡ l
  others-absent [] h = refl
  others-absent (y ∷ l) h = ground (arith, others-absent l)

module _ (x : String) (l s u : List String) (c : IsConsistent l s u) where
  -- A free tag goes from the queue and the free set to the tags in use.
  pub take-IsConsistent : member x l ≡ true → IsConsistent (others x l) (discard x s) (add x u)
  take-IsConsistent h = record {
    no_dup = NoDup-others x l c.no_dup;
    same = λ y.
        member-others x y l
        ∙ ap (λ b. if str_eq x y then false else b) (c.same y)
        ∙ sym (member-discard x y s);
    apart = λ y m. ground (arith, m, member-discard x y s, member-add x y u, c.apart y);
  }

  -- A tag in use goes to the end of the queue and to the free set.
  pub give-IsConsistent : member x u ≡ true → IsConsistent (l ++ x ∷ []) (add x s) (discard x u)
  give-IsConsistent h = record {
    no_dup = NoDup-append x l (ground (arith, c.same x, c.apart x, h)) c.no_dup;
    same = λ y. ground (arith, member-append x y l, member-add x y s, c.same y);
    apart = λ y m. ground (arith, m, member-add x y s, member-discard x y u, c.apart y);
  }
