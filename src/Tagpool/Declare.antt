-- ===== src/Tagpool/Declare.antt =====
-- `declare_tags`, for the tags of one pool: those that the pool does not know join its queue.
use mathlib.Core.List.{append_assoc, append-nil}
use vumi.Base.{
  String, ◌≡◌, refl, ap, ◌∙◌, true, false, not, ◌&&◌, ◌||◌, some, List, [], ◌∷◌, ◌++◌, arith,
  str_eq, eq_iff, eq_refl, Bool-cases, inl, inr,
}
use vumi.Base.PySet.{NoDup, member, add, add_all, member-add, member-add_all}
use vumi.Base.Text.{insort, sorted}
use vumi.Base.Exec.{ok, for_each}
use vumi.Redis.State.{Redis, value_at, as_list}
use vumi.Redis.Sets.{sadd, sunion}
use vumi.Redis.Effects.{rpush-Puts}
use vumi.Redis.Effects.Sets.{sadd-Puts}
use vumi.Tagpool.{
  free_list_key, free_set_key, inuse_set_key, new_tags, declare_tag, declare_pool_tags,
}
use vumi.Tagpool.Pool.{Holds, IsConsistent, member-append, NoDup-append}
use vumi.Tagpool.Keys.{state-ne}

member-insort :
    (x y : String) (l : List String) → member y (insort x l) ≡ (str_eq x y || member y l)
unfolding insort member
member-insort x y [] = refl
member-insort x y (z ∷ l) = ground (arith, member-insort x y l)

member-sorted : (y : String) (l : List String) → member y (sorted l) ≡ member y l
unfolding sorted member
member-sorted y [] = refl
member-sorted y (x ∷ l) =
    member-insort x y (sorted l) ∙ ap (λ b. str_eq x y || b) (member-sorted y l)

NoDup-insort : (x : String) (l : List String) → member x l ≡ false → NoDup l → NoDup (insort x l)
unfolding insort member
NoDup-insort x [] h n = (refl, tt)
NoDup-insort x (z ∷ l) h n =
    ground (arith, NoDup-insort x l, member-insort x z l, eq_iff x z, eq_iff z x)

NoDup-sorted : (l : List String) → NoDup l → NoDup (sorted l)
unfolding sorted member
NoDup-sorted [] n = tt
NoDup-sorted (x ∷ l) n = NoDup-insort x (sorted l) (member-sorted x l ∙ n.0) (NoDup-sorted l n.1)

member-new_tags :
    (y : String) (ts old : List String)
    → member y (new_tags ts old) ≡ (member y ts && not (member y old))
unfolding new_tags member
member-new_tags y [] old = refl
member-new_tags y (t ∷ ts) old = elim (Bool-cases (str_eq t y)) [
  | inl same ↦
      let e : t ≡ y = (eq_iff t y).0 same in
      rw (← e) (ground (arith, member-new_tags t ts old, eq_refl t))
  | inr other ↦ ground (arith, other, member-new_tags y ts old)
]

NoDup-new_tags : (ts old : List String) → NoDup (new_tags ts old)
unfolding new_tags member
NoDup-new_tags [] old = tt
NoDup-new_tags (t ∷ ts) old = ground (arith, NoDup-new_tags ts old, member-new_tags t ts old)

no_member : (y : String) → member y [] ≡ false
unfolding member
no_member y = refl

module _ (pool : String) where
  declare-IsConsistent :
      (x : String) (l s u : List String)
      → member x l ≡ false
      → member x u ≡ false
      → IsConsistent l s u
      → IsConsistent (l ++ x ∷ []) (add x s) u
  declare-IsConsistent x l s u hl hu c = record {
    no_dup = NoDup-append x l hl c.no_dup;
    same = λ y. member-append x y l ∙ ground (arith, c.same y, member-add x y s);
    apart = λ y m. ground (arith, m, member-add x y s, c.apart y, eq_iff x y, hu);
  }

  declare_tag_lem :
      (x : String) (l s u : List String) (r : Redis)
      → Holds pool l s u r
      → ((declare_tag pool x r).0 ≡ ok tt)
        × Holds pool (l ++ x ∷ []) (add x s) u (declare_tag pool x r).1
  unfolding declare_tag add_all
  declare_tag_lem x l s u r h =
      let (count, put) = sadd-Puts (free_set_key pool) r s h.free_set (x ∷ []) in
      let r1 = (sadd (free_set_key pool) (x ∷ []) r).1 in
      let queue : as_list (value_at r1 (free_list_key pool)) ≡ some l =
        rw (put.rest (free_list_key pool) (state-ne pool _ _ refl)) h.free_list in
      let (pushed, put') = rpush-Puts (free_list_key pool) r1 l queue x in
      rw (count, pushed)
        (
          refl,
          record {
            free_list = ground (arith, put'.at);
            free_set =
                ground (arith, put'.rest (free_set_key pool) (state-ne pool _ _ refl), put.at);
            inuse_set =
                rw
                  (
                    put'.rest (inuse_set_key pool) (state-ne pool _ _ refl),
                    put.rest (inuse_set_key pool) (state-ne pool _ _ refl),
                  )
                  h.inuse_set;
          },
        )

  -- The loop over new tags, each of which is neither queued nor in use.
  declare_loop :
      (n l s u : List String) (r : Redis)
      → NoDup n
      → ((y : String) → member y n ≡ true → (member y l ≡ false) × (member y u ≡ false))
      → IsConsistent l s u
      → Holds pool l s u r
      → let (res, r') = for_each n (declare_tag pool) r in
        (res ≡ ok tt)
        × Holds pool (l ++ n) (add_all n s) u r'
        × IsConsistent (l ++ n) (add_all n s) u
  unfolding for_each add_all member
  declare_loop [] l s u r nd new c h = rw append-nil (refl, h, c)
  declare_loop (x ∷ n) l s u r nd new c h =
      let fresh = new x (ground (arith, eq_refl x)) in
      let (done, h1) = declare_tag_lem x l s u r h in
      let c1 = declare-IsConsistent x l s u fresh.0 fresh.1 c in
      let rest =
        declare_loop n (l ++ x ∷ []) (add x s) u (declare_tag pool x r).1 nd.1
          (λ y m. ground (arith, m, nd.0, new y, member-append x y l, eq_iff x y)) c1 h1 in
      rw done (rw (append_assoc l (x ∷ []) n) at rest)

  -- Declaring tags in a consistent pool succeeds. The tags in use are the same;
  -- the queue begins as it was and goes on with the declared tags that were neither queued nor in
  -- use; and the pool is consistent.
  pub declare_pool_tags_lem :
      (tags l s u : List String) (r : Redis)
      → IsConsistent l s u
      → Holds pool l s u r
      → let (res, r') = declare_pool_tags pool tags r in
        (res ≡ ok tt)
        × ((new : List String) × ((y : String)
              → member y new ≡ (member y tags && not (member y l || member y u)))
            × Holds pool (l ++ new) (add_all new s) u r'
            × IsConsistent (l ++ new) (add_all new s) u)
  unfolding declare_pool_tags sunion
  declare_pool_tags_lem tags l s u r c h =
      let old = add_all u (add_all s []) in
      let new = sorted (new_tags tags old) in
      let known : (y : String) → member y old ≡ (member y l || member y u) = λ y.
        member-add_all u y (add_all s [])
        ∙ ground (arith, member-add_all s y [], c.same y, no_member y) in
      let members : (y : String)
          → member y new ≡ (member y tags && not (member y l || member y u)) =
        λ y.
          member-sorted y (new_tags tags old)
          ∙ member-new_tags y tags old
          ∙ ap (λ b. member y tags && not b) (known y) in
      let (done, held, consistent) =
        declare_loop new l s u r (NoDup-sorted _ (NoDup-new_tags tags old))
          (λ y m. ground (arith, m, members y)) c h in
      rw (h.free_set, h.inuse_set) (done, (new, members, held, consistent))
