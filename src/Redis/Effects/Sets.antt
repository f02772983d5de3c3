-- ===== src/Redis/Effects/Sets.antt =====
-- What the operations on sets leave in the store.
use vumi.Base.{
  ℕ, ◌%◌, get_elem?, ◌-◌, String, ◌≡◌, ◌≢◌, refl, true, false, some, List, [], ◌∷◌, arith, length,
  ◌∙◌,
}
use vumi.Base.PySet.{member, discard, add, add_all}
use vumi.Base.Exec.{ok}
use vumi.Redis.State.{Redis, set, value_at, as_set, mutate}
use vumi.Redis.Sets.{sadd, srem, smove, spop, scard}
use vumi.Redis.Effects.{setdefault_key-Puts, mutate-Puts, Puts}

module _ (k : String) (r : Redis) (s : List String) (h : as_set (value_at r k) ≡ some s) where
  pub sadd-Puts :
      (xs : List String)
      → ((sadd k xs r).0 ≡ ok (length (add_all xs s) - length s))
        × Puts k (set (add_all xs s)) r (sadd k xs r).1
  unfolding sadd
  sadd-Puts xs = rw h (refl, setdefault_key-Puts k (set (add_all xs s)) r (set []))

  pub srem-Puts :
      (x : String)
      → member x s ≡ true
      → ((srem k x r).0 ≡ ok 1) × Puts k (set (discard x s)) r (srem k x r).1
  unfolding srem
  srem-Puts x m = rw (h, m) (refl, mutate-Puts k (set (discard x s)) r)

  pub srem-absent : (x : String) → member x s ≡ false → srem k x r ≡ (ok 0, r)
  unfolding srem
  srem-absent x m = rw (h, m)

module _ (src dst x : String) (s t : List String) (r : Redis) (ne : src ≢ dst)
    (hs : as_set (value_at r src) ≡ some s) (ht : as_set (value_at r dst) ≡ some t) where
  pub smove-member :
      member x s ≡ true
      → let (res, r') = smove src dst x r in
        (res ≡ ok 1)
        × (as_set (value_at r' src) ≡ some (discard x s))
        × (as_set (value_at r' dst) ≡ some (add x t))
        × ((j : String) → src ≢ j → dst ≢ j → value_at r' j ≡ value_at r j)
  unfolding smove add_all
  smove-member m =
      let (one, out) = srem-Puts src r s hs x m in
      let r' = (srem src x r).1 in
      let ht' : as_set (value_at r' dst) ≡ some t = rw (out.rest dst ne) ht in
      let (count, into) = sadd-Puts dst r' t ht' (x ∷ []) in
      rw (one, count)
        (
          refl,
          ground (arith, into.rest src, out.at),
          ground (arith, into.at),
          λ j nj nk. into.rest j nk ∙ out.rest j nj,
        )

  pub smove-absent : member x s ≡ false → smove src dst x r ≡ (ok 0, r)
  unfolding smove
  smove-absent m = rw (srem-absent src r s hs x m)

-- What `spop` and `scard` do with the set `s`, of which `x` is the member that is popped.
module _ (k : String) (r : Redis) (s : List String) (h : as_set (value_at r k) ≡ some s) where
  pub spop-eq :
      (pick : ℕ) (x : String)
      → get_elem? s (pick % length s) ≡ some x
      → spop pick k r ≡ (ok (some x), mutate k (set (discard x s)) r)
  unfolding spop
  spop-eq pick x at = rw h (rw at refl)

  pub scard-eq : scard k r ≡ (ok (length s), r)
  unfolding scard
  scard-eq = rw h refl
