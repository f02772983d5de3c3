-- ===== src/Redis/Zset/Sizes.antt =====
-- How `zadd` of one member changes the size of a sorted set.
use vumi.Base.{
  ◌+◌, String, ◌≡◌, refl, not, none, some, ◌∷◌, [], ◌++◌, arith, ◌∙◌, eq_iff, eq_refl, length,
  length-append, is_some, if◌then◌else◌,
}
use vumi.Base.Int.{ℤ, pos}
use vumi.Base.Dict.{contains, lookup}
use vumi.Redis.Zset.{Zval, insort, sort, keep_members, zadd, zscore}
use vumi.Redis.Zset.Members.{IsUnique, zadd_lem}

length-insort : (e : ℤ × String) (z : Zval) → length (insort e z) ≡ length z + 1
unfolding insort
length-insort e [] = refl
length-insort e (f ∷ z) = ground (arith, length-insort e z)

length-sort : (z : Zval) → length (sort z) ≡ length z
unfolding sort
length-sort [] = refl
length-sort (e ∷ z) = omega (arith, length-insort e (sort z), length-sort z)

module _ (v : String) (score : ℤ) where
  abbrev others : Zval → Zval
  others z = keep_members (λ w. not (contains w ((v, score) ∷ []))) z

  length-others_absent : (z : Zval) → zscore v z ≡ none → length (others z) ≡ length z
  unfolding keep_members zscore lookup
  length-others_absent [] h = refl
  length-others_absent (e ∷ z) h =
      ground (arith, length-others_absent z, eq_iff e.1 v, eq_iff v e.1)

  length-others :
      (z : Zval)
      → IsUnique z
      → length (others z) + (if is_some (zscore v z) then 1 else 0) ≡ length z
  unfolding keep_members zscore lookup
  length-others [] u = refl
  length-others (e ∷ z) u =
      ground (arith, length-others z u.1, length-others_absent z, u.0, eq_iff e.1 v, eq_iff v e.1)

  -- `zadd` counts a member exactly if it was not there.
  pub zadd-count :
      (z : Zval)
      → IsUnique z
      → (zadd ((v, score) ∷ []) z).1 ≡ pos (if is_some (zscore v z) then 0 else 1)
  unfolding zadd
  zadd-count z u =
      let all = length-sort (others z ++ (score, v) ∷ []) in
      let parts = length-append (others z) ((score, v) ∷ []) in
      let kept = length-others z u in ground (arith, all, parts, kept)

  -- The member then has that score, and no member occurs twice.
  pub zadd_one :
      (z : Zval)
      → IsUnique z
      → let z' = (zadd ((v, score) ∷ []) z).0 in IsUnique z' × (zscore v z' ≡ some score)
  unfolding lookup
  zadd_one z u =
      let (_, unique, scores) = zadd_lem ((v, score) ∷ []) z (refl, tt) u in
      (unique, scores v ∙ rw (eq_refl v) refl)
