-- ===== src/Redis/Zset.antt =====
-- `class Zset` of vumi/persist/fake_redis.py: pairs of a score and a member, in the order of
-- Python's tuples.
pub mod Order
pub mod Ranges
pub mod Members
pub mod Sizes
use Prim.Native.String.{compare}
use text.Mathlib.Text.{is_le}
use vumi.Base.{
  ℕ, ◌-◌, ◌+◌, String, Bool, true, false, Option, none, some, List, [], ◌∷◌, ◌++◌, map, reverse,
  length, ◌==◌, str_eq, not, ◌&&◌, ◌||◌, if◌then◌else◌, is_some,
}
use vumi.Base.Int.{ℤ, pos, negsuc, ◌+ℤ◌, ltb_ℤ, leb_ℤ, eqb_ℤ, sub_ℕ}
use vumi.Base.Slices.{slice, del_slice}
use vumi.Base.Dict.{Dict, contains}

abbrev pub Zval : Type 0
Zval = List (ℤ × String)

-- `a <= b` on tuples
unfoldable pub tuple_le : ℤ × String → ℤ × String → Bool
tuple_le (j, v) (k, w) = ltb_ℤ j k || (eqb_ℤ j k && is_le (compare v w))

-- `list.sort()`, by insertion
unfoldable pub insort : ℤ × String → Zval → Zval
insort e [] = e ∷ []
insort e (f ∷ z) = if tuple_le e f then e ∷ f ∷ z else f ∷ insort e z

unfoldable pub sort : Zval → Zval
sort [] = []
sort (e ∷ z) = insort e (sort z)

-- `[val for val in self._zval if p(val[1])]`
unfoldable pub keep_members : (String → Bool) → Zval → Zval
keep_members p [] = []
keep_members p ((k, v) ∷ z) = let rest = keep_members p z in if p v then (k, v) ∷ rest else rest

-- The new set, and the number of members added.
unfoldable pub zadd : Dict ℤ → Zval → Zval × ℤ
unfolding sort keep_members
zadd valscores z =
    let new = sort (
      keep_members (λ v. not (contains v valscores)) z
      ++ map (λ (e : String × ℤ). (e.1, e.0)) valscores) in
    (new, sub_ℕ (length new) (length z))

unfoldable pub zrem : String → Zval → Zval × Bool
unfolding keep_members
zrem value z =
    let new = keep_members (λ v. not (str_eq v value)) z in (new, not (length new == length z))

unfoldable pub zcard : Zval → ℕ
zcard z = length z

unfoldable pub zrange : ℤ → ℤ → Bool → Zval → Zval
unfolding sort slice ◌+ℤ◌
zrange start stop desc z =
    let next = stop +ℤ pos 1 in
    let z' = if desc then reverse (sort z) else sort z in
    slice start (if eqb_ℤ next (pos 0) then none else some next) z'

-- The bounds of `zrangebyscore`: `-inf`, `+inf`, a score, and a score after `(`.
pub data Bound : Type 0 where
  neg_inf pos_inf : Bound
  at above : ℤ → Bound

-- `mkcheck(spec, is_upper_bound)`
unfoldable pub mkcheck : Bound → Bool → ℤ → Bool
mkcheck neg_inf is_upper k = false
mkcheck pos_inf is_upper k = true
mkcheck (at spec) is_upper k = if is_upper then leb_ℤ k spec else ltb_ℤ k spec
mkcheck (above spec) is_upper k = if is_upper then ltb_ℤ k spec else leb_ℤ k spec

unfoldable pub dropwhile : (ℤ → Bool) → Zval → Zval
dropwhile p [] = []
dropwhile p (e ∷ z) = let rest = dropwhile p z in if p e.0 then rest else e ∷ z

unfoldable pub takewhile : (ℤ → Bool) → Zval → Zval
takewhile p [] = []
takewhile p (e ∷ z) = let rest = takewhile p z in if p e.0 then e ∷ rest else []

-- `results.sort(key=lambda val: val[1])`, which is stable
unfoldable pub insort_score : ℤ × String → Zval → Zval
insort_score e [] = e ∷ []
insort_score e (f ∷ z) = if leb_ℤ e.0 f.0 then e ∷ f ∷ z else f ∷ insort_score e z

unfoldable pub sort_score : Zval → Zval
unfolding insort_score
sort_score [] = []
sort_score (e ∷ z) = insort_score e (sort_score z)

unfoldable pub first : Option ℤ → Zval → Zval
unfolding slice
first none z = z
first (some n) z = slice (pos 0) (some n) z

unfoldable pub zrangebyscore : Bound → Bound → ℤ → Option ℤ → Zval → Zval
unfolding zrange sort_score dropwhile takewhile mkcheck first
zrangebyscore min max start num z =
    let results = sort_score (zrange (pos 0) (negsuc 0) false z) in
    let within = takewhile (mkcheck max true) (dropwhile (mkcheck min false) results) in
    first num (slice start none within)

unfoldable pub zscore : String → Zval → Option ℤ
zscore val [] = none
zscore val ((score, value) ∷ z) = if str_eq value val then some score else zscore val z

-- `_redis_range_to_py_range`, on one index
unfoldable pub py_index : ℤ → ℕ → ℤ
unfolding ◌+ℤ◌
py_index (pos i) n = pos i
py_index (negsuc i) n = pos n +ℤ negsuc i

unfoldable pub zremrangebyrank : ℤ → ℤ → Zval → Zval × ℕ
unfolding slice del_slice py_index
zremrangebyrank start stop z =
    let n = length z in
    let from = py_index start n in
    let next = py_index stop n +ℤ pos 1 in
    let deleted = slice from (some next) z in (del_slice from next z, length deleted)
