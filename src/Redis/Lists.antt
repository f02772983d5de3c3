-- ===== src/Redis/Lists.antt =====
-- The list operations of vumi/persist/fake_redis.py.
pub mod Removal
pub mod Queue
pub mod Trim
use vumi.Base.{
  ℕ, suc, ◌+◌, ◌-◌, String, Bool, true, false, Option, none, some, List, [], ◌∷◌, ◌++◌, reverse,
  length, ltb, ◌==◌, ◌&&◌, ◌||◌, str_eq, if◌then◌else◌,
}
use vumi.Base.Int.{ℤ, pos, negsuc, ◌+ℤ◌, eqb_ℤ, leb_ℤ, ltb_ℤ}
use vumi.Base.Slices.{slice, del_from, del_to}
use vumi.Base.Exec.{Exec, pure, modify, ◌>>=◌, ◌>>◌}
use vumi.Redis.State.{Redis, list, mutate, set_key, setdefault_key, get_list, value_at}

unfoldable pub llen : String → Exec Redis ℕ
llen key = do l ← get_list key; pure (length l)

unfoldable pub lpop : String → Exec Redis (Option String)
lpop key = do
  l ← get_list key
  elim l [ [] ↦ pure none | x ∷ rest ↦ do modify (mutate key (list rest)); pure (some x) ]

-- What `pop(-1)` takes from the end of `x ∷ xs`, and what it leaves.
unfoldable pub pop_last : String → List String → String × List String
pop_last x [] = (x, [])
pop_last x (y ∷ ys) = let (z, rest) = pop_last y ys in (z, x ∷ rest)

unfoldable pub rpop : String → Exec Redis (Option String)
rpop key = do
  l ← get_list key
  elim l [
    | [] ↦ pure none
    | x ∷ rest ↦ do modify (mutate key (list (pop_last x rest).1)); pure (some (pop_last x rest).0)
  ]

unfoldable pub lpush : String → String → Exec Redis (Unit {0})
lpush key obj = do
  l ← get_list key
  modify (setdefault_key key (list []))
  modify (mutate key (list (obj ∷ l)))

unfoldable pub rpush : String → String → Exec Redis ℕ
rpush key obj = do
  l ← get_list key
  modify (setdefault_key key (list []))
  modify (mutate key (list (l ++ obj ∷ [])))
  pure (length (l ++ obj ∷ []) - 1)

-- `lval[start:end]` after the adjustment of `end`
unfoldable pub range_of : ℤ → ℤ → List String → List String
unfolding slice
range_of start end lval =
    slice start (if leb_ℤ (pos 0) end || ltb_ℤ end (negsuc 0) then some (end +ℤ pos 1) else none)
      lval

unfoldable pub lrange : String → ℤ → ℤ → Exec Redis (List String)
lrange key start end = do lval ← get_list key; pure (range_of start end lval)

abbrev pub abs : ℤ → ℕ
abs (pos n) = n
abs (negsuc n) = suc n

-- The list comprehension over `keep`, which counts in `removed`: what is kept, and the count.
unfoldable pub keep_all : String → ℤ → ℕ → List String → List String × ℕ
keep_all value num removed [] = ([], removed)
keep_all value num removed (v ∷ vs) =
    let drop_it = str_eq v value && (eqb_ℤ num (pos 0) || ltb removed (abs num)) in
    let (kept, n) = keep_all value num (if drop_it then removed + 1 else removed) vs in
    (if drop_it then kept else v ∷ kept, n)

-- From the front for a count of 0 or more, from the end for one below.
unfoldable pub remove_from : String → ℤ → List String → List String × ℕ
unfolding keep_all
remove_from value num lval =
    if leb_ℤ (pos 0) num
    then keep_all value num 0 lval
    else (let (kept, n) = keep_all value num 0 (reverse lval) in (reverse kept, n))

unfoldable pub lrem : String → String → ℤ → Exec Redis ℕ
lrem key value num = do
  lval ← get_list key
  modify (set_key key (list (remove_from value num lval).0))
  pure (remove_from value num lval).1

-- An empty text that was popped is not pushed: Python's `if value`.
unfoldable pub rpoplpush : String → String → Exec Redis (Option String)
rpoplpush source destination = do
  value ← rpop source
  elim value [
    | none ↦ pure none
    | some v ↦ if str_eq v "" then pure none else (do lpush destination v; pure (some v))
  ]

abbrev pub in_place : String → List String → Redis → Redis
in_place key l r = elim (value_at r key) [ none ↦ r | some _ ↦ mutate key (list l) r ]

-- What the two `del` statements leave.
unfoldable pub trim_list : ℤ → ℤ → List String → List String
unfolding del_from del_to
trim_list start stop lval =
    let kept = if eqb_ℤ stop (negsuc 0) then lval else del_from (stop +ℤ pos 1) lval in
    del_to start kept

-- The list is changed in place, so a key that is not there stays away.
unfoldable pub ltrim : String → ℤ → ℤ → Exec Redis (Unit {0})
ltrim key start stop = do lval ← get_list key; modify (in_place key (trim_list start stop lval))
