-- ===== src/Redis/Zset/Members.antt =====
-- The members of a sorted set: each has one score, which `zadd` sets and `zrem` takes away.
use vumi.Base.{
  String, ◌≡◌, refl, Bool, not, Option, none, some, [], ◌∷◌, ◌++◌, arith, ◌∙◌, ap, str_eq, eq_iff,
  if◌then◌else◌, Bool-cases, inl, inr, length, map, is_some, Option-cases, eq_refl, ◌≢◌, ◌≤◌, ◌==◌,
}
use vumi.Base.Int.{ℤ}
use vumi.Base.Dict.{Dict, lookup, contains}
use vumi.Redis.Zset.{Zval, insort, sort, keep_members, zadd, zrem, zscore}
use vumi.Redis.Zset.Order.{IsSorted, sort-IsSorted}

-- No member occurs twice.
abbrev pub IsUnique : Zval → Type 0
IsUnique [] = Unit
IsUnique (e ∷ z) = (zscore e.1 z ≡ none) × IsUnique z

abbrev pub or_else : Option ℤ → Option ℤ → Option ℤ
or_else none b = b
or_else (some k) b = some k

zscore-insort :
    (w : String) (e : ℤ × String) (z : Zval)
    → zscore e.1 z ≡ none
    → zscore w (insort e z) ≡ (if str_eq e.1 w then some e.0 else zscore w z)
unfolding zscore insort
zscore-insort w e [] h = refl
zscore-insort w e (f ∷ z) h =
    ground (arith, zscore-insort w e z, eq_iff e.1 w, eq_iff f.1 w, eq_iff f.1 e.1)

insort-IsUnique :
    (e : ℤ × String) (z : Zval) → zscore e.1 z ≡ none → IsUnique z → IsUnique (insort e z)
unfolding insort zscore
insort-IsUnique e [] h u = (refl, tt)
insort-IsUnique e (f ∷ z) h u =
    ground (arith, insort-IsUnique e z, zscore-insort f.1 e z, eq_iff f.1 e.1, eq_iff e.1 f.1)

sort_members :
    (z : Zval) → IsUnique z → IsUnique (sort z) × ((w : String) → zscore w (sort z) ≡ zscore w z)
unfolding sort zscore
sort_members [] u = (tt, λ w. refl)
sort_members (e ∷ z) u =
    let (unique, same) = sort_members z u.1 in
    let fresh : zscore e.1 (sort z) ≡ none = same e.1 ∙ u.0 in
    (
      insort-IsUnique e (sort z) fresh unique,
      λ w.
          zscore-insort w e (sort z) fresh
          ∙ ap (λ o. if str_eq e.1 w then some e.0 else o) (same w),
    )

zscore-append : (w : String) (y z : Zval) → zscore w (y ++ z) ≡ or_else (zscore w y) (zscore w z)
unfolding zscore
zscore-append w [] z = refl
zscore-append w (e ∷ y) z = ground (arith, zscore-append w y z)

zscore-keep_members :
    (p : String → Bool) (w : String) (z : Zval)
    → zscore w (keep_members p z) ≡ (if p w then zscore w z else none)
unfolding zscore keep_members
zscore-keep_members p w [] = ground arith
zscore-keep_members p w (e ∷ z) = elim (Bool-cases (str_eq e.1 w)) [
  | inl same ↦
      let eq : e.1 ≡ w = (eq_iff e.1 w).0 same in
      rw (← eq) (ground (arith, zscore-keep_members p e.1 z, eq_iff e.1 e.1))
  | inr other ↦ ground (arith, zscore-keep_members p w z)
]

keep_members-IsUnique : (p : String → Bool) (z : Zval) → IsUnique z → IsUnique (keep_members p z)
unfolding keep_members
keep_members-IsUnique p [] u = tt
keep_members-IsUnique p (e ∷ z) u =
    ground (arith, keep_members-IsUnique p z, zscore-keep_members p e.1 z)

-- A Python dict has each key once.
abbrev pub HasUniqueKeys : Dict ℤ → Type 0
HasUniqueKeys [] = Unit
HasUniqueKeys ((k, v) ∷ d) = (lookup k d ≡ none) × HasUniqueKeys d

abbrev pairs : Dict ℤ → Zval
pairs = map (λ (e : String × ℤ). (e.1, e.0))

zscore-pairs : (w : String) (m : Dict ℤ) → zscore w (pairs m) ≡ lookup w m
unfolding zscore lookup
zscore-pairs w [] = refl
zscore-pairs w ((k, v) ∷ m) = ap (λ o. if str_eq k w then some v else o) (zscore-pairs w m)

pairs-IsUnique : (m : Dict ℤ) → HasUniqueKeys m → IsUnique (pairs m)
pairs-IsUnique [] u = tt
pairs-IsUnique ((k, v) ∷ m) u = (zscore-pairs k m ∙ u.0, pairs-IsUnique m u.1)

append-IsUnique :
    (y z : Zval)
    → IsUnique y
    → IsUnique z
    → ((w : String) → zscore w z ≢ none → zscore w y ≡ none)
    → IsUnique (y ++ z)
unfolding zscore
append-IsUnique [] z uy uz apart = uz
append-IsUnique (e ∷ y) z uy uz apart = (
  elim (Option-cases (zscore e.1 z)) [
    | inl absent ↦ zscore-append e.1 y z ∙ rw (uy.0, absent)
    | inr (k, there) ↦
        let n = apart e.1 (λ a. cc (a, there)) in absurd (ground (arith, n, eq_refl e.1))
  ],
  append-IsUnique y z uy.1 uz (λ w h. let n = apart w h in ground (arith, n)),
)

-- After `zadd` the set is sorted, each member is in it once, and a member has the score that was
-- given for it or, where none was given, the score that it had.
pub zadd_lem :
    (m : Dict ℤ) (z : Zval)
    → HasUniqueKeys m
    → IsUnique z
    → let z' = (zadd m z).0 in
      IsSorted z' × IsUnique z' × ((w : String) → zscore w z' ≡ or_else (lookup w m) (zscore w z))
unfolding zadd
zadd_lem m z um uz =
    let keep : String → Bool = λ v. not (contains v m) in
    let kept = keep_members keep z in
    let whole =
      append-IsUnique kept (pairs m) (keep_members-IsUnique keep z uz) (pairs-IsUnique m um)
        (λ w h. zscore-keep_members keep w z ∙ ground (arith, zscore-pairs w m)) in
    let (unique, same) = sort_members (kept ++ pairs m) whole in
    (
      sort-IsSorted (kept ++ pairs m),
      unique,
      λ w.
          same w
          ∙ zscore-append w kept (pairs m)
          ∙ ground (arith, zscore-keep_members keep w z, zscore-pairs w m),
    )

length-keep_members_le : (p : String → Bool) (z : Zval) → length (keep_members p z) ≤ length z
unfolding keep_members
length-keep_members_le p [] = omega arith
length-keep_members_le p (e ∷ z) = ground (arith, length-keep_members_le p z)

-- Leaving out one member shortens the set exactly when the member is there.
keep_members_shorter :
    (v : String) (z : Zval)
    → not (length (keep_members (λ x. not (str_eq x v)) z) == length z) ≡ is_some (zscore v z)
unfolding keep_members zscore
keep_members_shorter v [] = refl
keep_members_shorter v (e ∷ z) =
    ground (arith, keep_members_shorter v z, length-keep_members_le (λ x. not (str_eq x v)) z)

-- After `zrem` the member has no score, every other member has the score that it had, and the
-- call returns whether the member was there.
pub zrem_lem :
    (v : String) (z : Zval)
    → IsUnique z
    → let (z', existed) = zrem v z in
      IsUnique z'
      × ((w : String) → zscore w z' ≡ (if str_eq v w then none else zscore w z))
      × (existed ≡ is_some (zscore v z))
unfolding zrem
zrem_lem v z u = (
  keep_members-IsUnique _ z u,
  λ w. zscore-keep_members (λ x. not (str_eq x v)) w z ∙ ground (arith, eq_iff v w, eq_iff w v),
  keep_members_shorter v z,
)
