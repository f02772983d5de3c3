-- ===== src/Redis/Zset/Ranges.antt =====
-- `zrangebyscore` walks a sorted set with `dropwhile` and `takewhile`; on a sorted set that is the
-- selection of the members whose score lies within the bounds.
use mathlib.Core.Bool.{true≢false}
use Prim.Native.Nat.{min}
use mathlib.Core.Path.{fun_ext}
use vumi.Base.{
  String, ◌≡◌, refl, sym, Bool, true, false, ◌&&◌, not, none, List, [], ◌∷◌, arith, ap,
  if◌then◌else◌, Bool-cases, inl, inr, length, take-length,
}
use vumi.Base.Int.{ℤ, pos, negsuc, ◌≤ℤ◌, ltb_ℤ, leb_ℤ}
use vumi.Base.Slices.{slice}
use vumi.Redis.Zset.{
  Zval, tuple_le, sort_score, insort_score, dropwhile, takewhile, mkcheck, Bound, neg_inf, pos_inf,
  at, above, first, zrange, zrangebyscore,
}
use vumi.Redis.Zset.Order.{IsSorted, sort-eq_of_IsSorted}

-- every score is at least `k`
abbrev AllFrom : ℤ → Zval → Type 0
AllFrom k [] = Unit
AllFrom k (e ∷ z) = (k ≤ℤ e.0) × AllFrom k z

abbrev IsOrdered : Zval → Type 0
IsOrdered [] = Unit
IsOrdered (e ∷ z) = AllFrom e.0 z × IsOrdered z

AllFrom-weaken : (j k : ℤ) (z : Zval) → j ≤ℤ k → AllFrom k z → AllFrom j z
AllFrom-weaken j k [] le h = tt
AllFrom-weaken j k (e ∷ z) le h = (omega arith, AllFrom-weaken j k z le h.1)

score_le : (e f : ℤ × String) → tuple_le e f ≡ true → e.0 ≤ℤ f.0
unfolding tuple_le
score_le e f h = ground arith

IsSorted-IsOrdered : (z : Zval) → IsSorted z → IsOrdered z
IsSorted-IsOrdered [] h = tt
IsSorted-IsOrdered (e ∷ []) h = (tt, tt)
IsSorted-IsOrdered (e ∷ f ∷ z) h =
    let rest = IsSorted-IsOrdered (f ∷ z) h.1 in
    let le = score_le e f h.0 in ((le, AllFrom-weaken e.0 f.0 z le rest.0), rest)

-- The members whose score passes a test.
abbrev pub select : (ℤ → Bool) → Zval → Zval
select p [] = []
select p (e ∷ z) = let rest = select p z in if p e.0 then e ∷ rest else rest

-- A test that passes at a score passes at every score below it.
abbrev IsLower : (ℤ → Bool) → Type 0
IsLower p = (j k : ℤ) → j ≤ℤ k → p k ≡ true → p j ≡ true

mkcheck-IsLower : (b : Bound) (upper : Bool) → IsLower (mkcheck b upper)
unfolding mkcheck
mkcheck-IsLower neg_inf upper j k le h = h
mkcheck-IsLower pos_inf upper j k le h = refl
mkcheck-IsLower (at spec) upper j k le h = ground arith
mkcheck-IsLower (above spec) upper j k le h = ground arith

module _ (p : ℤ → Bool) (lower : IsLower p) where
  fails_above : (j k : ℤ) → j ≤ℤ k → p j ≡ false → p k ≡ false
  fails_above j k le h = elim (Bool-cases (p k)) [
    | inl pass ↦ absurd (true≢false (rw (← lower j k le pass) h))
    | inr fail ↦ fail
  ]

  select-none : (k : ℤ) (z : Zval) → p k ≡ false → AllFrom k z → select p z ≡ []
  select-none k [] h from = refl
  select-none k (e ∷ z) h from = rw (fails_above k e.0 from.0 h) (select-none k z h from.1)

  select-all : (k : ℤ) (z : Zval) → p k ≡ false → AllFrom k z → select (λ j. not (p j)) z ≡ z
  select-all k [] h from = refl
  select-all k (e ∷ z) h from =
      rw (fails_above k e.0 from.0 h) (ap (λ y. e ∷ y) (select-all k z h from.1))

  takewhile-eq_select : (z : Zval) → IsOrdered z → takewhile p z ≡ select p z
  unfolding takewhile
  takewhile-eq_select [] h = refl
  takewhile-eq_select (e ∷ z) h = elim (Bool-cases (p e.0)) [
    | inl pass ↦ rw pass (ap (λ y. e ∷ y) (takewhile-eq_select z h.1))
    | inr fail ↦ rw fail (sym (select-none e.0 z fail h.0))
  ]

  dropwhile-eq_select : (z : Zval) → IsOrdered z → dropwhile p z ≡ select (λ j. not (p j)) z
  unfolding dropwhile
  dropwhile-eq_select [] h = refl
  dropwhile-eq_select (e ∷ z) h = elim (Bool-cases (p e.0)) [
    | inl pass ↦ rw pass (dropwhile-eq_select z h.1)
    | inr fail ↦ rw fail (ap (λ y. e ∷ y) (sym (select-all e.0 z fail h.0)))
  ]

AllFrom-select : (p : ℤ → Bool) (k : ℤ) (z : Zval) → AllFrom k z → AllFrom k (select p z)
AllFrom-select p k [] h = tt
AllFrom-select p k (e ∷ z) h = elim (Bool-cases (p e.0)) [
  | inl pass ↦ rw pass (h.0, AllFrom-select p k z h.1)
  | inr fail ↦ rw fail (AllFrom-select p k z h.1)
]

IsOrdered-select : (p : ℤ → Bool) (z : Zval) → IsOrdered z → IsOrdered (select p z)
IsOrdered-select p [] h = tt
IsOrdered-select p (e ∷ z) h = elim (Bool-cases (p e.0)) [
  | inl pass ↦ rw pass (AllFrom-select p e.0 z h.0, IsOrdered-select p z h.1)
  | inr fail ↦ rw fail (IsOrdered-select p z h.1)
]

select-select : (p q : ℤ → Bool) (z : Zval) → select p (select q z) ≡ select (λ k. q k && p k) z
select-select p q [] = refl
select-select p q (e ∷ z) = elim (Bool-cases (q e.0)) [
  | inl pass ↦ rw pass (rw (select-select p q z))
  | inr fail ↦ rw fail (select-select p q z)
]

insort_score-eq_cons : (e : ℤ × String) (z : Zval) → AllFrom e.0 z → insort_score e z ≡ e ∷ z
unfolding insort_score
insort_score-eq_cons e [] h = refl
insort_score-eq_cons e (f ∷ z) h = let le : leb_ℤ e.0 f.0 ≡ true = ground arith in rw le

sort_score-eq_self : (z : Zval) → IsOrdered z → sort_score z ≡ z
unfolding sort_score
sort_score-eq_self [] h = refl
sort_score-eq_self (e ∷ z) h = rw (sort_score-eq_self z h.1) (insort_score-eq_cons e z h.0)

slice-whole {ℓ} : {A : Type ℓ} (xs : List A) → slice (pos 0) none xs ≡ xs
unfolding slice
slice-whole xs = let e : min 0 (length xs) ≡ 0 = omega arith in rw e (take-length xs)

zrange-all : (z : Zval) → IsSorted z → zrange (pos 0) (negsuc 0) false z ≡ z
unfolding zrange
zrange-all z h = rw (sort-eq_of_IsSorted z h) (slice-whole z)

-- A score is at or past the lower bound.
abbrev pub meets_lower : Bound → ℤ → Bool
meets_lower neg_inf k = true
meets_lower pos_inf k = false
meets_lower (at spec) k = leb_ℤ spec k
meets_lower (above spec) k = ltb_ℤ spec k

-- A score is at or before the upper bound.
abbrev pub meets_upper : Bound → ℤ → Bool
meets_upper neg_inf k = false
meets_upper pos_inf k = true
meets_upper (at spec) k = leb_ℤ k spec
meets_upper (above spec) k = ltb_ℤ k spec

checks_agree :
    (min max : Bound) (k : ℤ)
    → (not (mkcheck min false k) && mkcheck max true k) ≡ (meets_lower min k && meets_upper max k)
unfolding mkcheck
checks_agree min max k = cc (lower min, upper max)
  where
    lower : (b : Bound) → not (mkcheck b false k) ≡ meets_lower b k
    lower neg_inf = refl
    lower pos_inf = refl
    lower (at spec) = ground arith
    lower (above spec) = ground arith

    upper : (b : Bound) → mkcheck b true k ≡ meets_upper b k
    upper neg_inf = refl
    upper pos_inf = refl
    upper (at spec) = refl
    upper (above spec) = refl

-- On a sorted set, `zrangebyscore` between two bounds, with no offset and no limit, returns
-- exactly the pairs whose score meets both bounds, in the order of the set.
pub zrangebyscore-eq_select :
    (min max : Bound) (z : Zval)
    → IsSorted z
    → zrangebyscore min max (pos 0) none z ≡ select (λ k. meets_lower min k && meets_upper max k) z
unfolding zrangebyscore first
zrangebyscore-eq_select min max z h =
    let ordered = IsSorted-IsOrdered z h in
    let lower = mkcheck-IsLower min false in
    let upper = mkcheck-IsLower max true in
    let kept = IsOrdered-select (λ k. not (mkcheck min false k)) z ordered in
    rw
      (
        zrange-all z h,
        sort_score-eq_self z ordered,
        dropwhile-eq_select (mkcheck min false) lower z ordered,
        takewhile-eq_select (mkcheck max true) upper _ kept,
        slice-whole,
        select-select,
      )
      (ap (λ p. select p z) (fun_ext (checks_agree min max)))
