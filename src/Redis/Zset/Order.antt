-- ===== src/Redis/Zset/Order.antt =====
-- The order of a sorted set, which `sort` establishes and every operation of `Zset` keeps.
use Prim.Native.Nat.{Ordering, compare as compare_ℕ}
use Prim.Native.Char.{code}
use Prim.Native.String as Str
use Prim.Native.String.{compare}
use Prim.Native.String.compare
use mathlib.Core.Bool.{true≢false}
use text.Mathlib.Text.{is_le}
use vumi.Base.{String, ◌≡◌, refl, true, false, [], ◌∷◌, arith, Bool-cases, inl, inr}
use vumi.Base.Int.{ℤ}
use vumi.Redis.Zset.{Zval, tuple_le, insort, sort}

-- Of two texts one is at most the other.
text_total : (s t : String) → is_le (compare s t) ≡ false → is_le (compare t s) ≡ true
text_total String.[] String.[] h = absurd (true≢false h)
text_total String.[] (String.◌∷◌ d t) h =
    let e : compare "" (String.◌∷◌ d t) ≡ Ordering.lt = λ i. compare.nil-cons d t i in
    ground (arith, e)
text_total (String.◌∷◌ c s) String.[] h =
    let e : compare "" (String.◌∷◌ c s) ≡ Ordering.lt = λ i. compare.nil-cons c s i in rw e
text_total (String.◌∷◌ c s) (String.◌∷◌ d t) h =
    let e : compare (String.◌∷◌ c s) (String.◌∷◌ d t)
        ≡ Str.then (compare_ℕ (code c) (code d)) (compare s t) =
      λ i. compare.cons-cons c d s t i in
    let f : compare (String.◌∷◌ d t) (String.◌∷◌ c s)
        ≡ Str.then (compare_ℕ (code d) (code c)) (compare t s) =
      λ i. compare.cons-cons d c t s i in
    ground (arith, text_total s t, e, f)

tuple_le-total : (e f : ℤ × String) → tuple_le e f ≡ false → tuple_le f e ≡ true
unfolding tuple_le
tuple_le-total e f h = ground (arith, text_total e.1 f.1)

abbrev pub IsSorted : Zval → Type 0
IsSorted [] = Unit
IsSorted (e ∷ []) = Unit
IsSorted (e ∷ f ∷ z) = (tuple_le e f ≡ true) × IsSorted (f ∷ z)

insort-IsSorted_at :
    (e f : ℤ × String) (z : Zval)
    → tuple_le f e ≡ true
    → IsSorted (f ∷ z)
    → IsSorted (f ∷ insort e z)
unfolding insort
insort-IsSorted_at e f [] le h = (le, tt)
insort-IsSorted_at e f (g ∷ z) le h = elim (Bool-cases (tuple_le e g)) [
  | inl below ↦ rw below (le, (below, h.1))
  | inr past ↦ rw past (h.0, insort-IsSorted_at e g z (tuple_le-total e g past) h.1)
]

pub insort-IsSorted : (e : ℤ × String) (z : Zval) → IsSorted z → IsSorted (insort e z)
unfolding insort
insort-IsSorted e [] h = tt
insort-IsSorted e (f ∷ z) h = elim (Bool-cases (tuple_le e f)) [
  | inl below ↦ rw below (below, h)
  | inr past ↦ rw past (insort-IsSorted_at e f z (tuple_le-total e f past) h)
]

pub sort-IsSorted : (z : Zval) → IsSorted (sort z)
unfolding sort
sort-IsSorted [] = tt
sort-IsSorted (e ∷ z) = insort-IsSorted e (sort z) (sort-IsSorted z)

insort-eq_cons : (e : ℤ × String) (z : Zval) → IsSorted (e ∷ z) → insort e z ≡ e ∷ z
unfolding insort
insort-eq_cons e [] h = refl
insort-eq_cons e (f ∷ z) h = rw (h.0)

pub IsSorted-tail : (e : ℤ × String) (z : Zval) → IsSorted (e ∷ z) → IsSorted z
IsSorted-tail e [] h = tt
IsSorted-tail e (f ∷ z) h = h.1

-- Sorting what is sorted changes nothing.
pub sort-eq_of_IsSorted : (z : Zval) → IsSorted z → sort z ≡ z
unfolding sort
sort-eq_of_IsSorted [] h = refl
sort-eq_of_IsSorted (e ∷ z) h =
    rw (sort-eq_of_IsSorted z (IsSorted-tail e z h)) (insort-eq_cons e z h)
