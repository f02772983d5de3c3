-- ===== src/Redis/Lists/Trim.antt =====
-- `ltrim` against `lrange`: what Redis keeps of a list is the range between the two indices.
use Prim.Native.Nat.{min}
use native.Mathlib.Decide.{dec_lt}
use vumi.Base.{
  ◌||◌, ℕ, suc, ◌+◌, ◌-◌, ◌<◌, ◌≤◌, String, ◌≡◌, ◌≢◌, refl, true, false, List, [], ◌∷◌, arith,
  length, take, drop, length-take, length-drop, take-length, ap, ◌∙◌, sym, ◌⊎◌, inl, inr, zero,
}
use vumi.Base.Int.{leb_ℤ, ltb_ℤ, eqb_ℤ, ℤ, pos, negsuc, ◌+ℤ◌, ◌≤ℤ◌}
use vumi.Base.Slices.{clip}
use vumi.Redis.Lists.{range_of, trim_list}

drop-nil {ℓ} : {A : Type ℓ} (i : ℕ) → drop {A = A} i [] ≡ []
drop-nil zero = refl
drop-nil (suc i) = refl

drop-past {ℓ} : {A : Type ℓ} (i : ℕ) (xs : List A) → length xs ≤ i → drop i xs ≡ []
drop-past i [] h = drop-nil i
drop-past zero (x ∷ xs) h = absurd (omega arith)
drop-past (suc i) (x ∷ xs) h = drop-past i xs (omega arith)

-- An index past the end is as good as the end.
drop-min {ℓ} : {A : Type ℓ} (i n : ℕ) (xs : List A) → length xs ≤ n → drop (min i n) xs ≡ drop i xs
drop-min i n xs h = elim (dec_lt i n) [
  | yes below ↦ let e : min i n ≡ i = omega arith in rw e
  | no past ↦
      let e : min i n ≡ n = omega arith in
      rw e (drop-past n xs h ∙ sym (drop-past i xs (omega arith)))
]

take-all : (l : List String) → take (length l - 0) l ≡ l
take-all l = let e : length l - 0 ≡ length l = omega arith in rw (e, take-length)

next_pos : (j : ℕ) → pos j +ℤ pos 1 ≡ pos (j + 1)
unfolding ◌+ℤ◌
next_pos j = ground arith

next_neg : (j : ℕ) → negsuc (suc j) +ℤ pos 1 ≡ negsuc j
unfolding ◌+ℤ◌
next_neg j = ground arith

-- How many items stand up to the index `stop`, that one included.
abbrev upto : ℕ → ℤ → ℕ
upto n (pos j) = min (j + 1) n
upto n (negsuc j) = n - j

trim_list-eq :
    (start stop : ℤ) (l : List String)
    → let kept = take (upto (length l) stop) l in
      trim_list start stop l ≡ drop (clip (length kept) start) kept
unfolding trim_list
trim_list-eq start (pos j) l =
    let e : eqb_ℤ (pos j) (negsuc 0) ≡ false = ground arith in rw (next_pos, e)
trim_list-eq start (negsuc zero) l = rw (take-all l)
trim_list-eq start (negsuc (suc j)) l =
    let e : eqb_ℤ (negsuc (suc j)) (negsuc 0) ≡ false = ground arith in rw (next_neg, e)

range_of-eq :
    (start stop : ℤ) (l : List String)
    → range_of start stop l ≡ drop (clip (length l) start) (take (upto (length l) stop) l)
unfolding range_of
range_of-eq start (pos j) l =
    let e : (leb_ℤ (pos 0) (pos j) || ltb_ℤ (pos j) (negsuc 0)) ≡ true = ground arith in
    rw (next_pos, e)
range_of-eq start (negsuc zero) l =
    rw (take-all l) (ap (drop (clip (length l) start)) (take-length l))
range_of-eq start (negsuc (suc j)) l =
    let e : (leb_ℤ (pos 0) (negsuc (suc j)) || ltb_ℤ (negsuc (suc j)) (negsuc 0)) ≡ true =
      ground arith in
    rw (next_neg, e)

length-take_le {ℓ} : {A : Type ℓ} (n : ℕ) (xs : List A) → length (take n xs) ≤ length xs
length-take_le n xs = omega (arith, length-take n xs)

drop-clip :
    (i n : ℕ) (xs : List String)
    → length xs ≤ n
    → drop (clip (length xs) (pos i)) xs ≡ drop (clip n (pos i)) xs
drop-clip i n xs h = drop-min i (length xs) xs (omega arith) ∙ sym (drop-min i n xs h)

-- With a start of 0 or more, or with the end of the list as the stop, what `ltrim` leaves of a
-- list is what `lrange` with the same indices returns.
pub ltrim-eq_lrange :
    (start stop : ℤ) (l : List String)
    → (pos 0 ≤ℤ start) ⊎ (stop ≡ negsuc 0)
    → trim_list start stop l ≡ range_of start stop l
ltrim-eq_lrange (pos i) stop l h =
    rw (trim_list-eq, range_of-eq) (drop-clip i (length l) _ (length-take_le _ l))
ltrim-eq_lrange (negsuc i) stop l (inl h) = absurd (omega arith)
ltrim-eq_lrange (negsuc i) stop l (inr last) = rw (trim_list-eq, range_of-eq, last, take-all l)

-- With a negative start and a stop before the end, both inside the list, `ltrim` keeps something
-- else than the range that `lrange` returns: the start is counted from the shortened list.
pub ltrim-ne_lrange :
    (i j : ℕ) (l : List String)
    → suc i < length l
    → suc j < length l
    → trim_list (negsuc i) (negsuc (suc j)) l ≢ range_of (negsuc i) (negsuc (suc j)) l
ltrim-ne_lrange i j l hi hj e =
    let kept = take (length l - suc j) l in
    let same = ap length (
      sym (trim_list-eq (negsuc i) (negsuc (suc j)) l)
      ∙ e
      ∙ range_of-eq (negsuc i) (negsuc (suc j)) l) in
    omega (
      arith,
      same,
      length-take (length l - suc j) l,
      length-drop (length kept - suc i) kept,
      length-drop (length l - suc i) kept,
    )
