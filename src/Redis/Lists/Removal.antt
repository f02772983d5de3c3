-- ===== src/Redis/Lists/Removal.antt =====
-- `lrem` removes the first occurrences of a value, as many as it is asked for.
use vumi.Base.{
  ℕ, ◌+◌, ◌-◌, String, ◌≡◌, refl, List, [], ◌∷◌, ◌++◌, arith, str_eq, eq_iff, if◌then◌else◌,
  Bool-cases, inl, inr, reverse, ◌∙◌, ap, sym, eq_refl, some, ◌≢◌,
}
use Prim.Native.Nat.{min}
use mathlib.Core.List.{reverse-cons, append-nil, reverse-reverse}
use vumi.Base.Int.{ℤ, pos, eqb_ℤ, leb_ℤ}
use vumi.Base.Dict.{lookup-insert}
use vumi.Base.Exec.{ok}
use vumi.Redis.State.{Redis, list, as_list, value_at, set_key}
use vumi.Redis.Lists.{keep_all, abs, remove_from, lrem}

abbrev pub occurrences : String → List String → ℕ
occurrences v [] = 0
occurrences v (w ∷ l) = if str_eq w v then occurrences v l + 1 else occurrences v l

-- The items other than `v`, in order.
abbrev pub others : String → List String → List String
others v [] = []
others v (w ∷ l) = if str_eq w v then others v l else w ∷ others v l

-- How many of `n` occurrences a call removes: all for a count of 0, else at most the count.
abbrev pub quota : ℤ → ℕ → ℕ
quota num n = if eqb_ℤ num (pos 0) then n else min (abs num) n

keep_all_lem :
    (v : String) (num : ℤ) (removed : ℕ) (l : List String)
    → let (kept, n) = keep_all v num removed l in
      (n
        ≡ removed
          + (if eqb_ℤ num (pos 0)
              then occurrences v l
              else min (abs num - removed) (occurrences v l)))
      × (occurrences v kept + n ≡ occurrences v l + removed)
      × (others v kept ≡ others v l)
unfolding keep_all
keep_all_lem v num removed [] = ground arith
keep_all_lem v num removed (w ∷ l) =
    ground (arith, keep_all_lem v num removed l, keep_all_lem v num (removed + 1) l)

occurrences-append :
    (v : String) (l m : List String) → occurrences v (l ++ m) ≡ occurrences v l + occurrences v m
occurrences-append v [] m = omega arith
occurrences-append v (w ∷ l) m = ground (arith, occurrences-append v l m)

others-append : (v : String) (l m : List String) → others v (l ++ m) ≡ others v l ++ others v m
others-append v [] m = refl
others-append v (w ∷ l) m = ground (arith, occurrences-append v l m, others-append v l m)

occurrences-reverse : (v : String) (l : List String) → occurrences v (reverse l) ≡ occurrences v l
occurrences-reverse v [] = refl
occurrences-reverse v (w ∷ l) =
    ap (occurrences v) (reverse-cons w l)
    ∙ occurrences-append v (reverse l) (w ∷ [])
    ∙ ground (arith, occurrences-reverse v l)

others-reverse : (v : String) (l : List String) → others v (reverse l) ≡ reverse (others v l)
others-reverse v [] = refl
others-reverse v (w ∷ l) =
    ap (others v) (reverse-cons w l)
    ∙ others-append v (reverse l) (w ∷ [])
    ∙ elim (Bool-cases (str_eq w v)) [
      | inl same ↦ rw (same, others-reverse v l, append-nil)
      | inr other ↦ rw (other, others-reverse v l) (sym (reverse-cons w (others v l)))
    ]

remove_from_lem :
    (v : String) (num : ℤ) (l : List String)
    → let (kept, n) = remove_from v num l in
      (n ≡ quota num (occurrences v l))
      × (occurrences v kept + n ≡ occurrences v l)
      × (others v kept ≡ others v l)
unfolding remove_from
remove_from_lem v num l = elim (Bool-cases (leb_ℤ (pos 0) num)) [
  | inl front ↦ rw front (ground (arith, keep_all_lem v num 0 l))
  | inr back ↦ rw back (
      let (count, rest, same) = keep_all_lem v num 0 (reverse l) in
      let kept = (keep_all v num 0 (reverse l)).0 in
      (
        ground (arith, count, occurrences-reverse v l),
        ground (arith, rest, occurrences-reverse v l, occurrences-reverse v kept),
        others-reverse v kept
            ∙ ap reverse (same ∙ others-reverse v l)
            ∙ reverse-reverse (others v l),
      ))
]

lrem-eq :
    (key v : String) (num : ℤ) (l : List String) (r : Redis)
    → as_list (value_at r key) ≡ some l
    → lrem key v num r ≡ (ok (remove_from v num l).1, set_key key (list (remove_from v num l).0) r)
unfolding lrem
lrem-eq key v num l r h = rw h

-- On a key that holds a list, or nothing, `lrem` returns how many occurrences of the value it
-- removed: all of them for a count of 0, else as many as there are but at most the count's
-- absolute value. The list that is left has that many fewer and all other items in their order,
-- and no other key changes.
pub lrem_lem :
    (key v : String) (num : ℤ) (l : List String) (r : Redis)
    → as_list (value_at r key) ≡ some l
    → let (res, r') = lrem key v num r in
      (res ≡ ok (quota num (occurrences v l)))
      × ((l' : List String) × (as_list (value_at r' key) ≡ some l')
          × (occurrences v l' + quota num (occurrences v l) ≡ occurrences v l)
          × (others v l' ≡ others v l))
      × ((j : String) → key ≢ j → value_at r' j ≡ value_at r j)
lrem_lem key v num l r h =
    let l' = (remove_from v num l).0 in
    let (count, rest, same) = remove_from_lem v num l in
    let put = λ (j : String). lookup-insert key j (list l') r.values in
    rw (lrem-eq key v num l r h) (
      ap ok count,
      (l', ground (arith, put key, eq_refl key), rw (← count) rest, same),
      λ j ne. ground (arith, ne, eq_iff key j, put j),
    )
