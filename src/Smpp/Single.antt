-- ===== src/Smpp/Single.antt =====
-- What the hash of a multipart message shows of its parts, and how the writes of its fields change
-- that.
use Prim.Native.Char.{Char, code}
use Prim.Native.String as Text
use Prim.Native.String.{◌++◌}
use text.Mathlib.TextEquality.{Char-path}
use text.Mathlib.TextLemmas.{cons-append, nil-append}
use vumi.Base.{
  ◌==◌, String, ◌≡◌, refl, sym, true, false, none, some, [], ◌∷◌, arith, str_eq, eq_iff, eq_refl,
  ap, ◌∙◌, Bool-cases, Option-cases, inl, inr,
}
use vumi.Base.Dict.{Dict, insert}
use vumi.Smpp.Stash.{without_prefix, add_part, part_status, part_key}

without_prefix-append : (p s : String) → without_prefix p (p ++ s) ≡ some s
unfolding without_prefix
without_prefix-append Text.[] s = rw (nil-append s)
without_prefix-append (Text.◌∷◌ c p) s =
    rw (cons-append c p s) (ground (arith, without_prefix-append p s))

code-injective : (c d : Char) → (code c == code d) ≡ true → c ≡ d
code-injective c d h = Char-path c d (ground (arith, h))

without_prefix-eq : (p k s : String) → without_prefix p k ≡ some s → k ≡ p ++ s
unfolding without_prefix
without_prefix-eq Text.[] k s h = rw (nil-append s) cc
without_prefix-eq (Text.◌∷◌ c p) Text.[] s h = cc
without_prefix-eq (Text.◌∷◌ c p) (Text.◌∷◌ d k) s h = elim (Bool-cases (code c == code d)) [
  | inl same ↦
      let e : c ≡ d = code-injective c d same in
      let rest = without_prefix-eq p k s (ground (arith, h, same)) in
      rw (cons-append c p s) (rw e (ap (λ t. Text.◌∷◌ d t) rest))
  | inr other ↦ ground (arith, h, other)
]

pub part_key-ne : (x j : String) → without_prefix "part:" j ≡ none → str_eq (part_key x) j ≡ false
unfolding part_key
part_key-ne x j h =
    let found = without_prefix-append "part:" x in
    ground (
      arith,
      eq_iff ("part:" ++ x) j,
      found,
      h,
      λ (e : "part:" ++ x ≡ j). ap (without_prefix "part:") e,
    )

-- Setting the status of a part.
pub part_status-insert :
    (x v : String) (m : Dict String)
    → part_status (insert (part_key x) v m) ≡ insert x v (part_status m)
unfolding part_status insert part_key
part_status-insert x v [] = ap (λ o. add_part o v []) (without_prefix-append "part:" x)
part_status-insert x v ((k, w) ∷ m) = elim (Bool-cases (str_eq k ("part:" ++ x))) [
  | inl same ↦
      let e : k ≡ "part:" ++ x = (eq_iff k _).0 same in
      let id : without_prefix "part:" k ≡ some x =
        ap (without_prefix "part:") e ∙ without_prefix-append "part:" x in
      rw same (
        ap (λ o. add_part o v (part_status m)) (without_prefix-append "part:" x)
        ∙ sym (ap (λ o. insert x v (add_part o w (part_status m))) id ∙ rw (eq_refl x) refl))
  | inr other ↦ rw other (elim (Option-cases (without_prefix "part:" k)) [
    | inl no_part ↦
        ap (λ o. add_part o w (part_status (insert ("part:" ++ x) v m))) no_part
        ∙ part_status-insert x v m
        ∙ ap (λ o. insert x v (add_part o w (part_status m))) (sym no_part)
    | inr (y, found) ↦
        let e = without_prefix-eq "part:" k y found in
        let ne : str_eq y x ≡ false = ground (
          arith,
          other,
          e,
          eq_iff y x,
          eq_iff k ("part:" ++ x),
          λ (q : y ≡ x). ap (λ t. "part:" ++ t) q,
        ) in
        ap (λ o. add_part o w (part_status (insert ("part:" ++ x) v m))) found
        ∙ ap (λ t. (y, w) ∷ t) (part_status-insert x v m)
        ∙ sym (ap (λ o. insert x v (add_part o w (part_status m))) found ∙ rw ne refl)
  ])
]

-- Setting another field.
pub part_status-other :
    (j v : String) (m : Dict String)
    → without_prefix "part:" j ≡ none
    → part_status (insert j v m) ≡ part_status m
unfolding part_status insert
part_status-other j v [] h = ap (λ o. add_part o v []) h
part_status-other j v ((k, w) ∷ m) h = elim (Bool-cases (str_eq k j)) [
  | inl same ↦
      let e : k ≡ j = (eq_iff k j).0 same in
      let no_part : without_prefix "part:" k ≡ none = ap (without_prefix "part:") e ∙ h in
      rw same (
        ap (λ o. add_part o v (part_status m)) h
        ∙ sym (ap (λ o. add_part o w (part_status m)) no_part))
  | inr other ↦ rw other (ap (add_part (without_prefix "part:" k) w) (part_status-other j v m h))
]
