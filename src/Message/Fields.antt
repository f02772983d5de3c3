-- ===== src/Message/Fields.antt =====
-- Presence of fields in a payload of vumi/message.py, and what defaults and updates do to them.
use vumi.Base.{
  String, ◌≡◌, refl, Bool, true, false, Option, none, some, List, [], ◌∷◌, arith, str_eq, eq_iff,
  eq_refl, Bool-cases, inl, inr, Option-cases, ap, ◌∙◌,
}
use vumi.Base.Dict.{lookup, insert, contains, set_default, update, lookup-insert}
use vumi.Base.Exec.{ok, bind_inv, then_inv}
use vumi.Message.{Payload, Value, assert_field_present, assert_field_value, get_item, is_one_of}

-- `d.setdefault(k, v)` then `d.get(j)`
abbrev pub default_at : Bool → Option Value → Value → Option Value
default_at false o v = o
default_at true none v = some v
default_at true (some w) v = some w

pub lookup-set_default :
    (k j : String) (v : Value) (p : Payload)
    → lookup j (set_default k v p) ≡ default_at (str_eq k j) (lookup j p) v
unfolding set_default
lookup-set_default k j v p = ground (arith, lookup-insert k j v p, eq_iff k j)

-- Every field of the list is there.
abbrev pub HasAll : List String → Payload → Type 0
HasAll [] p = Unit
HasAll (f ∷ fs) p = (contains f p ≡ true) × HasAll fs p

pub assert_field_present-HasAll :
    (fs : List String) (p : Payload) → HasAll fs p → assert_field_present fs p ≡ (ok tt, p)
unfolding assert_field_present
assert_field_present-HasAll [] p h = refl
assert_field_present-HasAll (f ∷ fs) p (here, rest) =
    rw here (assert_field_present-HasAll fs p rest)

pub HasAll-assert_field_present :
    (fs : List String) (p q : Payload)
    → assert_field_present fs p ≡ (ok tt, q)
    → HasAll fs p × (p ≡ q)
unfolding assert_field_present
HasAll-assert_field_present [] p q e = (tt, cc)
HasAll-assert_field_present (f ∷ fs) p q e = elim (Bool-cases (contains f p)) [
  | inl here ↦
      let (rest, same) = HasAll-assert_field_present fs p q (rw here at e) in ((here, rest), same)
  | inr absent ↦ ground (arith, absent, e)
]

pub get_item-eq :
    (f : String) (v : Value) (p : Payload) → lookup f p ≡ some v → get_item f p ≡ (ok v, p)
unfolding get_item
get_item-eq f v p h = rw h refl

pub get_item_inv :
    (f : String) (v : Value) (p q : Payload)
    → get_item f p ≡ (ok v, q)
    → (lookup f p ≡ some v) × (p ≡ q)
unfolding get_item
get_item_inv f v p q e = elim (Option-cases (lookup f p)) [
  | inl absent ↦ ground (arith, absent, e)
  | inr (w, here) ↦ ground (arith, here, e)
]

pub assert_field_value-eq :
    (f : String) (vs : List String) (v : Value) (p : Payload)
    → lookup f p ≡ some v
    → is_one_of vs v ≡ true
    → assert_field_value f vs p ≡ (ok tt, p)
unfolding assert_field_value
assert_field_value-eq f vs v p h m =
    rw (assert_field_present-HasAll (f ∷ []) p (ground (arith, h), tt), get_item-eq f v p h, m) refl

pub assert_field_value_inv :
    (f : String) (vs : List String) (p q : Payload)
    → assert_field_value f vs p ≡ (ok tt, q)
    → (v : Value) × (lookup f p ≡ some v) × (is_one_of vs v ≡ true) × (p ≡ q)
unfolding assert_field_value
assert_field_value_inv f vs p q e =
    let (u, s, present, rest) = then_inv (assert_field_present (f ∷ [])) _ p q tt e in
    let (v, s', is, end) = bind_inv (get_item f) _ s q tt rest in
    let (here, same) = get_item_inv f v s s' is in
    let same' = (HasAll-assert_field_present (f ∷ []) p s present).1 in
    let found : lookup f p ≡ some v = ap (lookup f) same' ∙ here in
    elim (Bool-cases (is_one_of vs v)) [
      | inl valid ↦ (v, found, valid, ground (arith, rw valid at end, same, same'))
      | inr bad ↦ ground (arith, rw bad at end)
    ]

-- A default keeps the fields that are there, and fills in the one that is not.
pub set_default-kept :
    (j k : String) (v w : Value) (p : Payload)
    → lookup j p ≡ some v
    → lookup j (set_default k w p) ≡ some v
set_default-kept j k v w p h = ground (arith, h, lookup-set_default k j w p)

pub set_default-fresh :
    (k : String) (w : Value) (p : Payload)
    → lookup k p ≡ none
    → lookup k (set_default k w p) ≡ some w
set_default-fresh k w p h = ground (arith, h, lookup-set_default k k w p, eq_refl k)

pub set_default-contains :
    (k : String) (w : Value) (p : Payload) → contains k (set_default k w p) ≡ true
set_default-contains k w p = ground (arith, lookup-set_default k k w p, eq_refl k)

-- An update by a dict without the key leaves the key's value.
pub lookup-update :
    (j : String) (d e : Payload) → contains j e ≡ false → lookup j (update d e) ≡ lookup j d
unfolding update lookup
lookup-update j d [] h = refl
lookup-update j d ((k, v) ∷ e) h =
    ground (arith, h, lookup-update j (insert k v d) e, lookup-insert k j v d)
