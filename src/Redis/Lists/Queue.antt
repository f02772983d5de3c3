-- ===== src/Redis/Lists/Queue.antt =====
-- `rpoplpush` as the step of a queue: new items are pushed on the left, the oldest is taken on the
-- right.
use vumi.Base.{
  String, ◌≡◌, ◌≢◌, refl, none, some, List, [], ◌∷◌, ◌++◌, arith, str_eq, if◌then◌else◌, ◌∙◌,
  Bool-cases, inl, inr,
}
use vumi.Base.Exec.{ok}
use vumi.Redis.State.{Redis, value_at, as_list}
use vumi.Redis.Lists.{rpop, rpoplpush}
use vumi.Redis.Effects.{rpop-Puts, rpop-nil, lpush-Puts}

-- What `rpoplpush` does with the item `x` at the end of the source: it goes to the front of the
-- destination, or is lost if it is the empty text.
abbrev pub moved : String → List String → List String
moved x d = if str_eq x "" then d else x ∷ d

-- From a source with items `l ++ x ∷ []` to another key with items `d`, `rpoplpush` leaves `l` and
-- puts `x` before `d`, except that an empty text is dropped from both; it returns `x`, or nothing
-- for an empty text. No third key changes.
pub rpoplpush_lem :
    (src dst x : String) (l d : List String) (r : Redis)
    → src ≢ dst
    → as_list (value_at r src) ≡ some (l ++ x ∷ [])
    → as_list (value_at r dst) ≡ some d
    → let (res, r') = rpoplpush src dst r in
      (res ≡ ok (if str_eq x "" then none else some x))
      × (as_list (value_at r' src) ≡ some l)
      × (as_list (value_at r' dst) ≡ some (moved x d))
      × ((j : String) → src ≢ j → dst ≢ j → value_at r' j ≡ value_at r j)
unfolding rpoplpush
rpoplpush_lem src dst x l d r ne hs hd =
    let (some_x, out) = rpop-Puts src r l x hs in
    let r' = (rpop src r).1 in
    let hd' : as_list (value_at r' dst) ≡ some d = rw (out.rest dst ne) hd in
    let (done, into) = lpush-Puts dst r' d hd' x in
    elim (Bool-cases (str_eq x "")) [
      | inl nothing ↦
          rw (some_x, nothing) (refl, ground (arith, out.at), hd', λ j nj nk. out.rest j nj)
      | inr item ↦
          rw (some_x, item, done)
            (
              refl,
              ground (arith, into.rest src, out.at),
              ground (arith, into.at),
              λ j nj nk. into.rest j nk ∙ out.rest j nj,
            )
    ]

-- An empty source yields nothing and changes nothing.
pub rpoplpush-nil :
    (src dst : String) (r : Redis)
    → as_list (value_at r src) ≡ some []
    → rpoplpush src dst r ≡ (ok none, r)
unfolding rpoplpush
rpoplpush-nil src dst r h = rw (rpop-nil src r h)
