-- ===== src/Redis/Texts/Counter.antt =====
-- A key that is counted with `incr` and `decr`.
use vumi.Base.{
  String, ◌≡◌, ◌≢◌, refl, ◌⊎◌, inl, inr, Option-cases, is_some, true, Option, none, some, arith,
  eq_refl,
}
use vumi.Base.Int.{ℤ, pos, ◌+ℤ◌, ◌-ℤ◌}
use vumi.Base.Decimal.{show_int, parse_int}
use vumi.Base.Decimal.RoundTrip.{parse-show_int}
use vumi.Base.Dict.{lookup-insert}
use vumi.Base.Exec.{ok, err, Error, type_error, value_error}
use vumi.Redis.State.{Redis, Value, text, list, set, hash, zset, value_at, set_key}
use vumi.Redis.Texts.{incr, decr}
use vumi.Redis.Effects.{set_key-Puts}

-- The number that a value stands for: 0 if there is none; none if it is not a number.
abbrev pub count_of : Option Value → Option ℤ
count_of none = some (pos 0)
count_of (some (text s)) = parse_int s
count_of (some _) = none

pub stored :
    (k : String) (i : ℤ) (r : Redis)
    → count_of (value_at (set_key k (text (show_int i)) r) k) ≡ some i
stored k i r = rw (lookup-insert, eq_refl) (parse-show_int i)

module _ (k : String) (x a : ℤ) (r : Redis) (h : count_of (value_at r k) ≡ some x) where
  pub incr-eq : incr k a r ≡ (ok (x +ℤ a), set_key k (text (show_int (x +ℤ a))) r)
  unfolding incr
  incr-eq = ground arith

  decr-eq : decr k a r ≡ (ok (x -ℤ a), set_key k (text (show_int (x -ℤ a))) r)
  unfolding decr
  decr-eq = ground arith

-- On a key that stands for the number `x`, `incr` and `decr` return the sum and the difference
-- with the amount, the key stands for that number afterwards, and no other key changes.
pub counter_lem :
    (k : String) (x a : ℤ) (r : Redis)
    → count_of (value_at r k) ≡ some x
    → let (up, r') = incr k a r in
      let (down, r'') = decr k a r in
      (up ≡ ok (x +ℤ a))
      × (count_of (value_at r' k) ≡ some (x +ℤ a))
      × (down ≡ ok (x -ℤ a))
      × (count_of (value_at r'' k) ≡ some (x -ℤ a))
      × ((j : String) → k ≢ j → (value_at r' j ≡ value_at r j) × (value_at r'' j ≡ value_at r j))
counter_lem k x a r h =
    rw (incr-eq k x a r h, decr-eq k x a r h)
      (
        refl,
        stored k (x +ℤ a) r,
        refl,
        stored k (x -ℤ a) r,
        λ j ne. (
          (set_key-Puts k (text (show_int (x +ℤ a))) r).rest j ne,
          (set_key-Puts k (text (show_int (x -ℤ a))) r).rest j ne,
        ),
      )

-- `incr` writes a number, or it fails where there is a value already and changes nothing.
module _ (k : String) (a : ℤ) (r : Redis) where
  abbrev pub Increased : Type 0
  Increased =
      ((n : ℤ) × (incr k a r ≡ (ok n, set_key k (text (show_int n)) r)))
      ⊎ ((e : Error) × (incr k a r ≡ (err e, r)) × (is_some (value_at r k) ≡ true))

  incr-at : (o : Option Value) → value_at r k ≡ o → Increased
  unfolding incr
  incr-at none h = inl (pos 0 +ℤ a, rw h refl)
  incr-at (some (text t)) h = elim (Option-cases (parse_int t)) [
    | inl bad ↦ inr (value_error, rw h (rw bad refl), rw h refl)
    | inr (x, good) ↦ inl (x +ℤ a, rw h (rw good refl))
  ]
  incr-at (some (list l)) h = inr (type_error, rw h refl, rw h refl)
  incr-at (some (set l)) h = inr (type_error, rw h refl, rw h refl)
  incr-at (some (hash l)) h = inr (type_error, rw h refl, rw h refl)
  incr-at (some (zset l)) h = inr (type_error, rw h refl, rw h refl)

  pub incr-cases : Increased
  incr-cases = incr-at (value_at r k) refl
