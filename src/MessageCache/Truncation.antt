-- ===== src/MessageCache/Truncation.antt =====
-- Truncating the keys of a batch keeps the newest.
use Prim.Native.Nat.{max, min}
use vumi.Base.{
  ℕ, ◌+◌, ◌-◌, ◌≤◌, String, ◌≡◌, ◌≢◌, ◌⊎◌, refl, Option, some, arith, length, drop, length-drop,
  length-take, leb, if◌then◌else◌, Bool-cases, inl, inr, ◌∙◌, ap,
}
use vumi.Base.Int.{pos, negsuc, ◌+ℤ◌}
use vumi.Base.Exec.{ok}
use vumi.Redis.State.{Redis, value_at, as_zset}
use vumi.Redis.Effects.{zremrangebyrank-Puts}
use vumi.Redis.Zset as Zset
use vumi.Redis.Zset.{Zval}
use vumi.Redis.Zsets.{zcard, zremrangebyrank}
use vumi.MessageCache.Counters.{truncate_keys, limit_of}

-- The last `limit` of the keys, which have the latest timestamps.
abbrev pub newest : ℕ → Zval → Zval
newest limit z = drop (length z - limit) z

index_plus : (n limit : ℕ) → limit + 1 ≤ n → (pos n +ℤ negsuc limit) +ℤ pos 1 ≡ pos (n - limit)
unfolding ◌+ℤ◌
index_plus n limit h = ground arith

-- `ZREMRANGEBYRANK key 0 -(limit + 1)` leaves the newest.
zremrangebyrank-newest :
    (limit : ℕ) (z : Zval)
    → limit + 1 ≤ length z
    → (Zset.zremrangebyrank (pos 0) (negsuc limit) z).0 ≡ newest limit z
unfolding Zset.zremrangebyrank
zremrangebyrank-newest limit z h =
    let none_before : min 0 (length z) ≡ 0 = omega arith in
    let start : max 0 (min (length z - limit) (length z)) ≡ length z - limit = omega arith in
    rw (index_plus (length z) limit h) (rw none_before (rw start refl))

zremrangebyrank-count :
    (limit : ℕ) (z : Zval)
    → limit + 1 ≤ length z
    → (Zset.zremrangebyrank (pos 0) (negsuc limit) z).1 ≡ length z - limit
unfolding Zset.zremrangebyrank
zremrangebyrank-count limit z h =
    let stop : min (length z - limit) (length z) ≡ length z - limit = omega arith in
    let none_before : min 0 (length z) ≡ 0 = omega arith in
    rw (index_plus (length z) limit h)
      (rw none_before (length-take (min (length z - limit) (length z)) z ∙ omega arith))

pub truncate_keys_lem :
    (redis_key : String) (truncate_at : Option ℕ) (z : Zval) (r : Redis)
    → as_zset (value_at r redis_key) ≡ some z
    → let limit = limit_of truncate_at in
      let (res, r') = truncate_keys redis_key truncate_at r in
      let kept = if leb (length z) (limit + 1) then z else newest limit z in
      (res ≡ ok (length z - length kept))
      × (as_zset (value_at r' redis_key) ≡ some kept)
      × (length kept ≤ limit + 1)
      × ((length z ≤ limit + 1) ⊎ (length kept ≡ limit))
      × ((j : String) → redis_key ≢ j → value_at r' j ≡ value_at r j)
unfolding truncate_keys zcard zremrangebyrank Zset.zcard
truncate_keys_lem k t z r h = elim (Bool-cases (leb (length z) (limit_of t + 1))) [
  | inl small ↦ rw (h, small) (ground arith, h, ground arith, inl (ground arith), λ j ne. refl)
  | inr large ↦
      let limit = limit_of t in
      let big : limit + 1 ≤ length z = ground arith in
      let (done, put) = zremrangebyrank-Puts k r z h (pos 0) (negsuc limit) in
      let left : length (newest limit z) ≡ limit = length-drop (length z - limit) z ∙ omega arith in
      rw (h, large)
        (
          done ∙ ap ok (zremrangebyrank-count limit z big ∙ omega (arith, left)),
          ap as_zset put.at ∙ ap some (zremrangebyrank-newest limit z big),
          omega (arith, left),
          inr left,
          put.rest,
        )
]
