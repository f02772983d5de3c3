-- ===== src/Redis/Keys/Expiry.antt =====
-- The life of a key that expires.
use vumi.Base.{ℕ, ◌+◌, ◌-◌, String, ◌≡◌, true, Option, none, some, arith, eq_refl, ◌⊎◌, ◌∙◌}
use vumi.Base.Dict.{lookup, contains, lookup-insert, lookup-erase}
use vumi.Base.Exec.{ok}
use vumi.Redis.State.{Redis, Delayed, text, value_at, set_key}
use vumi.Redis.Texts.{set, setex}
use vumi.Redis.Keys.{delete, persist, expire, ttl, timeout, cancelled}

abbrev call_at : ℕ → Delayed
call_at due = record { due = due; active = true }

abbrev calls : Redis → String → Option Delayed
calls r k = lookup k r.expiries

values-persist :
    (k : String) (r : Redis)
    → ((persist k r).1.values ≡ r.values) × (((persist k r).0 ≡ ok 0) ⊎ ((persist k r).0 ≡ ok 1))
unfolding persist
values-persist k r = ground arith

-- `expire` on a key that is there schedules its removal.
expire-calls :
    (now : ℕ) (k : String) (seconds : ℕ) (r : Redis)
    → contains k r.values ≡ true
    → ((expire now k seconds r).0 ≡ ok 1)
      × ((expire now k seconds r).1.values ≡ r.values)
      × (calls (expire now k seconds r).1 k ≡ some (call_at (now + seconds)))
unfolding expire
expire-calls now k seconds r h = ground (
  arith,
  values-persist k r,
  lookup-insert k k (call_at (now + seconds)) (persist k r).1.expiries,
  eq_refl k,
)

-- The call runs and the key is gone.
timeout-active :
    (k : String) (due : ℕ) (r : Redis)
    → calls r k ≡ some (call_at due)
    → value_at (timeout k r) k ≡ none
unfolding timeout
timeout-active k due r e = ground (arith, e, lookup-erase k k r.values, eq_refl k)

persist-active :
    (k : String) (due : ℕ) (r : Redis)
    → calls r k ≡ some (call_at due)
    → ((persist k r).0 ≡ ok 1)
      × ((persist k r).1.values ≡ r.values)
      × (timeout k (persist k r).1 ≡ (persist k r).1)
unfolding persist timeout
persist-active k due r e =
    ground (arith, e, lookup-insert k k (cancelled (call_at due)) r.expiries, eq_refl k)

-- On a key that is there, `expire` returns 1 and leaves the values alone; `ttl` then shows the
-- seconds that are left; when the call runs the key is gone; and after `persist` the values are
-- still there and the call no longer does anything.
pub expire_lem :
    (now later : ℕ) (k : String) (seconds : ℕ) (r : Redis)
    → contains k r.values ≡ true
    → let (res, r') = expire now k seconds r in
      (res ≡ ok 1)
      × (r'.values ≡ r.values)
      × (ttl later k r' ≡ some (now + seconds - later))
      × (value_at (timeout k r') k ≡ none)
      × ((persist k r').1.values ≡ r.values)
      × (timeout k (persist k r').1 ≡ (persist k r').1)
expire_lem now later k seconds r h =
    let (one, same, call) = expire-calls now k seconds r h in
    let r' = (expire now k seconds r).1 in
    let (done, kept, quiet) = persist-active k (now + seconds) r' call in
    (
      one,
      same,
      unfold ttl in ground (arith, call),
      timeout-active k (now + seconds) r' call,
      kept ∙ same,
      quiet,
    )

-- Neither `set` nor `delete` cancels the call: a key that `setex` wrote, and that was deleted and
-- written anew without an expiry, is still removed when the call of the first write runs.
pub timeout-set-delete-setex :
    (now : ℕ) (k : String) (seconds : ℕ) (v w : String) (r : Redis)
    → let written = (set k w (delete k (setex now k seconds v r).1).1).1 in
      (value_at written k ≡ some (text w)) × (value_at (timeout k written) k ≡ none)
timeout-set-delete-setex now k seconds v w r =
    let r1 = set_key k (text v) r in
    let there : contains k r1.values ≡ true =
      ground (arith, lookup-insert k k (text v) r.values, eq_refl k) in
    let (one, same, call) = expire-calls now k seconds r1 there in
    let r2 = (expire now k seconds r1).1 in
    let r4 = set_key k (text w) (delete k r2).1 in
    let kept : calls r4 k ≡ some (call_at (now + seconds)) = unfold delete in call in
    unfold setex in rw one (rw (lookup-insert, eq_refl), timeout-active k (now + seconds) r4 kept)

-- `expire` writes no value, whether the key is there or not.
pub values-expire :
    (now : ℕ) (k : String) (seconds : ℕ) (r : Redis)
    → ((expire now k seconds r).1.values ≡ r.values)
      × (((expire now k seconds r).0 ≡ ok 0) ⊎ ((expire now k seconds r).0 ≡ ok 1))
unfolding expire
values-expire now k seconds r = ground (arith, values-persist k r)

pub ttl-expire :
    (now : ℕ) (k : String) (seconds : ℕ) (r : Redis)
    → contains k r.values ≡ true
    → ttl now k (expire now k seconds r).1 ≡ some seconds
unfolding ttl
ttl-expire now k seconds r h =
    let (one, values, called) = expire-calls now k seconds r h in ground (arith, called)
