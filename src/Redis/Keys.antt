-- ===== src/Redis/Keys.antt =====
-- Operations on whole keys and their expiry: `type`, `exists`, `delete`, `flushdb`, `expire`,
-- `ttl`, `persist` of vumi/persist/fake_redis.py.
pub mod Expiry
use vumi.Base.{
  ℕ, ◌+◌, ◌-◌, String, Bool, true, false, Option, none, some, List, [], ◌∷◌, if◌then◌else◌, is_some,
}
use vumi.Base.Dict.{lookup, insert, erase, contains}
use vumi.Base.Exec.{Exec, ok, pure, gets, modify, ◌>>=◌, ◌>>◌}
use vumi.Redis.State.{Redis, Value, text, list, set, hash, zset, Delayed, value_at}

unfoldable pub type_of : String → Redis → String
type_of key r = elim (value_at r key) [
  | none ↦ "none"
  | some (text s) ↦ "string"
  | some (list l) ↦ "list"
  | some (set s) ↦ "set"
  | some (zset z) ↦ "zset"
  | some (hash h) ↦ "hash"
]

unfoldable pub exists : String → Redis → Bool
exists key r = contains key r.values

unfoldable pub flushdb : Redis → Redis
flushdb r = record r { values = []; known = [] }

unfoldable pub delete : String → Exec Redis Bool
delete key r =
    let existed = contains key r.values in
    (
      ok existed,
      record r {
        values = erase key r.values;
        known = if existed then insert key false r.known else r.known;
      },
    )

-- `delayed.cancel()`
abbrev pub cancelled : Delayed → Delayed
cancelled d = record d { active = false }

unfoldable pub persist : String → Exec Redis ℕ
persist key r = elim (lookup key r.expiries) [
  | none ↦ (ok 0, r)
  | some d ↦
      if d.active
      then (ok 1, record r { expiries = insert key (cancelled d) r.expiries })
      else (ok 0, r)
]

-- `now` is the time that the clock shows; the delayed call is due `seconds` later.
unfoldable pub expire : ℕ → String → ℕ → Exec Redis ℕ
unfolding persist
expire now key seconds r =
    if contains key r.values
    then (do
      persist key
      modify (λ s. record s {
        expiries = insert key (record { due = now + seconds; active = true }) s.expiries;
      })
      pure 1)
        r
    else (ok 0, r)

unfoldable pub ttl : ℕ → String → Redis → Option ℕ
ttl now key r = elim (lookup key r.expiries) [
  | none ↦ none
  | some d ↦ if d.active then some (d.due - now) else none
]

-- The clock runs the delayed call of `key`, which is `delete`; it is not active afterwards.
unfoldable pub timeout : String → Redis → Redis
unfolding delete
timeout key r = elim (lookup key r.expiries) [
  | none ↦ r
  | some d ↦
      if d.active
      then (delete key (record r { expiries = insert key (cancelled d) r.expiries })).1
      else r
]
