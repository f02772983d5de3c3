-- ===== src/Redis/Texts.antt =====
-- The string and integer operations of vumi/persist/fake_redis.py.
pub mod Counter
use vumi.Base.{ℕ, String, Bool, true, false, Option, none, some, if◌then◌else◌, is_some}
use vumi.Base.Int.{ℤ, pos, ◌+ℤ◌, ◌-ℤ◌}
use vumi.Base.Decimal.{show_int, parse_int}
use vumi.Base.Dict.{contains}
use vumi.Base.Exec.{Exec, ok, pure, modify, or_raise, value_error, ◌>>=◌, ◌>>◌}
use vumi.Redis.State.{Redis, text, set_key, get_text}
use vumi.Redis.Keys.{expire}

unfoldable pub get : String → Exec Redis (Option String)
get key = get_text key

unfoldable pub set : String → String → Exec Redis (Unit {0})
set key value = modify (set_key key (text value))

unfoldable pub setex : ℕ → String → ℕ → String → Exec Redis Bool
unfolding set
setex now key time value = do set key value; expire now key time; pure true

unfoldable pub setnx : String → String → Exec Redis ℕ
setnx key value r = if contains key r.values then (ok 0, r) else (ok 1, set_key key (text value) r)

-- `int(old_value)`, where a key that is not there counts as 0
abbrev pub number_of : Option String → Exec Redis ℤ
number_of none = pure (pos 0)
number_of (some s) = or_raise (parse_int s) value_error

unfoldable pub incr : String → ℤ → Exec Redis ℤ
unfolding set
incr key amount = do
  old_value ← get_text key
  old ← number_of old_value
  set key (show_int (old +ℤ amount))
  pure (old +ℤ amount)

unfoldable pub decr : String → ℤ → Exec Redis ℤ
unfolding set
decr key amount = do
  old_value ← get_text key
  old ← number_of old_value
  set key (show_int (old -ℤ amount))
  pure (old -ℤ amount)
