-- ===== src/Session.antt =====
-- vumi/components/session.py: `SessionManager` over the store of fake_redis.py. The clock of the
-- store is `now`; `stamp` is the text that `time.time()` is stored as.
pub mod Store
mod Tests
use vumi.Base.{ℕ, String, Option, none, some, List, [], ◌∷◌, ◌++◌, ◌==◌, if◌then◌else◌}
use vumi.Base.Text.{join}
use vumi.Base.Dict.{Dict, update}
use vumi.Base.Exec.{Exec, pure, skip, ◌>>=◌, ◌>>◌, for_each}
use vumi.Redis.State.{Redis}
use vumi.Redis.Keys.{delete, expire}
use vumi.Redis.Hashes.{hset, hgetall}

-- `"%s:%s" % ('session', user_id)`
unfoldable pub session_key : String → String
unfolding join
session_key user_id = join ":" ("session" ∷ user_id ∷ [])

unfoldable pub load_session : String → Exec Redis (Dict String)
load_session user_id = hgetall (session_key user_id)

unfoldable pub schedule_session_expiry : ℕ → String → ℕ → Exec Redis ℕ
schedule_session_expiry now user_id timeout = expire now (session_key user_id) timeout

unfoldable pub clear_session : String → Exec Redis (Unit {0})
clear_session user_id = do delete (session_key user_id); skip

unfoldable pub save_field : String → String × String → Exec Redis (Unit {0})
save_field user_id (key, value) = do hset (session_key user_id) key value; skip

unfoldable pub save_session : String → Dict String → Exec Redis (Dict String)
unfolding save_field
save_session user_id session = do for_each session (save_field user_id); pure session

-- `if self.max_session_length`
unfoldable pub limit_session : Option ℕ → ℕ → String → Exec Redis (Unit {0})
unfolding schedule_session_expiry
limit_session none now user_id = skip
limit_session (some t) now user_id =
    if t == 0 then skip else do schedule_session_expiry now user_id t; skip

unfoldable pub create_session :
    Option ℕ → ℕ → String → String → Dict String → Exec Redis (Dict String)
unfolding clear_session save_session limit_session load_session
create_session max_session_length now stamp user_id fields = do
  clear_session user_id
  save_session user_id (update (("created_at", stamp) ∷ []) fields)
  limit_session max_session_length now user_id
  load_session user_id
