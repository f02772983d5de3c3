-- ===== src/Smpp/Sequence.antt =====
-- vumi/transports/smpp/sequence.py: sequence numbers from a counter in the store.
use vumi.Base.{ℕ, ◌==◌, String, Bool, true, false, Option, none, some, if◌then◌else◌}
use vumi.Base.Int.{ℤ, pos, leb_ℤ}
use vumi.Base.Exec.{Exec, pure, gets, skip, when, ◌>>=◌, ◌>>◌}
use vumi.Redis.State.{Redis}
use vumi.Redis.Keys.{ttl, expire, delete}
use vumi.Redis.Texts.{get, setnx, incr}

abbrev pub last_key : String
last_key = "smpp_last_sequence_number"

abbrev pub wrap_key : String
wrap_key = "smpp_last_sequence_number_wrap"

-- `0xFFFF0000`
abbrev pub wrap_at : ℕ
wrap_at = 4294901760

-- `ttl(…) < 0`: None is below every number, and the number of seconds left is not.
abbrev pub has_no_ttl : Option ℕ → Bool
has_no_ttl none = true
has_no_ttl (some seconds) = false

-- `get(…) < 0xFFFF0000`: the store gives a text or None. Python 2 orders None before every number,
-- and every text after all of them.
unfoldable pub below_wrap : Option String → Bool
below_wrap none = true
below_wrap (some s) = false

-- The lock gets a time to live where it has none.
unfoldable pub expire_lock : ℕ → Exec Redis (Unit {0})
expire_lock now = do
  left ← gets (ttl now wrap_key)
  when (has_no_ttl left) (do expire now wrap_key 10; skip)

-- With the lock: the counter is deleted, unless it is below the number to wrap at.
unfoldable pub delete_counter : Exec Redis (Unit {0})
unfolding below_wrap
delete_counter = do
  last ← get last_key
  if below_wrap last then skip else (do delete last_key; skip)

unfoldable pub reset_seq_counter : ℕ → Exec Redis (Unit {0})
unfolding expire_lock delete_counter
reset_seq_counter now = do
  locked ← setnx wrap_key "1"
  expire_lock now
  if locked == 0 then skip else delete_counter

unfoldable pub get_next_seq : ℤ → ℕ → Exec Redis ℤ
unfolding reset_seq_counter
get_next_seq rollover_at now = do
  seq ← incr last_key (pos 1)
  when (leb_ℤ rollover_at seq) (reset_seq_counter now)
  pure seq
