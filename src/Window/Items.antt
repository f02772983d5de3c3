-- ===== src/Window/Items.antt =====
-- `add` and `get_data`: what is stored under an item's key, and where the key waits.
use vumi.Base.{String, ◌≡◌, some, List, [], ◌∷◌, arith}
use vumi.Base.Exec.{err, window_exception}
use vumi.Redis.State.{Redis, value_at, as_list, text}
use vumi.Redis.Lists.{llen}
use vumi.Window.{window_key, remove_window, count_waiting}

-- A window with items waiting is not removed: `remove_window` raises, and nothing changes.
pub remove_window-waiting :
    (w : String) (x : String) (l : List String) (r : Redis)
    → as_list (value_at r (window_key (w ∷ []))) ≡ some (x ∷ l)
    → remove_window w r ≡ (err window_exception, r)
unfolding remove_window count_waiting llen
remove_window-waiting w x l r h = rw h (ground arith)
