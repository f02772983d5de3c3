-- ===== src/Heartbeat/Storage.antt =====
-- vumi/blinkenlights/heartbeat/storage.py
use Prim.Native.String.{◌++◌}
use vumi.Base.{ℕ, String, ◌≡◌, Option, none, some, List}
use vumi.Base.Exec.{Exec, value_error, pure, or_raise, skip, ◌>>=◌, ◌>>◌}
use vumi.Redis.State.{Redis}
use vumi.Redis.Keys.{delete}
use vumi.Redis.Texts.{get, set}
use vumi.Redis.Sets.{sadd}

-- `WorkerIssue`
pub record Issue : Type 0 where
  pub issue_type : String
  pub start_time : ℕ
  pub procs_count : ℕ

-- `Worker.to_dict` and `System.to_dict`
pub record WorkerDict : Type 0 where
  pub id : String
  pub name : String
  pub system_id : String
  pub min_procs : ℕ
  pub hosts : List (String × ℕ)

pub record SystemDict : Type 0 where
  pub name : String
  pub id : String
  pub timestamp : ℕ
  pub workers : List WorkerDict

-- The module `json`, on the values that are written here: what was dumped is loaded again.
pub record Json : Type 0 where
  pub dump_system : SystemDict → String
  pub dumps : Issue → String
  pub loads : String → Option Issue
  pub loads-dumps : (i : Issue) → loads (dumps i) ≡ some i

abbrev pub systems_key : String
systems_key = "systems"

unfoldable pub issue_key : String → String
issue_key worker_id = "worker:" ++ worker_id ++ ":issue"

unfoldable pub system_key : String → String
system_key system_id = "system:" ++ system_id

unfoldable pub add_system_ids : List String → Exec Redis (Unit {0})
add_system_ids system_ids = do sadd systems_key system_ids; skip

unfoldable pub delete_worker_issue : String → Exec Redis (Unit {0})
delete_worker_issue worker_id = do delete (issue_key worker_id); skip

module _ (json : Json) where
  open json use {dump_system, dumps, loads}

  unfoldable pub write_system : String → SystemDict → Exec Redis (Unit {0})
  unfolding system_key
  write_system system_id sys = set (system_key system_id) (dump_system sys)

  -- What is to be stored: the issue, or the one that is stored with the new count.
  unfoldable pub issue_data : Issue → Option String → Exec Redis Issue
  issue_data issue none = pure issue
  issue_data issue (some raw) = do
    data_ ← or_raise (loads raw) value_error
    pure (record data_ { procs_count = issue.procs_count })

  unfoldable pub open_or_update_issue : String → Issue → Exec Redis (Unit {0})
  unfolding issue_data
  open_or_update_issue worker_id issue = do
    issue_raw ← get (issue_key worker_id)
    updated ← issue_data issue issue_raw
    set (issue_key worker_id) (dumps updated)
