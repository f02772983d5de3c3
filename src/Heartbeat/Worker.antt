-- ===== src/Heartbeat/Worker.antt =====
-- `WorkerInstance` and `Worker` of vumi/blinkenlights/heartbeat/monitor.py.
use Prim.Native.String.{◌++◌}
use vumi.Base.{
  ℕ, ◌+◌, String, Bool, false, ◌&&◌, ◌||◌, List, [], ◌∷◌, length, ltb, leb, ◌==◌, str_eq,
  if◌then◌else◌,
}
use vumi.Base.Dict.{Dict, insert, lookup_or}
use vumi.Base.Exec.{Exec, when, pure, ◌>>◌}
use vumi.Redis.State.{Redis}
use vumi.Heartbeat.Storage.{Json, WorkerDict, delete_worker_issue, open_or_update_issue}

-- A hostname and a process id.
pub record Instance : Type 0 where
  pub hostname : String
  pub pid : ℕ

-- `WorkerInstance.__eq__`
unfoldable pub instance_eq : Instance → Instance → Bool
instance_eq a b = str_eq a.hostname b.hostname && (a.pid == b.pid)

-- A set of instances, as a list.
unfoldable pub has : Instance → List Instance → Bool
unfolding instance_eq
has i [] = false
has i (j ∷ s) = instance_eq j i || has i s

unfoldable pub add : Instance → List Instance → List Instance
unfolding has
add i s = if has i s then s else i ∷ s

pub record Worker : Type 0 where
  pub system_id : String
  pub name : String
  pub min_procs : ℕ
  pub worker_id : String
  pub instances : List Instance
  pub instances_active : List Instance
  pub procs_count : ℕ

-- `generate_worker_id` of vumi/utils.py
unfoldable pub generate_worker_id : String → String → String
generate_worker_id system_id worker_id = system_id ++ ":" ++ worker_id

unfoldable pub new_worker : String → String → ℕ → Worker
unfolding generate_worker_id
new_worker system_id worker_name min_procs = record {
  system_id = system_id;
  name = worker_name;
  min_procs = min_procs;
  worker_id = generate_worker_id system_id worker_name;
  instances = [];
  instances_active = [];
  procs_count = 0;
}

-- The two loops of `_compute_host_info`.
unfoldable pub zero_hosts : List Instance → Dict ℕ → Dict ℕ
zero_hosts [] counts = counts
zero_hosts (i ∷ s) counts = zero_hosts s (insert i.hostname 0 counts)

unfoldable pub count_hosts : List Instance → Dict ℕ → Dict ℕ
count_hosts [] counts = counts
count_hosts (i ∷ s) counts =
    count_hosts s (insert i.hostname (lookup_or i.hostname counts 0 + 1) counts)

unfoldable pub compute_host_info : List Instance → Dict ℕ
unfolding zero_hosts count_hosts
compute_host_info instances = count_hosts instances (zero_hosts instances [])

unfoldable pub to_dict : Worker → WorkerDict
unfolding compute_host_info
to_dict w = record {
  id = w.worker_id;
  name = w.name;
  system_id = w.system_id;
  min_procs = w.min_procs;
  hosts = compute_host_info w.instances;
}

unfoldable pub snapshot : Worker → Worker
snapshot w = record w { instances = w.instances_active; instances_active = [] }

-- `Worker.record`
unfoldable pub check_in : String → ℕ → Worker → Worker
unfolding add
check_in hostname pid w = record w {
  instances_active = add (record { hostname = hostname; pid = pid }) w.instances_active;
}

-- What is written to the store, and the worker afterwards.
unfoldable pub audit : Json → ℕ → Worker → Exec Redis Worker
audit json now w = do
  let count = length w.instances
  when (leb w.min_procs count && ltb w.procs_count w.min_procs) (delete_worker_issue w.worker_id)
  when (ltb count w.min_procs) (
      open_or_update_issue json w.worker_id
        (record { issue_type = "min-procs-fail"; start_time = now; procs_count = count }))
  pure (record w { procs_count = count })
