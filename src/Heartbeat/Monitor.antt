-- ===== src/Heartbeat/Monitor.antt =====
-- `System` and `HeartBeatMonitor` of vumi/blinkenlights/heartbeat/monitor.py. A worker is an
-- object that its system and the dict of workers share: both name its place in `objects`.
use vumi.Base.{
  ℕ, zero, suc, ◌-◌, String, Option, none, some, List, [], ◌∷◌, ◌++◌, map, length, get_elem?, ltb,
  if◌then◌else◌,
}
use vumi.Base.Dict.{Dict, insert, lookup}
use vumi.Base.Exec.{Exec, config_error, pure, or_raise, modify, gets, for_each, ◌>>=◌, ◌>>◌}
use vumi.Redis.State.{Redis}
use vumi.Heartbeat.Storage.{Json, SystemDict, WorkerDict, add_system_ids, write_system}
use vumi.Heartbeat.Worker.{Worker, new_worker, to_dict, snapshot, check_in, audit}

pub record System : Type 0 where
  pub name : String
  pub system_id : String
  pub workers : List ℕ

pub record Monitor : Type 0 where
  pub deadline : ℕ
  pub objects : List Worker
  pub systems : List System
  pub workers : Dict ℕ

-- The configured tree, with what may be missing in it.
pub record WorkerConfig : Type 0 where
  pub name : Option String
  pub min_procs : Option ℕ

pub record SystemConfig : Type 0 where
  pub workers : Option (List WorkerConfig)
  pub system_id : Option String

-- `assert_field(cfg, key)` and `cfg[key]`
abbrev pub required : {S A : Type 0} → Option A → Exec S A
required field = or_raise field config_error

-- The body of the inner loop of `parse_config`: the place of the new worker.
unfoldable pub parse_worker : String → WorkerConfig → Exec Monitor ℕ
unfolding new_worker
parse_worker system_id entry = do
  name ← required entry.name
  min_procs ← required entry.min_procs
  place ← gets (λ m. length m.objects)
  let wkr = new_worker system_id name min_procs
  modify (λ m. record m {
    objects = m.objects ++ wkr ∷ [];
    workers = insert wkr.worker_id place m.workers;
  })
  pure place

unfoldable pub parse_workers : String → List WorkerConfig → Exec Monitor (List ℕ)
unfolding parse_worker
parse_workers system_id [] = pure []
parse_workers system_id (entry ∷ rest) = do
  place ← parse_worker system_id entry
  places ← parse_workers system_id rest
  pure (place ∷ places)

unfoldable pub parse_system : SystemConfig → Exec Monitor (Unit {0})
unfolding parse_workers
parse_system sys = do
  entries ← required sys.workers
  system_id ← required sys.system_id
  places ← parse_workers system_id entries
  modify (λ m. record m {
    systems =
        m.systems ++ record { name = system_id; system_id = system_id; workers = places } ∷ [];
  })

unfoldable pub parse_config : List SystemConfig → Exec Monitor (Unit {0})
unfolding parse_system
parse_config config = for_each config parse_system

-- A change of one of the objects.
unfoldable pub at_place : (Worker → Worker) → ℕ → List Worker → List Worker
at_place f i [] = []
at_place f zero (w ∷ ws) = f w ∷ ws
at_place f (suc i) (w ∷ ws) = w ∷ at_place f i ws

-- `update(msg)`
unfoldable pub update : ℕ → String → ℕ → String → ℕ → Monitor → Monitor
unfolding at_place
update now worker_id timestamp hostname pid m = elim (lookup worker_id m.workers) [
  | none ↦ m
  | some place ↦
      if ltb timestamp (now - m.deadline)
      then m
      else record m { objects = at_place (check_in hostname pid) place m.objects }
]

-- The two loops of `_periodic_task` over `self._workers.values()`.
unfoldable pub snapshot_all : Dict ℕ → List Worker → List Worker
unfolding at_place
snapshot_all [] ws = ws
snapshot_all ((_, place) ∷ rest) ws = snapshot_all rest (at_place snapshot place ws)

unfoldable pub audit_all : Json → ℕ → Dict ℕ → List Worker → Exec Redis (List Worker)
unfolding at_place
audit_all json now [] ws = pure ws
audit_all json now ((_, place) ∷ rest) ws = elim (get_elem? ws place) [
  | none ↦ audit_all json now rest ws
  | some w ↦ do w' ← audit json now w; audit_all json now rest (at_place (λ _. w') place ws)
]

abbrev pub dicts_at : List Worker → List ℕ → List WorkerDict
dicts_at ws [] = []
dicts_at ws (i ∷ is) = elim (get_elem? ws i) [
  | none ↦ dicts_at ws is
  | some w ↦ to_dict w ∷ dicts_at ws is
]

-- `System.to_dict`
unfoldable pub system_dict : ℕ → List Worker → System → SystemDict
system_dict now ws sys = record {
  name = sys.name;
  id = sys.system_id;
  timestamp = now;
  workers = dicts_at ws sys.workers;
}

unfoldable pub sync_to_storage : Json → ℕ → List Worker → List System → Exec Redis (Unit {0})
unfolding system_dict
sync_to_storage json now ws systems = do
  add_system_ids (map (λ (s : System). s.system_id) systems)
  for_each systems (λ sys. write_system json sys.system_id (system_dict now ws sys))

unfoldable pub periodic_task : Json → ℕ → Monitor → Exec Redis Monitor
unfolding snapshot_all audit_all sync_to_storage
periodic_task json now m = do
  ws ← audit_all json now m.workers (snapshot_all m.workers m.objects)
  sync_to_storage json now ws m.systems
  pure (record m { objects = ws })
