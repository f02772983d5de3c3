-- ===== src/Heartbeat/Syncing.antt =====
-- Which keys `_sync_to_storage` of the monitor writes (vumi/blinkenlights/heartbeat/monitor.py).
use Prim.Native.String.{◌++◌}
use vumi.Base.{ℕ, String, ◌≡◌, ◌≢◌, refl, ap, ◌∙◌, some, List, [], ◌∷◌, map}
use vumi.Base.Text.{differ, differ-ne}
use vumi.Base.PySet.{add_all}
use vumi.Base.Exec.{ok, for_each}
use vumi.Redis.State.{Redis, value_at, as_set}
use vumi.Redis.Sets.{sadd}
use vumi.Redis.Effects.{set-ok, set-Puts}
use vumi.Redis.Effects.Sets.{sadd-Puts}
use vumi.Heartbeat.Storage.{Json, systems_key, system_key, issue_key, write_system, add_system_ids}
use vumi.Heartbeat.Worker.{Worker}
use vumi.Heartbeat.Monitor.{System, system_dict, sync_to_storage}

-- The key is that of no system.
abbrev pub NoSystem : String → List System → Type 0
NoSystem k [] = Unit
NoSystem k (sys ∷ l) = (system_key sys.system_id ≢ k) × NoSystem k l

system_key-ne_systems : (id : String) → system_key id ≢ systems_key
unfolding system_key differ
system_key-ne_systems id = differ-ne "system:" "systems" id "" refl

system_key-ne_issue : (id worker : String) → system_key id ≢ issue_key worker
unfolding system_key issue_key differ
system_key-ne_issue id worker = differ-ne "system:" "worker:" id (worker ++ ":issue") refl

pub systems-ne_issue : (worker : String) → systems_key ≢ issue_key worker
unfolding issue_key differ
systems-ne_issue worker = differ-ne "systems" "worker:" "" (worker ++ ":issue") refl

systems-NoSystem : (l : List System) → NoSystem systems_key l
systems-NoSystem [] = tt
systems-NoSystem (sys ∷ l) = (system_key-ne_systems sys.system_id, systems-NoSystem l)

pub issue-NoSystem : (worker : String) (l : List System) → NoSystem (issue_key worker) l
issue-NoSystem worker [] = tt
issue-NoSystem worker (sys ∷ l) =
    (system_key-ne_issue sys.system_id worker, issue-NoSystem worker l)

module _ (json : Json) (now : ℕ) (ws : List Worker) where
  write_systems :
      (l : List System) (r : Redis)
      → (r' : Redis) × (for_each l
            (λ sys. write_system json sys.system_id (system_dict now ws sys))
            r
          ≡ (ok tt, r'))
        × ((k : String) → NoSystem k l → value_at r' k ≡ value_at r k)
  unfolding for_each write_system
  write_systems [] r = (r, refl, λ k n. refl)
  write_systems (sys ∷ l) r =
      let text = json.dump_system (system_dict now ws sys) in
      let key = system_key sys.system_id in
      let put = set-Puts key text r in
      let (r', done, frame) =
        write_systems l (write_system json sys.system_id (system_dict now ws sys) r).1 in
      (r', rw (set-ok key text r) done, λ k (ne, n). frame k n ∙ put.rest k ne)

  pub sync_to_storage_lem :
      (l : List System) (s : List String) (r : Redis)
      → as_set (value_at r systems_key) ≡ some s
      → (r' : Redis) × (sync_to_storage json now ws l r ≡ (ok tt, r'))
        × (as_set (value_at r' systems_key)
            ≡ some (add_all (map (λ (sys : System). sys.system_id) l) s))
        × ((k : String) → systems_key ≢ k → NoSystem k l → value_at r' k ≡ value_at r k)
  unfolding sync_to_storage add_system_ids
  sync_to_storage_lem l s r h =
      let ids = map (λ (sys : System). sys.system_id) l in
      let (done, put) = sadd-Puts systems_key r s h ids in
      let (r', all, frame) = write_systems l (sadd systems_key ids r).1 in
      (
        r',
        rw done all,
        ap as_set (frame systems_key (systems-NoSystem l) ∙ put.at),
        λ k ne n. frame k n ∙ put.rest k ne,
      )
