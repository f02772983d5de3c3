-- ===== src/Heartbeat/Periods.antt =====
-- The monitor of vumi/blinkenlights/heartbeat/monitor.py over any number of periods, with its issues
-- in the store against the automaton that each of them follows.
use mathlib.Core.Path.{subst}
use vumi.Base.{
  ℕ, ◌≤◌, String, ◌≡◌, ◌≢◌, refl, sym, ap, ◌∙◌, Option, some, List, [], ◌∷◌, length, map,
}
use vumi.Base.Dict.{Dict}
use vumi.Base.PySet.{add_all}
use vumi.Base.Exec.{Exec, ok, pure, ◌>>=◌}
use vumi.Redis.State.{Redis, value_at, as_set}
use vumi.Heartbeat.Storage.{Issue, Json, issue_key, systems_key}
use vumi.Heartbeat.Worker.{Instance, Worker, snapshot}
use vumi.Heartbeat.Monitor.{
  Monitor, System, snapshot_all, audit_all, sync_to_storage, periodic_task,
}
use vumi.Heartbeat.Checkins.{distinct, length-active}
use vumi.Heartbeat.Issues.{verdict, verdicts, check_ins-eq}
use vumi.Heartbeat.Places.{IsApart, Each, Each-map}
use vumi.Heartbeat.Auditing.{
  NoIssue, IsWatched, IsCounted, IsWatched-frame, snapshot_all-Each, audit_all_lem,
}
use vumi.Heartbeat.Syncing.{NoSystem, sync_to_storage_lem, systems-ne_issue, issue-NoSystem}
use vumi.Heartbeat.Beats.{Beat, beats_of, update_all, Beaten, update_all_lem}

-- A period: the time of the task at its end, and the messages, the latest first.
abbrev pub Period : Type 0
Period = ℕ × List Beat

-- What a worker sees of the periods.
abbrev pub periods_of : ℕ → String → List Period → List (ℕ × List Instance)
periods_of deadline id [] = []
periods_of deadline id ((now, beats) ∷ periods) =
    (now, beats_of deadline id beats) ∷ periods_of deadline id periods

module _ (json : Json) where
  -- The messages of a period are taken by `update`, and then the periodic task runs.
  unfoldable pub run_periods : List Period → Monitor → Exec Redis Monitor
  unfolding update_all periodic_task
  run_periods [] m = pure m
  run_periods ((now, beats) ∷ periods) m = do
    m' ← periodic_task json now (update_all beats m)
    run_periods periods m'

  module _ (min : String → ℕ) where
    snapshot-IsCounted :
        (deadline : ℕ) (beats : List Beat) (old : String → Option Issue) (r : Redis) (id : String)
        (w : Worker)
        → Beaten (IsWatched json min old r) deadline beats id w
        → IsCounted json min (λ i. distinct (beats_of deadline i beats)) old r id (snapshot w)
    unfolding snapshot
    snapshot-IsCounted deadline beats old r id w (v, x, e) =
        let l = beats_of deadline id beats in
        let same = e ∙ check_ins-eq json l v in
        record {
          watched = record {
            worker_id = ap (λ (u : Worker). u.worker_id) same ∙ x.worker_id;
            min_procs = ap (λ (u : Worker). u.min_procs) same ∙ x.min_procs;
            fresh = refl;
            clear =
                let p = ap (λ (u : Worker). u.procs_count) same in
                λ h. x.clear (subst (λ (n : ℕ). min id ≤ n) p h);
            held = x.held;
          };
          counted = ap (λ (u : Worker). length u.instances_active) e ∙ length-active v x.fresh l;
        }

    -- No key of an issue, of a system or of the systems.
    abbrev pub IsOther : Monitor → String → Type 0
    IsOther m k = (systems_key ≢ k) × NoSystem k m.systems × NoIssue k m.workers

    abbrev pub issues_after : ℕ → ℕ → List Beat → (String → Option Issue) → String → Option Issue
    issues_after deadline now beats old id =
        verdict (min id) now (distinct (beats_of deadline id beats)) (old id)

    systems-NoIssue : (d : Dict ℕ) → NoIssue systems_key d
    systems-NoIssue [] = tt
    systems-NoIssue ((id, p) ∷ d) =
        (λ (e : issue_key id ≡ systems_key). systems-ne_issue id (sym e), systems-NoIssue d)

    periodic_task-eq :
        (now : ℕ) (m : Monitor) (ws : List Worker) (r r1 r2 : Redis)
        → audit_all json now m.workers (snapshot_all m.workers m.objects) r ≡ (ok ws, r1)
        → sync_to_storage json now ws m.systems r1 ≡ (ok tt, r2)
        → periodic_task json now m r ≡ (ok (record m { objects = ws }), r2)
    unfolding periodic_task
    periodic_task-eq now m ws r r1 r2 audited synced = rw audited (rw synced refl)

    -- One period.
    period_lem :
        (now : ℕ) (beats : List Beat) (m : Monitor) (old : String → Option Issue) (s : List String)
        (r : Redis)
        → IsApart m.workers
        → Each (IsWatched json min old r) m.workers m.objects
        → as_set (value_at r systems_key) ≡ some s
        → (ws : List Worker) × (r' : Redis) × (periodic_task json now (update_all beats m) r
            ≡ (ok (record m { objects = ws }), r'))
          × Each (IsWatched json min (issues_after m.deadline now beats old) r') m.workers ws
          × (as_set (value_at r' systems_key)
              ≡ some (add_all (map (λ (sys : System). sys.system_id) m.systems) s))
          × ((k : String) → IsOther m k → value_at r' k ≡ value_at r k)
    period_lem now beats m old s r a e h =
        let count = λ (i : String). distinct (beats_of m.deadline i beats) in
        let after = issues_after m.deadline now beats old in
        let (ws1, same, beaten) = update_all_lem (IsWatched json min old r) beats m a e in
        let counted =
          snapshot_all-Each (Beaten (IsWatched json min old r) m.deadline beats)
            (IsCounted json min count old r) m.workers ws1
            (snapshot-IsCounted m.deadline beats old r) a beaten in
        let (ws, r1, audited, each, _, frame1) =
          audit_all_lem json min now count old m.workers (snapshot_all m.workers ws1) r a counted in
        let systems = frame1 systems_key (systems-NoIssue m.workers) in
        let (r2, synced, ids, frame2) =
          sync_to_storage_lem json now ws m.systems s r1 (ap as_set systems ∙ h) in
        let moved : (id : String) (w : Worker)
            → IsWatched json min after r1 id w
            → IsWatched json min after r2 id w =
          λ id w.
            IsWatched-frame json min after r1 r2 id w
              (frame2 (issue_key id) (systems-ne_issue id) (issue-NoSystem id m.systems)) in
        (
          ws,
          r2,
          ap (λ x. periodic_task json now x r) same
              ∙ periodic_task-eq now (record m { objects = ws1 }) ws r r1 r2 audited synced,
          Each-map (IsWatched json min after r1) (IsWatched json min after r2) m.workers ws moved
              each,
          ids,
          λ k (not_systems, no_system, no_issue).
              frame2 k not_systems no_system ∙ frame1 k no_issue,
        )

    -- Over any number of periods, in each of which messages come in, the latest first, and then the
    -- periodic task runs, the monitor refines an automaton for each of its workers: the issue of a
    -- worker that the store holds at the end is the automaton's, which sees how many different
    -- processes of the worker sent a message that was not too old. No task fails, and no key is
    -- changed but those of the issues, of the systems and of their ids. The workers have their ids
    -- and places for themselves and start as after an audit: nothing has checked in yet, and there is
    -- no issue if the last count was high enough. The key of the ids holds a set, or nothing yet.
    pub run_periods_lem :
        (periods : List Period) (m : Monitor) (old : String → Option Issue) (s : List String)
        (r : Redis)
        → IsApart m.workers
        → Each (IsWatched json min old r) m.workers m.objects
        → as_set (value_at r systems_key) ≡ some s
        → (ws : List Worker) × (r' : Redis) × (run_periods periods m r
            ≡ (ok (record m { objects = ws }), r'))
          × Each
              (IsWatched json min
                (λ id. verdicts (min id) (periods_of m.deadline id periods) (old id))
                r')
              m.workers
              ws
          × ((k : String) → IsOther m k → value_at r' k ≡ value_at r k)
    unfolding run_periods verdicts
    run_periods_lem [] m old s r a e h = (m.objects, r, refl, e, λ k other. refl)
    run_periods_lem ((now, beats) ∷ periods) m old s r a e h =
        let (ws1, r1, done, each, ids, frame) = period_lem now beats m old s r a e h in
        let (ws, r', all, final, frame') =
          run_periods_lem periods (record m { objects = ws1 })
            (issues_after m.deadline now beats old) _ r1 a each ids in
        (ws, r', rw done all, final, λ k other. frame' k other ∙ frame k other)
