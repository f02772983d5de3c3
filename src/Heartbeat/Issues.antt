-- ===== src/Heartbeat/Issues.antt =====
-- The issue of a worker in the store against the automaton that it follows.
use mathlib.Core.Option
use vumi.Base.{
  ℕ, ◌≤◌, String, ◌≡◌, ◌≢◌, refl, true, false, Option, none, some, List, [], ◌∷◌, arith, length,
  ltb, leb, if◌then◌else◌, ◌∙◌, ap, Bool-cases, inl, inr,
}
use vumi.Base.Exec.{ok}
use vumi.Redis.State.{Redis, text, value_at}
use vumi.Redis.Keys.{delete}
use vumi.Redis.Texts as Texts
use vumi.Redis.Effects.{delete-Clears, set-ok, set-Puts}
use vumi.Heartbeat.Storage.{
  Issue, Json, issue_key, issue_data, delete_worker_issue, open_or_update_issue,
}
use vumi.Heartbeat.Worker.{Instance, Worker, audit, check_in}
use vumi.Heartbeat.Checkins.{check_ins, distinct}

-- The issue of a worker that the store holds, if any.
abbrev pub Holds : Json → String → Option Issue → Redis → Type 0
Holds json id o r = value_at r (issue_key id) ≡ Option.map (λ i. text (json.dumps i)) o

-- The issue after an audit that counted `count` processes: one that is open keeps its start.
abbrev pub failing : ℕ → ℕ → Option Issue → Issue
failing now count none = record {
  issue_type = "min-procs-fail";
  start_time = now;
  procs_count = count;
}
failing now count (some i) = record i { procs_count = count }

abbrev pub verdict : ℕ → ℕ → ℕ → Option Issue → Option Issue
verdict min_procs now count old = if ltb count min_procs then some (failing now count old) else none

-- The automaton that the issue of a worker follows: it sees how many different processes checked in.
unfoldable pub verdicts : ℕ → List (ℕ × List Instance) → Option Issue → Option Issue
verdicts min_procs [] old = old
verdicts min_procs ((now, beats) ∷ periods) old =
    verdicts min_procs periods (verdict min_procs now (distinct beats) old)

module _ (json : Json) where
  open_or_update_issue_lem :
      (id : String) (now count : ℕ) (old : Option Issue) (r : Redis)
      → Holds json id old r
      → let (res, r') = open_or_update_issue json id (failing now count none) r in
        (res ≡ ok tt)
        × Holds json id (some (failing now count old)) r'
        × ((j : String) → issue_key id ≢ j → value_at r' j ≡ value_at r j)
  unfolding open_or_update_issue issue_data Texts.get
  open_or_update_issue_lem id now count none r h =
      let put = set-Puts (issue_key id) (json.dumps (failing now count none)) r in
      rw h (set-ok _ _ r, put.at, put.rest)
  open_or_update_issue_lem id now count (some i) r h =
      let put = set-Puts (issue_key id) (json.dumps (failing now count (some i))) r in
      rw h (rw (json.loads-dumps i) (set-ok _ _ r, put.at, put.rest))

  -- After an audit the store holds an issue exactly if fewer than `min_procs` processes were
  -- counted. It shows the number counted, and the time of the first of the audits in a row that
  -- found too few. Only the key of the issue changes. Before the audit there was no issue if the
  -- last count was high enough.
  pub audit_lem :
      (now : ℕ) (w : Worker) (old : Option Issue) (r : Redis)
      → Holds json w.worker_id old r
      → (w.min_procs ≤ w.procs_count → old ≡ none)
      → let count = length w.instances in
        let (res, r') = audit json now w r in
        (res ≡ ok (record w { procs_count = count }))
        × Holds json w.worker_id (verdict w.min_procs now count old) r'
        × ((j : String) → issue_key w.worker_id ≢ j → value_at r' j ≡ value_at r j)
  unfolding audit delete_worker_issue delete
  audit_lem now w old r h clear =
      let count = length w.instances in
      elim (Bool-cases (ltb count w.min_procs)) [
        | inl low ↦
            let few : leb w.min_procs count ≡ false = ground arith in
            let (done, held, rest) = open_or_update_issue_lem w.worker_id now count old r h in
            rw (few, low) (rw done (refl, held, rest))
        | inr high ↦
            let enough : leb w.min_procs count ≡ true = ground arith in
            elim (Bool-cases (ltb w.procs_count w.min_procs)) [
              | inl failed ↦
                  let gone = delete-Clears (issue_key w.worker_id) r in
                  rw (enough, failed, high) (refl, gone.at, gone.rest)
              | inr fine ↦
                  rw (enough, fine, high)
                    (
                      refl,
                      h ∙ ap (λ o. Option.map (λ i. text (json.dumps i)) o) (clear (ground arith)),
                      λ j ne. refl,
                    )
            ]
      ]

  -- Checking in changes nothing but the set of active processes.
  pub check_ins-eq :
      (l : List Instance) (w : Worker)
      → check_ins l w ≡ record w { instances_active = (check_ins l w).instances_active }
  unfolding check_ins check_in
  check_ins-eq [] w = refl
  check_ins-eq (i ∷ l) w = ap (check_in i.hostname i.pid) (check_ins-eq l w)

  pub verdict-clear :
      (min_procs now count : ℕ) (old : Option Issue)
      → min_procs ≤ count
      → verdict min_procs now count old ≡ none
  verdict-clear min_procs now count old h =
      let high : ltb count min_procs ≡ false = ground arith in rw high
