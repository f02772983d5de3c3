-- ===== src/Heartbeat/Auditing.antt =====
-- What the audits of `_periodic_task` do with all the workers of a monitor
-- (vumi/blinkenlights/heartbeat/monitor.py).
use mathlib.Core.Option
use mathlib.Core.Path.{subst}
use vumi.Base.{
  ℕ, ◌≤◌, String, ◌≡◌, ◌≢◌, refl, sym, ap, ◌∙◌, Option, none, some, List, [], ◌∷◌, length,
  get_elem?,
}
use vumi.Base.Dict.{Dict}
use vumi.Base.Exec.{Exec, ok, ◌>>=◌}
use vumi.Redis.State.{Redis, text, value_at}
use vumi.Heartbeat.Storage.{Issue, Json, issue_key}
use vumi.Heartbeat.Worker.{Worker, snapshot, audit}
use vumi.Heartbeat.Monitor.{at_place, snapshot_all, audit_all}
use vumi.Heartbeat.Issues.{Holds, verdict, audit_lem, verdict-clear}
use vumi.Heartbeat.Places.{
  issue_key-ne, get_elem?-other, get_elem?-same, Off, Unnamed, IsApart, Each, Each-map-Unnamed,
  Each-at_place,
}

snapshot_all-Off :
    (p : ℕ) (d : Dict ℕ) (ws : List Worker)
    → Off p d
    → get_elem? (snapshot_all d ws) p ≡ get_elem? ws p
unfolding snapshot_all
snapshot_all-Off p [] ws o = refl
snapshot_all-Off p ((j, q) ∷ d) ws (ne, o) =
    snapshot_all-Off p d (at_place snapshot q ws) o ∙ get_elem?-other snapshot q p ws ne

pub snapshot_all-Each :
    (P Q : String → Worker → Type 0) (d : Dict ℕ) (ws : List Worker)
    → ((id : String) (w : Worker) → P id w → Q id (snapshot w))
    → IsApart d
    → Each P d ws
    → Each Q d (snapshot_all d ws)
unfolding snapshot_all
snapshot_all-Each P Q [] ws h a e = tt
snapshot_all-Each P Q ((id, p) ∷ d) ws h (u, o, a) ((w, at, x), e) =
    let ws1 = at_place snapshot p ws in
    (
      (snapshot w, snapshot_all-Off p d ws1 o ∙ get_elem?-same snapshot p ws w at, h id w x),
      snapshot_all-Each P Q d ws1 h a (Each-at_place P snapshot p d ws o e),
    )

-- The key is that of no issue of these workers.
abbrev pub NoIssue : String → Dict ℕ → Type 0
NoIssue k [] = Unit
NoIssue k ((id, p) ∷ d) = (issue_key id ≢ k) × NoIssue k d

Unnamed-NoIssue : (id : String) (d : Dict ℕ) → Unnamed id d → NoIssue (issue_key id) d
Unnamed-NoIssue id [] u = tt
Unnamed-NoIssue id ((j, p) ∷ d) (ne, u) =
    (λ e. issue_key-ne id j ne (sym e), Unnamed-NoIssue id d u)

module _ (json : Json) (min : String → ℕ) where
  -- A worker between audits, with the issue that the store holds: nothing has checked in yet, and
  -- there is no issue if the last count was high enough.
  pub record IsWatched (old : String → Option Issue) (r : Redis) (id : String) (w : Worker)
      : Type 0 where
    pub worker_id : w.worker_id ≡ id
    pub min_procs : w.min_procs ≡ min id
    pub fresh : w.instances_active ≡ []
    pub clear : min id ≤ w.procs_count → old id ≡ none
    pub held : Holds json id (old id) r

  -- A worker that an audit will see with so many processes.
  pub record IsCounted (count : String → ℕ) (old : String → Option Issue) (r : Redis) (id : String)
      (w : Worker) : Type 0 where
    pub watched : IsWatched old r id w
    pub counted : length w.instances ≡ count id

  pub IsWatched-frame :
      (old : String → Option Issue) (r r' : Redis) (id : String) (w : Worker)
      → value_at r' (issue_key id) ≡ value_at r (issue_key id)
      → IsWatched old r id w
      → IsWatched old r' id w
  IsWatched-frame old r r' id w same x = record {
    worker_id = x.worker_id;
    min_procs = x.min_procs;
    fresh = x.fresh;
    clear = x.clear;
    held = same ∙ x.held;
  }

  module _ (now : ℕ) (count : String → ℕ) (old : String → Option Issue) where
    abbrev pub next : String → Option Issue
    next id = verdict (min id) now (count id) (old id)

    audit_one :
        (id : String) (w : Worker) (r : Redis)
        → IsCounted count old r id w
        → let (res, r') = audit json now w r in
          (w' : Worker) × (res ≡ ok w')
          × IsWatched next r' id w'
          × ((j : String) → issue_key id ≢ j → value_at r' j ≡ value_at r j)
    audit_one id w r c =
        let x = c.watched in
        let held : Holds json w.worker_id (old id) r =
          ap (λ i. value_at r (issue_key i)) x.worker_id ∙ x.held in
        let clear : w.min_procs ≤ w.procs_count → old id ≡ none =
          λ h. x.clear (subst (λ (n : ℕ). n ≤ w.procs_count) x.min_procs h) in
        let (done, after, rest) = audit_lem json now w (old id) r held clear in
        let r' = (audit json now w r).1 in
        let same : verdict w.min_procs now (length w.instances) (old id) ≡ next id =
          rw (x.min_procs, c.counted) refl in
        (
          record w { procs_count = length w.instances },
          done,
          record {
            worker_id = x.worker_id;
            min_procs = x.min_procs;
            fresh = x.fresh;
            clear = λ h.
                verdict-clear json (min id) now (count id) (old id)
                  (subst (λ (n : ℕ). min id ≤ n) c.counted h);
            held =
                ap (λ i. value_at r' (issue_key i)) (sym x.worker_id)
                ∙ after
                ∙ ap (λ o. Option.map (λ i. text (json.dumps i)) o) same;
          },
          λ j ne. rest j (λ e. ne (ap issue_key (sym x.worker_id) ∙ e)),
        )

    audit_all-cons :
        (id : String) (p : ℕ) (d : Dict ℕ) (ws ws' : List Worker) (w w' : Worker) (r r' : Redis)
        → get_elem? ws p ≡ some w
        → (audit json now w r).0 ≡ ok w'
        → audit_all json now d (at_place (λ _. w') p ws) (audit json now w r).1 ≡ (ok ws', r')
        → audit_all json now ((id, p) ∷ d) ws r ≡ (ok ws', r')
    unfolding audit_all
    audit_all-cons id p d ws ws' w w' r r' at done all =
        ap
          (λ (o : Option Worker).
            (elim o as (λ _. Exec Redis (List Worker)) [
              | none ↦ audit_all json now d ws
              | some v ↦ (do v' ← audit json now v; audit_all json now d (at_place (λ _. v') p ws))
            ])
              r)
          at
        ∙ rw done all

    pub audit_all_lem :
        (d : Dict ℕ) (ws : List Worker) (r : Redis)
        → IsApart d
        → Each (IsCounted count old r) d ws
        → (ws' : List Worker) × (r' : Redis) × (audit_all json now d ws r ≡ (ok ws', r'))
          × Each (IsWatched next r') d ws'
          × ((p : ℕ) → Off p d → get_elem? ws' p ≡ get_elem? ws p)
          × ((k : String) → NoIssue k d → value_at r' k ≡ value_at r k)
    unfolding audit_all
    audit_all_lem [] ws r a e = (ws, r, refl, tt, λ p o. refl, λ k n. refl)
    audit_all_lem ((id, p) ∷ d) ws r (u, o, a) ((w, at, x), e) =
        let (w', done, watched, rest) = audit_one id w r x in
        let r1 = (audit json now w r).1 in
        let ws1 = at_place (λ _. w') p ws in
        let moved : (j : String) (v : Worker)
            → id ≢ j
            → IsCounted count old r j v
            → IsCounted count old r1 j v =
          λ j v ne y. record {
            watched =
                IsWatched-frame old r r1 j v (rest (issue_key j) (issue_key-ne id j ne)) y.watched;
            counted = y.counted;
          } in
        let e1 =
          Each-map-Unnamed (IsCounted count old r) (IsCounted count old r1) id d ws1 u moved
            (Each-at_place (IsCounted count old r) (λ _. w') p d ws o e) in
        let (ws', r', all, others, places, frame) = audit_all_lem d ws1 r1 a e1 in
        let kept = frame (issue_key id) (Unnamed-NoIssue id d u) in
        (
          ws',
          r',
          audit_all-cons id p d ws ws' w w' r r' at done all,
          (
            (
              w',
              places p o ∙ get_elem?-same (λ _. w') p ws w at,
              IsWatched-frame next r1 r' id w' kept watched,
            ),
            others,
          ),
          λ q (ne, off). places q off ∙ get_elem?-other (λ _. w') p q ws ne,
          λ k (ne, n). frame k n ∙ rest k ne,
        )
