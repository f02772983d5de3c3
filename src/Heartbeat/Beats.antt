-- ===== src/Heartbeat/Beats.antt =====
-- What the heartbeats between two audits do with all the workers of a monitor
-- (vumi/blinkenlights/heartbeat/monitor.py).
use vumi.Base.{
  ℕ, ◌-◌, String, ◌≡◌, ◌≢◌, refl, ap, ◌∙◌, true, false, not, ◌&&◌, Option, none, some, List, [],
  ◌∷◌, arith, get_elem?, str_eq, eq_iff, ltb, if◌then◌else◌, Bool-cases, inl, inr,
}
use vumi.Base.Dict.{Dict, lookup}
use vumi.Heartbeat.Worker.{Instance, Worker, check_in}
use vumi.Heartbeat.Monitor.{Monitor, at_place, update}
use vumi.Heartbeat.Checkins.{check_ins}
use vumi.Heartbeat.Places.{
  get_elem?-other, get_elem?-same, Off, IsApart, Each, Each-map, Each-map-Unnamed, Each-at_place,
}

-- A heartbeat message, with the time at which it comes in.
pub record Beat : Type 0 where
  pub at : ℕ
  pub worker_id : String
  pub timestamp : ℕ
  pub hostname : String
  pub pid : ℕ

-- The latest first.
unfoldable pub update_all : List Beat → Monitor → Monitor
unfolding update
update_all [] m = m
update_all (b ∷ earlier) m =
    update b.at b.worker_id b.timestamp b.hostname b.pid (update_all earlier m)

abbrev pub instance_of : Beat → Instance
instance_of b = record { hostname = b.hostname; pid = b.pid }

-- The processes of a worker whose messages were not too old.
unfoldable pub beats_of : ℕ → String → List Beat → List Instance
beats_of deadline id [] = []
beats_of deadline id (b ∷ earlier) =
    let rest = beats_of deadline id earlier in
    if str_eq id b.worker_id && not (ltb b.timestamp (b.at - deadline))
    then instance_of b ∷ rest
    else rest

module _ (f : Worker → Worker) (id : String) where
  -- The worker of the id changes, if there is one.
  abbrev pub touch : Option ℕ → List Worker → List Worker
  touch none ws = ws
  touch (some p) ws = at_place f p ws

  touch-Off :
      (p : ℕ) (d : Dict ℕ) (ws : List Worker)
      → Off p d
      → get_elem? (touch (lookup id d) ws) p ≡ get_elem? ws p
  unfolding lookup
  touch-Off p [] ws o = refl
  touch-Off p ((j, q) ∷ d) ws (ne, o) = elim (Bool-cases (str_eq j id)) [
    | inl same ↦ rw same (get_elem?-other f q p ws ne)
    | inr other ↦ rw other (touch-Off p d ws o)
  ]

  touch-Each :
      (P Q : String → Worker → Type 0) (d : Dict ℕ) (ws : List Worker)
      → ((j : String) (w : Worker) → str_eq j id ≡ true → P j w → Q j (f w))
      → ((j : String) (w : Worker) → str_eq j id ≡ false → P j w → Q j w)
      → IsApart d
      → Each P d ws
      → Each Q d (touch (lookup id d) ws)
  unfolding lookup
  touch-Each P Q [] ws hit miss a e = tt
  touch-Each P Q ((j, p) ∷ d) ws hit miss (u, o, a) ((w, at, x), e) =
      elim (Bool-cases (str_eq j id)) [
        | inl same ↦
            let named : j ≡ id = (eq_iff j id).0 same in
            let untouched : (i : String) (v : Worker) → j ≢ i → P i v → Q i v =
              λ i v ne. miss i v (ground (arith, ne, named, eq_iff i id)) in
            rw same (
              (f w, get_elem?-same f p ws w at, hit j w same x),
              Each-map-Unnamed P Q j d (at_place f p ws) u untouched (Each-at_place P f p d ws o e),
            )
        | inr other ↦
            rw other
              ((w, touch-Off p d ws o ∙ at, miss j w other x), touch-Each P Q d ws hit miss a e)
      ]

module _ (now : ℕ) (worker_id : String) (timestamp : ℕ) (hostname : String) (pid : ℕ)
    (m : Monitor) where
  -- What `update` does by the place that it finds.
  abbrev found : Option ℕ → Monitor
  found none = m
  found (some place) =
      if ltb timestamp (now - m.deadline)
      then m
      else record m { objects = at_place (check_in hostname pid) place m.objects }

  found-old : (o : Option ℕ) → ltb timestamp (now - m.deadline) ≡ true → found o ≡ m
  found-old none old = refl
  found-old (some place) old = rw old refl

  found-new :
      (o : Option ℕ)
      → ltb timestamp (now - m.deadline) ≡ false
      → found o ≡ record m { objects = touch (check_in hostname pid) worker_id o m.objects }
  found-new none new = refl
  found-new (some place) new = rw new refl

  update-old :
      ltb timestamp (now - m.deadline) ≡ true → update now worker_id timestamp hostname pid m ≡ m
  unfolding update
  update-old old = found-old (lookup worker_id m.workers) old

  update-new :
      ltb timestamp (now - m.deadline) ≡ false
      → update now worker_id timestamp hostname pid m ≡ record m {
        objects = touch (check_in hostname pid) worker_id (lookup worker_id m.workers) m.objects;
      }
  unfolding update
  update-new new = found-new (lookup worker_id m.workers) new

module _ (P : String → Worker → Type 0) (deadline : ℕ) where
  -- A worker of which `P` held before these messages.
  abbrev pub Beaten : List Beat → String → Worker → Type 0
  Beaten beats id w = (v : Worker) × P id v × (w ≡ check_ins (beats_of deadline id beats) v)

  Beaten-nil : (id : String) (w : Worker) → P id w → Beaten [] id w
  unfolding beats_of check_ins
  Beaten-nil id w x = (w, x, refl)

  Beaten-new :
      (b : Beat) (earlier : List Beat) (id : String) (w : Worker)
      → str_eq id b.worker_id ≡ true
      → ltb b.timestamp (b.at - deadline) ≡ false
      → Beaten earlier id w
      → Beaten (b ∷ earlier) id (check_in b.hostname b.pid w)
  unfolding beats_of check_ins
  Beaten-new b earlier id w hit new (v, x, e) =
      (v, x, rw (hit, new) (ap (check_in b.hostname b.pid) e))

  Beaten-miss :
      (b : Beat) (earlier : List Beat) (id : String) (w : Worker)
      → str_eq id b.worker_id ≡ false
      → Beaten earlier id w
      → Beaten (b ∷ earlier) id w
  unfolding beats_of
  Beaten-miss b earlier id w miss (v, x, e) = (v, x, rw miss e)

  Beaten-old :
      (b : Beat) (earlier : List Beat) (id : String) (w : Worker)
      → ltb b.timestamp (b.at - deadline) ≡ true
      → Beaten earlier id w
      → Beaten (b ∷ earlier) id w
  unfolding beats_of
  Beaten-old b earlier id w old (v, x, e) = elim (Bool-cases (str_eq id b.worker_id)) [
    | inl hit ↦ (v, x, rw (hit, old) e)
    | inr miss ↦ (v, x, rw miss e)
  ]

pub update_all_lem :
    (P : String → Worker → Type 0) (beats : List Beat) (m : Monitor)
    → IsApart m.workers
    → Each P m.workers m.objects
    → (ws : List Worker) × (update_all beats m ≡ record m { objects = ws })
      × Each (Beaten P m.deadline beats) m.workers ws
unfolding update_all
update_all_lem P [] m a e = (
  m.objects,
  refl,
  Each-map P (Beaten P m.deadline []) m.workers m.objects (Beaten-nil P m.deadline) e,
)
update_all_lem P (b ∷ earlier) m a e =
    let (ws, same, each) = update_all_lem P earlier m a e in
    let m1 = record m { objects = ws } in
    let step = update b.at b.worker_id b.timestamp b.hostname b.pid in
    elim (Bool-cases (ltb b.timestamp (b.at - m.deadline))) [
      | inl old ↦ (
        ws,
        ap step same ∙ update-old b.at b.worker_id b.timestamp b.hostname b.pid m1 old,
        Each-map (Beaten P m.deadline earlier) (Beaten P m.deadline (b ∷ earlier)) m.workers ws
            (λ id w x. Beaten-old P m.deadline b earlier id w old x) each,
      )
      | inr new ↦ (
        touch (check_in b.hostname b.pid) b.worker_id (lookup b.worker_id m.workers) ws,
        ap step same ∙ update-new b.at b.worker_id b.timestamp b.hostname b.pid m1 new,
        touch-Each (check_in b.hostname b.pid) b.worker_id (Beaten P m.deadline earlier)
            (Beaten P m.deadline (b ∷ earlier)) m.workers ws
            (λ id w hit x. Beaten-new P m.deadline b earlier id w hit new x)
            (λ id w miss x. Beaten-miss P m.deadline b earlier id w miss x) a each,
      )
    ]
