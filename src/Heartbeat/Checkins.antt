-- ===== src/Heartbeat/Checkins.antt =====
-- What a snapshot holds: the processes that checked in since the last one, each once.
use vumi.Base.{
  ℕ, ◌+◌, ◌≡◌, refl, true, ◌||◌, List, [], ◌∷◌, arith, length, if◌then◌else◌, eq_iff, ap, ◌∙◌,
  Bool-cases, inl, inr,
}
use vumi.Heartbeat.Worker.{Instance, instance_eq, has, add, Worker, check_in, snapshot}

-- The latest check-in first.
unfoldable pub check_ins : List Instance → Worker → Worker
check_ins [] w = w
check_ins (i ∷ earlier) w = check_in i.hostname i.pid (check_ins earlier w)

-- How many different processes are in a list of check-ins.
abbrev pub distinct : List Instance → ℕ
distinct [] = 0
distinct (i ∷ l) = (if has i l then 0 else 1) + distinct l

instance_eq→eq : (a b : Instance) → instance_eq a b ≡ true → a ≡ b
unfolding instance_eq
instance_eq→eq a b h = ground (arith, h, eq_iff a.hostname b.hostname)

has-add : (i j : Instance) (s : List Instance) → has i (add j s) ≡ (instance_eq j i || has i s)
unfolding add has
has-add i j s = elim (Bool-cases (has j s)) [
  | inr new ↦ rw new refl
  | inl old ↦ rw old (elim (Bool-cases (instance_eq j i)) [
    | inl same ↦ rw same (rw (← instance_eq→eq j i same) old)
    | inr other ↦ rw other refl
  ])
]

module _ (w : Worker) (fresh : w.instances_active ≡ []) where
  has-active : (l : List Instance) (i : Instance) → has i (check_ins l w).instances_active ≡ has i l
  unfolding check_ins check_in has
  has-active [] i = ap (has i) fresh
  has-active (j ∷ l) i =
      has-add i j (check_ins l w).instances_active ∙ ap (λ b. instance_eq j i || b) (has-active l i)

  pub length-active : (l : List Instance) → length (check_ins l w).instances_active ≡ distinct l
  unfolding check_ins check_in add
  length-active [] = ap length fresh
  length-active (j ∷ l) = ground (arith, has-active l j, length-active l)

  -- Between two snapshots, a process is in the set exactly if it checked in, each process once.
  pub snapshot-check_ins :
      (l : List Instance)
      → let w' = snapshot (check_ins l w) in
        ((i : Instance) → has i w'.instances ≡ has i l)
        × (length w'.instances ≡ distinct l)
        × (w'.instances_active ≡ [])
  unfolding snapshot
  snapshot-check_ins l = (has-active l, length-active l, refl)
