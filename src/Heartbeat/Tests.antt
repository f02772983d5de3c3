-- ===== src/Heartbeat/Tests.antt =====
-- The theorems on the monitor at concrete inputs, with a way to write issues that stands for JSON.
use Prim.Native.Char.{code}
use Prim.Native.String as Text
use mathlib.Core.Bool.{true≢false}
use vumi.Base.{
  sym, eq_iff, arith, ℕ, zero, suc, String, ◌≡◌, refl, Option, none, some, List, [], ◌∷◌, ◌==◌,
  if◌then◌else◌, ap, str_eq,
}
use vumi.Base.Exec.{ok, for_each}
use vumi.Base.Dict.{lookup, insert}
use vumi.Redis.State.{Redis, empty, value_at}
use vumi.Heartbeat.Storage.{Issue, Json}
use vumi.Heartbeat.Worker.{Instance, Worker, compute_host_info}
use vumi.Heartbeat.Issues.{verdicts}
use vumi.Heartbeat.Monitor.{Monitor, SystemConfig, parse_config}
use vumi.Heartbeat.Places.{IsApart, Each}
use vumi.Heartbeat.Auditing.{IsWatched}
use vumi.Heartbeat.Beats.{Beat}
use vumi.Heartbeat.Periods.{Period, IsOther, periods_of, run_periods, run_periods_lem}
use vumi.Heartbeat.Hosts.{on_host, compute_host_info_lem}

-- A number in front of a text, in ones.
abbrev ones : ℕ → String → String
ones zero s = Text.◌∷◌ "," s
ones (suc n) s = Text.◌∷◌ "1" (ones n s)

abbrev one_more : Option (ℕ × String) → Option (ℕ × String)
one_more none = none
one_more (some (n, s)) = some (suc n, s)

abbrev read_ones : String → Option (ℕ × String)
read_ones Text.[] = none
read_ones (Text.◌∷◌ c s) = if code c == 49 then one_more (read_ones s) else some (0, s)

read_ones-ones : (n : ℕ) (s : String) → read_ones (ones n s) ≡ some (n, s)
read_ones-ones zero s = refl
read_ones-ones (suc n) s = ap one_more (read_ones-ones n s)

abbrev issue_of : ℕ → Option (ℕ × String) → Option Issue
issue_of start none = none
issue_of start (some (count, t)) =
    some (record { issue_type = t; start_time = start; procs_count = count })

abbrev read_issue : Option (ℕ × String) → Option Issue
read_issue none = none
read_issue (some (start, s)) = issue_of start (read_ones s)

loads-dumps :
    (i : Issue)
    → read_issue (read_ones (ones i.start_time (ones i.procs_count i.issue_type))) ≡ some i
loads-dumps i =
    rw (read_ones-ones i.start_time (ones i.procs_count i.issue_type))
      (rw (read_ones-ones i.procs_count i.issue_type) refl)

abbrev in_ones : Json
in_ones = record {
  dump_system = λ s. s.id;
  dumps = λ i. ones i.start_time (ones i.procs_count i.issue_type);
  loads = λ s. read_issue (read_ones s);
  loads-dumps = loads-dumps;
}

abbrev on : String → ℕ → Instance
on hostname pid = record { hostname = hostname; pid = pid }

abbrev config : List SystemConfig
config =
    record {
      workers = some (
          record { name = some "w"; min_procs = some 2 }
          ∷ record { name = some "v"; min_procs = some 1 }
          ∷ []);
      system_id = some "s";
    }
    ∷ []

abbrev unconfigured : Monitor
unconfigured = record { deadline = 30; objects = []; systems = []; workers = [] }

abbrev worker : String → ℕ → String → Worker
worker name min_procs worker_id = record {
  system_id = "s";
  name = name;
  min_procs = min_procs;
  worker_id = worker_id;
  instances = [];
  instances_active = [];
  procs_count = 0;
}

abbrev monitor : Monitor
monitor = record {
  deadline = 30;
  objects = worker "w" 2 "s:w" ∷ worker "v" 1 "s:v" ∷ [];
  systems = record { name = "s"; system_id = "s"; workers = 0 ∷ 1 ∷ [] } ∷ [];
  workers = ("s:w", 0) ∷ ("s:v", 1) ∷ [];
}

parse_config_run : parse_config config unconfigured ≡ (ok tt, monitor)
unfolding parse_config insert for_each
parse_config_run = refl

abbrev min : String → ℕ
min id = if str_eq id "s:w" then 2 else 1

abbrev beat : ℕ → String → String → ℕ → Beat
beat at worker_id hostname pid = record {
  at = at;
  worker_id = worker_id;
  timestamp = 7;
  hostname = hostname;
  pid = pid;
}

-- Two periods: in the second a message is too old, and one is of a worker that is not known.
abbrev periods : List Period
periods =
    (10, beat 8 "s:w" "a" 1 ∷ beat 7 "s:v" "a" 1 ∷ [])
    ∷ (60, beat 50 "s:w" "a" 1 ∷ beat 20 "s:x" "a" 1 ∷ beat 20 "s:w" "b" 1 ∷ [])
    ∷ []

apart : IsApart monitor.workers
apart = (
  ((λ e. true≢false (sym ((eq_iff "s:w" "s:v").1 e))), tt),
  ((λ e. ground (arith, e)), tt),
  (tt, tt, tt),
)

watched : Each (IsWatched in_ones min (λ id. none) empty) monitor.workers monitor.objects
unfolding lookup
watched = (
  (
    worker "w" 2 "s:w",
    refl,
    record { worker_id = refl; min_procs = refl; fresh = refl; clear = λ h. refl; held = refl },
  ),
  (
    (
      worker "v" 1 "s:v",
      refl,
      record { worker_id = refl; min_procs = refl; fresh = refl; clear = λ h. refl; held = refl },
    ),
    tt,
  ),
)

run_periods_lem_example :
    (ws : List Worker) × (r' : Redis) × (run_periods in_ones periods monitor empty
      ≡ (ok (record monitor { objects = ws }), r'))
    × Each
        (IsWatched in_ones min (λ id. verdicts (min id) (periods_of 30 id periods) none) r')
        monitor.workers
        ws
    × ((k : String) → IsOther in_ones min monitor k → value_at r' k ≡ value_at empty k)
unfolding lookup
run_periods_lem_example =
    run_periods_lem in_ones min periods monitor (λ id. none) [] empty apart watched refl

compute_host_info_lem_example :
    lookup "a" (compute_host_info (on "a" 1 ∷ on "b" 2 ∷ on "a" 3 ∷ [])) ≡ (
      if on_host "a" (on "a" 1 ∷ on "b" 2 ∷ on "a" 3 ∷ []) == 0
      then none
      else some (on_host "a" (on "a" 1 ∷ on "b" 2 ∷ on "a" 3 ∷ [])))
compute_host_info_lem_example = compute_host_info_lem "a" (on "a" 1 ∷ on "b" 2 ∷ on "a" 3 ∷ [])
