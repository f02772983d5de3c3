-- ===== src/Failures/Tests.antt =====
-- The theorems on failures at concrete inputs, with times of one digit.
use Prim.Native.Nat.{min}
use vumi.Base.{
  ◌%◌, ◌<◌, ◌≤◌, String, ◌≡◌, refl, none, some, List, [], ◌∷◌, arith, map, length, if◌then◌else◌,
  str_eq,
}
use vumi.Base.Int.{pos}
use vumi.Base.Decimal.{show_nat}
use vumi.Base.Dict.{lookup, insert, update}
use vumi.Base.Exec.{ok, ◌>>◌}
use vumi.Redis.State.{Redis, empty}
use vumi.Redis.Hashes as Hashes
use vumi.Redis.Sets.{sadd}
use vumi.Redis.Zset as Zset
use vumi.Redis.Zset.{zscore}
use vumi.Redis.Zsets as Zsets
use vumi.Base.PySet.{member, add_all, add}
use vumi.Redis.Lists.Removal.{occurrences}
use vumi.Failures.{
  Config, Message, json, fields, deliver_retries, handle_failure, update_retry_metadata,
  next_write_time,
}
use vumi.Failures.Backoff.{next_write_time_lem, failed, growth, failed_lem}
use vumi.Failures.Plan.{Bucket, Holds}
use vumi.Failures.Schedule.{due_keys, remaining, deliver_retries_lem}

abbrev config : Config
config = record {
  granularity = 5;
  max_delay = 60;
  initial_delay = 1;
  delay_factor = 3;
  isoformat = λ n. show_nat n;
  mktime = λ s. pos 5;
}

abbrev to_json : Message → String
to_json (json s) = s
to_json (fields rmd rest) = rest

-- Messages failed at the times 1 and 2, each for the first time.
abbrev store : Redis
store =
    let first = handle_failure config to_json 1 "a" (fields none "m") (some "temporary") "busy" in
    let second = handle_failure config to_json 2 "b" (fields none "n") (some "temporary") "busy" in
    ((first >> second) empty).1

abbrev plan : List Bucket
plan = (record { score = pos 5; timestamp = "5"; keys = "failure.2.b" ∷ "failure.1.a" ∷ [] }) ∷ []

abbrev text_of : String → String
text_of key = if str_eq key "failure.1.a" then "m" else "n"

plan-Holds : Holds text_of plan store
unfolding handle_failure lookup Hashes.hmset sadd insert show_nat Zsets.zadd Zset.zadd Zset.insort
    zscore member add_all add update
plan-Holds = record {
  timestamps = refl;
  sorted = tt;
  unique = (refl, tt);
  buckets = (
    record {
      held = refl;
      named = refl;
      some_key = omega arith;
      no_dup = (refl, (refl, tt));
      stored = ((refl, _, refl, refl), ((refl, _, refl, refl), tt));
    },
    tt,
  );
}

few : length (due_keys config text_of 0 7 plan) < 3
unfolding due_keys show_nat
few = omega arith

deliver_retries_lem_example :
    (sent : List String) × (r' : Redis) × (deliver_retries config 3 0 7 store
      ≡ (ok (some (map text_of sent)), r'))
    × ((x : String) → occurrences x sent ≡ occurrences x (due_keys config text_of 0 7 plan))
    × Holds text_of (remaining config text_of 0 7 plan) r'
deliver_retries_lem_example = deliver_retries_lem config text_of 0 7 3 plan store plan-Holds few

next_write_time_lem_example :
    (9 < next_write_time config 2 7)
    × (next_write_time config 2 7 ≤ 14)
    × (next_write_time config 2 7 % 5 ≡ 0)
next_write_time_lem_example = next_write_time_lem config 2 7 (omega arith)

failed_lem_example : failed config 5 ≡ ("retries", 5) ∷ ("delay", min (growth config 4) 60) ∷ []
failed_lem_example = failed_lem config 4 (omega arith) (omega arith) (omega arith)

fifth_retry : failed config 5 ≡ ("retries", 5) ∷ ("delay", 60) ∷ []
unfolding failed update_retry_metadata lookup
fifth_retry = refl
