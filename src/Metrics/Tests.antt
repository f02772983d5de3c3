-- ===== src/Metrics/Tests.antt =====
-- The theorems on metrics at concrete inputs, and a run of an aggregator.
use vumi.Base.{ℕ, ◌+◌, ◌<◌, map, String, ◌≡◌, refl, List, [], ◌∷◌, arith, leb}
use vumi.Base.Int.{pos, ◌-ℤ◌}
use vumi.Base.Dict.{Dict, insert, lookup}
use vumi.Base.PySet.{add_all, add, member}
use vumi.Base.Exec.{ok}
use vumi.Metrics.{
  Aggregator, at, or_empty, consume_metric, check_buckets, publish_metric, find_bucket,
}
use vumi.Metrics.Spreading.{IsOnce, of_interval, publish_metric_lem}
use vumi.Metrics.Checking.{check_buckets_lem, waiting, due}

abbrev total : List ℕ → ℕ
total [] = 0
total (n ∷ l) = n + total l

abbrev registry : Dict (List ℕ → ℕ)
registry = ("sum", total) ∷ []

abbrev func : String → List ℕ → ℕ
func name = total

abbrev md5 : String → ℕ → ℕ
md5 name key = key

abbrev readings : List (ℕ × ℕ)
readings = (11, 4) ∷ (10, 3) ∷ (15, 2) ∷ []

publish_metric_run :
    publish_metric 5 2 md5 "m" ("sum" ∷ []) readings
    ≡ (0, "m", "sum" ∷ [], (11, 4) ∷ (10, 3) ∷ []) ∷ (1, "m", "sum" ∷ [], (15, 2) ∷ []) ∷ []
unfolding publish_metric
publish_metric_run = refl

publish_metric_lem_example :
    (intervals : List (ℕ × List (ℕ × ℕ))) × (publish_metric 5 2 md5 "m" ("sum" ∷ []) readings
      ≡ map (λ b. (find_bucket 2 md5 "m" b.0, "m", "sum" ∷ [], b.1)) intervals)
    × IsOnce intervals
    × ((k : ℕ) → or_empty (at k intervals) ≡ of_interval 5 k readings)
    × ((k : ℕ) → find_bucket 2 md5 "m" k < 2)
publish_metric_lem_example = publish_metric_lem 5 2 md5 "m" ("sum" ∷ []) readings (ground arith)

-- An aggregator with an interval that is over, and one that is not.
abbrev aggregator : Aggregator ℕ
aggregator = record {
  buckets =
      (2, ("m", ("sum" ∷ [], (11, 4) ∷ (10, 3) ∷ [])) ∷ [])
      ∷ (3, ("m", ("sum" ∷ [], (15, 2) ∷ [])) ∷ [])
      ∷ [];
  last_ts_key = pos 0;
  published = [];
}

consume_metric_run :
    consume_metric 5 "m" ("sum" ∷ []) ((15, 2) ∷ []) (
      consume_metric 5 "m"
        ("sum" ∷ [])
        ((11, 4) ∷ (10, 3) ∷ [])
        (record { buckets = []; last_ts_key = pos 0; published = [] }))
    ≡ aggregator
unfolding consume_metric insert lookup add_all add member
consume_metric_run = refl

check_buckets_run : check_buckets 5 leb registry 17 aggregator ≡ (
  ok tt,
  record {
    buckets = (3, ("m", ("sum" ∷ [], (15, 2) ∷ [])) ∷ []) ∷ [];
    last_ts_key = pos 2;
    published = ("m.sum", 10, 7) ∷ [];
  },
)
unfolding check_buckets lookup
check_buckets_run = refl

check_buckets_lem_example : check_buckets 5 leb registry 17 aggregator ≡ (
  ok tt,
  record {
    buckets = waiting 5 leb registry func (pos 0) (pos 3 -ℤ pos 1) aggregator.buckets;
    last_ts_key = pos 3 -ℤ pos 1;
    published = due 5 leb registry func (pos 0) (pos 3 -ℤ pos 1) aggregator.buckets;
  },
)
unfolding at lookup
check_buckets_lem_example =
    check_buckets_lem 5 leb registry func 17 aggregator (refl, (refl, tt))
      (((refl, tt), tt), (((refl, tt), tt), tt))
