-- ===== src/Metrics.antt =====
-- vumi/blinkenlights/metrics_workers.py: metrics are spread over aggregators by the interval of time
-- that they fall in, and an aggregator publishes the aggregates of an interval once it is over.
-- Values are of a type `V` with Python's order; the hash of a metric's name and interval, and the
-- functions by which values are aggregated, are parameters. Times are whole seconds.
pub mod Spreading
pub mod Checking
mod Tests
use Prim.Native.String.{◌++◌}
use mathlib.Core.List.{◌++◌ as append}
use vumi.Base.{
  ℕ, ◌+◌, ◌*◌, ◌/◌, ◌%◌, ◌==◌, String, Bool, true, false, not, ◌&&◌, ◌||◌, Option, none, some, List,
  [], ◌∷◌, map, ltb, leb, if◌then◌else◌,
}
use vumi.Base.Int.{ℤ, pos, ◌-ℤ◌, leb_ℤ}
use vumi.Base.Dict.{Dict, lookup, insert, lookup_or}
use vumi.Base.PySet.{add_all}
use vumi.Base.Exec.{Exec, Error, key_error, pure, raise, modify, gets, or_raise, skip, ◌>>=◌, ◌>>◌}

-- A dict whose keys are numbers.
module _ {V : Type 0} where
  unfoldable pub at : ℕ → List (ℕ × V) → Option V
  at k [] = none
  at k ((j, v) ∷ d) = if j == k then some v else at k d

  unfoldable pub put : ℕ → V → List (ℕ × V) → List (ℕ × V)
  put k v [] = (k, v) ∷ []
  put k v ((j, w) ∷ d) = let rest = put k v d in if j == k then (k, v) ∷ d else (j, w) ∷ rest

  unfoldable pub remove : ℕ → List (ℕ × V) → List (ℕ × V)
  remove k [] = []
  remove k ((j, w) ∷ d) = let rest = remove k d in if j == k then rest else (j, w) ∷ rest

abbrev pub or_empty : {A : Type 0} → Option (List A) → List A
or_empty none = []
or_empty (some l) = l

-- Metrics of one interval: for each name the aggregates that are asked for, and the values.
abbrev pub Metrics : Type 0 → Type 0
Metrics V = Dict (List String × List (ℕ × V))

pub record Aggregator (V : Type 0) : Type 0 where
  pub buckets : List (ℕ × Metrics V)
  pub last_ts_key : ℤ
  pub published : List (String × ℕ × V)

-- `find_bucket`, by the hash
unfoldable pub find_bucket : ℕ → (String → ℕ → ℕ) → String → ℕ → ℕ
find_bucket buckets md5 metric_name ts_key = md5 metric_name ts_key % buckets

module _ {V : Type 0} (bucket_size : ℕ) where
  -- The values by their interval, in `publish_metric`.
  unfoldable pub timestamp_buckets :
      List (ℕ × V) → List (ℕ × List (ℕ × V)) → List (ℕ × List (ℕ × V))
  unfolding at put
  timestamp_buckets [] d = d
  timestamp_buckets ((timestamp, value) ∷ values) d =
      let ts_key = timestamp / bucket_size in
      timestamp_buckets values
        (put ts_key (append (or_empty (at ts_key d)) ((timestamp, value) ∷ [])) d)

  -- What `publish_metric` publishes: the aggregator, and the message for it.
  unfoldable pub publish_metric :
      ℕ
      → (String → ℕ → ℕ)
      → String
      → List String
      → List (ℕ × V)
      → List (ℕ × String × List String × List (ℕ × V))
  unfolding timestamp_buckets find_bucket
  publish_metric buckets md5 metric_name aggregates values =
      map
        (λ (b : ℕ × List (ℕ × V)).
          (find_bucket buckets md5 metric_name b.0, metric_name, aggregates, b.1))
        (timestamp_buckets values [])

  abbrev pub or_no_metric : Option (List String × List (ℕ × V)) → List String × List (ℕ × V)
  or_no_metric none = ([], [])
  or_no_metric (some m) = m

  unfoldable pub consume_metric : String → List String → List (ℕ × V) → Aggregator V → Aggregator V
  unfolding at put
  consume_metric metric_name aggregates [] s = s
  consume_metric metric_name aggregates ((t, v) ∷ values) s =
      let ts_key = t / bucket_size in
      let metrics = or_empty (at ts_key s.buckets) in
      let (existing_aggregates, existing_values) = or_no_metric (lookup metric_name metrics) in
      record s {
        buckets =
            put ts_key
              (insert metric_name
                (add_all aggregates existing_aggregates, append existing_values ((t, v) ∷ values))
                metrics)
              s.buckets;
      }

-- `sorted(values)`, by time and then by value
module _ {V : Type 0} (value_le : V → V → Bool) where
  unfoldable pub insort : ℕ × V → List (ℕ × V) → List (ℕ × V)
  insort e [] = e ∷ []
  insort e (f ∷ l) =
      if ltb e.0 f.0 || ((e.0 == f.0) && value_le e.1 f.1) then e ∷ f ∷ l else f ∷ insort e l

  unfoldable pub sorted : List (ℕ × V) → List (ℕ × V)
  unfolding insort
  sorted [] = []
  sorted (e ∷ l) = insort e (sorted l)

module _ {V : Type 0} (bucket_size : ℕ) (value_le : V → V → Bool)
    (registry : Dict (List V → V)) where
  -- The aggregates of one metric; an unknown name raises.
  unfoldable pub aggregate_metric :
      String → List String → List V → Exec (Aggregator V) (List (String × V))
  aggregate_metric metric_name [] values = pure []
  aggregate_metric metric_name (agg_name ∷ agg_set) values = do
    agg_func ← or_raise (lookup agg_name registry) key_error
    rest ← aggregate_metric metric_name agg_set values
    pure ((metric_name ++ "." ++ agg_name, agg_func values) ∷ rest)

  unfoldable pub aggregate_all : Metrics V → Exec (Aggregator V) (List (String × V))
  unfolding aggregate_metric sorted
  aggregate_all [] = pure []
  aggregate_all ((metric_name, (agg_set, values)) ∷ items) = do
    here ← aggregate_metric metric_name agg_set (map (λ e. e.1) (sorted value_le values))
    rest ← aggregate_all items
    pure (append here rest)

  -- `publish_aggregate` for each aggregate
  abbrev pub publish_all : ℕ → List (String × V) → Exec (Aggregator V) (Unit {0})
  publish_all ts aggregates = modify (λ s. record s {
    published = append s.published (map (λ (a : String × V). (a.0, ts, a.1)) aggregates);
  })

  abbrev pub drop_bucket : ℕ → Exec (Aggregator V) (Unit {0})
  drop_bucket ts_key = modify (λ s. record s { buckets = remove ts_key s.buckets })

  -- One round of `check_buckets`.
  unfoldable pub check_bucket : ℤ → ℕ → Exec (Aggregator V) (Unit {0})
  unfolding aggregate_all at remove
  check_bucket current_ts_key ts_key = do
    last ← gets (λ s. s.last_ts_key)
    if leb_ℤ (pos ts_key) last
        then drop_bucket ts_key
        else if leb_ℤ (pos ts_key) current_ts_key
        then (do
          metrics ← gets (λ s. or_empty (at ts_key s.buckets))
          aggregates ← aggregate_all metrics
          publish_all (ts_key * bucket_size) aggregates
          drop_bucket ts_key)
        else skip

  unfoldable pub check_each : ℤ → List ℕ → Exec (Aggregator V) (Unit {0})
  unfolding check_bucket
  check_each current_ts_key [] = skip
  check_each current_ts_key (ts_key ∷ keys) = do
    check_bucket current_ts_key ts_key
    check_each current_ts_key keys

  -- `now` is the time less the lag.
  unfoldable pub check_buckets : ℕ → Exec (Aggregator V) (Unit {0})
  unfolding check_each ◌-ℤ◌
  check_buckets now = do
    let current_ts_key = pos (now / bucket_size) -ℤ pos 1
    keys ← gets (λ s. map (λ b. b.0) s.buckets)
    check_each current_ts_key keys
    modify (λ s. record s { last_ts_key = current_ts_key })
