-- ===== src/Metrics/Spreading.antt =====
-- Which values a message for an aggregator holds.
use vumi.Base.{
  ℕ, ◌/◌, ◌<◌, ◌==◌, String, ◌≡◌, refl, sym, ap, ◌∙◌, none, some, List, [], ◌∷◌, arith,
  if◌then◌else◌, Bool-cases, inl, inr, map,
}
use mathlib.Core.List as Lists
use mathlib.Core.List.{◌++◌ as append}
use native.Mathlib.Nat.{mod-lt}
use vumi.Metrics.{at, put, or_empty, timestamp_buckets, find_bucket, publish_metric}

module _ {V : Type 0} where
  at-put :
      (k j : ℕ) (v : V) (d : List (ℕ × V)) → at j (put k v d) ≡ (if k == j then some v else at j d)
  unfolding at put
  at-put k j v [] = refl
  at-put k j v ((i, w) ∷ d) = ground (arith, at-put k j v d)

  -- Each key stands in the dict once.
  abbrev pub IsOnce : List (ℕ × V) → Type 0
  IsOnce [] = Unit
  IsOnce ((k, v) ∷ d) = (at k d ≡ none) × IsOnce d

  put-IsOnce : (k : ℕ) (v : V) (d : List (ℕ × V)) → IsOnce d → IsOnce (put k v d)
  unfolding put at
  put-IsOnce k v [] h = (refl, tt)
  put-IsOnce k v ((i, w) ∷ d) h = ground (arith, put-IsOnce k v d, at-put k i v d, h)

module _ {V : Type 0} (bucket_size : ℕ) where
  -- The values of an interval, in their order.
  unfoldable pub of_interval : ℕ → List (ℕ × V) → List (ℕ × V)
  of_interval k [] = []
  of_interval k (e ∷ values) =
      let rest = of_interval k values in if e.0 / bucket_size == k then e ∷ rest else rest

  timestamp_buckets_lem :
      (values : List (ℕ × V)) (d : List (ℕ × List (ℕ × V))) (k : ℕ)
      → or_empty (at k (timestamp_buckets bucket_size values d))
        ≡ append (or_empty (at k d)) (of_interval k values)
  unfolding timestamp_buckets of_interval
  timestamp_buckets_lem [] d k = sym (Lists.append-nil (or_empty (at k d)))
  timestamp_buckets_lem (e ∷ values) d k =
      let key = e.0 / bucket_size in
      let d1 = put key (append (or_empty (at key d)) (e ∷ [])) d in
      elim (Bool-cases (key == k)) [
        | inl same ↦
            let eq : key ≡ k = ground (arith, same) in
            timestamp_buckets_lem values d1 k
            ∙ ap (λ o. append (or_empty o) (of_interval k values)) (at-put key k _ d)
            ∙ rw same (
                Lists.append_assoc (or_empty (at key d)) (e ∷ []) (of_interval k values)
                ∙ ap (λ (j : ℕ). append (or_empty (at j d)) (e ∷ of_interval k values)) eq)
        | inr other ↦
            timestamp_buckets_lem values d1 k
            ∙ ap (λ o. append (or_empty o) (of_interval k values)) (at-put key k _ d)
            ∙ rw other refl
      ]

  timestamp_buckets-IsOnce :
      (values : List (ℕ × V)) (d : List (ℕ × List (ℕ × V)))
      → IsOnce d
      → IsOnce (timestamp_buckets bucket_size values d)
  unfolding timestamp_buckets
  timestamp_buckets-IsOnce [] d h = h
  timestamp_buckets-IsOnce (e ∷ values) d h =
      timestamp_buckets-IsOnce values _ (put-IsOnce (e.0 / bucket_size) _ d h)

  -- A metric's values are published in one message for each interval of time that has values: the
  -- message names the metric and its aggregates, holds all the values of its interval in their order, and goes to one of the `buckets`
  -- aggregators, which the name of the metric and the interval determine.
  pub publish_metric_lem :
      (buckets : ℕ) (md5 : String → ℕ → ℕ) (metric_name : String) (aggregates : List String)
      (values : List (ℕ × V))
      → 0 < buckets
      → (intervals : List (ℕ × List (ℕ × V))) × (publish_metric bucket_size buckets md5 metric_name
            aggregates values
          ≡ map
              (λ b. (find_bucket buckets md5 metric_name b.0, metric_name, aggregates, b.1))
              intervals)
        × IsOnce intervals
        × ((k : ℕ) → or_empty (at k intervals) ≡ of_interval k values)
        × ((k : ℕ) → find_bucket buckets md5 metric_name k < buckets)
  unfolding publish_metric find_bucket at
  publish_metric_lem buckets md5 metric_name aggregates values h = (
    timestamp_buckets bucket_size values [],
    refl,
    timestamp_buckets-IsOnce values [] tt,
    timestamp_buckets_lem values [],
    λ k. mod-lt (md5 metric_name k) h,
  )
