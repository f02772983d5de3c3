-- ===== src/Metrics/Checking.antt =====
-- What a check of an aggregator does with its buckets.
use Prim.Native.String.{◌++◌}
use mathlib.Core.List as Lists
use mathlib.Core.List.{◌++◌ as append}
use vumi.Base.{
  ℕ, ◌*◌, ◌/◌, ◌==◌, String, ◌≡◌, refl, sym, ap, ◌∙◌, ◌⊎◌, inl, inr, Bool, not, ◌&&◌, ◌||◌, none,
  some, List, [], ◌∷◌, arith, if◌then◌else◌, Bool-cases, map,
}
use vumi.Base.Int.{ℤ, pos, ◌-ℤ◌, leb_ℤ}
use vumi.Base.Dict.{Dict, lookup}
use vumi.Base.Exec.{ok}
use vumi.Metrics.{
  Metrics, Aggregator, at, remove, sorted, aggregate_metric, aggregate_all, check_bucket,
  check_each, check_buckets,
}
use vumi.Metrics.Spreading.{IsOnce}

module _ {V : Type 0} where
  at-append : (k : ℕ) (c d : List (ℕ × V)) → at k c ≡ none → at k (append c d) ≡ at k d
  unfolding at
  at-append k [] d h = refl
  at-append k ((j, v) ∷ c) d h = ground (arith, at-append k c d, h)

  remove-absent : (k : ℕ) (d : List (ℕ × V)) → at k d ≡ none → remove k d ≡ d
  unfolding at remove
  remove-absent k [] h = refl
  remove-absent k ((j, v) ∷ d) h = ground (arith, remove-absent k d, h)

  remove-append :
      (k : ℕ) (v : V) (c d : List (ℕ × V))
      → at k c ≡ none
      → at k d ≡ none
      → remove k (append c ((k, v) ∷ d)) ≡ append c d
  unfolding at remove
  remove-append k v [] d h g = ground (arith, remove-absent k d g)
  remove-append k v ((j, w) ∷ c) d h g = ground (arith, remove-append k v c d, h, g)

  -- No key is in both.
  abbrev Apart : List (ℕ × V) → List (ℕ × V) → Type 0
  Apart c d = (j : ℕ) → (at j c ≡ none) ⊎ (at j d ≡ none)

  Apart-first : (k : ℕ) (v : V) (c d : List (ℕ × V)) → Apart c ((k, v) ∷ d) → at k c ≡ none
  unfolding at
  Apart-first k v c d a = elim (a k) [ inl h ↦ h | inr h ↦ absurd (ground (arith, h)) ]

  Apart-tail :
      (k : ℕ) (v : V) (c d : List (ℕ × V)) → at k d ≡ none → Apart c ((k, v) ∷ d) → Apart c d
  unfolding at
  Apart-tail k v c d once a j = elim (a j) [ inl h ↦ inl h | inr h ↦ inr (ground (arith, h, once)) ]

  Apart-move :
      (k : ℕ) (v : V) (c d : List (ℕ × V))
      → at k d ≡ none
      → Apart c ((k, v) ∷ d)
      → Apart (append c ((k, v) ∷ [])) d
  unfolding at
  Apart-move k v c d once a j = elim (Bool-cases (k == j)) [
    | inl same ↦ let e : k ≡ j = ground (arith, same) in inr (rw (← e) once)
    | inr other ↦ elim (a j) [
      | inl h ↦ inl (at-append j c ((k, v) ∷ []) h ∙ rw other refl)
      | inr h ↦ inr (ground (arith, h, other))
    ]
  ]

module _ {V : Type 0} (bucket_size : ℕ) (value_le : V → V → Bool) (registry : Dict (List V → V))
    (func : String → List V → V) where
  -- The aggregates of a metric, and those of an interval.
  unfoldable pub named_aggregates : String → List String → List V → List (String × V)
  named_aggregates name [] values = []
  named_aggregates name (agg ∷ aggs) values =
      (name ++ "." ++ agg, func agg values) ∷ named_aggregates name aggs values

  unfoldable pub aggregates : Metrics V → List (String × V)
  aggregates [] = []
  aggregates ((name, (aggs, values)) ∷ items) =
      append (named_aggregates name aggs (map (λ e. e.1) (sorted value_le values)))
        (aggregates items)

  abbrev pub AreKnown : List String → Type 0
  AreKnown [] = Unit
  AreKnown (agg ∷ aggs) = (lookup agg registry ≡ some (func agg)) × AreKnown aggs

  abbrev pub AllKnown : Metrics V → Type 0
  AllKnown [] = Unit
  AllKnown ((name, (aggs, values)) ∷ items) = AreKnown aggs × AllKnown items

  abbrev pub KnownBuckets : List (ℕ × Metrics V) → Type 0
  KnownBuckets [] = Unit
  KnownBuckets ((k, m) ∷ d) = AllKnown m × KnownBuckets d

  aggregate_metric-eq :
      (name : String) (aggs : List String) (values : List V) (s : Aggregator V)
      → AreKnown aggs
      → aggregate_metric bucket_size value_le registry name aggs values s
        ≡ (ok (named_aggregates name aggs values), s)
  unfolding aggregate_metric named_aggregates
  aggregate_metric-eq name [] values s k = refl
  aggregate_metric-eq name (agg ∷ aggs) values s k =
      rw (k.0) (rw (aggregate_metric-eq name aggs values s k.1) refl)

  aggregate_all-eq :
      (m : Metrics V) (s : Aggregator V)
      → AllKnown m
      → aggregate_all bucket_size value_le registry m s ≡ (ok (aggregates m), s)
  unfolding aggregate_all aggregates
  aggregate_all-eq [] s k = refl
  aggregate_all-eq ((name, (aggs, values)) ∷ items) s k =
      rw (aggregate_metric-eq name aggs (map (λ e. e.1) (sorted value_le values)) s k.0)
        (rw (aggregate_all-eq items s k.1) refl)

  module _ (last current : ℤ) where
    -- The buckets that stay, and what is published of the others.
    unfoldable pub waiting : List (ℕ × Metrics V) → List (ℕ × Metrics V)
    waiting [] = []
    waiting ((k, m) ∷ d) =
        let rest = waiting d in
        if leb_ℤ (pos k) last || leb_ℤ (pos k) current then rest else (k, m) ∷ rest

    unfoldable pub due : List (ℕ × Metrics V) → List (String × ℕ × V)
    due [] = []
    due ((k, m) ∷ d) =
        let rest = due d in
        if not (leb_ℤ (pos k) last) && leb_ℤ (pos k) current
        then append (map (λ (a : String × V). (a.0, k * bucket_size, a.1)) (aggregates m)) rest
        else rest

  module _ (last current : ℤ) where
    abbrev state : List (ℕ × Metrics V) → List (String × ℕ × V) → Aggregator V
    state buckets published = record {
      buckets = buckets;
      last_ts_key = last;
      published = published;
    }

    check_each-eq :
        (kept rest : List (ℕ × Metrics V)) (p : List (String × ℕ × V))
        → Apart kept rest
        → IsOnce rest
        → KnownBuckets rest
        → check_each bucket_size value_le registry current
            (map (λ b. b.0) rest)
            (state (append kept rest) p)
          ≡ (
            ok tt,
            state (append kept (waiting last current rest)) (append p (due last current rest)),
          )
    unfolding check_each check_bucket waiting due at
    check_each-eq kept [] p a o k =
        ap (λ q. (ok tt, state (append kept []) q)) (sym (Lists.append-nil p))
    check_each-eq kept ((key, m) ∷ rest) p a o k =
        let first = Apart-first key m kept rest a in
        let tail = Apart-tail key m kept rest o.0 a in
        let gone = remove-append key m kept rest first o.0 in
        let found : at key (append kept ((key, m) ∷ rest)) ≡ some m =
          at-append key kept ((key, m) ∷ rest) first ∙ ground arith in
        elim (Bool-cases (leb_ℤ (pos key) last)) [
          | inl old ↦ rw old (rw gone (check_each-eq kept rest p tail o.1 k.1))
          | inr new ↦ elim (Bool-cases (leb_ℤ (pos key) current)) [
            | inl now ↦
                let here = map (λ (a : String × V). (a.0, key * bucket_size, a.1)) (aggregates m) in
                rw new (
                  rw now (
                    rw found (
                      rw (aggregate_all-eq m (state (append kept ((key, m) ∷ rest)) p) k.0) (
                        rw gone (
                          check_each-eq kept rest (append p here) tail o.1 k.1
                          ∙ ap (λ q. (ok tt, state (append kept (waiting last current rest)) q))
                              (Lists.append_assoc p here (due last current rest)))))))
            | inr later ↦ rw new (
                rw later (
                  ap
                    (λ b.
                      check_each bucket_size value_le registry current (map (λ b. b.0) rest)
                        (state b p))
                    (sym (Lists.append_assoc kept ((key, m) ∷ []) rest))
                  ∙ check_each-eq (append kept ((key, m) ∷ [])) rest p
                      (Apart-move key m kept rest o.0 a) o.1 k.1
                  ∙ ap (λ b. (ok tt, state b (append p (due last current rest))))
                      (Lists.append_assoc kept ((key, m) ∷ []) (waiting last current rest))))
          ]
        ]

  -- A check whose buckets name known aggregates only publishes, for each interval that is over and newer
  -- than the last one that a check had come to, the aggregates of all its metrics, with the time of
  -- the interval. It drops these intervals, and without publishing them the last one and the older
  -- ones; it keeps the others in their order, and remembers the interval that it has come to.
  pub check_buckets_lem :
      (now : ℕ) (s : Aggregator V)
      → IsOnce s.buckets
      → KnownBuckets s.buckets
      → check_buckets bucket_size value_le registry now s ≡ (
        ok tt,
        record {
          buckets = waiting s.last_ts_key (pos (now / bucket_size) -ℤ pos 1) s.buckets;
          last_ts_key = pos (now / bucket_size) -ℤ pos 1;
          published =
              append s.published (due s.last_ts_key (pos (now / bucket_size) -ℤ pos 1) s.buckets);
        },
      )
  unfolding check_buckets
  check_buckets_lem now s o k =
      let current = pos (now / bucket_size) -ℤ pos 1 in
      rw (check_each-eq s.last_ts_key current [] s.buckets s.published (λ j. inl refl) o k) refl
