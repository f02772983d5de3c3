-- ===== src/Failures/Schedule.antt =====
-- `deliver_retries` against the plan of retries.
use Prim.Native.String.{compare}
use native.Mathlib.Nat.{mod-lt}
use text.Mathlib.Text.{is_le}
use vumi.Base.{
  ℕ, zero, suc, ◌+◌, ◌%◌, ◌<◌, String, ◌≡◌, refl, Bool, true, some, List, [], ◌∷◌, ◌++◌, arith,
  length, length-append, ltb, ap, ◌∙◌, Bool-cases, inl, inr, if◌then◌else◌, map, eq_iff,
}
use vumi.Base.PySet.{member, discard, NoDup, discard-absent, length-discard}
use vumi.Base.Exec.{ok}
use vumi.Redis.State.{Redis, as_hash, as_set}
use vumi.Redis.Effects.{hgetall-eq}
use vumi.Redis.Effects.Sets.{spop-eq, scard-eq}
use vumi.Redis.Lists.Removal.{occurrences}
use vumi.Failures.{
  first_due, Config, bucket_key, get_failure, get_next_retry_key, pop_retry_key, deliver_retry,
  deliver_retries,
}
use vumi.Failures.Plan.{Bucket, Holds, IsStored, IsStored-member}
use vumi.Failures.Taking.{
  get_elem?-member, first_lem, first_lem-nil, without, popped, popped-Puts, popped-AllStored,
  more_left, removed, none_left,
}

module _ (config : Config) (text_of : String → String) (pick now : ℕ) where
  abbrev pub is_due : Bucket → Bool
  is_due b = is_le (compare b.timestamp (config.isoformat now))

  -- A round takes a key of the first bucket, if that is due.
  round_lem :
      (b : Bucket) (plan : List Bucket) (r : Redis)
      → Holds text_of (b ∷ plan) r
      → is_due b ≡ true
      → (x : String) × (r' : Redis) × (get_next_retry_key config pick now r ≡ (ok (some x), r'))
        × (member x b.keys ≡ true)
        × IsStored text_of r' x
        × Holds text_of (without x b plan) r'
  unfolding get_next_retry_key pop_retry_key
  round_lem b plan r h due =
      let place : pick % length b.keys < length b.keys = mod-lt pick h.buckets.0.some_key in
      let (x, at, there) = get_elem?-member b.keys (pick % length b.keys) place in
      let put = popped-Puts text_of b plan r x h in
      let stored =
        IsStored-member text_of (popped text_of b plan r x h) x b.keys
          (popped-AllStored text_of b plan r x h) there in
      let one = spop-eq (bucket_key b.timestamp) r b.keys (ap as_set h.buckets.0.held) pick x at in
      let two =
        scard-eq (bucket_key b.timestamp) (popped text_of b plan r x h) (discard x b.keys)
          (ap as_set put.at) in
      elim (Bool-cases (ltb (length (discard x b.keys)) 1)) [
        | inl last ↦
            let (n, done, left, keep) = none_left text_of b plan r x h in
            (
              x,
              removed text_of b plan r x h,
              rw (first_lem config text_of now b plan r h)
                  (rw due (rw (h.buckets.0.named) (rw one (rw two (rw last (rw done refl)))))),
              there,
              keep stored,
              rw last left,
            )
        | inr more ↦ (
          x,
          popped text_of b plan r x h,
          rw (first_lem config text_of now b plan r h)
              (rw due (rw (h.buckets.0.named) (rw one (rw two (rw more refl))))),
          there,
          stored,
          rw more (more_left text_of b plan r x h more),
        )
      ]

  -- The keys that are due, and the plan without them.
  unfoldable pub due_keys : List Bucket → List String
  due_keys [] = []
  due_keys (b ∷ plan) = let later = due_keys plan in if is_due b then b.keys ++ later else []

  unfoldable pub remaining : List Bucket → List Bucket
  remaining [] = []
  remaining (b ∷ plan) = let later = remaining plan in if is_due b then later else b ∷ plan

  without_lem :
      (x : String) (b : Bucket) (plan : List Bucket)
      → is_due b ≡ true
      → (due_keys (without x b plan) ≡ discard x b.keys ++ due_keys plan)
        × (remaining (without x b plan) ≡ remaining (b ∷ plan))
  unfolding due_keys remaining
  without_lem x b plan due = elim (Bool-cases (ltb (length (discard x b.keys)) 1)) [
    | inl last ↦
        let none_left : discard x b.keys ≡ [] = ground (arith, last) in
        rw last (rw (none_left, due) (refl, refl))
    | inr more ↦ rw more (rw due (refl, refl))
  ]

  occurrences-append :
      (y : String) (k l : List String) → occurrences y (k ++ l) ≡ occurrences y k + occurrences y l
  occurrences-append y [] l = omega arith
  occurrences-append y (z ∷ k) l = ground (arith, occurrences-append y k l)

  occurrences-discard :
      (x y : String) (l : List String)
      → NoDup l
      → member x l ≡ true
      → occurrences y (x ∷ discard x l) ≡ occurrences y l
  unfolding discard member
  occurrences-discard x y [] n h = ground (arith, h)
  occurrences-discard x y (z ∷ l) n h =
      ground
        (arith, occurrences-discard x y l, discard-absent x l, eq_iff z x, eq_iff x y, eq_iff z y)

  deliver_retry-eq :
      (x : String) (r : Redis)
      → IsStored text_of r x
      → deliver_retry config x r ≡ (ok (text_of x), r)
  unfolding deliver_retry get_failure
  deliver_retry-eq x r (named, m, held, text) =
      rw (hgetall-eq x r m (ap as_hash held)) (rw text refl)

  -- Where the store holds a plan of retries, and there are more rounds than keys that are due,
  -- `deliver_retries` ends: it has published the message of each due key as often as the key stands
  -- in the plan, and the store holds the plan without the buckets that were due. Due are the first
  -- buckets, up to one whose timestamp is later than the present one.
  pub deliver_retries_lem :
      (fuel : ℕ) (plan : List Bucket) (r : Redis)
      → Holds text_of plan r
      → length (due_keys plan) < fuel
      → (sent : List String) × (r' : Redis) × (deliver_retries config fuel pick now r
          ≡ (ok (some (map text_of sent)), r'))
        × ((x : String) → occurrences x sent ≡ occurrences x (due_keys plan))
        × Holds text_of (remaining plan) r'
  unfolding deliver_retries get_next_retry_key pop_retry_key due_keys remaining first_due
  deliver_retries_lem zero plan r h enough = absurd (omega (arith, enough))
  deliver_retries_lem (suc fuel) [] r h enough =
      ([], r, rw (first_lem-nil config text_of now r h) refl, λ x. refl, h)
  deliver_retries_lem (suc fuel) (b ∷ plan) r h enough = elim (Bool-cases (is_due b)) [
    | inr early ↦ (
      [],
      r,
      rw (first_lem config text_of now b plan r h) (rw early refl),
      λ x. rw early refl,
      rw early h,
    )
    | inl due ↦
        let (x, r1, taken, there, stored, left) = round_lem b plan r h due in
        let (keys, rest) = without_lem x b plan due in
        let shorter = length-discard x b.keys h.buckets.0.no_dup there in
        let whole : due_keys (b ∷ plan) ≡ b.keys ++ due_keys plan = rw due refl in
        let before = ap length whole ∙ length-append b.keys (due_keys plan) in
        let after = ap length keys ∙ length-append (discard x b.keys) (due_keys plan) in
        let (sent, r2, ran, all, final) =
          deliver_retries_lem fuel (without x b plan) r1 left
            (omega (arith, enough, before, after, shorter)) in
        (
          x ∷ sent,
          r2,
          rw taken (rw (stored.0) (rw (deliver_retry-eq x r1 stored) (rw ran refl))),
          λ y.
              let old = ap (occurrences y) whole ∙ occurrences-append y b.keys (due_keys plan) in
              let new =
                ap (occurrences y) keys ∙ occurrences-append y (discard x b.keys) (due_keys plan) in
              let one = occurrences-discard x y b.keys h.buckets.0.no_dup there in
              ground (arith, all y, old, new, one),
          rw (← rest) final,
        )
  ]
