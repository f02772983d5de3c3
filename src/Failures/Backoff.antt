-- ===== src/Failures/Backoff.antt =====
-- When a retry is due, and how the delay of a message grows with its retries.
use Prim.Native.Nat.{min}
use native.Mathlib.Nat.{mod-add-mod, mod-lt, mod_self, mul-le-mul_left}
use vumi.Base.{
  ℕ, zero, suc, ◌+◌, ◌*◌, ◌%◌, ◌-◌, ◌≤◌, ◌<◌, ◌≡◌, refl, [], ◌∷◌, arith, ◌==◌, Bool-cases, inl, inr,
  false, ◌∙◌, ap, sym, leb,
}
use vumi.Base.Dict.{Dict, lookup}
use vumi.Failures.{Config, next_write_time, next_retry_delay, update_retry_metadata}

-- A capped product, of which one factor is capped already.
min-mul_min : (a b m : ℕ) → 0 < b → min (min a m * b) m ≡ min (a * b) m
min-mul_min a b m h = elim (Bool-cases (leb a m)) [
  | inl low ↦ let e : min a m ≡ a = ground arith in rw e refl
  | inr high ↦
      let e : min a m ≡ m = ground arith in
      let one : m * 1 ≤ m * b = mul-le-mul_left m (omega arith) in
      let two : b * m ≤ b * a = mul-le-mul_left b (ground arith) in rw e (ground (arith, one, two))
]

module _ (config : Config) where
  open config use {granularity, max_delay, initial_delay, delay_factor}

  -- The time that a retry is stored under is a multiple of `granularity`. It is later than the time
  -- that the delay asks for, and by no more than `granularity`.
  pub next_write_time_lem :
      (delta now : ℕ)
      → 0 < granularity
      → let t = next_write_time config delta now in
        (now + delta < t) × (t ≤ now + delta + granularity) × (t % granularity ≡ 0)
  unfolding next_write_time
  next_write_time_lem delta now h =
      let n = now + delta in
      let small : n % granularity < granularity = mod-lt n h in
      let all : n % granularity + (granularity - n % granularity) ≡ granularity = omega arith in
      (
        omega arith,
        omega arith,
        sym (mod-add-mod n granularity (granularity - n % granularity))
            ∙ ap (λ k. k % granularity) all
            ∙ mod_self granularity,
      )

  -- The metadata of a message after `n` retries.
  unfoldable pub failed : ℕ → Dict ℕ
  failed zero = []
  failed (suc n) = update_retry_metadata config (failed n)

  -- The geometric progression of the delays, without the limit.
  unfoldable pub growth : ℕ → ℕ
  growth zero = initial_delay
  growth (suc n) = growth n * delay_factor

  growth_pos : 0 < initial_delay → 0 < delay_factor → (n : ℕ) → 0 < growth n
  unfolding growth
  growth_pos hi hf zero = hi
  growth_pos hi hf (suc n) =
      let one : growth n * 1 ≤ growth n * delay_factor = mul-le-mul_left (growth n) (omega arith) in
      omega (arith, growth_pos hi hf n)

  update_retry_metadata-eq :
      (count delay : ℕ)
      → 0 < delay
      → update_retry_metadata config (("retries", count) ∷ ("delay", delay) ∷ [])
        ≡ ("retries", suc count) ∷ ("delay", min (delay * delay_factor) max_delay) ∷ []
  unfolding update_retry_metadata next_retry_delay lookup
  update_retry_metadata-eq count delay h =
      let more : (delay == 0) ≡ false = ground arith in
      let next : count + 1 ≡ suc count = omega arith in rw (more, next) refl

  -- The metadata of a message that failed `n + 1` times counts `n + 1` retries, and the delay is the
  -- initial delay times the `n`-th power of the factor, or the maximal delay where that is smaller.
  -- The initial delay and the factor are not 0, and the maximal delay is no smaller than the initial
  -- one.
  pub failed_lem :
      (n : ℕ)
      → 0 < initial_delay
      → initial_delay ≤ max_delay
      → 0 < delay_factor
      → failed (suc n) ≡ ("retries", suc n) ∷ ("delay", min (growth n) max_delay) ∷ []
  unfolding failed growth update_retry_metadata next_retry_delay lookup
  failed_lem zero hi hm hf =
      let e : min initial_delay max_delay ≡ initial_delay = ground arith in rw e refl
  failed_lem (suc n) hi hm hf =
      let positive = growth_pos hi hf n in
      ap (update_retry_metadata config) (failed_lem n hi hm hf)
      ∙ update_retry_metadata-eq (suc n) (min (growth n) max_delay) (ground arith)
      ∙ rw (min-mul_min (growth n) delay_factor max_delay hf) refl
