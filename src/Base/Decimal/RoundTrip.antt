-- ===== src/Base/Decimal/RoundTrip.antt =====
-- `int(str(i))` is `i`.
use Prim.Native.Nat.{ℕ, zero, suc, ◌+◌, ◌*◌, ◌/◌, ◌%◌, ◌<◌}
use Prim.Native.Char.{code}
use Prim.Native.String.{String, [], ◌∷◌}
use mathlib.Core.Path.{◌≡◌, refl, ◌∙◌, ap}
use mathlib.Core.Logic.{inl, inr}
use mathlib.Core.Option
use mathlib.Core.Option.{Option, none, some}
use native.Mathlib.Omega.{arith}
use vumi.Base.Tests.{ltb, Bool-cases}
use vumi.Base.Int.{ℤ, pos, negsuc}
use vumi.Base.Decimal.{digit, show_from, show_nat, show_int, parse_from, parse_nat, parse_int}

code-digit : (n : ℕ) → n < 10 → code (digit n) ≡ 48 + n
unfolding digit
code-digit zero h = refl
code-digit (suc zero) h = refl
code-digit (suc (suc zero)) h = refl
code-digit (suc (suc (suc zero))) h = refl
code-digit (suc (suc (suc (suc zero)))) h = refl
code-digit (suc (suc (suc (suc (suc zero))))) h = refl
code-digit (suc (suc (suc (suc (suc (suc zero)))))) h = refl
code-digit (suc (suc (suc (suc (suc (suc (suc zero))))))) h = refl
code-digit (suc (suc (suc (suc (suc (suc (suc (suc zero)))))))) h = refl
code-digit (suc (suc (suc (suc (suc (suc (suc (suc (suc zero))))))))) h = refl
code-digit (suc (suc (suc (suc (suc (suc (suc (suc (suc (suc n)))))))))) h = absurd (omega arith)

parse_digit :
    (a n : ℕ) (s : String) → n < 10 → parse_from a (digit n ∷ s) ≡ parse_from (a * 10 + n) s
unfolding parse_from
parse_digit a n s h = rw (code-digit n h) (ground arith)

parse-show_from :
    (f n : ℕ) (acc : String) → n < f → parse_from 0 (show_from f n acc) ≡ parse_from n acc
unfolding show_from
parse-show_from zero n acc h = absurd (omega arith)
parse-show_from (suc f) n acc h = elim (Bool-cases (ltb n 10)) [
  | inl small ↦
      rw small (parse_digit 0 n acc (ground arith) ∙ ap (λ m. parse_from m acc) (omega arith))
  | inr big ↦ rw big (
      parse-show_from f (n / 10) (digit (n % 10) ∷ acc) (ground arith)
      ∙ parse_digit (n / 10) (n % 10) acc (omega arith)
      ∙ ap (λ m. parse_from m acc) (omega arith))
]

-- A text that begins with a digit has no sign.
parse_int-digit :
    (n : ℕ) (s : String)
    → n < 10
    → parse_int (digit n ∷ s) ≡ Option.map pos (parse_from 0 (digit n ∷ s))
unfolding parse_int
parse_int-digit n s h = rw (code-digit n h) (ground arith)

parse_int-show_from :
    (f n : ℕ) (acc : String)
    → n < f
    → (parse_nat (show_from f n acc) ≡ parse_from 0 (show_from f n acc))
      × (parse_int (show_from f n acc) ≡ Option.map pos (parse_from 0 (show_from f n acc)))
unfolding show_from
parse_int-show_from zero n acc h = absurd (omega arith)
parse_int-show_from (suc f) n acc h = elim (Bool-cases (ltb n 10)) [
  | inl small ↦ rw small (unfold parse_nat in refl, parse_int-digit n acc (ground arith))
  | inr big ↦ rw big (parse_int-show_from f (n / 10) (digit (n % 10) ∷ acc) (ground arith))
]

parse-show_nat :
    (n : ℕ) → (parse_nat (show_nat n) ≡ some n) × (parse_int (show_nat n) ≡ some (pos n))
unfolding show_nat parse_from
parse-show_nat n =
    let e = parse-show_from (suc n) n [] (omega arith) in
    let (a, b) = parse_int-show_from (suc n) n [] (omega arith) in
    (a ∙ e, b ∙ ap (Option.map pos) e)

-- Reading a number that was written gives it back.
pub parse-show_int : (i : ℤ) → parse_int (show_int i) ≡ some i
unfolding show_int
parse-show_int (pos n) = (parse-show_nat n).1
parse-show_int (negsuc n) = unfold parse_int in rw ((parse-show_nat (suc n)).0)
