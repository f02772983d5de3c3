-- ===== src/Base/Decimal.antt =====
-- Python's `str` of an integer and `int` of a text. `int` also takes surrounding blanks, which no
-- caller here writes.
pub mod RoundTrip
use Prim.Native.Nat.{ℕ, zero, suc, ◌+◌, ◌-◌, ◌*◌, ◌/◌, ◌%◌, ◌<◌}
use Prim.Native.Char.{Char, code}
use Prim.Native.String.{String, [], ◌∷◌}
use mathlib.Core.Path.{◌≡◌, refl, ◌∙◌}
use mathlib.Core.Bool.{Bool, true, false, ◌&&◌}
use mathlib.Core.Logic.{inl, inr}
use mathlib.Core.Option
use mathlib.Core.Option.{Option, none, some}
use native.Mathlib.Omega.{arith}
use text.Mathlib.Text.{◌==◌ as str_eq}
use vumi.Base.Tests.{ltb, leb, ◌==◌, if◌then◌else◌, Bool-cases}
use vumi.Base.Int.{ℤ, pos, negsuc}

digit : ℕ → Char
digit zero = "0"
digit (suc zero) = "1"
digit (suc (suc zero)) = "2"
digit (suc (suc (suc zero))) = "3"
digit (suc (suc (suc (suc zero)))) = "4"
digit (suc (suc (suc (suc (suc zero))))) = "5"
digit (suc (suc (suc (suc (suc (suc zero)))))) = "6"
digit (suc (suc (suc (suc (suc (suc (suc zero))))))) = "7"
digit (suc (suc (suc (suc (suc (suc (suc (suc zero)))))))) = "8"
digit _ = "9"

show_from : ℕ → ℕ → String → String
show_from zero n acc = acc
show_from (suc f) n acc =
    let rest = show_from f (n / 10) (digit (n % 10) ∷ acc) in
    if ltb n 10 then digit n ∷ acc else rest

unfoldable pub show_nat : ℕ → String
unfolding show_from digit
show_nat n = show_from (suc n) n []

unfoldable pub show_int : ℤ → String
unfolding show_nat
show_int (pos n) = show_nat n
show_int (negsuc n) = "-" ∷ show_nat (suc n)

parse_from : ℕ → String → Option ℕ
parse_from acc [] = some acc
parse_from acc (c ∷ s) =
    if leb 48 (code c) && leb (code c) 57 then parse_from (acc * 10 + (code c - 48)) s else none

parse_nat : String → Option ℕ
unfolding parse_from
parse_nat [] = none
parse_nat (c ∷ s) = parse_from 0 (c ∷ s)

negate : ℕ → ℤ
negate zero = pos 0
negate (suc n) = negsuc n

unfoldable pub parse_int : String → Option ℤ
unfolding parse_nat negate
parse_int [] = none
parse_int (c ∷ s) =
    if code c == 45
    then Option.map negate (parse_nat s)
    else if code c == 43
    then Option.map pos (parse_nat s)
    else Option.map pos (parse_nat (c ∷ s))
