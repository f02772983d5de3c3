-- ===== src/Base/Text.antt =====
-- `sep.join(parts)`, and the last character of a text, by which keys are told apart.
use Prim.Native.Char.{Char, code}
use Prim.Native.String.{String, [], ◌∷◌, ◌++◌, compare}
use text.Mathlib.Text.{is_le, ◌==◌ as str_eq}
use text.Mathlib.TextLemmas.{cons-append, nil-append}
use mathlib.Core.Path.{◌≡◌, refl, sym, ap, ◌∙◌}
use mathlib.Core.Logic.{◌≢◌}
use mathlib.Core.Option.{Option, none, some}
use mathlib.Core.List as L
use mathlib.Core.List.{List}
use mathlib.Core.Bool.{Bool, true, false, ◌&&◌}
use native.Mathlib.Omega.{arith}
use vumi.Base.Tests.{if◌then◌else◌, ◌==◌ as eqb}

unfoldable pub join : String → List String → String
join sep L.[] = ""
join sep (L.◌∷◌ x L.[]) = x
join sep (L.◌∷◌ x (L.◌∷◌ y r)) = x ++ sep ++ join sep (L.◌∷◌ y r)

abbrev pub last_or : Option Char → Option Char → Option Char
last_or a none = a
last_or a (some c) = some c

abbrev pub last : String → Option Char
last [] = none
last (c ∷ s) = last_or (some c) (last s)

last_or_assoc : (a b c : Option Char) → last_or (last_or a b) c ≡ last_or a (last_or b c)
last_or_assoc a b none = refl
last_or_assoc a b (some c) = refl

pub last-append : (s t : String) → last (s ++ t) ≡ last_or (last s) (last t)
last-append [] t = rw (nil-append t) (nil-left (last t))
  where
    nil-left : (o : Option Char) → o ≡ last_or none o
    nil-left none = refl
    nil-left (some c) = refl
last-append (c ∷ s) t =
    rw (cons-append c s t) (rw (last-append s t) (sym (last_or_assoc (some c) (last s) (last t))))

-- `s.startswith(prefix)`
unfoldable pub starts_with : String → String → Bool
starts_with [] s = true
starts_with (◌∷◌ c p) [] = false
starts_with (◌∷◌ c p) (◌∷◌ d s) = str_eq (◌∷◌ c []) (◌∷◌ d []) && starts_with p s

-- `sorted(texts)`, by insertion
unfoldable pub insort : String → List String → List String
insort x L.[] = L.◌∷◌ x L.[]
insort x (L.◌∷◌ y l) = if is_le (compare x y) then L.◌∷◌ x (L.◌∷◌ y l) else L.◌∷◌ y (insort x l)

unfoldable pub sorted : List String → List String
unfolding insort
sorted L.[] = L.[]
sorted (L.◌∷◌ x l) = insort x (sorted l)

-- Two texts whose first characters differ are different.
abbrev pub first_char : String → Option Char
first_char [] = none
first_char (c ∷ s) = some c

pub first_char-append : (c : Char) (s t : String) → first_char ((c ∷ s) ++ t) ≡ some c
first_char-append c s t = rw (cons-append c s t)

pub first_char-ne :
    (c d : Char) (x s t : String) → first_char x ≡ some c → code c ≢ code d → x ≢ (d ∷ s) ++ t
first_char-ne c d x s t h ne e =
    let letters : ◌≡◌ {A = Option Char} (some c) (some d) =
      sym h ∙ ap first_char e ∙ first_char-append d s t in
    let same : c ≡ d = cc in ne (ap code same)

-- Texts that differ where both have a character stay different, whatever is appended to them.
unfoldable pub differ : String → String → Bool
differ [] t = false
differ (c ∷ s) [] = false
differ (c ∷ s) (d ∷ t) = if eqb (code c) (code d) then differ s t else true

pub differ-ne : (p q s t : String) → differ p q ≡ true → p ++ s ≢ q ++ t
unfolding differ
differ-ne [] q s t h e = cc
differ-ne (c ∷ p) [] s t h e = cc
differ-ne (c ∷ p) (d ∷ q) s t h e =
    let f : (c ∷ (p ++ s)) ≡ (d ∷ (q ++ t)) = sym (cons-append c p s) ∙ e ∙ cons-append d q t in
    let same : c ≡ d = cc in
    let rest : p ++ s ≡ q ++ t = cc in
    let n : code c ≡ code d = ap code same in
    let deeper : differ p q ≡ true = ground (arith, h, n) in differ-ne p q s t deeper rest
