-- ===== src/Base/PySet.antt =====
-- A Python set of texts, as a list. Its order stands for the order in which Python happens to
-- list the members.
use Prim.Native.String.{String}
use mathlib.Core.Path.{◌≡◌, refl}
use mathlib.Core.Bool.{Bool, true, false, ◌||◌}
use mathlib.Core.List.{List, [], ◌∷◌}
use native.Mathlib.Omega.{arith}
use text.Mathlib.Text.{◌==◌ as str_eq}
use text.Mathlib.TextEquality.{eq_iff}
use vumi.Base.Tests.{if◌then◌else◌}
use vumi.Base.Lists.{length}
use Prim.Native.Nat.{◌+◌}

-- `x in s`
unfoldable pub member : String → List String → Bool
member x [] = false
member x (y ∷ s) = str_eq y x || member x s

-- `s.add(x)`
unfoldable pub add : String → List String → List String
add x s = if member x s then s else x ∷ s

-- `s.remove(x)` and `s.discard(x)`, for a set
unfoldable pub discard : String → List String → List String
discard x [] = []
discard x (y ∷ s) = let rest = discard x s in if str_eq y x then rest else y ∷ rest

-- `s.update(xs)`
unfoldable pub add_all : List String → List String → List String
add_all [] s = s
add_all (x ∷ xs) s = add_all xs (add x s)

pub member-add : (x y : String) (s : List String) → member y (add x s) ≡ (str_eq x y || member y s)
unfolding add member
member-add x y s = grind (arith, eq_iff x y)

pub member-discard :
    (x y : String) (s : List String)
    → member y (discard x s) ≡ (if str_eq x y then false else member y s)
unfolding discard member
member-discard x y [] = ground arith
member-discard x y (z ∷ s) =
    ground (arith, eq_iff x y, eq_iff z x, eq_iff z y, member-discard x y s)

pub member-add_all :
    (xs : List String) (y : String) (s : List String)
    → member y (add_all xs s) ≡ (member y xs || member y s)
unfolding add_all member
member-add_all [] y s = refl
member-add_all (x ∷ xs) y s =
    ground (arith, eq_iff x y, member-add_all xs y (add x s), member-add x y s)

pub discard-absent : (x : String) (s : List String) → member x s ≡ false → discard x s ≡ s
unfolding discard member
discard-absent x [] h = refl
discard-absent x (y ∷ s) h = ground (arith, discard-absent x s)

-- No text occurs twice.
abbrev pub NoDup : List String → Type 0
NoDup [] = Unit
NoDup (x ∷ l) = (member x l ≡ false) × NoDup l

pub discard-NoDup : (x : String) (s : List String) → NoDup s → NoDup (discard x s)
unfolding discard member
discard-NoDup x [] n = tt
discard-NoDup x (y ∷ s) n =
    ground (arith, discard-NoDup x s, member-discard x y s, eq_iff x y, eq_iff y x)

-- Discarding a member of a set shortens it by one.
pub length-discard :
    (x : String) (s : List String)
    → NoDup s
    → member x s ≡ true
    → length (discard x s) + 1 ≡ length s
unfolding discard member
length-discard x [] n h = ground (arith, h)
length-discard x (y ∷ s) n h =
    ground (arith, length-discard x s, discard-absent x s, eq_iff x y, eq_iff y x)
