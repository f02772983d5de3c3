-- ===== src/Base/Slices.antt =====
-- Python slices `xs[start:stop]`, with negative indices counted from the end.
use Prim.Native.Nat.{ℕ, suc, ◌-◌, min, max}
use mathlib.Core.Option.{Option, none, some}
use mathlib.Core.List.{List, ◌++◌}
use vumi.Base.Lists.{length, take, drop}
use vumi.Base.Int.{ℤ, pos, negsuc}

-- The position that an index means in a sequence of `n` items.
abbrev pub clip : ℕ → ℤ → ℕ
clip n (pos i) = min i n
clip n (negsuc i) = n - suc i

abbrev pub stop_at : ℕ → Option ℤ → ℕ
stop_at n none = n
stop_at n (some i) = clip n i

module _ {ℓ} {A : Type ℓ} where
  -- `xs[start:stop]`
  unfoldable pub slice : ℤ → Option ℤ → List A → List A
  slice start stop xs = drop (clip (length xs) start) (take (stop_at (length xs) stop) xs)

  -- `del xs[start:]`, what is left
  unfoldable pub del_from : ℤ → List A → List A
  del_from start xs = take (clip (length xs) start) xs

  -- `del xs[:stop]`, what is left
  unfoldable pub del_to : ℤ → List A → List A
  del_to stop xs = drop (clip (length xs) stop) xs

  -- `del xs[start:stop]`, what is left
  unfoldable pub del_slice : ℤ → ℤ → List A → List A
  del_slice start stop xs =
      let from = clip (length xs) start in
      take from xs ++ drop (max from (clip (length xs) stop)) xs
