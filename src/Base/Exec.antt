-- ===== src/Base/Exec.antt =====
-- Methods that change an object and may raise. What was written before a raise stays written, so
-- the state comes back beside the error too. A yielded Deferred is a step of the same sequence.
pub mod Keeps
use mathlib.Core.Option.{Option, none, some}
use mathlib.Core.List.{List, [], ◌∷◌}
use mathlib.Core.Bool.{Bool, true, false}
use Prim.Native.String.{String}
use mathlib.Core.Path.{◌≡◌, refl}
use native.Mathlib.Omega.{arith}

-- The exceptions of the modelled code. `type_error` also stands for the AttributeError that a
-- call on a key of another kind of value ends in.
pub data Error : Type 0 where
  type_error value_error key_error index_error : Error
  tagpool_error window_exception config_error middleware_error not_implemented invalid_endpoint :
      Error
  missing_field invalid_field ignore_message : String → Error

pub data Result (A : Type 0) : Type 0 where
  ok : A → Result A
  err : Error → Result A

abbrev pub Exec : Type 0 → Type 0 → Type 0
Exec S A = S → Result A × S

module _ {S A : Type 0} where
  abbrev pub pure : A → Exec S A
  pure a s = (ok a, s)

  abbrev pub raise : Error → Exec S A
  raise e s = (err e, s)

  abbrev pub gets : (S → A) → Exec S A
  gets f s = (ok (f s), s)

  abbrev pub lift : Result A → Exec S A
  lift r s = (r, s)

  abbrev pub or_raise : Option A → Error → Exec S A
  or_raise none e = raise e
  or_raise (some a) e = pure a

module _ {S : Type 0} where
  abbrev pub modify : (S → S) → Exec S (Unit {0})
  modify f s = (ok tt, f s)

  abbrev pub skip : Exec S (Unit {0})
  skip s = (ok tt, s)

  -- `if test: body`
  abbrev pub when : Bool → Exec S (Unit {0}) → Exec S (Unit {0})
  when true body = body
  when false body = skip

module _ {S A B : Type 0} where
  abbrev pub continue : Result A → (A → Exec S B) → Exec S B
  continue (ok a) f s = f a s
  continue (err e) f s = (err e, s)

  infixl 5 ◌>>=◌ ◌>>◌
  abbrev pub ◌>>=◌ : Exec S A → (A → Exec S B) → Exec S B
  ◌>>=◌ m f s = let (r, s') = m s in continue r f s'

  abbrev pub ◌>>◌ : Exec S A → Exec S B → Exec S B
  ◌>>◌ m k s = let (r, s') = m s in continue r (λ _. k) s'

-- A sequence that ended well went through a first step that ended well.
module _ {S A B : Type 0} where
  continue_inv :
      (r : Result A) (f : A → Exec S B) (s q : S) (b : B)
      → continue r f s ≡ (ok b, q)
      → (a : A) × (r ≡ ok a) × (f a s ≡ (ok b, q))
  continue_inv (ok a) f s q b e = (a, refl, e)
  continue_inv (err x) f s q b e = ground (arith, e)

  pub bind_inv :
      (m : Exec S A) (f : A → Exec S B) (s q : S) (b : B)
      → (m >>= f) s ≡ (ok b, q)
      → (a : A) × (s' : S) × (m s ≡ (ok a, s')) × (f a s' ≡ (ok b, q))
  bind_inv m f s q b e =
      let (a, done, rest) = continue_inv (m s).0 f (m s).1 q b e in
      (a, (m s).1, (λ i. (done i, (m s).1)), rest)

  pub then_inv :
      (m : Exec S A) (k : Exec S B) (s q : S) (b : B)
      → (m >> k) s ≡ (ok b, q)
      → (a : A) × (s' : S) × (m s ≡ (ok a, s')) × (k s' ≡ (ok b, q))
  then_inv m k s q b e =
      let (a, done, rest) = continue_inv (m s).0 (λ _. k) (m s).1 q b e in
      (a, (m s).1, (λ i. (done i, (m s).1)), rest)

module _ {S A B C : Type 0} where
  continue_assoc :
      (r : Result A) (f : A → Exec S B) (g : B → Exec S C) (s : S)
      → (let (b, s') = continue r f s in continue b g s') ≡ continue r (λ a. f a >>= g) s
  continue_assoc (ok a) f g s = refl
  continue_assoc (err e) f g s = refl

  -- Sequences associate.
  pub bind_assoc :
      (m : Exec S A) (f : A → Exec S B) (g : B → Exec S C) (s : S)
      → ((m >>= f) >>= g) s ≡ (m >>= (λ a. f a >>= g)) s
  bind_assoc m f g s = continue_assoc (m s).0 f g (m s).1

-- `for x in xs: body(x)`.
module _ {S A : Type 0} where
  unfoldable pub for_each : List A → (A → Exec S (Unit {0})) → Exec S (Unit {0})
  for_each [] body = skip
  for_each (x ∷ xs) body = do body x; for_each xs body
