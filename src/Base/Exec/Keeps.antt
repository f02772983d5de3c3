-- ===== src/Base/Exec/Keeps.antt =====
-- Actions that keep an invariant of the state, however they end, and the rules for sequences.
use mathlib.Core.Bool.{Bool, true, false}
use vumi.Base.Tests.{if◌then◌else◌}
use vumi.Base.Exec.{
  Exec, Result, ok, err, Error, pure, raise, lift, gets, skip, when, continue, ◌>>=◌, ◌>>◌,
}

pub record Keeps {S A : Type 0} (P : S → Type 0) (m : Exec S A) : Type 0 where
  pub at : (s : S) → P s → P (m s).1

module _ {S : Type 0} {P : S → Type 0} where
  after :
      {A B : Type 0} (r : Result A) (f : A → Exec S B)
      → ((a : A) → Keeps P (f a))
      → (s : S) → P s
      → P (continue r f s).1
  after (ok a) f l s h = (l a).at s h
  after (err e) f l s h = h

  pub bind-Keeps :
      {A B : Type 0} {m : Exec S A} {f : A → Exec S B}
      → Keeps P m
      → ((a : A) → Keeps P (f a))
      → Keeps P (m >>= f)
  bind-Keeps {m = m} {f = f} k l = record { at = λ s h. after (m s).0 f l (m s).1 (k.at s h) }

  pub then-Keeps :
      {A B : Type 0} {m : Exec S A} {k : Exec S B} → Keeps P m → Keeps P k → Keeps P (m >> k)
  then-Keeps {m = m} {k = k} a b = record {
    at = λ s h. after (m s).0 (λ _. k) (λ _. b) (m s).1 (a.at s h);
  }

  pub pure-Keeps : {A : Type 0} (a : A) → Keeps P (pure a)
  pure-Keeps a = record { at = λ s h. h }

  pub raise-Keeps : {A : Type 0} (e : Error) → Keeps P (raise {A = A} e)
  raise-Keeps e = record { at = λ s h. h }

  pub lift-Keeps : {A : Type 0} (r : Result A) → Keeps P (lift r)
  lift-Keeps r = record { at = λ s h. h }

  pub gets-Keeps : {A : Type 0} (f : S → A) → Keeps P (gets f)
  gets-Keeps f = record { at = λ s h. h }

  pub skip-Keeps : Keeps P skip
  skip-Keeps = record { at = λ s h. h }

  pub when-Keeps : (b : Bool) {m : Exec S (Unit {0})} → Keeps P m → Keeps P (when b m)
  when-Keeps true k = k
  when-Keeps false k = record { at = λ s h. h }

  pub if-Keeps :
      {A : Type 0} (b : Bool) {m k : Exec S A}
      → Keeps P m
      → Keeps P k
      → Keeps P (if b then m else k)
  if-Keeps true a b = a
  if-Keeps false a b = b

pub ruleset keeps_rules = (
  bind-Keeps, then-Keeps, pure-Keeps, raise-Keeps, lift-Keeps, gets-Keeps, skip-Keeps, when-Keeps,
  if-Keeps,
)
