-- ===== src/Sandbox/Answers.antt =====
-- Every request whose command is a text is answered under the name that it came with.
use Prim.Native.Char.{Char}
use Prim.Native.String as Text
use Prim.Native.String.{◌++◌}
use text.Mathlib.TextLemmas.{cons-append, nil-append}
use text.Mathlib.TextEquality.{eq_iff}
use mathlib.Core.List.{◌++◌ as append}
use vumi.Base.{
  String, ◌≡◌, refl, sym, ap, ◌∙◌, Bool, false, ◌||◌, Option, none, some, [], ◌∷◌, str_eq,
  Bool-cases, ◌⊎◌, inl, inr,
}
use vumi.Base.Dict.{Dict}
use vumi.Base.Exec.{Result, ok, err, ◌>>=◌}
use vumi.Sandbox.Api.{Command, Api, failure}

abbrev pub has_dot : String → Bool
has_dot Text.[] = false
has_dot (Text.◌∷◌ c s) = str_eq (Text.◌∷◌ c "") "." || has_dot s

-- A command names its resource before the first dot and what the resource is to do after it; without
-- a dot, all of it is for the resource of the empty name.
abbrev pub Names : String → String → String → Type 0
Names cmd name rest =
    ((has_dot name ≡ false) × (cmd ≡ name ++ "." ++ rest))
    ⊎ ((has_dot cmd ≡ false) × (name ≡ "") × (rest ≡ cmd))

-- Every command names a resource.
named_by : (cmd : String) → (name rest : String) × Names cmd name rest
named_by Text.[] = ("", "", inr (refl, refl, refl))
named_by (Text.◌∷◌ c s) = elim (Bool-cases (str_eq (Text.◌∷◌ c "") ".")) [
  | inl dot ↦
      let e : Text.◌∷◌ c "" ≡ "." = (eq_iff (Text.◌∷◌ c "") ".").0 dot in
      (
        "",
        s,
        inl (
          refl,
          sym (
              nil-append ("." ++ s)
              ∙ ap (λ t. t ++ s) (sym e)
              ∙ cons-append c "" s
              ∙ ap (Text.◌∷◌ c) (nil-append s)),
        ),
      )
  | inr other ↦
      let (name, rest, names) = named_by s in
      elim names [
        | inl (plain, e) ↦ (
          Text.◌∷◌ c name,
          rest,
          inl (rw other plain, ap (Text.◌∷◌ c) e ∙ sym (cons-append c name ("." ++ rest))),
        )
        | inr (plain, e, g) ↦ ("", Text.◌∷◌ c s, inr (rw other plain, refl, refl))
      ]
]

module _ {S : Type 0} where
  -- What is sent and logged after a handler ended.
  abbrev pub answered : Command → Result (Option Command) → Api S → Api S
  answered command (ok none) s = s
  answered command (ok (some c)) s = record s {
    sent = append s.sent (record c { cmd = command.cmd } ∷ []);
  }
  answered command (err e) s = record s {
    logged = append s.logged ("error" ∷ []);
    sent = append s.sent (record (failure command) { cmd = command.cmd } ∷ []);
  }
