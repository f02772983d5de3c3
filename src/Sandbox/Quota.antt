-- ===== src/Sandbox/Quota.antt =====
-- The count of the keys of a sandbox is right, and keeps within the limits.
use Prim.Native.String.{◌++◌}
use package.text.Mathlib.TextLemmas.{append_cancel_left}
use vumi.Base.{
  ℕ, ◌+◌, String, ◌≡◌, ◌≢◌, refl, sym, ap, ◌∙◌, some, List, arith, length, is_some, str_eq, eq_iff,
  Bool-cases, inl, inr, if◌then◌else◌,
}
use vumi.Base.Int.{ℤ, pos, ◌+ℤ◌}
use vumi.Base.Text.{differ, differ-ne}
use vumi.Base.Decimal.{show_int}
use vumi.Base.PySet.{member, add, discard, NoDup, member-add, member-discard}
use vumi.Base.Exec.{ok}
use vumi.Redis.State.{Redis, Value, text, value_at}
use vumi.Redis.Effects.{Puts, Clears, set_key-Puts}
use vumi.Redis.Texts.{incr}
use vumi.Redis.Texts.Counter.{count_of, incr-eq, stored}
use vumi.Sandbox.Kv.{count_key, sandboxed_key}

count_key-ne : (id : String) (key : String) → count_key id ≢ sandboxed_key id key
unfolding count_key sandboxed_key differ
count_key-ne id key = differ-ne "count#" "sandboxes#" id (id ++ "#" ++ key) refl

sandboxed_key-ne :
    (id key other : String) → key ≢ other → sandboxed_key id key ≢ sandboxed_key id other
unfolding sandboxed_key
sandboxed_key-ne id key other ne e = ne (
    append_cancel_left "#" key other (
      append_cancel_left id ("#" ++ key) ("#" ++ other)
        (append_cancel_left "sandboxes#" (id ++ "#" ++ key) (id ++ "#" ++ other) e)))

module _ (id : String) where
  -- The keys of the sandbox that hold a value are `ks`.
  abbrev pub Holds : List String → Redis → Type 0
  Holds ks r = (key : String) → is_some (value_at r (sandboxed_key id key)) ≡ member key ks

  abbrev pub Counts : ℕ → Redis → Type 0
  Counts n r = count_of (value_at r (count_key id)) ≡ some (pos n)

  pub record Counted (ks : List String) (r : Redis) : Type 0 where
    pub no_dup : NoDup ks
    pub count : Counts (length ks) r
    pub held : Holds ks r

  -- The count is written.
  pub incr-Counts :
      (n m : ℕ) (a : ℤ) (r : Redis)
      → Counts n r
      → pos n +ℤ a ≡ pos m
      → let (res, r') = incr (count_key id) a r in
        (res ≡ ok (pos m))
        × Counts m r'
        × ((j : String) → count_key id ≢ j → value_at r' j ≡ value_at r j)
  incr-Counts n m a r h e = rw (incr-eq (count_key id) (pos n) a r h) (
      rw e (
        refl,
        stored (count_key id) (pos m) r,
        (set_key-Puts (count_key id) (text (show_int (pos m))) r).rest,
      ))

  pub Holds-frame :
      (ks : List String) (r r' : Redis)
      → ((j : String) → count_key id ≢ j → value_at r' j ≡ value_at r j)
      → Holds ks r
      → Holds ks r'
  Holds-frame ks r r' rest h key =
      ap is_some (rest (sandboxed_key id key) (count_key-ne id key)) ∙ h key

  -- A value is written under a key.
  pub Counted-Puts :
      (ks : List String) (n : ℕ) (key : String) (v : Value) (r r' : Redis)
      → Puts (sandboxed_key id key) v r r'
      → Counts n r
      → Holds ks r
      → Counts n r' × Holds (add key ks) r'
  Counted-Puts ks n key v r r' put c h = (
    ap count_of (put.rest (count_key id) (λ e. count_key-ne id key (sym e))) ∙ c,
    λ other. elim (Bool-cases (str_eq key other)) [
      | inl same ↦
          let e : key ≡ other = (eq_iff key other).0 same in
          rw (← e) (ap is_some put.at ∙ ground (arith, member-add key key ks, eq_iff key key))
      | inr apart ↦
          let ne : key ≢ other = λ e. ground (arith, apart, e, eq_iff key other) in
          ap is_some (put.rest (sandboxed_key id other) (sandboxed_key-ne id key other ne))
          ∙ h other
          ∙ ground (arith, member-add key other ks, apart)
    ],
  )

  pub length-add :
      (key : String) (ks : List String)
      → length (add key ks) ≡ length ks + (if member key ks then 0 else 1)
  unfolding add
  length-add key ks = ground arith

  pub add-NoDup : (key : String) (ks : List String) → NoDup ks → NoDup (add key ks)
  unfolding add
  add-NoDup key ks n = ground (arith, n)

  -- The value under a key is gone.
  pub Counted-Clears :
      (ks : List String) (n : ℕ) (key : String) (r r' : Redis)
      → Clears (sandboxed_key id key) r r'
      → Counts n r
      → Holds ks r
      → Counts n r' × Holds (discard key ks) r'
  Counted-Clears ks n key r r' gone c h = (
    ap count_of (gone.rest (count_key id) (λ e. count_key-ne id key (sym e))) ∙ c,
    λ other. elim (Bool-cases (str_eq key other)) [
      | inl same ↦
          let e : key ≡ other = (eq_iff key other).0 same in
          rw (← e) (ap is_some gone.at ∙ ground (arith, member-discard key key ks, eq_iff key key))
      | inr apart ↦
          let ne : key ≢ other = λ e. ground (arith, apart, e, eq_iff key other) in
          ap is_some (gone.rest (sandboxed_key id other) (sandboxed_key-ne id key other ne))
          ∙ h other
          ∙ ground (arith, member-discard key other ks, apart)
    ],
  )
