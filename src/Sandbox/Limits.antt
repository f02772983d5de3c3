-- ===== src/Sandbox/Limits.antt =====
-- The requests for keys keep the count of the keys right, and within the limits.
use vumi.Base.{
  ℕ, ◌+◌, String, ◌≡◌, ◌≢◌, refl, ◌∙◌, Bool, true, false, ◌||◌, none, some, List, [], ◌∷◌, arith,
  length, leb, ltb, is_some, Bool-cases, inl, inr, if◌then◌else◌,
}
use mathlib.Core.List.{◌++◌ as append}
use vumi.Base.Int.{pos, negsuc, ◌+ℤ◌, ltb_ℤ}
use vumi.Base.PySet.{member, add, NoDup}
use vumi.Base.Exec.{Result, ok}
use vumi.Redis.State.{Redis, Value, text, value_at}
use vumi.Redis.Keys.{exists}
use vumi.Redis.Texts.{incr, set}
use vumi.Redis.Effects.{Puts, set-Puts, set-ok}
use vumi.Sandbox.Kv.{
  Store, success, too_many_keys, soft_limit, hard_limit, count_key, sandboxed_key, check_count,
  check_keys, handle_set,
}
use vumi.Sandbox.Quota.{
  Holds, Counts, Counted, incr-Counts, Holds-frame, Counted-Puts, length-add, add-NoDup,
}

module _ (soft hard : ℕ) (id : String) where
  -- Whether a key can be written: it is there already, or there is room for one more.
  abbrev pub allowed : List String → String → Bool
  allowed ks key = member key ks || (leb (length ks + 1) soft || ltb (length ks + 1) hard)

  abbrev pub counted : List String → String → ℕ
  counted ks key =
      if member key ks then length ks else if allowed ks key then length ks + 1 else length ks

  -- `check_keys` counts a new key where it is allowed, and touches nothing but the count.
  pub check_keys_lem :
      (ks : List String) (key : String) (s : Store)
      → Counted id ks s.redis
      → (s' : Store) × (check_keys soft hard id (sandboxed_key id key) s
          ≡ (ok (allowed ks key), s'))
        × Counts id (counted ks key) s'.redis
        × Holds id ks s'.redis
        × ((j : String) → count_key id ≢ j → value_at s'.redis j ≡ value_at s.redis j)
  unfolding check_keys check_count exists
  check_keys_lem ks key s c = elim (Bool-cases (member key ks)) [
    | inl old ↦
        let there : is_some (value_at s.redis (sandboxed_key id key)) ≡ true = c.held key ∙ old in
        (s, rw there (rw old refl), rw old c.count, c.held, λ j ne. refl)
    | inr new ↦
        let absent : is_some (value_at s.redis (sandboxed_key id key)) ≡ false = c.held key ∙ new in
        let n = length ks in
        let up : pos n +ℤ pos 1 ≡ pos (n + 1) = unfold ◌+ℤ◌ in ground arith in
        let (done, count, rest) = incr-Counts id n (n + 1) (pos 1) s.redis c.count up in
        let s1 = record s { redis = (incr (count_key id) (pos 1) s.redis).1 } in
        let kept = Holds-frame id ks s.redis s1.redis rest c.held in
        elim (Bool-cases (leb (n + 1) soft)) [
          | inl below ↦
              let within : ltb_ℤ (pos soft) (pos (n + 1)) ≡ false = ground (arith, below) in
              (
                s1,
                rw absent (rw done (rw within (rw (new, below) refl))),
                rw (new, below) count,
                kept,
                rest,
              )
          | inr above ↦
              let over : ltb_ℤ (pos soft) (pos (n + 1)) ≡ true = ground (arith, above) in
              elim (Bool-cases (ltb (n + 1) hard)) [
                | inl room ↦
                    let fits : ltb_ℤ (pos (n + 1)) (pos hard) ≡ true = ground (arith, room) in
                    (
                      record s1 { logged = append s.logged (soft_limit ∷ []) },
                      rw absent (rw done (rw over (rw fits (rw (new, above, room) refl)))),
                      rw (new, above, room) count,
                      kept,
                      rest,
                    )
                | inr full ↦
                    let no : ltb_ℤ (pos (n + 1)) (pos hard) ≡ false = ground (arith, full) in
                    let down : pos (n + 1) +ℤ negsuc 0 ≡ pos n = unfold ◌+ℤ◌ in ground arith in
                    let (done2, count2, rest2) =
                      incr-Counts id (n + 1) n (negsuc 0) s1.redis count down in
                    let s2 = record s1 { redis = (incr (count_key id) (negsuc 0) s1.redis).1 } in
                    (
                      record s2 { logged = append s.logged (hard_limit ∷ []) },
                      rw absent (rw done (rw over (rw no (rw done2 (rw (new, above, full) refl))))),
                      rw (new, above, full) count2,
                      Holds-frame id ks s1.redis s2.redis rest2 kept,
                      λ j ne. rest2 j ne ∙ rest j ne,
                    )
              ]
        ]
  ]

  abbrev pub written : List String → String → List String
  written ks key = if allowed ks key then add key ks else ks

  -- After a value was written under a key that is allowed.
  pub written-Counted :
      (ks : List String) (key : String) (v : Value) (r r' : Redis)
      → NoDup ks
      → allowed ks key ≡ true
      → Puts (sandboxed_key id key) v r r'
      → Counts id (counted ks key) r
      → Holds id ks r
      → Counted id (written ks key) r'
  written-Counted ks key v r r' n fits put c h =
      let (count, held) = Counted-Puts id ks (counted ks key) key v r r' put c h in
      let e : counted ks key ≡ length (add key ks) = ground (arith, fits, length-add id key ks) in
      rw fits (record { no_dup = add-NoDup id key ks n; count = rw (← e) count; held = held })

  pub refused-Counted :
      (ks : List String) (key : String) (r : Redis)
      → NoDup ks
      → allowed ks key ≡ false
      → Counts id (counted ks key) r
      → Holds id ks r
      → Counted id (written ks key) r
  refused-Counted ks key r n full c h =
      let e : counted ks key ≡ length ks = ground (arith, full) in
      rw full (record { no_dup = n; count = rw (← e) c; held = h })

  module _ {J : Type 0} (dumps : J → String) (loads : String → Result J) where
    -- Where the count of the keys is right, setting a key succeeds exactly if the key is there already
    -- or the number of keys would be at most the soft limit, or below the hard one. Then the key
    -- holds the value and is counted if it is new; otherwise it holds nothing, and the count is as
    -- before.
    pub handle_set_lem :
        (ks : List String) (key : String) (v : J) (s : Store)
        → Counted id ks s.redis
        → (s' : Store) × (handle_set soft hard id dumps loads (some key) v s
            ≡ (ok (if allowed ks key then success else too_many_keys), s'))
          × Counted id (written ks key) s'.redis
          × (value_at s'.redis (sandboxed_key id key)
              ≡ (if allowed ks key then some (text (dumps v)) else none))
    unfolding handle_set
    handle_set_lem ks key v s c =
        let (s1, done, count, held, rest) = check_keys_lem ks key s c in
        elim (Bool-cases (allowed ks key)) [
          | inl fits ↦
              let put = set-Puts (sandboxed_key id key) (dumps v) s1.redis in
              (
                record s1 { redis = (set (sandboxed_key id key) (dumps v) s1.redis).1 },
                rw done (rw fits (rw (set-ok (sandboxed_key id key) (dumps v) s1.redis) refl)),
                written-Counted ks key _ s1.redis _ c.no_dup fits put count held,
                rw fits put.at,
              )
          | inr full ↦ (
            s1,
            rw done (rw full refl),
            refused-Counted ks key s1.redis c.no_dup full count held,
            rw full (
                let gone : is_some (value_at s1.redis (sandboxed_key id key)) ≡ false =
                  held key ∙ ground (arith, full) in
                ground (arith, gone)),
          )
        ]
