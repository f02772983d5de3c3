-- ===== src/Sandbox/Requests.antt =====
-- Any number of requests for keys leaves the count of the keys right.
use mathlib.Core.Path.{subst}
use vumi.Base.{
  ℕ, ◌-◌, ◌≤◌, String, ◌≡◌, refl, sym, ap, ◌∙◌, Bool, true, false, ◌&&◌, Option, none, some, List,
  [], ◌∷◌, arith, length, is_some, Bool-cases, inl, inr, Option-cases,
}
use Prim.Native.Nat.{max}
use vumi.Base.Int.{ℤ, pos, negsuc, ◌+ℤ◌}
use vumi.Base.Decimal.{show_int}
use vumi.Base.PySet.{member, add, discard, discard-NoDup, length-discard, discard-absent}
use vumi.Base.Exec.{Result, ok, err, lift, pure, ◌>>=◌}
use vumi.Redis.State.{text, value_at, as_text, set_key}
use vumi.Redis.Keys.{delete}
use vumi.Redis.Texts.{incr, get}
use vumi.Redis.Texts.Counter.{incr-cases}
use vumi.Redis.Effects.{delete-ok, delete-Clears, set_key-Puts}
use vumi.Sandbox.Kv.{
  Store, Reply, too_many_keys, existed, number, failed, value, loaded, count_key, sandboxed_key,
  handle_set, handle_get, handle_delete, handle_incr,
}
use vumi.Sandbox.Quota.{Counted, incr-Counts, Holds-frame, Counted-Clears, length-add}
use vumi.Sandbox.Limits.{
  allowed, written, counted, check_keys_lem, written-Counted, refused-Counted, handle_set_lem,
}

module _ (soft hard : ℕ) (id : String) {J : Type 0} (dumps : J → String)
    (loads : String → Result J) where
  handle_delete_lem :
      (ks : List String) (key : String) (s : Store)
      → Counted id ks s.redis
      → (s' : Store) × (handle_delete soft hard id dumps loads (some key) s
          ≡ (ok (existed (member key ks)), s'))
        × Counted id (discard key ks) s'.redis
  unfolding handle_delete
  handle_delete_lem ks key s c =
      let removed = delete-ok (sandboxed_key id key) s.redis in
      let gone = delete-Clears (sandboxed_key id key) s.redis in
      let r1 = (delete (sandboxed_key id key) s.redis).1 in
      let (count, held) = Counted-Clears id ks (length ks) key s.redis r1 gone c.count c.held in
      elim (Bool-cases (member key ks)) [
        | inl there ↦
            let one : is_some (value_at s.redis (sandboxed_key id key)) ≡ true =
              c.held key ∙ there in
            let n = length (discard key ks) in
            let shorter = length-discard key ks c.no_dup there in
            let down : pos (length ks) +ℤ negsuc 0 ≡ pos n =
              unfold ◌+ℤ◌ in ground (arith, shorter) in
            let (done, less, rest) = incr-Counts id (length ks) n (negsuc 0) r1 count down in
            let r2 = (incr (count_key id) (negsuc 0) r1).1 in
            (
              record s { redis = r2 },
              rw removed (rw one (rw done (rw there refl))),
              record {
                no_dup = discard-NoDup key ks c.no_dup;
                count = less;
                held = Holds-frame id (discard key ks) r1 r2 rest held;
              },
            )
        | inr absent ↦
            let no : is_some (value_at s.redis (sandboxed_key id key)) ≡ false =
              c.held key ∙ absent in
            let same = discard-absent key ks absent in
            (
              record s { redis = r1 },
              rw removed (rw no (rw absent refl)),
              record { no_dup = discard-NoDup key ks c.no_dup; count = rw same count; held = held },
            )
      ]

  handle_incr_lem :
      (ks : List String) (key : String) (amount : ℤ) (s : Store)
      → Counted id ks s.redis
      → (reply : Reply J) × (s' : Store) × (handle_incr soft hard id dumps loads
            (some key)
            (some amount)
            s
          ≡ (ok reply, s'))
        × Counted id (written soft hard id ks key) s'.redis
  unfolding handle_incr add
  handle_incr_lem ks key amount s c =
      let (s1, done, count, held, rest) = check_keys_lem soft hard id ks key s c in
      elim (Bool-cases (allowed soft hard id ks key)) [
        | inr full ↦ (
          too_many_keys,
          s1,
          rw done (rw full refl),
          refused-Counted soft hard id ks key s1.redis c.no_dup full count held,
        )
        | inl fits ↦ elim (incr-cases (sandboxed_key id key) amount s1.redis) [
          | inl (n, up) ↦
              let put = set_key-Puts (sandboxed_key id key) (text (show_int n)) s1.redis in
              (
                number n,
                record s1 { redis = set_key (sandboxed_key id key) (text (show_int n)) s1.redis },
                rw done (rw fits (rw up refl)),
                written-Counted soft hard id ks key _ s1.redis _ c.no_dup fits put count held,
              )
          | inr (e, failing, there) ↦
              let old : member key ks ≡ true = sym (held key) ∙ there in
              let same : counted soft hard id ks key ≡ length ks = ground (arith, old) in
              (
                failed e,
                s1,
                rw done (rw fits (rw failing refl)),
                rw fits
                    (rw old (record { no_dup = c.no_dup; count = rw (← same) count; held = held })),
              )
        ]
      ]

  loaded-same : (t : Option String) (s : Store) → (loaded soft hard id dumps loads t s).1 ≡ s
  loaded-same none s = refl
  loaded-same (some raw_value) s = after (loads raw_value)
    where
      after : (v : Result J) → ((lift v >>= (λ x. pure (value (some x)))) s).1 ≡ s
      after (ok v) = refl
      after (err e) = refl

  handle_get-same :
      (key : String) (s : Store) → (handle_get soft hard id dumps loads (some key) s).1 ≡ s
  unfolding handle_get get
  handle_get-same key s = elim (Option-cases (as_text (value_at s.redis (sandboxed_key id key)))) [
    | inl bad ↦ rw bad refl
    | inr (t, good) ↦ rw good (loaded-same t s)
  ]

  -- The requests of a sandbox.
  pub data Request : Type 0 where
    set_key_to : Option String → J → Request
    get_key delete_key : Option String → Request
    incr_key : Option String → Option ℤ → Request

  unfoldable pub perform : Request → Store → Store
  perform (set_key_to key v) s = (handle_set soft hard id dumps loads key v s).1
  perform (get_key key) s = (handle_get soft hard id dumps loads key s).1
  perform (delete_key key) s = (handle_delete soft hard id dumps loads key s).1
  perform (incr_key key amount) s = (handle_incr soft hard id dumps loads key amount s).1

  unfoldable pub perform_all : List Request → Store → Store
  perform_all [] s = s
  perform_all (q ∷ qs) s = perform_all qs (perform q s)

  -- An amount by which a key is to be incremented is a whole number.
  abbrev pub has_number : Request → Bool
  has_number (incr_key key none) = false
  has_number _ = true

  abbrev pub have_numbers : List Request → Bool
  have_numbers [] = true
  have_numbers (q ∷ qs) = has_number q && have_numbers qs

  -- The count is the number of keys, of which there are no more than the limits allow.
  abbrev pub IsWithin : Store → Type 0
  IsWithin s = (ks : List String) × Counted id ks s.redis × (length ks ≤ max soft (hard - 1))

  written_short :
      (ks : List String) (key : String)
      → length ks ≤ max soft (hard - 1)
      → length (written soft hard id ks key) ≤ max soft (hard - 1)
  written_short ks key h = ground (arith, h, length-add id key ks)

  discard_short : (key : String) (ks : List String) → length (discard key ks) ≤ length ks
  unfolding discard
  discard_short key [] = omega arith
  discard_short key (x ∷ ks) = ground (arith, discard_short key ks)

  moved : {a b : Store} {ks : List String} → a ≡ b → Counted id ks a.redis → Counted id ks b.redis
  moved {ks = ks} e c = subst (λ (q : Store). Counted id ks q.redis) e c

  perform-IsWithin :
      (q : Request) (s : Store) → has_number q ≡ true → IsWithin s → IsWithin (perform q s)
  unfolding perform handle_set handle_get handle_delete handle_incr
  perform-IsWithin (set_key_to none v) s n w = w
  perform-IsWithin (get_key none) s n w = w
  perform-IsWithin (delete_key none) s n w = w
  perform-IsWithin (incr_key none (some amount)) s n w = w
  perform-IsWithin (incr_key key none) s n w = cc
  perform-IsWithin (set_key_to (some key) v) s n (ks, c, h) =
      let (s', done, counted', _) = handle_set_lem soft hard id dumps loads ks key v s c in
      (
        written soft hard id ks key,
        moved (sym (ap (λ x. x.1) done)) counted',
        written_short ks key h,
      )
  perform-IsWithin (get_key (some key)) s n w =
      subst (λ (q : Store). IsWithin q) (sym (handle_get-same key s)) w
  perform-IsWithin (delete_key (some key)) s n (ks, c, h) =
      let (s', done, counted') = handle_delete_lem ks key s c in
      (
        discard key ks,
        moved (sym (ap (λ x. x.1) done)) counted',
        omega (arith, h, discard_short key ks),
      )
  perform-IsWithin (incr_key (some key) (some amount)) s n (ks, c, h) =
      let (reply, s', done, counted') = handle_incr_lem ks key amount s c in
      (
        written soft hard id ks key,
        moved (sym (ap (λ x. x.1) done)) counted',
        written_short ks key h,
      )

  -- Whatever a sandbox requests, and in whatever order, if the amounts by which it increments keys are
  -- whole numbers, the count that is stored stays the number of its keys, and the number of keys stays
  -- at most the soft limit, or below the hard limit where that is higher.
  pub perform_all-IsWithin :
      (qs : List Request) (s : Store)
      → have_numbers qs ≡ true
      → IsWithin s
      → IsWithin (perform_all qs s)
  unfolding perform_all
  perform_all-IsWithin [] s n w = w
  perform_all-IsWithin (q ∷ qs) s n w =
      let first : has_number q ≡ true = ground (arith, n) in
      let others : have_numbers qs ≡ true = ground (arith, n) in
      perform_all-IsWithin qs (perform q s) others (perform-IsWithin q s first w)
