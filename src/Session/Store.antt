-- ===== src/Session/Store.antt =====
-- What a session of vumi/components/session.py holds after it was saved or created.
use mathlib.Core.Path.{subst}
use vumi.Base.{
  ℕ, String, ◌≡◌, ◌≢◌, refl, sym, ap, ◌∙◌, true, false, Option, none, some, [], ◌∷◌, arith, str_eq,
  ◌==◌, Bool-cases, inl, inr,
}
use vumi.Base.Dict.{Dict, contains, lookup, insert, update}
use vumi.Base.Exec.{ok, for_each}
use vumi.Redis.Keys.Expiry.{values-expire, ttl-expire}
use vumi.Redis.State.{Value, Redis, value_at, as_hash}
use vumi.Redis.Keys.{delete, ttl}
use vumi.Redis.Hashes.{hset, hgetall}
use vumi.Redis.Effects.{delete-Clears, hset-Puts}
use vumi.Session.{
  session_key, load_session, save_session, save_field, clear_session, create_session, limit_session,
  schedule_session_expiry,
}

module _ (user_id : String) where
  abbrev key : String
  key = session_key user_id

  save_fields :
      (s m : Dict String) (r : Redis)
      → as_hash (value_at r key) ≡ some m
      → let (res, r') = for_each s (save_field user_id) r in
        (res ≡ ok tt)
        × (as_hash (value_at r' key) ≡ some (update m s))
        × ((j : String) → key ≢ j → value_at r' j ≡ value_at r j)
  unfolding for_each save_field update
  save_fields [] m r h = (refl, h, λ j ne. refl)
  save_fields ((f, v) ∷ s) m r h =
      let (done, put) = hset-Puts key r m h f v in
      let r1 = (hset key f v r).1 in
      let h1 : as_hash (value_at r1 key) ≡ some (insert f v m) = ground (arith, put.at) in
      let (all, held, same) = save_fields s (insert f v m) r1 h1 in
      rw done (all, held, λ j ne. same j ne ∙ put.rest j ne)

  -- `save_session` merges the given fields into what the session holds, a later field over an
  -- earlier one of its name, and returns what it was given; no other key changes.
  pub save_session_lem :
      (s m : Dict String) (r : Redis)
      → as_hash (value_at r key) ≡ some m
      → let (res, r') = save_session user_id s r in
        (res ≡ ok s)
        × (load_session user_id r' ≡ (ok (update m s), r'))
        × ((j : String) → key ≢ j → value_at r' j ≡ value_at r j)
  unfolding save_session load_session hgetall
  save_session_lem s m r h =
      let (done, held, same) = save_fields s m r h in rw done (refl, rw held refl, same)

  -- What limits a session writes no value, and a limit that is there and not 0 is its time to live.
  limit_lem :
      (max : Option ℕ) (now : ℕ) (r : Redis)
      → ((limit_session max now user_id r).0 ≡ ok tt)
        × ((limit_session max now user_id r).1.values ≡ r.values)
  unfolding limit_session schedule_session_expiry
  limit_lem none now r = (refl, refl)
  limit_lem (some t) now r =
      let (same, ended) = values-expire now key t r in
      elim (Bool-cases (t == 0)) [
        | inl never ↦ rw never (refl, refl)
        | inr limited ↦
            rw limited (elim ended [ inl e ↦ rw e (refl, same) | inr e ↦ rw e (refl, same) ])
      ]

  limit-ttl :
      (t now : ℕ) (r : Redis)
      → (t == 0) ≡ false
      → contains key r.values ≡ true
      → ttl now key (limit_session (some t) now user_id r).1 ≡ some t
  unfolding limit_session schedule_session_expiry
  limit-ttl t now r h there =
      let (same, ended) = values-expire now key t r in
      rw h (elim ended [
        | inl e ↦ rw e (ttl-expire now key t r there)
        | inr e ↦ rw e (ttl-expire now key t r there)
      ])

clear_session-eq :
    (user_id : String) (r : Redis)
    → clear_session user_id r ≡ (ok tt, (delete (session_key user_id) r).1)
unfolding clear_session delete
clear_session-eq user_id r = refl

save_session-eq :
    (user_id : String) (s : Dict String) (r : Redis)
    → (for_each s (save_field user_id) r).0 ≡ ok tt
    → save_session user_id s r ≡ (ok s, (for_each s (save_field user_id) r).1)
unfolding save_session
save_session-eq user_id s r h = rw h refl

load_session-eq :
    (user_id : String) (m : Dict String) (r : Redis)
    → as_hash (value_at r (session_key user_id)) ≡ some m
    → load_session user_id r ≡ (ok m, r)
unfolding load_session hgetall
load_session-eq user_id m r h = rw h refl

-- A dict that is not empty is not empty after an update.
update-cons :
    (x : String × String) (d e : Dict String)
    → (y : String × String) × (d' : Dict String) × (update (x ∷ d) e ≡ y ∷ d')
unfolding update insert
update-cons x d [] = (x, d, refl)
update-cons x d ((k, v) ∷ e) = elim (Bool-cases (str_eq x.0 k)) [
  | inl same ↦ let (y, d', h) = update-cons (k, v) d e in (y, d', rw same h)
  | inr other ↦ let (y, d', h) = update-cons x (insert k v d) e in (y, d', rw other h)
]

hash-contains :
    (k : String) (r : Redis) (y : String × String) (m : Dict String)
    → as_hash (value_at r k) ≡ some (y ∷ m)
    → contains k r.values ≡ true
hash-contains k r y m h = ground (arith, h)

module _ (max : Option ℕ) (now : ℕ) (stamp user_id : String) (fields : Dict String)
    (r : Redis) where
  abbrev pub session : Dict String
  session = update [] (update (("created_at", stamp) ∷ []) fields)

  session-cons : (y : String × String) × (d : Dict String) × (session ≡ y ∷ d)
  unfolding update insert
  session-cons =
      let (x, d, e) = update-cons ("created_at", stamp) [] fields in
      let (y, d', e') = update-cons x [] d in (y, d', ap (update []) e ∙ e')

  -- `create_session` forgets what the session of the user held, whatever kind of value it was: the
  -- new session holds the time of its creation and the given fields, of which one named
  -- `created_at` replaces the time; it is returned and is what `load_session` finds. With a
  -- maximal length that is not 0, that is its time to live. No other key's value changes.
  pub create_session_lem :
      let (res, r') = create_session max now stamp user_id fields r in
      (res ≡ ok session)
      × (load_session user_id r' ≡ (ok session, r'))
      × ((t : ℕ) → max ≡ some t → (t == 0) ≡ false → ttl now (session_key user_id) r' ≡ some t)
      × ((j : String) → session_key user_id ≢ j → value_at r' j ≡ value_at r j)
  unfolding create_session
  create_session_lem =
      let k = session_key user_id in
      let all = update (("created_at", stamp) ∷ []) fields in
      let gone = delete-Clears k r in
      let r1 = (delete k r).1 in
      let h1 : as_hash (value_at r1 k) ≡ some [] = ground (arith, gone.at) in
      let (done, held, same) = save_fields user_id all [] r1 h1 in
      let r2 = (for_each all (save_field user_id) r1).1 in
      let (limited, values) = limit_lem user_id max now r2 in
      let r3 = (limit_session max now user_id r2).1 in
      let held3 : as_hash (value_at r3 k) ≡ some session =
        ap (λ (v : Dict Value). as_hash (lookup k v)) values ∙ held in
      let saved : save_session user_id all r1 ≡ (ok all, r2) =
        save_session-eq user_id all r1 done in
      let bounded : limit_session max now user_id r2 ≡ (ok tt, r3) = λ i. (limited i, r3) in
      let loaded : load_session user_id r3 ≡ (ok session, r3) =
        load_session-eq user_id session r3 held3 in
      let (y, rest, full) = session-cons in
      let there : contains k r2.values ≡ true = hash-contains k r2 y rest (held ∙ ap some full) in
      let lives : (t : ℕ) → max ≡ some t → (t == 0) ≡ false → ttl now k r3 ≡ some t = λ t e limit.
        subst (λ o. ttl now k (limit_session o now user_id r2).1 ≡ some t) (sym e)
          (limit-ttl user_id t now r2 limit there) in
      rw (clear_session-eq user_id r) (
        rw saved (
          rw bounded (
            rw loaded (
              refl,
              loaded,
              lives,
              λ j ne. ap (λ (v : Dict Value). lookup j v) values ∙ same j ne ∙ gone.rest j ne,
            ))))
