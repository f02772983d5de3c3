-- ===== src/Smpp/Rollover.antt =====
-- When the counter of the sequence numbers starts again.
use vumi.Base.{
  ℕ, String, ◌≡◌, ◌≢◌, refl, sym, not, ◌&&◌, none, some, is_some, if◌then◌else◌, ap, ◌∙◌,
  Bool-cases, inl, inr, Option-cases,
}
use vumi.Base.Int.{ℤ, pos, leb_ℤ, ◌+ℤ◌}
use vumi.Base.Decimal.{show_int}
use vumi.Base.Decimal.RoundTrip.{parse-show_int}
use vumi.Base.Dict.{lookup}
use vumi.Base.Exec.{ok}
use vumi.Redis.State.{Redis, Value, text, value_at, set_key}
use vumi.Redis.Keys.{ttl, delete}
use vumi.Redis.Keys.Expiry.{values-expire}
use vumi.Redis.Texts.{get, setnx}
use vumi.Redis.Texts.Counter.{count_of, incr-eq}
use vumi.Redis.Effects.{set_key-Puts, delete-Clears}
use vumi.Smpp.Sequence.{
  last_key, wrap_key, reset_seq_counter, get_next_seq, has_no_ttl, expire_lock, delete_counter,
}

wrap-ne_last : wrap_key ≢ last_key
wrap-ne_last e = cc

expire_lock_lem :
    (now : ℕ) (r : Redis)
    → ((expire_lock now r).0 ≡ ok tt) × ((expire_lock now r).1.values ≡ r.values)
unfolding expire_lock
expire_lock_lem now r = elim (Bool-cases (has_no_ttl (ttl now wrap_key r))) [
  | inr fine ↦ rw fine (refl, refl)
  | inl none_yet ↦
      let (same, ended) = values-expire now wrap_key 10 r in
      rw none_yet (elim ended [ inl e ↦ rw e (refl, same) | inr e ↦ rw e (refl, same) ])
]

delete_counter_lem :
    (s : String) (r : Redis)
    → value_at r last_key ≡ some (text s)
    → ((delete_counter r).0 ≡ ok tt) × (value_at (delete_counter r).1 last_key ≡ none)
unfolding delete_counter get delete
delete_counter_lem s r h = rw h (refl, (delete-Clears last_key r).at)

-- Where the lock is free, a reset deletes the counter whatever text it holds: also where another
-- worker has reset it already, so that its number is far below the one to wrap at.
pub reset_seq_counter-text :
    (now : ℕ) (s : String) (r : Redis)
    → value_at r last_key ≡ some (text s)
    → value_at r wrap_key ≡ none
    → let (res, r') = reset_seq_counter now r in (res ≡ ok tt) × (value_at r' last_key ≡ none)
unfolding reset_seq_counter setnx
reset_seq_counter-text now s r h free =
    let r1 = set_key wrap_key (text "1") r in
    let put = set_key-Puts wrap_key (text "1") r in
    let (done, same) = expire_lock_lem now r1 in
    let at : value_at (expire_lock now r1).1 last_key ≡ some (text s) =
      ap (λ d. lookup last_key d) same ∙ put.rest last_key wrap-ne_last ∙ h in
    let (gone, none_left) = delete_counter_lem s (expire_lock now r1).1 at in
    rw free (rw done (gone, none_left))

-- Where the lock is held, it does not touch the counter.
reset_seq_counter-locked :
    (now : ℕ) (v : Value) (r : Redis)
    → value_at r wrap_key ≡ some v
    → let (res, r') = reset_seq_counter now r in (res ≡ ok tt) × (r'.values ≡ r.values)
unfolding reset_seq_counter setnx
reset_seq_counter-locked now v r held =
    let (done, same) = expire_lock_lem now r in rw held (rw done (refl, same))

-- The next sequence number is one more than the last. From `rollover_at` on the counter starts again
-- at 0 for the number after it, unless another worker holds the lock; below, and where the lock is
-- held, it goes on.
pub get_next_seq_lem :
    (rollover_at c : ℤ) (now : ℕ) (r : Redis)
    → count_of (value_at r last_key) ≡ some c
    → let (res, r') = get_next_seq rollover_at now r in
      let wraps = leb_ℤ rollover_at (c +ℤ pos 1) && not (is_some (value_at r wrap_key)) in
      (res ≡ ok (c +ℤ pos 1))
      × (count_of (value_at r' last_key) ≡ some (if wraps then pos 0 else c +ℤ pos 1))
unfolding get_next_seq
get_next_seq_lem rollover_at c now r h =
    let n = c +ℤ pos 1 in
    let r1 = set_key last_key (text (show_int n)) r in
    let put = set_key-Puts last_key (text (show_int n)) r in
    let lock = put.rest wrap_key (λ e. wrap-ne_last (sym e)) in
    let counted : count_of (value_at r1 last_key) ≡ some n =
      ap count_of put.at ∙ parse-show_int n in
    rw (incr-eq last_key c (pos 1) r h) (elim (Bool-cases (leb_ℤ rollover_at n)) [
      | inr below ↦ rw below (refl, counted)
      | inl past ↦ elim (Option-cases (value_at r wrap_key)) [
        | inl free ↦
            let (done, gone) = reset_seq_counter-text now (show_int n) r1 put.at (lock ∙ free) in
            rw (past, free) (rw done (refl, ap count_of gone))
        | inr (v, held) ↦
            let (done, same) = reset_seq_counter-locked now v r1 (lock ∙ held) in
            rw (past, held) (rw done (refl, ap (λ d. count_of (lookup last_key d)) same ∙ counted))
      ]
    ])
