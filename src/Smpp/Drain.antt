-- ===== src/Smpp/Drain.antt =====
-- The delayed checks come to an end: throttling stops once no waiting message can be retried.
use mathlib.Core.Path.{subst}
use vumi.Base.{
  ℕ, zero, suc, String, ◌≡◌, refl, sym, ap, ◌∙◌, true, false, Option, none, some, List, [], ◌∷◌,
  length,
}
use vumi.Base.Exec.{Result, ok}
use vumi.Redis.State.{Redis, value_at}
use vumi.Redis.Texts.{get}
use vumi.Smpp.Stash.{Config, message_key, get_cached_message}
use vumi.Smpp.Transport.{Smpp, run_check_stop_throttling}

abbrev pub AllGone : List String → Redis → Type 0
AllGone [] r = Unit
AllGone (id ∷ ids) r = (value_at r (message_key id) ≡ none) × AllGone ids r

-- Not throttled, with nothing waiting and no call scheduled.
abbrev pub IsSettled : Smpp → Type 0
IsSettled s =
    (s.throttled ≡ false)
    × (s.paused ≡ false)
    × (s.unthrottle_call ≡ none)
    × (s.throttled_message_ids ≡ [])

moved : {a b : Smpp} → a ≡ b → IsSettled b → IsSettled a
moved e = subst (λ (s : Smpp). IsSettled s) (sym e)

-- The delayed call runs where one is scheduled, so many times at most.
unfoldable pub run_checks : Config → ℕ → ℕ → Smpp → Smpp
run_checks config now zero s = s
run_checks config now (suc n) s = elim s.unthrottle_call [
  | none ↦ s
  | some delay ↦ run_checks config now n (run_check_stop_throttling config now s).1
]

module _ (config : Config) (now : ℕ) where
  run_check-gone :
      (id : String) (ids : List String) (s : Smpp)
      → s.throttled_message_ids ≡ id ∷ ids
      → value_at s.redis (message_key id) ≡ none
      → run_check_stop_throttling config now s
        ≡ (ok tt, record s { throttled_message_ids = ids; unthrottle_call = some 0 })
  unfolding run_check_stop_throttling get_cached_message get
  run_check-gone id ids s waiting gone = rw waiting (rw gone refl)

  run_check-done :
      (s : Smpp)
      → s.throttled_message_ids ≡ []
      → s.throttled ≡ true
      → IsSettled (run_check_stop_throttling config now s).1
  unfolding run_check_stop_throttling
  run_check-done s waiting t = rw waiting (rw t (refl, refl, refl, refl))

  run_checks-scheduled :
      (n delay : ℕ) (s : Smpp)
      → s.unthrottle_call ≡ some delay
      → run_checks config now (suc n) s
        ≡ run_checks config now n (run_check_stop_throttling config now s).1
  unfolding run_checks
  run_checks-scheduled n delay s call =
      ap
        (λ (c : Option ℕ). elim c [
          | none ↦ s
          | some d ↦ run_checks config now n (run_check_stop_throttling config now s).1
        ])
        call

  -- Where a call is scheduled and none of the waiting messages can be found in the store any more,
  -- the calls, each of which runs only because the one before it has scheduled it, come to an end
  -- after one run more than there are messages: throttling has stopped, the connectors go on, nothing
  -- waits and no call is scheduled.
  pub run_checks_lem :
      (ids : List String) (delay : ℕ) (s : Smpp)
      → s.throttled_message_ids ≡ ids
      → s.throttled ≡ true
      → s.unthrottle_call ≡ some delay
      → AllGone ids s.redis
      → IsSettled (run_checks config now (suc (length ids)) s)
  unfolding run_checks
  run_checks_lem [] delay s waiting t call gone =
      moved (run_checks-scheduled 0 delay s call) (run_check-done s waiting t)
  run_checks_lem (id ∷ ids) delay s waiting t call gone =
      let next = record s { throttled_message_ids = ids; unthrottle_call = some 0 } in
      moved
        (run_checks-scheduled (suc (length ids)) delay s call
          ∙ ap (λ (p : Result (Unit {0}) × Smpp). run_checks config now (suc (length ids)) p.1)
              (run_check-gone id ids s waiting gone.0))
        (run_checks_lem ids 0 next refl t refl gone.1)
