-- ===== src/Smpp/Throttling.antt =====
-- Throttling: the connectors are paused exactly while the transport is throttled.
use vumi.Base.{ℕ, String, ◌≡◌, Option, none, some, List, [], ◌∷◌, arith}
use vumi.Base.Exec.{Exec}
use vumi.Base.Exec.Keeps.{Keeps, keeps_rules}
use vumi.Redis.State.{Redis}
use vumi.Message.{Payload, Value}
use vumi.Smpp.Stash.{Config, Event}
use vumi.Smpp.Transport as T
use vumi.Smpp.Transport.{Smpp, Outgoing, stash, send}

-- The connectors are paused exactly if the transport is throttled.
abbrev pub IsPaused : Smpp → Type 0
IsPaused s = s.paused ≡ s.throttled

stash-Keeps : {A : Type 0} (m : Exec Redis A) → Keeps IsPaused (stash m)
stash-Keeps m = record { at = λ s h. h }

send-Keeps : (o : Outgoing) → Keeps IsPaused (send o)
send-Keeps o = record { at = λ s h. h }

start-Keeps : Keeps IsPaused T.start_throttling
unfolding T.start_throttling
start-Keeps = record { at = λ s h. ground arith }

stop-Keeps : Keeps IsPaused T.stop_throttling
unfolding T.stop_throttling
stop-Keeps = record { at = λ s h. ground arith }

check_stop-Keeps : (d : ℕ) → Keeps IsPaused (T.check_stop_throttling d)
unfolding T.check_stop_throttling
check_stop-Keeps d = record { at = λ s h. ground arith }

append-Keeps : (id : String) → Keeps IsPaused (T.append_throttle_retry id)
unfolding T.append_throttle_retry
append-Keeps id = record { at = λ s h. ground arith }

incr-Keeps : Keeps IsPaused T.incr_mt_throttle_counter
unfolding T.incr_mt_throttle_counter
incr-Keeps = record { at = λ s h. h }

reset-Keeps : Keeps IsPaused T.reset_mt_throttle_counter
unfolding T.reset_mt_throttle_counter
reset-Keeps = record { at = λ s h. h }

waiting-Keeps : (ids : List String) → Keeps IsPaused (T.set_waiting ids)
unfolding T.set_waiting
waiting-Keeps ids = record { at = λ s h. h }

call-Keeps : Keeps IsPaused T.forget_call
unfolding T.forget_call
call-Keeps = record { at = λ s h. h }

ruleset paused_rules = (
  keeps_rules, stash-Keeps, send-Keeps, start-Keeps, stop-Keeps, check_stop-Keeps, append-Keeps,
  incr-Keeps, reset-Keeps,
)

check_mt-Keeps : Keeps IsPaused T.check_mt_throttling
unfolding T.check_mt_throttling
check_mt-Keeps = search paused_rules

reset_mt_tps-Keeps : Keeps IsPaused T.reset_mt_tps
unfolding T.reset_mt_tps
reset_mt_tps-Keeps = search paused_rules

as_text-Keeps : (v : Value) → Keeps IsPaused (T.as_text v)
as_text-Keeps (Value.text s) = search keeps_rules
as_text-Keeps _ = search keeps_rules

text_field-Keeps : (field : String) (m : Payload) → Keeps IsPaused (T.text_field field m)
unfolding T.text_field
text_field-Keeps field m = search (keeps_rules, as_text-Keeps)

reject-Keeps :
    (m : Payload) (field address : String)
    → Keeps IsPaused (T.reject_for_invalid_address m field address)
unfolding T.reject_for_invalid_address
reject-Keeps m field address = search (paused_rules, text_field-Keeps)

module _ (config : Config) (now : ℕ) where
  submit-Keeps : (m : Payload) → Keeps IsPaused (T.submit_and_cache config now m)
  unfolding T.submit_and_cache
  submit-Keeps m = search (paused_rules, text_field-Keeps)

  outbound-Keeps : (m : Payload) → Keeps IsPaused (T.handle_outbound_message config now m)
  unfolding T.handle_outbound_message
  outbound-Keeps m =
      search (paused_rules, check_mt-Keeps, text_field-Keeps, reject-Keeps, submit-Keeps) depth 8

  fail-Keeps :
      (id status : String) (m : Option Payload)
      → Keeps IsPaused (T.fail_message config now id status m)
  fail-Keeps id status none = search keeps_rules
  fail-Keeps id status (some m) = search paused_rules

  submit_event-Keeps :
      (id t remote status : String)
      → Keeps IsPaused (T.process_submit_sm_event config now id t remote status)
  unfolding T.process_submit_sm_event
  submit_event-Keeps id t remote status = search (paused_rules, fail-Keeps)

  event-Keeps :
      (id status : String) (e : Option Event)
      → Keeps IsPaused (T.process_event config now id status e)
  unfolding T.process_event
  event-Keeps id status none = search keeps_rules
  event-Keeps id status (some (t, remote)) = submit_event-Keeps id t remote status

  resume-Keeps : Keeps IsPaused (T.resume_if_throttled config now)
  unfolding T.resume_if_throttled
  resume-Keeps = search paused_rules

  success-Keeps :
      (id remote status : String)
      → Keeps IsPaused (T.handle_submit_sm_success config now id remote status)
  unfolding T.handle_submit_sm_success
  success-Keeps id remote status = search (paused_rules, event-Keeps, resume-Keeps)

  failure-Keeps :
      (id remote status : String)
      → Keeps IsPaused (T.handle_submit_sm_failure config now id remote status)
  unfolding T.handle_submit_sm_failure
  failure-Keeps id remote status = search (paused_rules, event-Keeps, resume-Keeps)

  throttled-Keeps :
      (delay : ℕ) (id : String) → Keeps IsPaused (T.handle_submit_sm_throttled config now delay id)
  unfolding T.handle_submit_sm_throttled
  throttled-Keeps delay id = search paused_rules

  callback-Keeps :
      (delay : ℕ) (id remote status : String)
      → Keeps IsPaused (T.submit_sm_callback config now delay id remote status)
  unfolding T.submit_sm_callback
  callback-Keeps delay id remote status =
      search (paused_rules, success-Keeps, failure-Keeps, throttled-Keeps)

  response-Keeps :
      (delay seq : ℕ) (remote status : String)
      → Keeps IsPaused (T.on_submit_sm_resp config now delay seq remote status)
  unfolding T.on_submit_sm_resp
  response-Keeps delay seq remote status = search (paused_rules, with_id)
    where
      with_id :
          (o : Option String) → Keeps IsPaused (T.with_message_id config now delay remote status o)
      with_id none = search keeps_rules
      with_id (some id) = callback-Keeps delay id remote status

  again-Keeps : (m : Option Payload) → Keeps IsPaused (T.retry_or_again config now m)
  again-Keeps none = check_stop-Keeps 0
  again-Keeps (some m) = outbound-Keeps m

  retry-Keeps : (ids : List String) → Keeps IsPaused (T.retry_first config now ids)
  unfolding T.retry_first
  retry-Keeps [] = stop-Keeps
  retry-Keeps (id ∷ ids) = search (paused_rules, again-Keeps, waiting-Keeps)

  run_check-Keeps : Keeps IsPaused (T.run_check_stop_throttling config now)
  unfolding T.run_check_stop_throttling
  run_check-Keeps = search (paused_rules, retry-Keeps, call-Keeps)

report-Keeps : (id status : String) → Keeps IsPaused (T.handle_delivery_report id status)
unfolding T.handle_delivery_report
report-Keeps id status = search (paused_rules, found)
  where
    found : (o : Option String) → Keeps IsPaused (T.report_for status o)
    found none = search keeps_rules
    found (some m) = send-Keeps _

-- What happens to a transport that is bound, each with the time of the store's clock: a message to
-- send, a response of the SMSC, a delivery report, the delayed call, and the tick of each second.
pub data Call : Type 0 where
  outbound : ℕ → Payload → Call
  response : ℕ → ℕ → ℕ → String → String → Call
  receipt : String → String → Call
  delayed_call : ℕ → Call
  tick : Call

unfoldable pub perform : Config → Call → Exec Smpp (Unit {0})
perform config (outbound now m) = T.handle_outbound_message config now m
perform config (response now delay seq remote status) =
    T.on_submit_sm_resp config now delay seq remote status
perform config (receipt id status) = T.handle_delivery_report id status
perform config (delayed_call now) = T.run_check_stop_throttling config now
perform config tick = T.reset_mt_tps

-- A call that raises does not stop the transport: the next one finds the state that it left.
unfoldable pub perform_all : Config → List Call → Smpp → Smpp
unfolding perform
perform_all config [] s = s
perform_all config (c ∷ calls) s = perform_all config calls (perform config c s).1

perform-Keeps : (config : Config) (c : Call) → Keeps IsPaused (perform config c)
unfolding perform
perform-Keeps config (outbound now m) = outbound-Keeps config now m
perform-Keeps config (response now delay seq remote status) =
    response-Keeps config now delay seq remote status
perform-Keeps config (receipt id status) = report-Keeps id status
perform-Keeps config (delayed_call now) = run_check-Keeps config now
perform-Keeps config tick = reset_mt_tps-Keeps

-- While the transport stays bound, the connectors are paused exactly as long as it is throttled,
-- whatever messages, responses, receipts, delayed calls and ticks come in whatever order, also
-- where handling them raises.
pub perform_all-IsPaused :
    (config : Config) (calls : List Call) (s : Smpp)
    → IsPaused s
    → IsPaused (perform_all config calls s)
unfolding perform_all
perform_all-IsPaused config [] s h = h
perform_all-IsPaused config (c ∷ calls) s h =
    perform_all-IsPaused config calls (perform config c s).1 ((perform-Keeps config c).at s h)
