-- ===== src/Smpp/Tests.antt =====
-- The theorems on the SMPP transport at concrete inputs.
use vumi.Base.{
  ◌+◌, String, ◌≡◌, refl, Bool, true, false, not, ◌&&◌, ◌||◌, none, some, List, [], ◌∷◌, arith,
  length, is_some, if◌then◌else◌, ◌==◌, suc,
}
use vumi.Base.Int.{pos, leb_ℤ, ◌+ℤ◌}
use vumi.Base.Decimal.{show_nat, parse_int}
use vumi.Base.Dict.{lookup, insert}
use vumi.Base.Exec.{ok, err, value_error}
use vumi.Redis.State.{Redis, text, hash, empty, value_at}
use vumi.Redis.Texts.Counter.{count_of}
use vumi.Message.{Payload, Value}
use vumi.Smpp.Stash.{Config, Event, multipart_info_key, part_status}
use vumi.Smpp.Sequence.{last_key, wrap_key, get_next_seq, reset_seq_counter}
use vumi.Smpp.Rollover.{get_next_seq_lem, reset_seq_counter-text}
use vumi.Smpp.Transport.{Smpp}
use vumi.Smpp.Multipart.{Tracks, is_due, due_type, ids_of}
use vumi.Smpp.Events.{
  respond, respond_all, respond_lem, respond_all_lem, mark, parts_after, failed_after, as_number,
}
use vumi.Smpp.Throttling.{
  IsPaused, outbound, response, delayed_call, tick, perform_all, perform_all-IsPaused,
}
use vumi.Smpp.Drain.{IsSettled, run_checks, run_checks_lem}

-- A message of two parts, of which none was answered.
abbrev two_parts : Redis
two_parts = record {
  values = ("multipart_info:m", hash (("parts", "2") ∷ [])) ∷ [];
  known = [];
  expiries = [];
}

two_parts-Tracks : Tracks "m" 2 [] false 0 two_parts
unfolding lookup multipart_info_key part_status show_nat
two_parts-Tracks = (
  ("parts", "2") ∷ [],
  refl,
  record { size = refl; result = refl; counter = refl; statuses = refl },
)

respond_lem_example :
    let parts' = insert "x" (mark false) [] in
    let failed' = false || not false in
    let due = is_due 2 parts' failed' in
    let (res, r') = respond "m" false "x" two_parts in
    (res ≡ ok (if due && (0 == 0) then some (due_type parts' failed', ids_of parts') else none))
    × Tracks "m" 2 parts' failed' (if due then 0 + 1 else 0) r'
respond_lem_example = respond_lem "m" 2 [] false 0 two_parts two_parts-Tracks false "x"

abbrev answers : List (Bool × String)
answers = (true, "x") ∷ (true, "x") ∷ (true, "y") ∷ (false, "y") ∷ []

respond_all_lem_example :
    (events : List Event) × (r' : Redis) × (respond_all "m" answers two_parts ≡ (ok events, r'))
    × (length events ≡ as_number (is_due 2 (parts_after answers []) (failed_after answers false)))
respond_all_lem_example = respond_all_lem "m" 2 answers two_parts (omega arith) two_parts-Tracks

-- A counter near its end, and one that was reset.
abbrev near_end : Redis
near_end = record {
  values = ("smpp_last_sequence_number", text "9") ∷ [];
  known = [];
  expiries = [];
}

get_next_seq_lem_example :
    let (res, r') = get_next_seq (pos 10) 0 near_end in
    let wraps = leb_ℤ (pos 10) (pos 9 +ℤ pos 1) && not (is_some (value_at near_end wrap_key)) in
    (res ≡ ok (pos 9 +ℤ pos 1))
    × (count_of (value_at r' last_key) ≡ some (if wraps then pos 0 else pos 9 +ℤ pos 1))
unfolding lookup parse_int
get_next_seq_lem_example = get_next_seq_lem (pos 10) (pos 9) 0 near_end refl

reset_seq_counter-text_example :
    let (res, r') = reset_seq_counter 0 near_end in (res ≡ ok tt) × (value_at r' last_key ≡ none)
unfolding lookup
reset_seq_counter-text_example = reset_seq_counter-text 0 "9" near_end refl refl

abbrev config : Config
config = record {
  third_party_id_expiry = 60;
  submit_sm_expiry = 60;
  to_json = λ p. "message";
  from_json = λ s. err value_error;
}

abbrev message : Payload
message =
    ("message_id", Value.text "m")
    ∷ ("to_addr", Value.text "+27")
    ∷ ("from_addr", Value.text "123")
    ∷ []

abbrev bound : Smpp
bound = record {
  redis = empty;
  throttled = false;
  paused = false;
  throttled_message_ids = [];
  unthrottle_call = none;
  tps_counter = 0;
  tps_limit = 1;
  out = [];
}

perform_all-IsPaused_example : IsPaused (
    perform_all config
      (outbound 0 message ∷ response 1 2 7 "r" "ESME_RTHROTTLED" ∷ tick ∷ delayed_call 3 ∷ [])
      bound)
perform_all-IsPaused_example =
    perform_all-IsPaused config
      (outbound 0 message ∷ response 1 2 7 "r" "ESME_RTHROTTLED" ∷ tick ∷ delayed_call 3 ∷ []) bound
      refl

abbrev waiting : Smpp
waiting = record bound {
  throttled = true;
  paused = true;
  throttled_message_ids = "m" ∷ "n" ∷ [];
  unthrottle_call = some 1;
}

run_checks_lem_example : IsSettled (run_checks config 0 (suc 2) waiting)
unfolding lookup
run_checks_lem_example =
    run_checks_lem config 0 ("m" ∷ "n" ∷ []) 1 waiting refl refl refl (refl, (refl, tt))
