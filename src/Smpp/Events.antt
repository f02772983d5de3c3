-- ===== src/Smpp/Events.antt =====
-- The responses to the parts of a multipart message, one after another: at most one sends an event.
use vumi.Base.{
  ℕ, ◌+◌, ◌≤◌, ◌<◌, String, ◌≡◌, refl, sym, Bool, true, false, not, ◌&&◌, ◌||◌, Option, none, some,
  List, [], ◌∷◌, arith, leb, ltb, ◌==◌, length, if◌then◌else◌, ap,
}
use vumi.Base.Dict.{Dict, insert}
use vumi.Base.Exec.{Exec, ok, pure, ◌>>=◌, ◌>>◌}
use vumi.Redis.State.{Redis}
use vumi.Smpp.Stash.{
  Event, update_multipart_info_success, update_multipart_info_failure, get_multipart_event_info,
}
use vumi.Smpp.Multipart.{
  Tracks, is_due, due_type, ids_of, mark_success_lem, mark_failure_lem,
  get_multipart_event_info_lem,
}

-- What the handlers of a response do before they send the event: one part was accepted, or not.
unfoldable pub respond : String → Bool → String → Exec Redis (Option Event)
respond message_id true remote_id = do
  update_multipart_info_success message_id remote_id
  get_multipart_event_info message_id "ack" remote_id
respond message_id false remote_id = do
  update_multipart_info_failure message_id remote_id
  get_multipart_event_info message_id "fail" remote_id

or_false : (b : Bool) → (b || false) ≡ b
or_false true = refl
or_false false = refl

or_true : (b : Bool) → (b || true) ≡ true
or_true true = refl
or_true false = refl

abbrev pub mark : Bool → String
mark true = "ack"
mark false = "fail"

-- A response sets the status of its part. An event is due once one part has failed or all parts were
-- answered, and the response sends it exactly if it was never due before: of type `ack` if all
-- parts were accepted, else `fail`, with the sorted ids of the answered parts.
pub respond_lem :
    (id : String) (n : ℕ) (parts : Dict String) (failed : Bool) (count : ℕ) (r : Redis)
    → Tracks id n parts failed count r
    → (accepted : Bool) (x : String)
    → let parts' = insert x (mark accepted) parts in
      let failed' = failed || not accepted in
      let due = is_due n parts' failed' in
      let (res, r') = respond id accepted x r in
      (res
        ≡ ok (if due && (count == 0) then some (due_type parts' failed', ids_of parts') else none))
      × Tracks id n parts' failed' (if due then count + 1 else count) r'
unfolding respond
respond_lem id n parts failed count r (info, held, h) true x =
    let r1 = (update_multipart_info_success id x r).1 in
    let (done, (info1, held1, h1)) = mark_success_lem id r n parts failed count x info held h in
    let last =
      get_multipart_event_info_lem id r1 n (insert x "ack" parts) failed count "ack" x info1 held1
        h1 in
    rw (or_false failed) (rw done last)
respond_lem id n parts failed count r (info, held, h) false x =
    let r1 = (update_multipart_info_failure id x r).1 in
    let (done, (info1, held1, h1)) = mark_failure_lem id r n parts failed count x info held h in
    let last =
      get_multipart_event_info_lem id r1 n (insert x "fail" parts) true count "fail" x info1 held1
        h1 in
    rw (or_true failed) (rw done last)

abbrev pub with_event : Option Event → List Event → List Event
with_event none events = events
with_event (some e) events = e ∷ events

-- The responses for a message, and the events that they send.
unfoldable pub respond_all : String → List (Bool × String) → Exec Redis (List Event)
respond_all message_id [] = pure []
respond_all message_id ((accepted, remote_id) ∷ rest) = do
  event ← respond message_id accepted remote_id
  events ← respond_all message_id rest
  pure (with_event event events)

abbrev pub parts_after : List (Bool × String) → Dict String → Dict String
parts_after [] parts = parts
parts_after ((accepted, x) ∷ l) parts = parts_after l (insert x (mark accepted) parts)

abbrev pub failed_after : List (Bool × String) → Bool → Bool
failed_after [] failed = failed
failed_after ((accepted, x) ∷ l) failed = failed_after l (failed || not accepted)

length-insert : (x v : String) (d : Dict String) → length d ≤ length (insert x v d)
unfolding insert
length-insert x v [] = omega arith
length-insert x v ((k, w) ∷ d) = ground (arith, length-insert x v d)

still_due :
    (n : ℕ) (parts : Dict String) (failed accepted : Bool) (x : String)
    → is_due n parts failed ≡ true
    → is_due n (insert x (mark accepted) parts) (failed || not accepted) ≡ true
still_due n parts failed accepted x h = ground (arith, length-insert x (mark accepted) parts, h)

abbrev pub as_number : Bool → ℕ
as_number b = if b then 1 else 0

count_event :
    (due was : Bool) (count : ℕ) (e : Event) (events : List Event) (final : ℕ)
    → ltb 0 count ≡ was
    → (was ≡ true → due ≡ true)
    → length events + as_number due ≡ final
    → length (with_event (if due && (count == 0) then some e else none) events) + as_number was
      ≡ final
count_event true was count e events final h m s = ground arith
count_event false was count e events final h m s = ground arith

next_count :
    (due was : Bool) (count : ℕ)
    → ltb 0 count ≡ was
    → (was ≡ true → due ≡ true)
    → ltb 0 (if due then count + 1 else count) ≡ due
next_count true was count h m = ground arith
next_count false was count h m = ground arith

events_after :
    (id : String) (n : ℕ) (l : List (Bool × String)) (parts : Dict String) (failed : Bool)
    (count : ℕ) (r : Redis)
    → Tracks id n parts failed count r
    → ltb 0 count ≡ is_due n parts failed
    → (events : List Event) × (r' : Redis) × (respond_all id l r ≡ (ok events, r'))
      × (length events + as_number (is_due n parts failed)
          ≡ as_number (is_due n (parts_after l parts) (failed_after l failed)))
unfolding respond_all
events_after id n [] parts failed count r h c = ([], r, refl, omega arith)
events_after id n ((accepted, x) ∷ l) parts failed count r h c =
    let parts' = insert x (mark accepted) parts in
    let failed' = failed || not accepted in
    let due = is_due n parts' failed' in
    let count' = if due then count + 1 else count in
    let (done, next) = respond_lem id n parts failed count r h accepted x in
    let stays = still_due n parts failed accepted x in
    let (events, r', ran, size) =
      events_after id n l parts' failed' count' (respond id accepted x r).1 next
        (next_count due (is_due n parts failed) count c stays) in
    (
      with_event
          (if due && (count == 0) then some (due_type parts' failed', ids_of parts') else none)
          events,
      r',
      rw done (rw ran refl),
      count_event due (is_due n parts failed) count (due_type parts' failed', ids_of parts') events
          _ c stays size,
    )

-- For a multipart message of `n` parts, of which none was answered yet, any sequence of responses
-- goes through. Together they send one event if one of them is a failure or all `n` parts are
-- answered at the end, and none otherwise.
pub respond_all_lem :
    (id : String) (n : ℕ) (l : List (Bool × String)) (r : Redis)
    → 0 < n
    → Tracks id n [] false 0 r
    → (events : List Event) × (r' : Redis) × (respond_all id l r ≡ (ok events, r'))
      × (length events ≡ as_number (is_due n (parts_after l []) (failed_after l false)))
respond_all_lem id n l r pos h =
    let early : leb n 0 ≡ false = ground arith in
    let start : as_number (is_due n [] false) ≡ 0 = ap as_number early in
    let (events, r', ran, size) = events_after id n l [] false 0 r h (sym early) in
    (events, r', ran, omega (arith, size, start))
