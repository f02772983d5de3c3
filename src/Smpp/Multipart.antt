-- ===== src/Smpp/Multipart.antt =====
-- The event of a multipart message: which responses send it, and that at most one does.
use vumi.Base.{
  ℕ, ◌+◌, String, ◌≡◌, refl, Bool, true, false, ◌&&◌, ◌||◌, Option, none, some, [], ◌∷◌, arith, leb,
  ◌==◌, length, if◌then◌else◌, ap, ◌∙◌, Bool-cases, inl, inr,
}
use vumi.Base.Int.{ℤ, pos, eqb_ℤ, ◌+ℤ◌}
use vumi.Base.Text.{join, sorted}
use vumi.Base.Decimal.{show_nat, show_int, parse_int}
use vumi.Base.Decimal.RoundTrip.{parse-show_int}
use vumi.Base.Dict.{Dict, lookup, insert, keys, lookup-insert}
use vumi.Base.Exec.{ok}
use vumi.Redis.State.{Redis, value_at, as_hash}
use vumi.Redis.Hashes.{hset, hgetall}
use vumi.Redis.Texts.{number_of}
use vumi.Redis.Effects.{hset-Puts, hincrby-Puts}
use vumi.Smpp.Stash.{
  Event, multipart_info_key, part_key, part_status, all_ack, without_prefix, event_type_of,
  update_multipart_info_success, update_multipart_info_failure, get_multipart_event_info,
  confirm_multipart_event,
}
use vumi.Smpp.Single.{part_status-insert, part_status-other, part_key-ne}

abbrev pub failed_field : Bool → Option String
failed_field true = some "fail"
failed_field false = none

abbrev pub field_number : Option String → Option ℤ
field_number none = some (pos 0)
field_number (some s) = parse_int s

-- The hash of a multipart message of `n` parts: the statuses of the parts that were answered,
-- whether one has failed, and how often the event was due.
pub record Shows (n : ℕ) (parts : Dict String) (failed : Bool) (count : ℕ) (info : Dict String)
    : Type 0 where
  pub size : lookup "parts" info ≡ some (show_nat n)
  pub result : lookup "event_result" info ≡ failed_field failed
  pub counter : field_number (lookup "event_counter" info) ≡ some (pos count)
  pub statuses : part_status info ≡ parts

abbrev pub Tracks : String → ℕ → Dict String → Bool → ℕ → Redis → Type 0
Tracks id n parts failed count r =
    (info : Dict String) × (as_hash (value_at r (multipart_info_key id)) ≡ some info)
    × Shows n parts failed count info

-- What the statuses show.
abbrev pub is_due : ℕ → Dict String → Bool → Bool
is_due n parts failed = failed || leb n (length parts)

abbrev pub due_type : Dict String → Bool → String
due_type parts failed = if failed then "fail" else if all_ack parts then "ack" else "fail"

abbrev pub ids_of : Dict String → String
ids_of parts = join "," (sorted (keys parts))

number_of-eq :
    (o : Option String) (x : ℤ) (r : Redis) → field_number o ≡ some x → number_of o r ≡ (ok x, r)
number_of-eq none x r h = ground (arith, h)
number_of-eq (some s) x r h = ground (arith, h)

parse-show_nat : (n : ℕ) → parse_int (show_nat n) ≡ some (pos n)
unfolding show_int
parse-show_nat n = parse-show_int (pos n)

no_size : {v : String} → lookup "parts" [] ≡ some v → ⊥
unfolding lookup
no_size h = cc

first_count : (n : ℕ) → eqb_ℤ (pos n +ℤ pos 1) (pos 1) ≡ (n == 0)
unfolding ◌+ℤ◌
first_count n = ground arith

one_more : (n : ℕ) → pos n +ℤ pos 1 ≡ pos (n + 1)
unfolding ◌+ℤ◌
one_more n = ground arith

module _ (n : ℕ) (parts : Dict String) (failed : Bool) (count : ℕ) (info : Dict String)
    (h : Shows n parts failed count info) where
  Shows-part : (x v : String) → Shows n (insert x v parts) failed count (insert (part_key x) v info)
  unfolding without_prefix
  Shows-part x v =
      let p = part_key x in
      record {
        size = lookup-insert p "parts" v info ∙ rw (part_key-ne x "parts" refl) h.size;
        result =
            lookup-insert p "event_result" v info ∙ rw (part_key-ne x "event_result" refl) h.result;
        counter =
            ap field_number (lookup-insert p "event_counter" v info)
            ∙ rw (part_key-ne x "event_counter" refl) h.counter;
        statuses = part_status-insert x v info ∙ ap (insert x v) h.statuses;
      }

  Shows-result : Shows n parts true count (insert "event_result" "fail" info)
  unfolding without_prefix
  Shows-result = record {
    size = lookup-insert "event_result" "parts" "fail" info ∙ h.size;
    result = lookup-insert "event_result" "event_result" "fail" info;
    counter =
        ap field_number (lookup-insert "event_result" "event_counter" "fail" info) ∙ h.counter;
    statuses = part_status-other "event_result" "fail" info refl ∙ h.statuses;
  }

  Shows-counter :
      Shows n parts failed (count + 1) (insert "event_counter" (show_int (pos count +ℤ pos 1)) info)
  unfolding without_prefix
  Shows-counter =
      let v = show_int (pos count +ℤ pos 1) in
      record {
        size = lookup-insert "event_counter" "parts" v info ∙ h.size;
        result = lookup-insert "event_counter" "event_result" v info ∙ h.result;
        counter =
            ap field_number (lookup-insert "event_counter" "event_counter" v info)
            ∙ parse-show_int (pos count +ℤ pos 1)
            ∙ ap some (one_more count);
        statuses = part_status-other "event_counter" v info refl ∙ h.statuses;
      }

module _ (id : String) (r : Redis) (n : ℕ) (parts : Dict String) (failed : Bool) (count : ℕ) where
  abbrev k : String
  k = multipart_info_key id

  pub mark_success_lem :
      (x : String) (info : Dict String)
      → as_hash (value_at r k) ≡ some info
      → Shows n parts failed count info
      → let (res, r') = update_multipart_info_success id x r in
        (res ≡ ok tt) × Tracks id n (insert x "ack" parts) failed count r'
  unfolding update_multipart_info_success hgetall
  mark_success_lem x [] held h = absurd (no_size h.size)
  mark_success_lem x (e ∷ m) held h =
      let (done, put) = hset-Puts k r (e ∷ m) held (part_key x) "ack" in
      rw held (
        rw done (
          refl,
          (
            insert (part_key x) "ack" (e ∷ m),
            ap as_hash put.at,
            Shows-part n parts failed count (e ∷ m) h x "ack",
          ),
        ))

  pub mark_failure_lem :
      (x : String) (info : Dict String)
      → as_hash (value_at r k) ≡ some info
      → Shows n parts failed count info
      → let (res, r') = update_multipart_info_failure id x r in
        (res ≡ ok tt) × Tracks id n (insert x "fail" parts) true count r'
  unfolding update_multipart_info_failure hgetall
  mark_failure_lem x [] held h = absurd (no_size h.size)
  mark_failure_lem x (e ∷ m) held h =
      let info1 = insert (part_key x) "fail" (e ∷ m) in
      let (done, put) = hset-Puts k r (e ∷ m) held (part_key x) "fail" in
      let r1 = (hset k (part_key x) "fail" r).1 in
      let (done1, put1) = hset-Puts k r1 info1 (ap as_hash put.at) "event_result" "fail" in
      rw held (
        rw done (
          rw done1 (
            refl,
            (
              insert "event_result" "fail" info1,
              ap as_hash put1.at,
              Shows-result n (insert x "fail" parts) failed count info1
                  (Shows-part n parts failed count (e ∷ m) h x "fail"),
            ),
          )))

  -- The event type, as the code finds it.
  event_type_of-eq :
      (info : Dict String)
      → Shows n parts failed count info
      → event_type_of (lookup "event_result" info) (lookup "parts" info) (part_status info) r
        ≡ (ok (if is_due n parts failed then some (due_type parts failed) else none), r)
  unfolding event_type_of
  event_type_of-eq info h = rw (h.result, h.size, h.statuses) (ground (arith, parse-show_nat n))

  abbrev event_after : Option Event
  event_after =
      if is_due n parts failed && (count == 0)
      then some (due_type parts failed, ids_of parts)
      else none

  confirm_lem :
      (info : Dict String) (t ids : String)
      → as_hash (value_at r k) ≡ some info
      → Shows n parts failed count info
      → let (res, r') = confirm_multipart_event id ids (some t) r in
        (res ≡ ok (if count == 0 then some (t, ids) else none))
        × Tracks id n parts failed (count + 1) r'
  unfolding confirm_multipart_event
  confirm_lem info t ids held h =
      let number = number_of-eq (lookup "event_counter" info) (pos count) r h.counter in
      let (done, put) = hincrby-Puts k "event_counter" (pos count) (pos 1) r info held number in
      rw done (
        ap (λ b. ok (if b then some (t, ids) else none)) (first_count count),
        (
          insert "event_counter" (show_int (pos count +ℤ pos 1)) info,
          ap as_hash put.at,
          Shows-counter n parts failed count info h,
        ),
      )

  pub get_multipart_event_info_lem :
      (t x : String) (info : Dict String)
      → as_hash (value_at r k) ≡ some info
      → Shows n parts failed count info
      → let (res, r') = get_multipart_event_info id t x r in
        (res ≡ ok event_after)
        × Tracks id n parts failed (if is_due n parts failed then count + 1 else count) r'
  unfolding get_multipart_event_info hgetall
  get_multipart_event_info_lem t x [] held h = absurd (no_size h.size)
  get_multipart_event_info_lem t x (e ∷ m) held h =
      let found = event_type_of-eq (e ∷ m) h in
      elim (Bool-cases (is_due n parts failed)) [
        | inr early ↦
            let still =
              found ∙ ap (λ b. (ok (if b then some (due_type parts failed) else none), r)) early in
            rw held (rw early (rw still (refl, (e ∷ m, held, h))))
        | inl due ↦
            let done =
              found ∙ ap (λ b. (ok (if b then some (due_type parts failed) else none), r)) due in
            let t = due_type parts failed in
            let (res, tracks) = confirm_lem (e ∷ m) t (ids_of (part_status (e ∷ m))) held h in
            rw held (
              rw due (
                rw done (
                  res ∙ ap (λ p. ok (if count == 0 then some (t, ids_of p) else none)) h.statuses,
                  tracks,
                )))
      ]
