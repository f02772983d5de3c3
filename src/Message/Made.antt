-- ===== src/Message/Made.antt =====
-- What the constructor of a user message in vumi/message.py makes of its arguments.
use mathlib.Core.Path.{subst}
use vumi.Base.{String, ◌≡◌, refl, sym, ap, ◌∙◌, true, Option, none, some, [], ◌∷◌, is_some}
use vumi.Base.Int.{ℤ}
use vumi.Base.Dict.{set_default-present, lookup, contains, set_default}
use vumi.Base.Exec.{ok}
use vumi.Message.{
  Payload, Value, null, text, dict, user_message, make, process_fields, process_user, process_base,
  user_fields, is_session_event, message_version,
}
use vumi.Message.Fields.{
  HasAll, default_at, lookup-set_default, set_default-kept, set_default-contains,
}
use vumi.Message.Validity.{base_fields, IsUser, with_defaults, load-IsUser}

-- Arguments that a user message can be made of: no version and no type of its own, the two
-- addresses, the transport, and a session event that is one, or none.
pub record IsSendable (fields : Payload) : Type 0 where
  pub version : lookup "message_version" fields ≡ none
  pub kind : lookup "message_type" fields ≡ none
  pub addressed : HasAll ("to_addr" ∷ "from_addr" ∷ "transport_name" ∷ "transport_type" ∷ []) fields
  pub session :
      (v : Value) × (default_at true (lookup "session_event" fields) null ≡ some v)
      × (is_session_event v ≡ ok true)

is_some-default_at : (o : Option Value) (v : Value) → is_some (default_at true o v) ≡ true
is_some-default_at none v = refl
is_some-default_at (some w) v = refl

module _ (now : ℤ) (id : String) (fields : Payload) where
  abbrev pub processed : Payload
  processed = process_fields user_message now id fields

  -- What was given stays.
  pub process-kept :
      (j : String) (v : Value) → lookup j fields ≡ some v → lookup j processed ≡ some v
  unfolding process_fields process_user process_base
  process-kept j v h =
      let a = set_default-kept j "message_version" v _ _ h in
      let b = set_default-kept j "message_type" v _ _ a in
      let c = set_default-kept j "timestamp" v _ _ b in
      let d = set_default-kept j "routing_metadata" v _ _ c in
      let e = set_default-kept j "helper_metadata" v _ _ d in
      let f = set_default-kept j "message_id" v _ _ e in
      let g = set_default-kept j "in_reply_to" v _ _ f in
      let k = set_default-kept j "session_event" v _ _ g in
      let l = set_default-kept j "content" v _ _ k in
      let m = set_default-kept j "transport_metadata" v _ _ l in set_default-kept j "group" v _ _ m

  pub process-session_event :
      lookup "session_event" processed ≡ default_at true (lookup "session_event" fields) null
  unfolding process_fields process_user process_base
  process-session_event = simp lookup-set_default refl

  pub process-message_version :
      lookup "message_version" processed
      ≡ default_at true (lookup "message_version" fields) (text message_version)
  unfolding process_fields process_user process_base
  process-message_version = simp lookup-set_default refl

  pub process-message_type :
      lookup "message_type" processed
      ≡ default_at true (lookup "message_type" fields) (text "user_message")
  unfolding process_fields process_user process_base
  process-message_type = simp lookup-set_default refl

  process-base_fields : HasAll base_fields processed
  unfolding process_fields process_user process_base
  process-base_fields = (
    simp lookup-set_default (is_some-default_at _ _),
    (
      simp lookup-set_default (is_some-default_at _ _),
      (simp lookup-set_default (is_some-default_at _ _), tt),
    ),
  )

  process-user_fields :
      HasAll ("to_addr" ∷ "from_addr" ∷ "transport_name" ∷ "transport_type" ∷ []) fields
      → HasAll user_fields processed
  unfolding process_fields process_user process_base
  process-user_fields (to, (from, (name, (type, end)))) = (
    simp lookup-set_default (is_some-default_at _ _),
    (
      simp lookup-set_default to,
      (
        simp lookup-set_default from,
        (
          simp lookup-set_default (is_some-default_at _ _),
          (
            simp lookup-set_default (is_some-default_at _ _),
            (
              simp lookup-set_default (is_some-default_at _ _),
              (
                simp lookup-set_default name,
                (
                  simp lookup-set_default type,
                  (
                    simp lookup-set_default (is_some-default_at _ _),
                    (simp lookup-set_default (is_some-default_at _ _), tt),
                  ),
                ),
              ),
            ),
          ),
        ),
      ),
    ),
  )

  process-group : contains "group" processed ≡ true
  unfolding process_fields process_user
  process-group = set_default-contains "group" null _

  filled : with_defaults processed ≡ processed
  filled =
      let (type, (stamp, (helper, e))) = process-base_fields in
      let same = set_default-present "helper_metadata" (dict []) processed helper in
      ap (set_default "group" null) same ∙ set_default-present "group" null processed process-group

  -- Arguments with no version and no message type of their own, with the two addresses and the
  -- name and the type of the transport, and with a session event that is one of the four or is
  -- not there, make a user message: what was not given gets its default, and the message is
  -- valid.
  pub make-IsSendable :
      IsSendable fields → (make user_message now id fields ≡ ok processed) × IsUser processed
  unfolding make
  make-IsSendable h =
      let valid : IsUser processed = record {
        transport = record {
          version =
              process-message_version
              ∙ ap (λ o. default_at true o (text message_version)) h.version;
          present = process-base_fields;
          typed = (
            text "user_message",
            process-message_type ∙ ap (λ o. default_at true o (text "user_message")) h.kind,
            refl,
          );
        };
        present = process-user_fields h.addressed;
        session = (h.session.0, process-session_event ∙ h.session.1, h.session.2);
      } in
      (
        (load-IsUser processed processed).1 (subst (λ x. IsUser x) (sym filled) valid, sym filled),
        valid,
      )
