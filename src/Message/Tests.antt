-- ===== src/Message/Tests.antt =====
-- Runs of the messages, and the theorems at concrete inputs.
use vumi.Base.{◌≡◌, refl, false, [], ◌∷◌, ◌↔◌}
use vumi.Base.Int.{pos}
use vumi.Base.Dict.{lookup, set_default}
use vumi.Base.Exec.{ok}
use vumi.Message.{Payload, Value, Scalar, user_message, load}
use vumi.Message.Methods.{reply, get_routing_endpoint, routing_metadata, has_any}
use vumi.Message.Validity.{IsUser, with_defaults, load-IsUser}
use vumi.Message.Made.{IsSendable, processed}
use vumi.Message.Replies.{IsAddressed, IsReply, reply_lem}

abbrev payload : Payload
payload =
    ("to_addr", Value.text "123")
    ∷ ("from_addr", Value.text "456")
    ∷ ("transport_name", Value.text "sms")
    ∷ ("transport_type", Value.text "sms")
    ∷ ("message_id", Value.text "m1")
    ∷ ("group", Value.text "g")
    ∷ ("helper_metadata", Value.dict [])
    ∷ ("transport_metadata", Value.dict [])
    ∷ ("routing_metadata", Value.dict (("endpoint_name", Scalar.text "foo") ∷ []))
    ∷ []

payload-IsSendable : IsSendable payload
unfolding lookup
payload-IsSendable = record {
  version = refl;
  kind = refl;
  addressed = (refl, (refl, (refl, (refl, tt))));
  session = (Value.null, refl, refl);
}

load-IsUser_example :
    let p = processed (pos 7) "m2" payload in
    (load user_message p ≡ ok p) ↔ (IsUser (with_defaults p) × (p ≡ with_defaults p))
load-IsUser_example = load-IsUser (processed (pos 7) "m2" payload) (processed (pos 7) "m2" payload)

payload-IsAddressed :
    IsAddressed payload
      (Value.text "456")
      (Value.text "123")
      (Value.text "g")
      (Value.text "m1")
      (Value.text "sms")
      (Value.text "sms")
      (Value.dict [])
      (Value.dict [])
unfolding lookup
payload-IsAddressed = record {
  from_addr = refl;
  to_addr = refl;
  group_of = refl;
  message_id = refl;
  transport_name = refl;
  transport_type = refl;
  transport_metadata = refl;
  helper_metadata = refl;
}

endpoint : get_routing_endpoint payload ≡ (ok "foo", payload)
unfolding get_routing_endpoint routing_metadata lookup set_default
endpoint = refl

abbrev kw : Payload
kw = ("message_id", Value.text "m9") ∷ []

reply_lem_example :
    (out : Payload) × (reply (pos 7) "m2" (Value.text "hi") false kw payload ≡ (ok out, payload))
    × IsReply
        (pos 7)
        "m2"
        (Value.text "hi")
        false
        kw
        payload
        (Value.text "456")
        (Value.text "123")
        (Value.text "g")
        (Value.text "m1")
        (Value.text "sms")
        (Value.text "sms")
        (Value.dict [])
        (Value.dict [])
        payload-IsAddressed
        "foo"
        out
unfolding lookup has_any
reply_lem_example =
    reply_lem (pos 7) "m2" (Value.text "hi") false kw payload (Value.text "456") (Value.text "123")
      (Value.text "g") (Value.text "m1") (Value.text "sms") (Value.text "sms") (Value.dict [])
      (Value.dict []) payload-IsAddressed refl refl "foo" payload endpoint
