-- ===== src/Message/Replies.antt =====
-- What `reply` and `reply_group` of vumi/message.py make of a message.
use vumi.Base.{
  String, ◌≡◌, refl, ap, ◌∙◌, Bool, true, false, some, List, [], ◌∷◌, str_eq, Bool-cases, inl, inr,
  is_some, if◌then◌else◌,
}
use vumi.Base.Int.{ℤ}
use vumi.Base.Dict.{Dict, lookup-insert, insert, lookup, contains, update}
use vumi.Base.PySet.{member}
use vumi.Base.Exec.{ok}
use vumi.Message.{
  is_null, set_item, Payload, Value, Scalar, null, text, dict, process_fields, process_user,
  process_base, is_session_event,
}
use vumi.Message.Methods.{
  has_any, reply_group, reply_fields, get_routing_endpoint, protected_fields, reply,
}
use vumi.Message.Fields.{get_item-eq, lookup-update, default_at, lookup-set_default}
use vumi.Message.Routing.{routed, set_routing_endpoint-eq, get_routing_endpoint-routed}
use vumi.Message.Protected.{has_any-absent}
use vumi.Message.Made.{IsSendable, processed, process-kept, make-IsSendable}

-- The values of the fields of a message that a reply to it is made from.
pub record IsAddressed (p : Payload) (from to group id name type meta helper : Value) : Type 0 where
  pub from_addr : lookup "from_addr" p ≡ some from
  pub to_addr : lookup "to_addr" p ≡ some to
  pub group_of : lookup "group" p ≡ some group
  pub message_id : lookup "message_id" p ≡ some id
  pub transport_name : lookup "transport_name" p ≡ some name
  pub transport_type : lookup "transport_type" p ≡ some type
  pub transport_metadata : lookup "transport_metadata" p ≡ some meta
  pub helper_metadata : lookup "helper_metadata" p ≡ some helper

-- The arguments that a reply may not have, and those that make another kind of message of it.
abbrev pub reserved : List String
reserved =
    "message_version" ∷ "message_type" ∷ "session_event" ∷ "routing_metadata" ∷ "content" ∷ []

module _ (now : ℤ) (new_id : String) (content : Value) (continue_session : Bool) (kw p : Payload)
    (from to group id name type meta helper : Value)
    (h : IsAddressed p from to group id name type meta helper) where
  abbrev event : Value
  event = if continue_session then null else text "close"

  abbrev plain : Payload
  plain =
      ("helper_metadata", helper)
      ∷ ("session_event", event)
      ∷ ("to_addr", from)
      ∷ ("from_addr", to)
      ∷ ("group", group)
      ∷ ("in_reply_to", id)
      ∷ ("transport_name", name)
      ∷ ("transport_type", type)
      ∷ ("transport_metadata", meta)
      ∷ []

  reply_fields_lem : reply_fields continue_session p ≡ (ok plain, p)
  unfolding reply_fields
  reply_fields_lem =
      rw
        (
          get_item-eq "helper_metadata" helper p h.helper_metadata,
          get_item-eq "from_addr" from p h.from_addr,
          get_item-eq "to_addr" to p h.to_addr,
          get_item-eq "group" group p h.group_of,
          get_item-eq "message_id" id p h.message_id,
          get_item-eq "transport_name" name p h.transport_name,
          get_item-eq "transport_type" type p h.transport_type,
          get_item-eq "transport_metadata" meta p h.transport_metadata,
        )
        refl

  -- What the reply is made from.
  abbrev args : Payload
  args = ("content", content) ∷ update plain kw

  -- A reply: the addresses are swapped, it names the message and its group, it goes by the same
  -- transport and endpoint, and it has the content and the session event that were asked for.
  pub record IsReply (endpoint : String) (out : Payload) : Type 0 where
    pub to_addr : lookup "to_addr" out ≡ some from
    pub from_addr : lookup "from_addr" out ≡ some to
    pub group_of : lookup "group" out ≡ some group
    pub in_reply_to : lookup "in_reply_to" out ≡ some id
    pub transport_name : lookup "transport_name" out ≡ some name
    pub transport_type : lookup "transport_type" out ≡ some type
    pub transport_metadata : lookup "transport_metadata" out ≡ some meta
    pub content_of : lookup "content" out ≡ some content
    pub session_event : lookup "session_event" out ≡ some event
    pub endpoint_of : get_routing_endpoint out ≡ (ok endpoint, out)
    pub routing : (d : Dict Scalar) × (lookup "routing_metadata" out ≡ some (dict d))

  -- Naming its endpoint once more leaves a reply a reply.
  pub IsReply-routed :
      (endpoint : String) (out : Payload) (d : Dict Scalar)
      → IsReply endpoint out
      → IsReply endpoint (routed out d (some endpoint))
  unfolding lookup
  IsReply-routed e out d r =
      let other : (j : String)
          → str_eq "routing_metadata" j ≡ false
          → lookup j (routed out d (some e)) ≡ lookup j out =
        λ j ne. lookup-insert "routing_metadata" j _ out ∙ rw ne refl in
      record {
        to_addr = other "to_addr" refl ∙ r.to_addr;
        from_addr = other "from_addr" refl ∙ r.from_addr;
        group_of = other "group" refl ∙ r.group_of;
        in_reply_to = other "in_reply_to" refl ∙ r.in_reply_to;
        transport_name = other "transport_name" refl ∙ r.transport_name;
        transport_type = other "transport_type" refl ∙ r.transport_type;
        transport_metadata = other "transport_metadata" refl ∙ r.transport_metadata;
        content_of = other "content" refl ∙ r.content_of;
        session_event = other "session_event" refl ∙ r.session_event;
        endpoint_of = get_routing_endpoint-routed out d (some e);
        routing = (
          insert "endpoint_name" (Scalar.text e) d,
          lookup-insert "routing_metadata" "routing_metadata" _ out,
        );
      }

  in_args :
      (j : String) (v : Value)
      → lookup j plain ≡ some v
      → contains j kw ≡ false
      → str_eq "content" j ≡ false
      → lookup j args ≡ some v
  unfolding lookup
  in_args j v there absent ne = rw ne (lookup-update j plain kw absent ∙ there)

  is_session_event-event : is_session_event event ≡ ok true
  unfolding member
  is_session_event-event =
      elim continue_session
        as (λ c. is_session_event (if c then null else text "close") ≡ ok true) [
          | true ↦ refl
          | false ↦ refl
        ]

  module _ (free : has_any protected_fields kw ≡ false) (own : has_any reserved kw ≡ false) where
    -- A protected field has in the arguments what the message gives it.
    protected :
        (j : String) (v : Value)
        → lookup j plain ≡ some v
        → member j protected_fields ≡ true
        → str_eq "content" j ≡ false
        → lookup j args ≡ some v
    protected j v there m ne = in_args j v there (has_any-absent protected_fields j kw free m) ne

    event_in_args : lookup "session_event" args ≡ some event
    unfolding lookup member
    event_in_args =
        in_args "session_event" event refl (has_any-absent reserved "session_event" kw own refl)
          refl

    args-IsSendable : IsSendable args
    unfolding lookup member
    args-IsSendable = record {
      version =
          lookup-update "message_version" plain kw
            (has_any-absent reserved "message_version" kw own refl);
      kind =
          lookup-update "message_type" plain kw
            (has_any-absent reserved "message_type" kw own refl);
      addressed = (
        ap is_some (protected "to_addr" from refl refl refl),
        (
          ap is_some (protected "from_addr" to refl refl refl),
          (
            ap is_some (protected "transport_name" name refl refl refl),
            (ap is_some (protected "transport_type" type refl refl refl), tt),
          ),
        ),
      );
      session = (event, ap (λ o. default_at true o null) event_in_args, is_session_event-event);
    }

    abbrev made : Payload
    made = processed now new_id args

    made-routing : lookup "routing_metadata" made ≡ some (dict [])
    unfolding process_fields process_user process_base lookup member
    made-routing = simp lookup-set_default (
        ap (λ o. default_at true o (dict []))
          (lookup-update "routing_metadata" plain kw
            (has_any-absent reserved "routing_metadata" kw own refl)))

    kept :
        (endpoint j : String) (v : Value)
        → lookup j args ≡ some v
        → str_eq "routing_metadata" j ≡ false
        → lookup j (routed made [] (some endpoint)) ≡ some v
    kept endpoint j v there ne =
        lookup-insert "routing_metadata" j _ made ∙ rw ne (process-kept now new_id args j v there)

    made-IsReply : (endpoint : String) → IsReply endpoint (routed made [] (some endpoint))
    unfolding lookup member
    made-IsReply e = record {
      to_addr = kept e "to_addr" from (protected "to_addr" from refl refl refl) refl;
      from_addr = kept e "from_addr" to (protected "from_addr" to refl refl refl) refl;
      group_of = kept e "group" group (protected "group" group refl refl refl) refl;
      in_reply_to = kept e "in_reply_to" id (protected "in_reply_to" id refl refl refl) refl;
      transport_name =
          kept e "transport_name" name (protected "transport_name" name refl refl refl) refl;
      transport_type =
          kept e "transport_type" type (protected "transport_type" type refl refl refl) refl;
      transport_metadata =
          kept e "transport_metadata" meta (protected "transport_metadata" meta refl refl refl)
            refl;
      content_of = kept e "content" content refl refl;
      session_event = kept e "session_event" event event_in_args refl;
      endpoint_of = get_routing_endpoint-routed made [] (some e);
      routing = (
        insert "endpoint_name" (Scalar.text e) [],
        lookup-insert "routing_metadata" "routing_metadata" _ made,
      );
    }

    -- A reply to a message that has its fields and names an endpoint, with keyword arguments among
    -- which are no protected field, no version or type of a message, no session event, content or
    -- routing metadata: `reply` returns a message whose `to_addr` and `from_addr` are the message's,
    -- swapped; which names the message in `in_reply_to`; whose group, transport name, type and
    -- metadata and whose endpoint are the message's; whose content is the given one; and whose
    -- session event is `close` exactly if the session is not to go on. The message itself changes
    -- only as reading its endpoint changes it.
    pub reply_lem :
        (endpoint : String) (p' : Payload)
        → get_routing_endpoint p ≡ (ok endpoint, p')
        → (out : Payload) × (reply now new_id content continue_session kw p ≡ (ok out, p'))
          × IsReply endpoint out
    unfolding reply
    reply_lem endpoint p' e =
        let (done, valid) = make-IsSendable now new_id args args-IsSendable in
        (
          routed made [] (some endpoint),
          rw free (
              rw reply_fields_lem (
                rw done
                  (rw e (rw (set_routing_endpoint-eq made [] (some endpoint) made-routing) refl)))),
          made-IsReply endpoint,
        )

    -- On the conditions of `reply_lem`, and with the group still there after the endpoint was
    -- read, `reply_group` gives such a reply, but for a message with a group it has no
    -- `to_addr`.
    pub reply_group_lem :
        (endpoint : String) (p' : Payload)
        → get_routing_endpoint p ≡ (ok endpoint, p')
        → lookup "group" p' ≡ some group
        → (out : Payload) × IsReply endpoint out
          × (reply_group now new_id content continue_session kw p
              ≡ (ok (if is_null group then out else insert "to_addr" null out), p'))
    unfolding reply_group set_item
    reply_group_lem endpoint p' e g =
        let (out, done, is) = reply_lem endpoint p' e in
        (
          out,
          is,
          rw done (
              rw (get_item-eq "group" group p' g) (elim (Bool-cases (is_null group)) [
                | inl alone ↦ rw alone refl
                | inr grouped ↦ rw grouped refl
              ])),
        )
