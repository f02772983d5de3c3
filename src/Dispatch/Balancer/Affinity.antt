-- ===== src/Dispatch/Balancer/Affinity.antt =====
-- A reply goes out by the transport that the message came in on; other messages take turns.
use vumi.Base.{String, ◌≡◌, refl, ap, ◌∙◌, true, false, not, some, List, [], ◌∷◌, ◌++◌, str_eq}
use vumi.Base.Dict.{lookup}
use vumi.Base.PySet.{member}
use vumi.Base.Exec.{ok}
use vumi.Message.{Value, text}
use vumi.Dispatch.{outbound_message, Dispatcher}
use vumi.Dispatch.Simple.{field_of-eq, publish-eq, publication, with_sent}
use vumi.Dispatch.Balancer.{
  Msg, Balancer, State, Carrying, pop, push_transport_name, pop_transport_name, choose, rename_to,
  balance_outbound, is_reply,
}

pop-snoc : (l : List Value) (x : Value) → pop (l ++ x ∷ []) ≡ some (x, l)
unfolding pop
pop-snoc [] x = refl
pop-snoc (y ∷ l) x = rw (pop-snoc l x) refl

choose-push_transport_name :
    (b : Balancer) (msg : Msg) (name : String) (s : State)
    → member name b.transport_name_set ≡ true
    → choose b true (push_transport_name msg (text name)) s ≡ (ok (name, msg), s)
unfolding pop_transport_name
choose-push_transport_name b msg name s known =
    rw (pop-snoc msg.transport_names (text name)) (rw known refl)

module _ (apply_publish : Carrying) (msg : Msg) (s : State) where
  -- The dispatcher after the message was published, renamed if the router renames.
  abbrev pub published : String → Dispatcher
  published name =
      with_sent (apply_publish msg.transport_names) outbound_message
        (publication (apply_publish msg.transport_names) outbound_message name (
          apply_publish msg.transport_names outbound_message name
            (rename_to s.router.rewrite_transport_names name msg.payload)))
        s.dispatcher

  -- With reply affinity, a reply which carries the name of a transport of the router as the last
  -- of its names goes out by that transport, if it has a publisher, without that name and with
  -- the names before it; the turn of the other messages does not move.
  pub balance_outbound-reply :
      (name id : String)
      → s.router.reply_affinity ≡ true
      → lookup "in_reply_to" msg.payload ≡ some (text id)
      → str_eq id "" ≡ false
      → member name s.router.transport_name_set ≡ true
      → member name s.dispatcher.transport_names ≡ true
      → balance_outbound apply_publish (push_transport_name msg (text name)) s
        ≡ (ok tt, record s { dispatcher = published name })
  unfolding balance_outbound
  balance_outbound-reply name id affine reply is known there =
      let m = push_transport_name msg (text name) in
      let yes_ : is_reply s.router.reply_affinity m s ≡ (ok true, s) =
        ap (λ a. is_reply a m s) affine
        ∙ (rw (field_of-eq "in_reply_to" (text id) msg.payload reply)
            (ap (λ b. (ok (not b), s)) is)) in
      rw yes_ (
        rw (choose-push_transport_name s.router msg name s known) (
          rw
            (publish-eq (apply_publish msg.transport_names) outbound_message name
              (rename_to s.router.rewrite_transport_names name msg.payload) s.dispatcher there)
            refl))

  -- Without reply affinity a message goes out by the transport whose turn it is, if it has a
  -- publisher, and that transport then goes to the end of the line.
  pub balance_outbound-turn :
      (t : String) (ts : List String)
      → s.router.reply_affinity ≡ false
      → s.router.transport_name_cycle ≡ t ∷ ts
      → member t s.dispatcher.transport_names ≡ true
      → balance_outbound apply_publish msg s ≡ (
        ok tt,
        record s {
          router = record s.router { transport_name_cycle = ts ++ t ∷ [] };
          dispatcher = published t;
        },
      )
  unfolding balance_outbound
  balance_outbound-turn t ts plain turn there = rw plain (
      rw turn (
        rw
          (publish-eq (apply_publish msg.transport_names) outbound_message t
            (rename_to s.router.rewrite_transport_names t msg.payload) s.dispatcher there)
          refl))
