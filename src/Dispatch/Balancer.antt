-- ===== src/Dispatch/Balancer.antt =====
-- `LoadBalancingRouter` of vumi/dispatchers/load_balancer.py. The list of transport names that a
-- message carries in its `helper_metadata` stands beside its payload, as `transport_names`. The
-- cycle over the names is the list of those that come next.
pub mod Affinity
use vumi.Base.{
  ℕ, String, Bool, true, false, not, Option, none, some, List, [], ◌∷◌, ◌++◌, ◌&&◌, if◌then◌else◌,
  str_eq, length, ◌==◌,
}
use vumi.Base.Dict.{lookup, insert}
use vumi.Base.PySet.{member}
use vumi.Base.Exec.{
  Exec, Result, ok, err, config_error, key_error, type_error, pure, raise, lift, gets, modify, skip,
  or_raise, ◌>>=◌, ◌>>◌,
}
use vumi.Message.{Payload, Value, null, text, dict, sequence}
use vumi.Dispatch.{
  Kind, inbound_message, inbound_event, outbound_message, Dispatcher, Middlewares, names_of,
  publish, field_of,
}

pub record Msg : Type 0 where
  pub payload : Payload
  pub transport_names : List Value

pub record Balancer : Type 0 where
  pub reply_affinity : Bool
  pub rewrite_transport_names : Bool
  pub exposed_name : String
  pub transport_name_cycle : List String
  pub transport_name_set : List String

-- The router, and the dispatcher that it publishes by.
pub record State : Type 0 where
  pub router : Balancer
  pub dispatcher : Dispatcher

abbrev pub on_dispatcher : {A : Type 0} → Exec Dispatcher A → Exec State A
on_dispatcher m s = let (res, d) = m s.dispatcher in (res, record s { dispatcher = d })

-- `setup_routing`; the two options are true where the configuration has none.
abbrev pub make_router : Bool → Bool → List String → List String → Result Balancer
make_router affinity rewrite [] transports = err config_error
make_router affinity rewrite (e ∷ f ∷ es) transports = err config_error
make_router affinity rewrite (e ∷ []) [] = err config_error
make_router affinity rewrite (e ∷ []) (t ∷ ts) = ok (record {
  reply_affinity = affinity;
  rewrite_transport_names = rewrite;
  exposed_name = e;
  transport_name_cycle = t ∷ ts;
  transport_name_set = t ∷ ts;
})

abbrev pub option_or_true : Option Bool → Bool
option_or_true none = true
option_or_true (some b) = b

unfoldable pub setup_routing : Option Bool → Option Bool → Exec Dispatcher Balancer
setup_routing reply_affinity rewrite d = (
  make_router (option_or_true reply_affinity) (option_or_true rewrite) (names_of inbound_message d)
      (names_of outbound_message d),
  d,
)

abbrev pub push_transport_name : Msg → Value → Msg
push_transport_name msg name = record msg { transport_names = msg.transport_names ++ name ∷ [] }

-- The last of the names, and the names without it.
unfoldable pub pop : List Value → Option (Value × List Value)
pop [] = none
pop (x ∷ xs) = elim (pop xs) [ none ↦ some (x, []) | some (z, rest) ↦ some (z, x ∷ rest) ]

abbrev pub popped : Msg → Option (Value × List Value) → Option Value × Msg
popped msg none = (none, msg)
popped msg (some (name, rest)) = (some name, record msg { transport_names = rest })

unfoldable pub pop_transport_name : Msg → Option Value × Msg
unfolding pop
pop_transport_name msg = popped msg (pop msg.transport_names)

-- `next` of the cycle
abbrev pub next : Balancer → List String → Result String × Balancer
next b [] = (err key_error, b)
next b (t ∷ ts) = (ok t, record b { transport_name_cycle = ts ++ t ∷ [] })

abbrev pub next_transport : Exec State String
next_transport s =
    let (res, b) = next s.router s.router.transport_name_cycle in (res, record s { router = b })

abbrev pub rename_to : Bool → String → Payload → Payload
rename_to rewrite name p = if rewrite then insert "transport_name" (text name) p else p

-- A published message, with the names that it carries.
abbrev pub Carrying : Type 0
Carrying = List Value → Middlewares

abbrev pub pushed : Bool → Msg → Exec State Msg
pushed false msg = pure msg
pushed true msg = do
  v ← lift (field_of "transport_name" msg.payload)
  pure (push_transport_name msg v)

-- `if msg['in_reply_to']`: a number or a list counts as there.
abbrev pub truthy : Value → Bool
truthy null = false
truthy (text t) = not (str_eq t "")
truthy _ = true

-- A transport that the router does not know is answered with the next one in turn.
abbrev pub known_or_next : Balancer → Option Value → Exec State String
known_or_next b (some (text name)) =
    if member name b.transport_name_set then pure name else next_transport
known_or_next b (some (dict _)) = raise type_error
known_or_next b (some (sequence _)) = raise type_error
known_or_next b _ = next_transport

abbrev pub is_reply : Bool → Msg → Exec State Bool
is_reply false msg = pure false
is_reply true msg = do v ← lift (field_of "in_reply_to" msg.payload); pure (truthy v)

-- The transport, and the message without the name that was popped.
abbrev pub choose : Balancer → Bool → Msg → Exec State (String × Msg)
choose b false msg = do name ← next_transport; pure (name, msg)
choose b true msg = do
  name ← known_or_next b (pop_transport_name msg).0
  pure (name, (pop_transport_name msg).1)

module _ (apply_publish : Carrying) where
  abbrev pub send : Kind → String → Msg → Exec State (Unit {0})
  send kind name msg =
      on_dispatcher (publish (apply_publish msg.transport_names) kind name msg.payload)

  unfoldable pub balance_inbound : Msg → Exec State (Unit {0})
  unfolding field_of publish
  balance_inbound msg = do
    b ← gets (λ s. s.router)
    m ← pushed b.reply_affinity msg
    send inbound_message b.exposed_name
        (record m { payload = rename_to b.rewrite_transport_names b.exposed_name m.payload })

  unfoldable pub balance_event : Msg → Exec State (Unit {0})
  unfolding publish
  balance_event msg = do
    b ← gets (λ s. s.router)
    send inbound_event b.exposed_name
        (record msg { payload = rename_to b.rewrite_transport_names b.exposed_name msg.payload })

  unfoldable pub balance_outbound : Msg → Exec State (Unit {0})
  unfolding field_of publish pop_transport_name
  balance_outbound msg = do
    b ← gets (λ s. s.router)
    reply ← is_reply b.reply_affinity msg
    chosen ← choose b reply msg
    send outbound_message chosen.0 (record chosen.1 {
      payload = rename_to b.rewrite_transport_names chosen.0 chosen.1.payload;
    })
