-- ===== src/Dispatch/Simple.antt =====
-- `SimpleDispatchRouter` and `FromAddrMultiplexRouter` of vumi/dispatchers/base.py: where a message
-- goes.
use vumi.Base.{
  ◌+◌, String, ◌≡◌, refl, sym, ap, ◌∙◌, true, false, Option, none, some, List, [], ◌∷◌, ◌++◌, arith,
  if◌then◌else◌, Bool-cases, inl, inr,
}
use mathlib.Core.List.{append_assoc, append-nil}
use vumi.Base.Dict.{Dict, lookup}
use vumi.Base.PySet.{member}
use vumi.Base.Exec.{ok, err, Result, key_error, for_each, Exec}
use vumi.Message.{Payload, Value, text}
use vumi.Dispatch.{
  Kind, outbound_message, Dispatcher, Publication, Middlewares, publish, send, names_of, field_of,
  simple_inbound, simple_outbound, remapped, publish_known,
}

pub field_of-eq :
    (f : String) (v : Value) (msg : Payload) → lookup f msg ≡ some v → field_of f msg ≡ ok v
unfolding field_of
field_of-eq f v msg h = ground (arith, h)

-- Every name has a publisher.
abbrev pub AllIn : List String → List String → Type 0
AllIn [] names = Unit
AllIn (n ∷ ns) names = (member n names ≡ true) × AllIn ns names

module _ (apply_publish : Middlewares) (kind : Kind) where
  -- What is published for one name, and for some names in turn: nothing where the middleware fails.
  abbrev pub publication : String → Result Payload → List Publication
  publication name (ok payload) = record { kind = kind; endpoint = name; payload = payload } ∷ []
  publication name (err e) = []

  abbrev pub publications : List String → Payload → List Publication
  publications [] msg = []
  publications (n ∷ ns) msg = publication n (apply_publish kind n msg) ++ publications ns msg

  abbrev pub with_sent : List Publication → Dispatcher → Dispatcher
  with_sent more d = record d { sent = d.sent ++ more }

  send-publication :
      (name : String) (res : Result Payload) (d : Dispatcher)
      → send kind name res d ≡ with_sent (publication name res) d
  send-publication name (ok p) d = refl
  send-publication name (err e) d =
      ap (λ (l : List Publication). record d { sent = l }) (sym (append-nil d.sent))

  pub publish-eq :
      (name : String) (msg : Payload) (d : Dispatcher)
      → member name (names_of kind d) ≡ true
      → publish apply_publish kind name msg d
        ≡ (ok tt, with_sent (publication name (apply_publish kind name msg)) d)
  unfolding publish
  publish-eq name msg d h =
      rw h (ap (λ x. (ok tt, x)) (send-publication name (apply_publish kind name msg) d))

  pub publish-unknown :
      (name : String) (msg : Payload) (d : Dispatcher)
      → member name (names_of kind d) ≡ false
      → publish apply_publish kind name msg d ≡ (err key_error, d)
  unfolding publish
  publish-unknown name msg d h = rw h refl

-- The middlewares send nothing on their own account, so the names stay.
names_of-with_sent :
    (kind : Kind) (more : List Publication) (d : Dispatcher)
    → names_of kind (record d { sent = d.sent ++ more }) ≡ names_of kind d
names_of-with_sent Kind.inbound_message more d = refl
names_of-with_sent Kind.inbound_event more d = refl
names_of-with_sent outbound_message more d = refl

module _ (apply_publish : Middlewares) (kind : Kind) (msg : Payload) where
  abbrev publish_to : String → Exec Dispatcher (Unit {0})
  publish_to name = publish apply_publish kind name msg

  with_sent-append :
      (a b : List Publication) (d : Dispatcher)
      → with_sent apply_publish kind b (with_sent apply_publish kind a d)
        ≡ with_sent apply_publish kind (a ++ b) d
  with_sent-append a b d =
      ap (λ (l : List Publication). record d { sent = l }) (append_assoc d.sent a b)

  with_sent-nil : (d : Dispatcher) → d ≡ with_sent apply_publish kind [] d
  with_sent-nil d = ap (λ (l : List Publication). record d { sent = l }) (sym (append-nil d.sent))

  -- The names up to the first without a publisher.
  publish_all :
      (before after : List String) (d : Dispatcher)
      → AllIn before (names_of kind d)
      → for_each (before ++ after) publish_to d
        ≡ for_each after publish_to
            (with_sent apply_publish kind (publications apply_publish kind before msg) d)
  unfolding for_each
  publish_all [] after d h = ap (for_each after publish_to) (with_sent-nil d)
  publish_all (n ∷ ns) after d (here, rest) =
      let one = publication apply_publish kind n (apply_publish kind n msg) in
      let d1 = with_sent apply_publish kind one d in
      let rest1 : AllIn ns (names_of kind d1) = rw (names_of-with_sent kind one d) rest in
      rw (publish-eq apply_publish kind n msg d here) (
        publish_all ns after d1 rest1
        ∙ ap (for_each after publish_to)
            (with_sent-append one (publications apply_publish kind ns msg) d))

  -- A message or an event from a transport that is routed to names which all have a publisher is
  -- published once to each of the names, in their order, as the middleware leaves it, and to no
  -- other; where the middleware fails nothing is published for that name.
  pub simple_inbound_lem :
      (mappings : Dict (List String)) (t : String) (names : List String) (d : Dispatcher)
      → lookup "transport_name" msg ≡ some (text t)
      → lookup t mappings ≡ some names
      → AllIn names (names_of kind d)
      → simple_inbound apply_publish kind mappings msg d
        ≡ (ok tt, with_sent apply_publish kind (publications apply_publish kind names msg) d)
  unfolding simple_inbound for_each
  simple_inbound_lem mappings t names d name route all =
      rw (field_of-eq "transport_name" (text t) msg name) (
        rw route
          (ap (λ l. for_each l publish_to d) (sym (append-nil names)) ∙ publish_all names [] d all))

  -- Where the route names one without a publisher, the router raises `KeyError` there: the names
  -- before it have been published to, and those after it never are.
  pub simple_inbound-unknown :
      (mappings : Dict (List String)) (t x : String) (before after : List String) (d : Dispatcher)
      → lookup "transport_name" msg ≡ some (text t)
      → lookup t mappings ≡ some (before ++ x ∷ after)
      → AllIn before (names_of kind d)
      → member x (names_of kind d) ≡ false
      → simple_inbound apply_publish kind mappings msg d ≡ (
        err key_error,
        with_sent apply_publish kind (publications apply_publish kind before msg) d,
      )
  unfolding simple_inbound for_each
  simple_inbound-unknown mappings t x before after d name route all none_ =
      let sent = publications apply_publish kind before msg in
      let d1 = with_sent apply_publish kind sent d in
      let none1 : member x (names_of kind d1) ≡ false = rw (names_of-with_sent kind sent d) none_ in
      rw (field_of-eq "transport_name" (text t) msg name) (
        rw route (
          publish_all before (x ∷ after) d all
          ∙ (rw (publish-unknown apply_publish kind x msg d1 none1) refl)))

-- The transport that `transport_mappings` gives for a name.
abbrev pub target : String → Dict String → String
target t mappings = elim (lookup t mappings) [ none ↦ t | some new ↦ new ]

-- The dispatcher after a message for a transport of that name.
abbrev pub delivered : Middlewares → Payload → String → Dispatcher → Dispatcher
delivered apply_publish msg name d =
    if member name d.transport_names
    then with_sent apply_publish outbound_message
        (publication apply_publish outbound_message name (apply_publish outbound_message name msg))
        d
    else record d { logged = d.logged + 1 }

publish_known_lem :
    (apply_publish : Middlewares) (msg : Payload) (name : String) (d : Dispatcher)
    → publish_known apply_publish (text name) msg d ≡ (ok tt, delivered apply_publish msg name d)
publish_known_lem apply_publish msg name d = elim (Bool-cases (member name d.transport_names)) [
  | inl there ↦ rw there (publish-eq apply_publish outbound_message name msg d there)
  | inr unknown ↦ rw unknown refl
]

-- An outbound message goes to the transport that its transport name is mapped to, and to that of
-- the name itself where there is no mapping, as the middleware leaves it; if the transport has no
-- publisher, an error is logged and nothing is published.
pub simple_outbound_lem :
    (apply_publish : Middlewares) (mappings : Dict String) (msg : Payload) (t : String)
    (d : Dispatcher)
    → lookup "transport_name" msg ≡ some (text t)
    → simple_outbound apply_publish mappings msg d
      ≡ (ok tt, delivered apply_publish msg (target t mappings) d)
unfolding simple_outbound
simple_outbound_lem apply_publish mappings msg t d h =
    rw (field_of-eq "transport_name" (text t) msg h) (known (lookup t mappings))
  where
    known :
        (new : Option String)
        → publish_known apply_publish (remapped apply_publish (text t) new) msg d
          ≡ (ok tt, delivered apply_publish msg (elim new [ none ↦ t | some n ↦ n ]) d)
    known none = publish_known_lem apply_publish msg t d
    known (some n) = publish_known_lem apply_publish msg n d
