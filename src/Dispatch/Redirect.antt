-- ===== src/Dispatch/Redirect.antt =====
-- `RedirectRouter` and `FromAddrMultiplexRouter` of vumi/dispatchers/base.py: messages that go on
-- under another transport name.
use vumi.Base.{
  ◌+◌, String, ◌≡◌, refl, true, false, none, some, if◌then◌else◌, Bool-cases, inl, inr, str_eq, ◌⊎◌,
}
use vumi.Base.Dict.{Dict, lookup, insert}
use vumi.Base.PySet.{member}
use vumi.Base.Exec.{ok, err, config_error}
use vumi.Message.{Payload, text}
use vumi.Dispatch.{
  Kind, outbound_message, Dispatcher, Middlewares, names_of, redirect_inbound, redirect_outbound,
  multiplex_inbound, multiplex_outbound,
}
use vumi.Dispatch.Simple.{field_of-eq, publication, with_sent, publish-eq}

-- The message under another transport name.
abbrev pub renamed : String → Payload → Payload
renamed name msg = insert "transport_name" (text name) msg

module _ (apply_publish : Middlewares) (msg : Payload) (d : Dispatcher) where
  -- The dispatcher after a message was published under a name.
  abbrev pub sent_as : Kind → String → Payload → Dispatcher
  sent_as kind name m =
      with_sent apply_publish kind (publication apply_publish kind name (apply_publish kind name m))
        d

  -- An inbound message or event whose transport is mapped to an exposed name with a publisher
  -- goes there, with its transport name changed to that name; if the name is empty,
  -- `ConfigError` is raised and nothing is published.
  pub redirect_inbound_lem :
      (kind : Kind) (mappings : Dict String) (t name : String)
      → lookup "transport_name" msg ≡ some (text t)
      → lookup t mappings ≡ some name
      → member name (names_of kind d) ≡ true
      → redirect_inbound apply_publish kind mappings msg d ≡ (
          if str_eq name ""
          then (err config_error, d)
          else (ok tt, sent_as kind name (renamed name msg)))
  unfolding redirect_inbound
  redirect_inbound_lem kind mappings t name h route there =
      rw (field_of-eq "transport_name" (text t) msg h) (
        rw route (elim (Bool-cases (str_eq name "")) [
          | inl nowhere ↦ rw nowhere refl
          | inr somewhere ↦
              rw somewhere (publish-eq apply_publish kind name (renamed name msg) d there)
        ]))

  -- An outbound message goes unchanged to the transport that its transport name is mapped to; with
  -- no mapping, or one to the empty name, an error is logged and nothing is published.
  pub redirect_outbound_lem :
      (mappings : Dict String) (t : String)
      → lookup "transport_name" msg ≡ some (text t)
      → ((name : String)
          → lookup t mappings ≡ some name
          → str_eq name "" ≡ false
          → member name d.transport_names ≡ true
          → redirect_outbound apply_publish mappings msg d
            ≡ (ok tt, sent_as outbound_message name msg))
        × ((lookup t mappings ≡ none) ⊎ (lookup t mappings ≡ some "")
            → redirect_outbound apply_publish mappings msg d
              ≡ (ok tt, record d { logged = d.logged + 1 }))
  unfolding redirect_outbound
  redirect_outbound_lem mappings t h = (
    λ name found somewhere there.
        rw (field_of-eq "transport_name" (text t) msg h)
          (rw found (rw somewhere (publish-eq apply_publish outbound_message name msg d there))),
    λ route.
        rw (field_of-eq "transport_name" (text t) msg h)
          (elim route [ inl missing ↦ rw missing refl | inr empty ↦ rw empty refl ]),
  )

  -- `FromAddrMultiplexRouter`: every message and event comes in under the one exposed name, and
  -- an outbound message goes to the transport of its `from_addr`, which becomes its transport name.
  pub multiplex_lem :
      (kind : Kind) (mappings : Dict String) (exposed from transport : String)
      → member exposed (names_of kind d) ≡ true
      → lookup "from_addr" msg ≡ some (text from)
      → lookup from mappings ≡ some transport
      → member transport d.transport_names ≡ true
      → (multiplex_inbound apply_publish kind exposed msg d
          ≡ (ok tt, sent_as kind exposed (renamed exposed msg)))
        × (multiplex_outbound apply_publish mappings msg d
            ≡ (ok tt, sent_as outbound_message transport (renamed transport msg)))
  unfolding multiplex_inbound multiplex_outbound
  multiplex_lem kind mappings exposed from transport in_names h route out_names = (
    publish-eq apply_publish kind exposed (renamed exposed msg) d in_names,
    rw (field_of-eq "from_addr" (text from) msg h) (
        rw route (
          publish-eq apply_publish outbound_message transport (renamed transport msg) d out_names)),
  )
