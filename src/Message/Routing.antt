-- ===== src/Message/Routing.antt =====
-- The endpoint in a message's routing metadata (vumi/message.py).
use vumi.Base.{String, ◌≡◌, refl, ap, Option, some, [], is_some}
use vumi.Base.Dict.{set_default-present, Dict, lookup, insert, lookup-insert}
use vumi.Base.Exec.{ok}
use vumi.Message.{Payload, Scalar, dict}
use vumi.Message.Methods.{
  routing_metadata, set_routing_endpoint, get_routing_endpoint, check_routing_endpoint, endpoint_in,
}

pub routing_metadata-eq :
    (p : Payload) (d : Dict Scalar)
    → lookup "routing_metadata" p ≡ some (dict d)
    → routing_metadata p ≡ (ok d, p)
unfolding routing_metadata
routing_metadata-eq p d h =
    rw (set_default-present "routing_metadata" (dict []) p (ap is_some h), h) refl

module _ (p : Payload) (d : Dict Scalar) where
  -- The payload with its endpoint set.
  abbrev pub routed : Option String → Payload
  routed e =
      insert "routing_metadata"
        (dict (insert "endpoint_name" (Scalar.text (check_routing_endpoint e)) d)) p

  pub set_routing_endpoint-eq :
      (e : Option String)
      → lookup "routing_metadata" p ≡ some (dict d)
      → set_routing_endpoint e p ≡ (ok tt, routed e)
  unfolding set_routing_endpoint
  set_routing_endpoint-eq e h = rw (routing_metadata-eq p d h) refl

  -- The endpoint that was set is the one that is got, and `default` where none was named; the
  -- payload stays as it is.
  pub get_routing_endpoint-routed :
      (e : Option String)
      → get_routing_endpoint (routed e) ≡ (ok (check_routing_endpoint e), routed e)
  unfolding get_routing_endpoint
  get_routing_endpoint-routed e =
      let d' = insert "endpoint_name" (Scalar.text (check_routing_endpoint e)) d in
      let there : lookup "routing_metadata" (routed e) ≡ some (dict d') =
        lookup-insert "routing_metadata" "routing_metadata" (dict d') p in
      let named : lookup "endpoint_name" d' ≡ some (Scalar.text (check_routing_endpoint e)) =
        lookup-insert "endpoint_name" "endpoint_name" (Scalar.text (check_routing_endpoint e)) d in
      rw (routing_metadata-eq (routed e) d' there) (ap (λ o. endpoint_in o (routed e)) named)
