-- ===== src/Message/Validity.antt =====
-- `validate_fields` of vumi/message.py against what a valid user message and a valid event are.
use mathlib.Core.Path.{subst}
use vumi.Base.{
  ◌||◌, if◌then◌else◌, String, ◌≡◌, refl, sym, ap, ◌∙◌, true, false, some, List, [], ◌∷◌, arith,
  str_eq, Bool-cases, eq_iff, inl, inr, is_some, ◌↔◌,
}
use vumi.Base.Dict.{lookup, set_default}
use vumi.Base.PySet.{member}
use vumi.Base.Exec.{ok, err, Result, bind_inv, then_inv, lift, skip, raise, invalid_field, ◌>>=◌}
use vumi.Message.{
  Payload, Value, null, text, dict, user_message, assert_field_value, assert_field_present,
  validate_base, validate_user, user_fields, load, validate_fields, message_version, is_null,
  is_one_of, is_session_event, get_item, built,
}
use vumi.Message.Fields.{
  HasAll, lookup-set_default, get_item-eq, get_item_inv, assert_field_value-eq,
  assert_field_value_inv, assert_field_present-HasAll, HasAll-assert_field_present,
}

abbrev pub base_fields : List String
base_fields = "message_type" ∷ "timestamp" ∷ "helper_metadata" ∷ []

-- A message of the current version and of some type, with a timestamp and helper metadata.
pub record IsTransport (p : Payload) : Type 0 where
  pub version : lookup "message_version" p ≡ some (text message_version)
  pub present : HasAll base_fields p
  pub typed : (v : Value) × (lookup "message_type" p ≡ some v) × (is_null v ≡ false)

-- A user message also has its ten fields, and a session event that is one of the four.
pub record IsUser (p : Payload) : Type 0 where
  pub transport : IsTransport p
  pub present : HasAll user_fields p
  pub session : (v : Value) × (lookup "session_event" p ≡ some v) × (is_session_event v ≡ ok true)

is_one_of-version :
    (v : Value) → is_one_of (message_version ∷ []) v ≡ true → v ≡ text message_version
unfolding member
is_one_of-version null h = cc
is_one_of-version (text t) h = ap Value.text (sym (same t h))
  where
    same : (t : String) → (str_eq message_version t || false) ≡ true → message_version ≡ t
    same t h = ground (arith, h, eq_iff message_version t)
is_one_of-version (Value.time t) h = cc
is_one_of-version (dict d) h = cc
is_one_of-version (Value.other t) h = cc
is_one_of-version (Value.sequence t) h = cc

is_one_of_version : is_one_of (message_version ∷ []) (text message_version) ≡ true
unfolding member
is_one_of_version = refl

-- The payload with what validation fills in.
abbrev pub with_helper : Payload → Payload
with_helper = set_default "helper_metadata" (dict [])

same_version : (p : Payload) → lookup "message_version" (with_helper p) ≡ lookup "message_version" p
same_version p = lookup-set_default "helper_metadata" "message_version" (dict []) p

pub validate_base_complete :
    (p : Payload) → IsTransport (with_helper p) → validate_base p ≡ (ok tt, with_helper p)
unfolding validate_base
validate_base_complete p h =
    let (v, is, given) = h.typed in
    rw
      (
        assert_field_value-eq "message_version" (message_version ∷ []) (text message_version) p
            (sym (same_version p) ∙ h.version) is_one_of_version,
        assert_field_present-HasAll base_fields (with_helper p) h.present,
        get_item-eq "message_type" v (with_helper p) is,
        given,
      )
      refl

pub validate_base_sound :
    (p q : Payload) → validate_base p ≡ (ok tt, q) → IsTransport q × (q ≡ with_helper p)
unfolding validate_base
validate_base_sound p q e =
    let (u, p1, value, e1) =
      then_inv (assert_field_value "message_version" (message_version ∷ [])) _ p q tt e in
    let (ver, is_ver, right, same1) =
      assert_field_value_inv "message_version" (message_version ∷ []) p p1 value in
    let (u2, p2, present, e2) =
      then_inv (assert_field_present base_fields) _ (with_helper p1) q tt e1 in
    let (all, same2) = HasAll-assert_field_present base_fields (with_helper p1) p2 present in
    let (v, p3, got, e3) = bind_inv (get_item "message_type") _ p2 q tt e2 in
    let (is, same3) = get_item_inv "message_type" v p2 p3 got in
    elim (Bool-cases (is_null v)) [
      | inl bad ↦ ground (arith, rw bad at e3)
      | inr given ↦
          let end : p3 ≡ q = ground (arith, rw given at e3) in
          let whole : with_helper p ≡ q = ap with_helper same1 ∙ same2 ∙ same3 ∙ end in
          (
            record {
              version =
                  ap (lookup "message_version") (sym whole)
                  ∙ same_version p
                  ∙ is_ver
                  ∙ ap some (is_one_of-version ver right);
              present = subst (λ x. HasAll base_fields x) (same2 ∙ same3 ∙ end) all;
              typed = (v, ap (lookup "message_type") (sym (same3 ∙ end)) ∙ is, given);
            },
            sym whole,
          )
    ]

-- The payload with what the validation of a user message fills in.
abbrev pub with_defaults : Payload → Payload
with_defaults p = set_default "group" null (with_helper p)

session_kept :
    (p : Payload)
    → lookup "message_version" (with_defaults p) ≡ lookup "message_version" (with_helper p)
session_kept p = lookup-set_default "group" "message_version" null (with_helper p)

HasAll-set_default :
    (fs : List String) (k : String) (v : Value) (p : Payload)
    → HasAll fs p
    → HasAll fs (set_default k v p)
HasAll-set_default [] k v p h = tt
HasAll-set_default (f ∷ fs) k v p (here, rest) =
    (ground (arith, here, lookup-set_default k f v p), HasAll-set_default fs k v p rest)

-- The `group` that is filled in is no part of what makes a transport message.
IsTransport-group : (p : Payload) → IsTransport p → IsTransport (set_default "group" null p)
IsTransport-group p h = record {
  version = lookup-set_default "group" "message_version" null p ∙ h.version;
  present = HasAll-set_default base_fields "group" null p h.present;
  typed = (h.typed.0, lookup-set_default "group" "message_type" null p ∙ h.typed.1, h.typed.2);
}

-- Nor can it make one.
group-IsTransport : (p : Payload) → IsTransport (set_default "group" null p) → IsTransport p
group-IsTransport p h = record {
  version = sym (lookup-set_default "group" "message_version" null p) ∙ h.version;
  present = (
    sym (ap is_some (lookup-set_default "group" "message_type" null p)) ∙ h.present.0,
    (
      sym (ap is_some (lookup-set_default "group" "timestamp" null p)) ∙ h.present.1.0,
      (
        sym (ap is_some (lookup-set_default "group" "helper_metadata" null p)) ∙ h.present.1.1.0,
        tt,
      ),
    ),
  );
  typed =
      (h.typed.0, sym (lookup-set_default "group" "message_type" null p) ∙ h.typed.1, h.typed.2);
}

session_inv :
    (v : Value) (p q : Payload)
    → (do
      valid ← lift (is_session_event v)
      if valid then skip else raise (invalid_field "session_event"))
        p
      ≡ (ok tt, q)
    → (is_session_event v ≡ ok true) × (p ≡ q)
session_inv v p q e =
    let (valid, p', lifted, rest) = bind_inv (lift (is_session_event v)) _ p q tt e in
    elim (Bool-cases valid) [
      | inl good ↦ ground (arith, lifted, rw good at rest, good)
      | inr bad ↦ ground (arith, rw bad at rest)
    ]

-- `load` accepts a user message exactly when, with the `helper_metadata` and the `group` that older
-- messages lack filled in, it has the current version, some type, a timestamp, its ten fields and
-- a session event that is none or one of the three; the message is then the payload so filled in.
pub load-IsUser :
    (p q : Payload)
    → (load user_message p ≡ ok q) ↔ (IsUser (with_defaults p) × (q ≡ with_defaults p))
unfolding load validate_fields validate_user
load-IsUser p q = (sound, complete)
  where
    built_inv : (x : Result (Unit {0}) × Payload) → built x ≡ ok q → x ≡ (ok tt, q)
    built_inv (ok tt, s) e = ground (arith, e)
    built_inv (err x, s) e = ground (arith, e)

    sound : load user_message p ≡ ok q → IsUser (with_defaults p) × (q ≡ with_defaults p)
    sound e =
        let (u, p1, base, e1) =
          then_inv validate_base validate_user p q tt
            (built_inv (validate_fields user_message p) e) in
        let (transport, same1) = validate_base_sound p p1 base in
        let (u2, p2, present, e2) =
          then_inv (assert_field_present user_fields) _ (set_default "group" null p1) q tt e1 in
        let (all, same2) =
          HasAll-assert_field_present user_fields (set_default "group" null p1) p2 present in
        let (v, p3, got, e3) = bind_inv (get_item "session_event") _ p2 q tt e2 in
        let (is, same3) = get_item_inv "session_event" v p2 p3 got in
        let (valid, event) = session_inv v p3 q e3 in
        let whole : with_defaults p ≡ q =
          ap (set_default "group" null) (sym same1) ∙ same2 ∙ same3 ∙ event in
        let filled : set_default "group" null p1 ≡ with_defaults p =
          ap (set_default "group" null) same1 in
        (
          record {
            transport = subst (λ x. IsTransport x) filled (IsTransport-group p1 transport);
            present = subst (λ x. HasAll user_fields x) filled all;
            session = (v, ap (lookup "session_event") (sym filled ∙ same2) ∙ is, valid);
          },
          sym whole,
        )

    complete : IsUser (with_defaults p) × (q ≡ with_defaults p) → load user_message p ≡ ok q
    complete (h, same) =
        let (v, is, valid) = h.session in
        rw
          (
            validate_base_complete p (group-IsTransport (with_helper p) h.transport),
            assert_field_present-HasAll user_fields (with_defaults p) h.present,
            get_item-eq "session_event" v (with_defaults p) is,
            valid,
          )
          (ap ok (sym same))
