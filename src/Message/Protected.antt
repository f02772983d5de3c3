-- ===== src/Message/Protected.antt =====
-- The keyword arguments that `reply` of vumi/message.py refuses.
use vumi.Base.{
  String, ◌≡◌, refl, Bool, true, false, List, [], ◌∷◌, arith, Bool-cases, eq_iff, inl, inr,
}
use vumi.Base.Int.{ℤ}
use vumi.Base.Dict.{contains}
use vumi.Base.PySet.{member}
use vumi.Base.Exec.{err, type_error}
use vumi.Message.{Payload, Value}
use vumi.Message.Methods.{has_any, protected_fields, reply}

-- A field that is among those that the arguments have none of is not an argument.
pub has_any-absent :
    (fs : List String) (j : String) (kw : Payload)
    → has_any fs kw ≡ false
    → member j fs ≡ true
    → contains j kw ≡ false
unfolding has_any member
has_any-absent [] j kw h m = cc
has_any-absent (f ∷ fs) j kw h m = ground (arith, h, m, has_any-absent fs j kw, eq_iff f j)

-- With a protected field among the keyword arguments, `reply` is a `TypeError` and nothing changes.
pub reply-protected :
    (now : ℤ) (id : String) (content : Value) (continue_session : Bool) (kw p : Payload)
    (field : String)
    → member field protected_fields ≡ true
    → contains field kw ≡ true
    → reply now id content continue_session kw p ≡ (err type_error, p)
unfolding reply
reply-protected now id content continue_session kw p field m there =
    elim (Bool-cases (has_any protected_fields kw)) [
      | inl any ↦ rw any refl
      | inr none_ ↦ ground (arith, there, has_any-absent protected_fields field kw none_ m)
    ]
