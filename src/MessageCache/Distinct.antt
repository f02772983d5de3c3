-- ===== src/MessageCache/Distinct.antt =====
-- The keys of different kinds of things differ, whatever the batches.
use Prim.Native.String.{◌++◌}
use text.Mathlib.TextLemmas.{append_cancel_left, append_assoc}
use vumi.Base.{String, ◌≡◌, ◌≢◌, refl, sym, ◌∙◌, true, [], ◌∷◌}
use vumi.Base.Text.{differ-ne, differ}
use vumi.MessageCache.Keys.{
  batch_key, outbound_key, outbound_count_key, inbound_key, inbound_count_key,
}

kinds-ne :
    (j k b c : String)
    → differ (j ++ ":") (k ++ ":") ≡ true
    → batch_key (j ∷ b ∷ []) ≢ batch_key (k ∷ c ∷ [])
unfolding batch_key
kinds-ne j k b c h e =
    let tail = append_cancel_left ":" _ _ (append_cancel_left "batches" _ _ e) in
    differ-ne (j ++ ":") (k ++ ":") b c h (append_assoc j ":" b ∙ tail ∙ sym (append_assoc k ":" c))

module _ (b c : String) where
  pub inbound-ne_inbound_count : inbound_key b ≢ inbound_count_key c
  unfolding inbound_key inbound_count_key differ
  inbound-ne_inbound_count = kinds-ne "inbound" "inbound_count" b c refl

  pub inbound-ne_outbound : inbound_key b ≢ outbound_key c
  unfolding inbound_key outbound_key differ
  inbound-ne_outbound = kinds-ne "inbound" "outbound" b c refl

  pub inbound-ne_outbound_count : inbound_key b ≢ outbound_count_key c
  unfolding inbound_key outbound_count_key differ
  inbound-ne_outbound_count = kinds-ne "inbound" "outbound_count" b c refl

  pub outbound-ne_outbound_count : outbound_key b ≢ outbound_count_key c
  unfolding outbound_key outbound_count_key differ
  outbound-ne_outbound_count = kinds-ne "outbound" "outbound_count" b c refl

  pub outbound-ne_inbound_count : outbound_key b ≢ inbound_count_key c
  unfolding outbound_key inbound_count_key differ
  outbound-ne_inbound_count = kinds-ne "outbound" "inbound_count" b c refl

  pub inbound_count-ne_outbound_count : inbound_count_key b ≢ outbound_count_key c
  unfolding inbound_count_key outbound_count_key differ
  inbound_count-ne_outbound_count = kinds-ne "inbound_count" "outbound_count" b c refl
