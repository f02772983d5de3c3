-- ===== src/MessageCache/Switch.antt =====
-- The switch of a batch from sizes of sorted sets to counters.
use vumi.Base.{String, ◌≡◌, refl, sym, true, false, some, none, length, ap, ◌∙◌}
use vumi.Base.Int.{ℤ, pos}
use vumi.Base.Decimal.{show_int}
use vumi.Base.Decimal.RoundTrip.{parse-show_int}
use vumi.Base.Exec.{ok}
use vumi.Redis.State.{Redis, text, value_at, as_zset}
use vumi.Redis.Texts as Texts
use vumi.Redis.Texts.Counter.{count_of}
use vumi.Redis.Zset as Zset
use vumi.Redis.Zset.{Zval}
use vumi.Redis.Zsets as Zsets
use vumi.Redis.Effects.{set-ok, set-Puts}
use vumi.MessageCache.Keys.{inbound_key, inbound_count_key, outbound_key, outbound_count_key}
use vumi.MessageCache.Counters.{
  count_inbound_message_keys, count_outbound_message_keys, uses_counters, switch_to_counters,
  truncate_inbound_message_keys, truncate_outbound_message_keys, truncate_keys,
}
use vumi.MessageCache.Distinct.{
  inbound-ne_inbound_count, inbound-ne_outbound, inbound-ne_outbound_count,
  outbound-ne_outbound_count, outbound-ne_inbound_count, inbound_count-ne_outbound_count,
}
use vumi.MessageCache.Truncation.{truncate_keys_lem}
use vumi.MessageCache.Counting.{get_count-eq, uses_counters-text, truncated}

module _ (b : String) (n : ℤ) (r : Redis) (counting : uses_counters b r ≡ true) where
  in_count :
      value_at r (inbound_count_key b) ≡ some (text (show_int n))
      → count_inbound_message_keys b r ≡ (ok n, r)
  unfolding count_inbound_message_keys
  in_count h =
      rw counting (get_count-eq (inbound_count_key b) n r (ap count_of h ∙ parse-show_int n))

  out_count :
      value_at r (outbound_count_key b) ≡ some (text (show_int n))
      → count_outbound_message_keys b r ≡ (ok n, r)
  unfolding count_outbound_message_keys
  out_count h =
      rw counting (get_count-eq (outbound_count_key b) n r (ap count_of h ∙ parse-show_int n))

module _ (b : String) (zi zo : Zval) (r : Redis)
    (hi : as_zset (value_at r (inbound_key b)) ≡ some zi)
    (ho : as_zset (value_at r (outbound_key b)) ≡ some zo) (old : uses_counters b r ≡ false) where
  in_size : count_inbound_message_keys b r ≡ (ok (pos (length zi)), r)
  unfolding count_inbound_message_keys Zsets.zcard Zset.zcard
  in_size = rw old (rw hi refl)

  out_size : count_outbound_message_keys b r ≡ (ok (pos (length zo)), r)
  unfolding count_outbound_message_keys Zsets.zcard Zset.zcard
  out_size = rw old (rw ho refl)

  -- A batch that counts by the sizes of its two sets of keys has, after `switch_to_counters`, the
  -- same counts of inbound and of outbound messages, and counts by its counters; of each of the two
  -- sets only the 2000 newest keys are left if it had more than 2001.
  pub switch_to_counters_lem :
      let (res, r') = switch_to_counters b r in
      (res ≡ ok tt)
      × (uses_counters b r' ≡ true)
      × (count_inbound_message_keys b r ≡ (ok (pos (length zi)), r))
      × (count_inbound_message_keys b r' ≡ (ok (pos (length zi)), r'))
      × (count_outbound_message_keys b r ≡ (ok (pos (length zo)), r))
      × (count_outbound_message_keys b r' ≡ (ok (pos (length zo)), r'))
      × (as_zset (value_at r' (inbound_key b)) ≡ some (truncated zi))
      × (as_zset (value_at r' (outbound_key b)) ≡ some (truncated zo))
  unfolding switch_to_counters truncate_inbound_message_keys truncate_outbound_message_keys
  switch_to_counters_lem =
      let ki = inbound_key b in
      let ko = outbound_key b in
      let ci = inbound_count_key b in
      let co = outbound_count_key b in
      let si = show_int (pos (length zi)) in
      let so = show_int (pos (length zo)) in
      let r1 = (Texts.set ci si r).1 in
      let p1 = set-Puts ci si r in
      let r2 = (Texts.set co so r1).1 in
      let p2 = set-Puts co so r1 in
      let hi2 : as_zset (value_at r2 ki) ≡ some zi =
        ap as_zset (
          p2.rest ki (λ e. inbound-ne_outbound_count b b (sym e))
          ∙ p1.rest ki (λ e. inbound-ne_inbound_count b b (sym e)))
        ∙ hi in
      let ho2 : as_zset (value_at r2 ko) ≡ some zo =
        ap as_zset (
          p2.rest ko (λ e. outbound-ne_outbound_count b b (sym e))
          ∙ p1.rest ko (λ e. outbound-ne_inbound_count b b (sym e)))
        ∙ ho in
      let (done3, held3, _, _, rest3) = truncate_keys_lem ki none zi r2 hi2 in
      let r3 = (truncate_keys ki none r2).1 in
      let ho3 = ap as_zset (rest3 ko (inbound-ne_outbound b b)) ∙ ho2 in
      let (done4, held4, _, _, rest4) = truncate_keys_lem ko none zo r3 ho3 in
      let r4 = (truncate_keys ko none r3).1 in
      let at_ci : value_at r4 ci ≡ some (text si) =
        rest4 ci (outbound-ne_inbound_count b b)
        ∙ rest3 ci (inbound-ne_inbound_count b b)
        ∙ p2.rest ci (λ e. inbound_count-ne_outbound_count b b (sym e))
        ∙ p1.at in
      let at_co : value_at r4 co ≡ some (text so) =
        rest4 co (outbound-ne_outbound_count b b)
        ∙ rest3 co (inbound-ne_outbound_count b b)
        ∙ p2.at in
      let at_ki : as_zset (value_at r4 ki) ≡ some (truncated zi) =
        ap as_zset (rest4 ki (λ e. inbound-ne_outbound b b (sym e))) ∙ held3 in
      let counting = uses_counters-text b si r4 at_ci in
      let end : switch_to_counters b r ≡ (ok tt, r4) =
        rw old (rw (in_size, out_size) (rw (set-ok ci si r, set-ok co so r1, done3, done4) refl)) in
      rw end (
        refl,
        counting,
        in_size,
        in_count b (pos (length zi)) r4 counting at_ci,
        out_size,
        out_count b (pos (length zo)) r4 counting at_co,
        at_ki,
        held4,
      )
