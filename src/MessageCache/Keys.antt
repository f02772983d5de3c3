-- ===== src/MessageCache/Keys.antt =====
-- The keys of `MessageStoreCache` for a batch.
use vumi.Base.{String, List, [], ◌∷◌}
use vumi.Base.Text.{join}

-- `key(*args)`
unfoldable pub key : List String → String
unfolding join
key args = join ":" args

unfoldable pub batch_key : List String → String
unfolding key
batch_key args = key ("batches" ∷ args)

module _ (batch_id : String) where
  unfoldable pub outbound_key : String
  unfolding batch_key
  outbound_key = batch_key ("outbound" ∷ batch_id ∷ [])

  unfoldable pub outbound_count_key : String
  unfolding batch_key
  outbound_count_key = batch_key ("outbound_count" ∷ batch_id ∷ [])

  unfoldable pub inbound_key : String
  unfolding batch_key
  inbound_key = batch_key ("inbound" ∷ batch_id ∷ [])

  unfoldable pub inbound_count_key : String
  unfolding batch_key
  inbound_count_key = batch_key ("inbound_count" ∷ batch_id ∷ [])

  unfoldable pub to_addr_key : String
  unfolding batch_key
  to_addr_key = batch_key ("to_addr" ∷ batch_id ∷ [])

  unfoldable pub from_addr_key : String
  unfolding batch_key
  from_addr_key = batch_key ("from_addr" ∷ batch_id ∷ [])

  unfoldable pub status_key : String
  unfolding batch_key
  status_key = batch_key ("status" ∷ batch_id ∷ [])

  unfoldable pub event_key : String
  unfolding batch_key
  event_key = batch_key ("event" ∷ batch_id ∷ [])

  unfoldable pub event_count_key : String
  unfolding batch_key
  event_count_key = batch_key ("event_count" ∷ batch_id ∷ [])

  unfoldable pub search_token_key : String
  unfolding batch_key
  search_token_key = batch_key ("search_token" ∷ batch_id ∷ [])

  unfoldable pub search_result_key : String → String
  unfolding batch_key
  search_result_key token = batch_key ("search_result" ∷ batch_id ∷ token ∷ [])
