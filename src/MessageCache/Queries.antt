-- ===== src/MessageCache/Queries.antt =====
-- Searches over the messages of a batch. The digest of a query (MD5 of the JSON of its sorted
-- parts) is a parameter.
use Prim.Native.String.{◌++◌}
use vumi.Base.{ℕ, String, Bool, not, List, [], ◌∷◌}
use vumi.Base.Int.{ℤ}
use vumi.Base.Exec.{Exec, pure, ◌>>◌}
use vumi.Redis.State.{Redis}
use vumi.Redis.Sets.{sadd, sismember}
use vumi.Redis.Zsets.{zrange, zcard}
use vumi.MessageCache.Keys.{search_token_key, search_result_key}

module _ {Query : Type 0} (digest : Query → String) where
  unfoldable pub get_query_token : String → Query → String
  get_query_token direction query = direction ++ "-" ++ digest query

  unfoldable pub start_query : String → String → Query → Exec Redis String
  unfolding get_query_token
  start_query batch_id direction query = do
    sadd (search_token_key batch_id) (get_query_token direction query ∷ [])
    pure (get_query_token direction query)

unfoldable pub is_query_in_progress : String → String → Exec Redis Bool
is_query_in_progress batch_id token = sismember (search_token_key batch_id) token

unfoldable pub get_query_results : String → String → ℤ → ℤ → Bool → Exec Redis (List String)
get_query_results batch_id token start stop asc =
    zrange (search_result_key batch_id token) start stop (not asc)

unfoldable pub count_query_results : String → String → Exec Redis ℕ
count_query_results batch_id token = zcard (search_result_key batch_id token)
