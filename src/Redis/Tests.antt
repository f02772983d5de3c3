-- ===== src/Redis/Tests.antt =====
-- Runs of the store, and the theorems at concrete inputs.
use vumi.Base.{String, ◌≡◌, ◌≢◌, refl, true, false, none, some, List, [], ◌∷◌, arith, ◌&&◌}
use vumi.Base.Int.{pos, negsuc, ◌+ℤ◌}
use vumi.Base.Decimal.{parse_int}
use vumi.Base.Dict.{lookup}
use vumi.Base.Exec.{ok}
use vumi.Redis.State.{Redis, text, list, empty, value_at}
use vumi.Redis.Keys.{timeout, delete}
use vumi.Redis.Keys.Expiry.{timeout-set-delete-setex}
use vumi.Redis.Texts as Texts
use vumi.Redis.Zset as Zset
use vumi.Redis.Zset.{Zval, Bound, at, above, pos_inf}
use vumi.Redis.Zset.Order.{IsSorted}
use vumi.Redis.Zset.Ranges.{select, meets_lower, meets_upper, zrangebyscore-eq_select}
use vumi.Redis.Zset.Members.{IsUnique}
use vumi.Redis.Lists.{trim_list, range_of}
use vumi.Redis.Lists.Trim.{ltrim-ne_lrange}

abbrev queue : Redis
queue = record {
  values = ("q", list ("a" ∷ "b" ∷ "a" ∷ [])) ∷ ("n", text "41") ∷ [];
  known = ("q", true) ∷ ("n", true) ∷ [];
  expiries = [];
}

abbrev scores : Zval
scores = (pos 1, "a") ∷ (pos 2, "b") ∷ (pos 2, "c") ∷ (pos 5, "d") ∷ []

incr_runs : (Texts.incr "n" (pos 1) queue).0 ≡ ok (pos 42)
unfolding Texts.incr ◌+ℤ◌ lookup parse_int
incr_runs = refl

zrange_runs : Zset.zrange (pos 1) (negsuc 1) false scores ≡ (pos 2, "b") ∷ (pos 2, "c") ∷ []
unfolding Zset.zrange Zset.tuple_le Zset.insort
zrange_runs = refl

abbrev five : List String
five = "a" ∷ "b" ∷ "c" ∷ "d" ∷ "e" ∷ []

ltrim-ne_lrange_example : trim_list (negsuc 2) (negsuc 1) five ≢ range_of (negsuc 2) (negsuc 1) five
ltrim-ne_lrange_example = ltrim-ne_lrange 2 0 five (omega arith) (omega arith)

timeout-set-delete-setex_example :
    let written = (Texts.set "k" "new" (delete "k" (Texts.setex 0 "k" 60 "old" empty).1).1).1 in
    (value_at written "k" ≡ some (text "new")) × (value_at (timeout "k" written) "k" ≡ none)
timeout-set-delete-setex_example = timeout-set-delete-setex 0 "k" 60 "old" "new" empty

scores-IsSorted : IsSorted scores
unfolding Zset.tuple_le
scores-IsSorted = (refl, (refl, (refl, tt)))

zrangebyscore-eq_select_example :
    Zset.zrangebyscore (above (pos 1)) (at (pos 2)) (pos 0) none scores
    ≡ select (λ k. meets_lower (above (pos 1)) k && meets_upper (at (pos 2)) k) scores
zrangebyscore-eq_select_example =
    zrangebyscore-eq_select (above (pos 1)) (at (pos 2)) scores scores-IsSorted

scores-IsUnique : IsUnique scores
unfolding Zset.zscore
scores-IsUnique = (refl, (refl, (refl, (refl, tt))))
