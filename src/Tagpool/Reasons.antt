-- ===== src/Tagpool/Reasons.antt =====
-- `_store_reason` and `_remove_reason`: what they write, and that they leave all other keys alone.
use vumi.Base.{
  String, ◌≡◌, ◌≢◌, refl, sym, ◌∙◌, Option, none, some, List, [], ◌∷◌, arith, Bool-cases, inl, inr,
}
use vumi.Base.Int.{ℤ}
use vumi.Base.PySet.{member, add, add_all, discard, discard-absent}
use vumi.Base.Dict.{Dict, insert, lookup}
use vumi.Base.Exec.{ok, ◌>>◌, skip}
use vumi.Redis.State.{Redis, value_at, as_set}
use vumi.Redis.Effects.{hset-Puts, hget-eq}
use vumi.Redis.Effects.Sets.{sadd-Puts, srem-Puts, srem-absent}
use vumi.Redis.Hashes.{hset}
use vumi.Redis.Sets.{srem}
use vumi.Tagpool.{
  Json, Reason, of_owner, owner_of, reason_key, owner_key, store_reason, remove_reason, stamped,
}
use vumi.Tagpool.Pool.{Reasons}
use vumi.Tagpool.Keys.{owner_key-ne, some-ne_none, char-ne}

-- `r'` holds what `r` holds at every key but the pool's reasons and the owner's list.
abbrev pub SameButReasons : String → Option String → Redis → Redis → Type 0
SameButReasons pool owner r r' =
    (j : String) → reason_key pool ≢ j → owner_key owner ≢ j → value_at r' j ≡ value_at r j

pub owner-ne-reason : (owner : Option String) (pool : String) → owner_key owner ≢ reason_key pool
owner-ne-reason owner pool =
    owner_key-ne owner pool "reason:hash" (some-ne_none "h") (char-ne "h" "s" (omega arith))

module _ (json : Json) (pool tag : String) (m : Dict String) (o : List String) where
  open json use {dumps, loads, dumps_tag}

  pub store_reason_lem :
      (now : ℤ) (owner : Option String) (reason : Option Reason) (r : Redis)
      → Reasons pool (owner_key owner) m o r
      → let (res, r') = store_reason json now pool tag owner reason r in
        (res ≡ ok tt)
        × Reasons pool
            (owner_key owner)
            (insert tag (dumps (stamped json now owner reason)) m)
            (add (dumps_tag pool tag) o)
            r'
        × SameButReasons pool owner r r'
  unfolding store_reason add_all
  store_reason_lem now owner reason r h =
      let (new, put) =
        hset-Puts (reason_key pool) r m h.reasons tag (dumps (stamped json now owner reason)) in
      let r1 = (hset (reason_key pool) tag (dumps (stamped json now owner reason)) r).1 in
      let ne = owner-ne-reason owner pool in
      let held : as_set (value_at r1 (owner_key owner)) ≡ some o =
        rw (put.rest (owner_key owner) (λ e. ne (sym e))) h.owned in
      let (count, put') = sadd-Puts (owner_key owner) r1 o held (dumps_tag pool tag ∷ []) in
      rw (new, count)
        (
          refl,
          record {
            reasons = ground (arith, put'.rest (reason_key pool) ne, put.at);
            owned = ground (arith, put'.at);
          },
          λ j nr no. put'.rest j no ∙ put.rest j nr,
        )

  owner_of-of_owner :
      (owner : Option String) (r : Redis) → owner_of (some (of_owner owner)) r ≡ (ok owner, r)
  owner_of-of_owner none r = refl
  owner_of-of_owner (some o) r = refl

  remove_reason-eq :
      (owner : Option String) (raw : String) (reason : Reason) (r : Redis)
      → Reasons pool (owner_key owner) m o r
      → lookup tag m ≡ some raw
      → loads raw ≡ ok reason
      → lookup "owner" reason ≡ some (of_owner owner)
      → remove_reason json pool tag r ≡ (srem (owner_key owner) (dumps_tag pool tag) >> skip) r
  unfolding remove_reason
  remove_reason-eq owner raw reason r h hraw hload hown =
      rw (hget-eq (reason_key pool) r m h.reasons tag, hraw, hload, hown, owner_of-of_owner owner r)

  -- The owner whose list the tag is taken from is the one that its reason names.
  pub remove_reason_lem :
      (owner : Option String) (raw : String) (reason : Reason) (r : Redis)
      → Reasons pool (owner_key owner) m o r
      → lookup tag m ≡ some raw
      → loads raw ≡ ok reason
      → lookup "owner" reason ≡ some (of_owner owner)
      → let (res, r') = remove_reason json pool tag r in
        (res ≡ ok tt)
        × Reasons pool (owner_key owner) m (discard (dumps_tag pool tag) o) r'
        × SameButReasons pool owner r r'
  remove_reason_lem owner raw reason r h hraw hload hown =
      let key = owner_key owner in
      let json_tag = dumps_tag pool tag in
      let ne = owner-ne-reason owner pool in
      elim (Bool-cases (member json_tag o)) [
        | inl there ↦
            let (one, put) = srem-Puts key r o h.owned json_tag there in
            rw (remove_reason-eq owner raw reason r h hraw hload hown, one)
              (
                refl,
                record {
                  reasons = rw (put.rest (reason_key pool) ne) h.reasons;
                  owned = ground (arith, put.at);
                },
                λ j nr no. put.rest j no,
              )
        | inr absent ↦
            rw
              (
                remove_reason-eq owner raw reason r h hraw hload hown,
                srem-absent key r o h.owned json_tag absent,
              )
              (
                refl,
                record {
                  reasons = h.reasons;
                  owned = rw (discard-absent json_tag o absent) (h.owned);
                },
                λ j nr no. refl,
              )
      ]
