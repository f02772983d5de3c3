-- ===== src/Tagpool/Tests.antt =====
-- A pool at work, and the theorems at it.
use vumi.Base.{String, ◌≡◌, refl, not, ◌&&◌, ◌||◌, Option, none, some, List, [], ◌∷◌, arith, eq_iff}
use vumi.Base.Int.{pos}
use vumi.Base.Dict.{lookup, insert}
use vumi.Base.PySet.{member, add, add_all, discard}
use vumi.Base.Exec.{ok, err, tagpool_error}
use vumi.Redis.State.{Redis, list, set, hash}
use vumi.Redis.Lists.Removal.{others}
use vumi.Tagpool.{
  Json, Scalar, text, time, pool_key, owner_key, stamped, acquire_tag, acquire_specific_tag,
  release_tag, acquired_by, declare_pool_tags, purge_pool,
}
use vumi.Tagpool.Pool.{Holds, Reasons, IsConsistent}
use vumi.Tagpool.Acquire.{Acquired, acquire_tag_lem, acquire_specific_tag_lem}
use vumi.Tagpool.Release.{release_tag_lem, acquired_by-release_tag}
use vumi.Tagpool.Declare.{declare_pool_tags_lem}
use vumi.Tagpool.Purge.{purge_pool-inuse}

-- Enough of `json` for reasons that hold the time 7 and an owner.
abbrev owner_text : Option Scalar → String
owner_text none = ""
owner_text (some (text o)) = o
owner_text (some _) = ""

abbrev json : Json
json = record {
  dumps = λ reason. unfold lookup in owner_text (lookup "owner" reason);
  loads = λ s. ok (("timestamp", time (pos 7)) ∷ ("owner", text s) ∷ []);
  dumps_tag = λ pool tag. tag;
  loads_tag = λ s. ok ("p", s);
}

abbrev before : Redis
before = record {
  values =
      ("tagpools:p:free:list", list ("a" ∷ "b" ∷ []))
      ∷ ("tagpools:p:free:set", set ("b" ∷ "a" ∷ []))
      ∷ ("tagpools:p:inuse:set", set ("c" ∷ []))
      ∷ ("tagpools:p:reason:hash", hash (("c", "me") ∷ []))
      ∷ ("tagpools:owners:me:tags", set ("c" ∷ []))
      ∷ ("tagpools:list", set ("p" ∷ []))
      ∷ [];
  known = [];
  expiries = [];
}

before-Holds : Holds "p" ("a" ∷ "b" ∷ []) ("b" ∷ "a" ∷ []) ("c" ∷ []) before
unfolding pool_key lookup
before-Holds = record { free_list = refl; free_set = refl; inuse_set = refl }

before-Reasons : Reasons "p" (owner_key (some "me")) (("c", "me") ∷ []) ("c" ∷ []) before
unfolding pool_key owner_key lookup
before-Reasons = record { reasons = refl; owned = refl }

before-IsConsistent : IsConsistent ("a" ∷ "b" ∷ []) ("b" ∷ "a" ∷ []) ("c" ∷ [])
unfolding member
before-IsConsistent = record {
  no_dup = (refl, (refl, tt));
  same = λ x. ground (arith, eq_iff "a" x, eq_iff "b" x);
  apart = λ x h.
      ground (arith, h, eq_iff "a" x, eq_iff "b" x, eq_iff "c" x, eq_iff "a" "c", eq_iff "b" "c");
}

acquire_tag_lem_example :
    let (res, r') = acquire_tag json (pos 7) "p" (some "me") none before in
    (res ≡ ok (some ("p", "a")))
    × Acquired json
        (pos 7)
        "p"
        (some "me")
        none
        (("c", "me") ∷ [])
        ("c" ∷ [])
        "a"
        ("b" ∷ [])
        ("b" ∷ "a" ∷ [])
        ("c" ∷ [])
        r'
    × IsConsistent ("b" ∷ []) (discard "a" ("b" ∷ "a" ∷ [])) (add "a" ("c" ∷ []))
acquire_tag_lem_example =
    acquire_tag_lem json (pos 7) "p" (some "me") none (("c", "me") ∷ []) ("c" ∷ []) "a" ("b" ∷ [])
      ("b" ∷ "a" ∷ []) ("c" ∷ []) before before-IsConsistent before-Holds before-Reasons

acquire_specific_tag_lem_example :
    let (res, r') = acquire_specific_tag json (pos 7) ("p", "b") (some "me") none before in
    (res ≡ ok (some ("p", "b")))
    × Acquired json
        (pos 7)
        "p"
        (some "me")
        none
        (("c", "me") ∷ [])
        ("c" ∷ [])
        "b"
        (others "b" ("a" ∷ "b" ∷ []))
        ("b" ∷ "a" ∷ [])
        ("c" ∷ [])
        r'
    × IsConsistent (others "b" ("a" ∷ "b" ∷ [])) (discard "b" ("b" ∷ "a" ∷ [])) (add "b" ("c" ∷ []))
unfolding member
acquire_specific_tag_lem_example =
    acquire_specific_tag_lem json (pos 7) "p" (some "me") none (("c", "me") ∷ []) ("c" ∷ []) "b"
      ("a" ∷ "b" ∷ []) ("b" ∷ "a" ∷ []) ("c" ∷ []) before refl before-IsConsistent before-Holds
      before-Reasons

release_tag_lem_example :
    let (res, r') = release_tag json ("p", "c") before in
    (res ≡ ok tt)
    × Holds "p" ("a" ∷ "b" ∷ "c" ∷ []) (add "c" ("b" ∷ "a" ∷ [])) (discard "c" ("c" ∷ [])) r'
    × IsConsistent ("a" ∷ "b" ∷ "c" ∷ []) (add "c" ("b" ∷ "a" ∷ [])) (discard "c" ("c" ∷ []))
    × Reasons "p" (owner_key (some "me")) (("c", "me") ∷ []) (discard "c" ("c" ∷ [])) r'
unfolding member lookup
release_tag_lem_example =
    release_tag_lem json "p" "c" ("a" ∷ "b" ∷ []) ("b" ∷ "a" ∷ []) ("c" ∷ []) before (some "me")
      (("c", "me") ∷ []) ("c" ∷ []) "me" (("timestamp", time (pos 7)) ∷ ("owner", text "me") ∷ [])
      refl before-IsConsistent before-Holds before-Reasons refl refl refl

round_trip :
    json.loads (json.dumps (stamped json (pos 7) (some "me") none))
    ≡ ok (stamped json (pos 7) (some "me") none)
unfolding lookup insert
round_trip = refl

declare_pool_tags_lem_example :
    let (res, r') = declare_pool_tags "p" ("d" ∷ "c" ∷ []) before in
    (res ≡ ok tt)
    × ((new : List String) × ((y : String)
          → member y new
            ≡ (member y ("d" ∷ "c" ∷ []) && not (member y ("a" ∷ "b" ∷ []) || member y ("c" ∷ []))))
        × Holds "p" ("a" ∷ "b" ∷ new) (add_all new ("b" ∷ "a" ∷ [])) ("c" ∷ []) r'
        × IsConsistent ("a" ∷ "b" ∷ new) (add_all new ("b" ∷ "a" ∷ [])) ("c" ∷ []))
declare_pool_tags_lem_example =
    declare_pool_tags_lem "p" ("d" ∷ "c" ∷ []) ("a" ∷ "b" ∷ []) ("b" ∷ "a" ∷ []) ("c" ∷ []) before
      before-IsConsistent before-Holds

-- The same pool with no tag in use.
abbrev idle : Redis
idle = record before {
  values =
      ("tagpools:p:free:list", list ("a" ∷ []))
      ∷ ("tagpools:p:free:set", set ("a" ∷ []))
      ∷ ("tagpools:p:metadata", hash [])
      ∷ ("tagpools:list", set ("q" ∷ "p" ∷ []))
      ∷ [];
}

idle-Holds : Holds "p" ("a" ∷ []) ("a" ∷ []) [] idle
unfolding pool_key lookup
idle-Holds = record { free_list = refl; free_set = refl; inuse_set = refl }

purge_pool-inuse_example : purge_pool "p" before ≡ (err tagpool_error, before)
purge_pool-inuse_example =
    purge_pool-inuse "p" "c" ("a" ∷ "b" ∷ []) ("b" ∷ "a" ∷ []) [] before before-Holds

-- The reason of the tag in use, as it was stored.
before-Stored :
    Reasons "p"
      (owner_key (some "me"))
      (insert "c" (json.dumps (stamped json (pos 7) (some "me") none)) [])
      ("c" ∷ [])
      before
unfolding pool_key owner_key lookup insert
before-Stored = record { reasons = refl; owned = refl }

acquired_by-release_tag_example :
    let r' = (release_tag json ("p", "c") before).1 in
    Holds "p" ("a" ∷ "b" ∷ "c" ∷ []) (add "c" ("b" ∷ "a" ∷ [])) (discard "c" ("c" ∷ [])) r'
    × (acquired_by json ("p", "c") r'
        ≡ (ok (some (text "me"), some (stamped json (pos 7) (some "me") none)), r'))
unfolding member
acquired_by-release_tag_example =
    acquired_by-release_tag json (pos 7) "p" "c" (some "me") none [] ("c" ∷ []) round_trip
      ("a" ∷ "b" ∷ []) ("b" ∷ "a" ∷ []) ("c" ∷ []) before refl before-IsConsistent before-Holds
      before-Stored
