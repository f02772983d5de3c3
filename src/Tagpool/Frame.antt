-- ===== src/Tagpool/Frame.antt =====
-- The keys of a pool's tags and the keys of the reasons are written apart from one another.
use vumi.Base.{String, ◌≡◌, ◌≢◌, refl, sym, Option, some, List}
use vumi.Base.Dict.{Dict}
use vumi.Base.Text.{last}
use vumi.Redis.State.{Redis, value_at}
use vumi.Tagpool.{free_list_key, free_set_key, inuse_set_key, pool_key, reason_key, owner_key}
use vumi.Tagpool.Pool.{Holds, Reasons}
use vumi.Tagpool.Keys.{owner_key-ne_t, state-ne}
use vumi.Tagpool.Reasons.{SameButReasons}

-- `r'` holds what `r` holds at every key but the three of the pool's tags.
abbrev pub SameButTags : String → Redis → Redis → Type 0
SameButTags pool r r' =
    (j : String)
    → free_list_key pool ≢ j
    → free_set_key pool ≢ j
    → inuse_set_key pool ≢ j
    → value_at r' j ≡ value_at r j

module _ (pool : String) (owner : Option String) (r r' : Redis) where
  pub Holds-SameButReasons :
      (l s u : List String)
      → SameButReasons pool owner r r'
      → Holds pool l s u r
      → Holds pool l s u r'
  Holds-SameButReasons l s u same h = record {
    free_list =
        rw (same (free_list_key pool) (state-ne pool _ _ refl) (owner_key-ne_t owner pool _ refl))
          h.free_list;
    free_set =
        rw (same (free_set_key pool) (state-ne pool _ _ refl) (owner_key-ne_t owner pool _ refl))
          h.free_set;
    inuse_set =
        rw (same (inuse_set_key pool) (state-ne pool _ _ refl) (owner_key-ne_t owner pool _ refl))
          h.inuse_set;
  }

  pub Reasons-SameButTags :
      (m : Dict String) (o : List String)
      → SameButTags pool r r'
      → Reasons pool (owner_key owner) m o r
      → Reasons pool (owner_key owner) m o r'
  Reasons-SameButTags m o same h = record {
    reasons =
        rw
          (same (reason_key pool) (state-ne pool _ _ refl) (state-ne pool _ _ refl)
            (state-ne pool _ _ refl))
          h.reasons;
    owned =
        rw
          (same (owner_key owner) (away "free:list" refl) (away "free:set" refl)
            (away "inuse:set" refl))
          h.owned;
  }
    where
      away : (state : String) → last state ≡ some "t" → pool_key pool state ≢ owner_key owner
      away state h e = owner_key-ne_t owner pool state h (sym e)
