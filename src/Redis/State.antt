-- ===== src/Redis/State.antt =====
-- The store of vumi/persist/fake_redis.py: the fields of `FakeRedis` and typed access to a key.
-- Texts are byte strings already, so `_encode` is the identity. The clock is Twisted's: a delayed
-- call is the record of when it is due and whether it is still active, and the caller gives the
-- time. Every call is atomic, as in the mode that is not asynchronous.
use vumi.Base.{ℕ, String, Bool, true, Option, none, some, List, []}
use vumi.Base.Int.{ℤ}
use vumi.Base.Dict.{Dict, lookup, insert}
use vumi.Base.Exec.{Exec, ok, err, type_error}

-- The scores of a sorted set are whole numbers of the clock's unit.
pub data Value : Type 0 where
  text : String → Value
  list : List String → Value
  set : List String → Value
  hash : Dict String → Value
  zset : List (ℤ × String) → Value

pub record Delayed : Type 0 where
  pub due : ℕ
  pub active : Bool

pub record Redis : Type 0 where
  pub values : Dict Value
  pub known : Dict Bool
  pub expiries : Dict Delayed

abbrev pub empty : Redis
empty = record { values = []; known = []; expiries = [] }

-- `_set_key`
abbrev pub set_key : String → Value → Redis → Redis
set_key k v r = record r { values = insert k v r.values; known = insert k true r.known }

-- A change of a value in place, which does not go through `_set_key`.
abbrev pub mutate : String → Value → Redis → Redis
mutate k v r = record r { values = insert k v r.values }

-- `_setdefault_key`, its effect; the value is read by the `get_…` below
abbrev pub setdefault_key : String → Value → Redis → Redis
setdefault_key k v r = record r {
  values = elim (lookup k r.values) [ none ↦ insert k v r.values | some w ↦ r.values ];
  known = insert k true r.known;
}

-- `self._data.get(key, [])` and so on: what a key holds when it is used as a value of that kind.
abbrev pub as_list : Option Value → Option (List String)
as_list none = some []
as_list (some (list l)) = some l
as_list (some _) = none

abbrev pub as_set : Option Value → Option (List String)
as_set none = some []
as_set (some (set s)) = some s
as_set (some _) = none

abbrev pub as_hash : Option Value → Option (Dict String)
as_hash none = some []
as_hash (some (hash h)) = some h
as_hash (some _) = none

abbrev pub as_zset : Option Value → Option (List (ℤ × String))
as_zset none = some []
as_zset (some (zset z)) = some z
as_zset (some _) = none

abbrev pub as_text : Option Value → Option (Option String)
as_text none = some none
as_text (some (text s)) = some (some s)
as_text (some _) = none

abbrev pub typed : {A : Type 0} → Option A → Exec Redis A
typed none r = (err type_error, r)
typed (some a) r = (ok a, r)

abbrev pub value_at : Redis → String → Option Value
value_at r k = lookup k r.values

abbrev pub get_list : String → Exec Redis (List String)
get_list k r = typed (as_list (value_at r k)) r

abbrev pub get_set : String → Exec Redis (List String)
get_set k r = typed (as_set (value_at r k)) r

abbrev pub get_hash : String → Exec Redis (Dict String)
get_hash k r = typed (as_hash (value_at r k)) r

abbrev pub get_zset : String → Exec Redis (List (ℤ × String))
get_zset k r = typed (as_zset (value_at r k)) r

-- `get` of the code returns a value of any kind as it is; here one that is not a text is an error.
abbrev pub get_text : String → Exec Redis (Option String)
get_text k r = typed (as_text (value_at r k)) r
