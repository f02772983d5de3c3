-- ===== src/Dispatch/Grouping.antt =====
-- `UserGroupingRouter` of vumi/dispatchers/base.py: each user is given a group, the groups in turn,
-- and keeps it.
pub mod Sticky
use vumi.Base.{
  ℕ, zero, suc, ◌+◌, ◌-◌, ◌%◌, String, Bool, true, false, Option, none, some, List, [], ◌∷◌, ◌++◌,
  if◌then◌else◌, str_eq, length, get_elem?, ◌==◌, map,
}
use vumi.Base.Int.{ℤ, pos, negsuc, ◌-ℤ◌}
use vumi.Base.Text.{sorted, join}
use vumi.Base.Dict.{Dict, lookup, keys}
use vumi.Base.Exec.{
  Exec, Result, ok, err, key_error, index_error, value_error, type_error, pure, raise, lift,
  or_raise, ◌>>=◌, ◌>>◌,
}
use vumi.Redis.State.{Redis}
use vumi.Redis.Texts.{get, set, incr}
use vumi.Message.{Payload, Value, text}
use vumi.Dispatch.{Dispatcher, Middlewares, publish, field_of, inbound_message}

-- The store of the router, and the dispatcher that it publishes by.
pub record Worker : Type 0 where
  pub redis : Redis
  pub dispatcher : Dispatcher

module _ {A : Type 0} where
  abbrev pub on_redis : Exec Redis A → Exec Worker A
  on_redis m w = let (res, r) = m w.redis in (res, record w { redis = r })

  abbrev pub on_dispatcher : Exec Dispatcher A → Exec Worker A
  on_dispatcher m w = let (res, d) = m w.dispatcher in (res, record w { dispatcher = d })

-- `counter % n` for n above 0: never negative
abbrev pub modulo : ℤ → ℕ → ℕ
modulo (pos k) n = k % n
modulo (negsuc k) n = n - 1 - k % n

-- The name of `sorted(groups.items())[counter % len(groups)]`; division by zero is no index.
abbrev pub group_at : ℤ → Dict String → Result String
group_at counter groups =
    if length groups == 0
    then err value_error
    else elim (get_elem? (sorted (keys groups)) (modulo counter (length groups))) [
      | none ↦ err index_error
      | some g ↦ ok g
    ]

unfoldable pub get_next_group : Dict String → Exec Redis String
get_next_group groups = do
  count ← incr "round-robin" (pos 1)
  lift (group_at (count -ℤ pos 1) groups)

-- `"user:%s" % (user_id,)`
unfoldable pub user_key : String → String
unfolding join
user_key user_id = join ":" ("user" ∷ user_id ∷ [])

-- A group that is there and not empty.
abbrev pub given : Option String → Option String
given none = none
given (some g) = if str_eq g "" then none else some g

-- The group that was found, or the next one, which is stored.
unfoldable pub group_or_next : Dict String → String → Option String → Exec Redis String
unfolding get_next_group
group_or_next groups user_id (some group) = pure group
group_or_next groups user_id none = do
  group ← get_next_group groups
  set (user_key user_id) group
  pure group

unfoldable pub get_group_for_user : Dict String → String → Exec Redis String
unfolding group_or_next
get_group_for_user groups user_id = do
  group ← get (user_key user_id)
  group_or_next groups user_id (given group)

-- `msg.user().encode('utf8')`
abbrev pub user_of : Payload → Result String
user_of msg = elim (field_of "from_addr" msg) [
  | err e ↦ err e
  | ok (text u) ↦ ok u
  | ok _ ↦ err type_error
]

unfoldable pub grouping_inbound : Middlewares → Dict String → Payload → Exec Worker (Unit {0})
unfolding get_group_for_user publish field_of
grouping_inbound apply_publish groups msg = do
  user ← lift (user_of msg)
  group ← on_redis (get_group_for_user groups user)
  app ← or_raise (lookup group groups) key_error
  on_dispatcher (publish apply_publish inbound_message app msg)
