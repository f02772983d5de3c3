-- ===== src/Sandbox/Kv.antt =====
-- `RedisResource` of vumi/application/sandbox.py: the keys and values of one sandbox, of which there
-- can only be so many. Of the key's JSON value only that it is written and read as a text matters.
use Prim.Native.String.{◌++◌}
use vumi.Base.{ℕ, String, Bool, true, false, Option, none, some, List, [], ◌∷◌, if◌then◌else◌}
use mathlib.Core.List.{◌++◌ as append}
use vumi.Base.Int.{ℤ, pos, negsuc, ltb_ℤ}
use vumi.Base.Exec.{
  Exec, Error, Result, ok, err, type_error, pure, raise, lift, gets, modify, skip, ◌>>=◌, ◌>>◌,
}
use vumi.Redis.State.{Redis}
use vumi.Redis.Keys.{exists, delete}
use vumi.Redis.Texts.{get, set, incr}

-- What is logged: the soft limit as a warning, the hard one as an error.
pub data Log : Type 0 where
  soft_limit hard_limit : Log

pub record Store : Type 0 where
  pub redis : Redis
  pub logged : List Log

-- The fields of a reply next to those of the command.
pub data Reply (J : Type 0) : Type 0 where
  success too_many_keys : Reply J
  value : Option J → Reply J
  existed : Bool → Reply J
  number : ℤ → Reply J
  failed : Error → Reply J

module _ {A : Type 0} where
  -- A call of the store.
  abbrev pub call : Exec Redis A → Exec Store A
  call m s = let (res, r) = m s.redis in (res, record s { redis = r })

  -- `try: … except Exception as e: …`
  abbrev pub caught : Result A → Exec Store (Result A)
  caught res s = (ok res, s)

  abbrev pub attempt : Exec Store A → Exec Store (Result A)
  attempt m s = let (res, s') = m s in caught res s'

abbrev pub log : Log → Exec Store (Unit {0})
log l = modify (λ s. record s { logged = append s.logged (l ∷ []) })

unfoldable pub count_key : String → String
count_key sandbox_id = "count#" ++ sandbox_id

unfoldable pub sandboxed_key : String → String → String
sandboxed_key sandbox_id key = "sandboxes#" ++ sandbox_id ++ "#" ++ key

-- The key that a command names; a text cannot be joined with none.
abbrev pub named_key : String → Option String → Exec Store String
named_key sandbox_id none = raise type_error
named_key sandbox_id (some key) = pure (sandboxed_key sandbox_id key)

module _ (keys_per_user_soft keys_per_user_hard : ℕ) (sandbox_id : String) where
  -- What `check_keys` does for a new key, by the count with it.
  unfoldable pub check_count : ℤ → Exec Store Bool
  check_count key_count =
      if ltb_ℤ (pos keys_per_user_soft) key_count
      then (if ltb_ℤ key_count (pos keys_per_user_hard)
          then (do log soft_limit; pure true)
          else (do log hard_limit; call (incr (count_key sandbox_id) (negsuc 0)); pure false))
      else pure true

  abbrev pub check_new : Bool → Exec Store Bool
  check_new true = pure true
  check_new false = do key_count ← call (incr (count_key sandbox_id) (pos 1)); check_count key_count

  unfoldable pub check_keys : String → Exec Store Bool
  unfolding check_count exists
  check_keys key = do there ← gets (λ s. exists key s.redis); check_new there

  module _ {J : Type 0} (dumps : J → String) (loads : String → Result J) where
    abbrev pub set_checked : String → J → Bool → Exec Store (Reply J)
    set_checked key v false = pure too_many_keys
    set_checked key v true = do call (set key (dumps v)); pure success

    unfoldable pub handle_set : Option String → J → Exec Store (Reply J)
    unfolding check_keys
    handle_set key v = do
      full_key ← named_key sandbox_id key
      fits ← check_keys full_key
      set_checked full_key v fits

    abbrev pub loaded : Option String → Exec Store (Reply J)
    loaded none = pure (value none)
    loaded (some raw_value) = do v ← lift (loads raw_value); pure (value (some v))

    unfoldable pub handle_get : Option String → Exec Store (Reply J)
    handle_get key = do
      full_key ← named_key sandbox_id key
      raw_value ← call (get full_key)
      loaded raw_value

    abbrev pub uncount : Bool → Exec Store (Unit {0})
    uncount false = skip
    uncount true = do call (incr (count_key sandbox_id) (negsuc 0)); skip

    unfoldable pub handle_delete : Option String → Exec Store (Reply J)
    handle_delete key = do
      full_key ← named_key sandbox_id key
      there ← call (delete full_key)
      uncount there
      pure (existed there)

    abbrev pub incr_reply : Result ℤ → Exec Store (Reply J)
    incr_reply (ok n) = pure (number n)
    incr_reply (err e) = pure (failed e)

    -- The call of `incr` in `handle_incr`, which raises and changes nothing for an amount that cannot
    -- be added, such as a text.
    abbrev pub incr_by : String → Option ℤ → Exec Redis ℤ
    incr_by key none = raise type_error
    incr_by key (some amount) = incr key amount

    abbrev pub incr_checked : String → Option ℤ → Bool → Exec Store (Reply J)
    incr_checked key amount false = pure too_many_keys
    incr_checked key amount true = do
      result ← attempt (call (incr_by key amount))
      incr_reply result

    -- `amount` is 1 where the command does not give it, and `none` where it cannot be added.
    unfoldable pub handle_incr : Option String → Option ℤ → Exec Store (Reply J)
    unfolding check_keys
    handle_incr key amount = do
      full_key ← named_key sandbox_id key
      fits ← check_keys full_key
      incr_checked full_key amount fits
