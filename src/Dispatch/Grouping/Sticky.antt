-- ===== src/Dispatch/Grouping/Sticky.antt =====
-- The group of a user: the next one in turn for a new user, and the same one ever after.
use Prim.Native.String.{◌++◌}
use vumi.Base.{ℕ, String, ◌≡◌, ◌≢◌, refl, sym, ap, ◌∙◌, false, none, some, arith, str_eq}
use vumi.Base.Int.{pos, ◌+ℤ◌, ◌-ℤ◌}
use vumi.Base.Text.{first_char-ne}
use vumi.Base.Dict.{Dict}
use vumi.Base.Exec.{ok}
use vumi.Redis.State.{Redis, value_at, as_text}
use vumi.Redis.Texts.{set, incr}
use vumi.Redis.Texts.Counter.{count_of, counter_lem}
use vumi.Redis.Effects.{set-Puts, get-eq}
use vumi.Dispatch.Grouping.{
  user_key, get_next_group, get_group_for_user, group_or_next, group_at, given,
}

user_key-ne : (user : String) → "round-robin" ≢ user_key user
unfolding user_key
user_key-ne user = first_char-ne "r" "u" "round-robin" "ser" (":" ++ user) refl (omega arith)

back : (k : ℕ) → pos k +ℤ pos 1 -ℤ pos 1 ≡ pos k
unfolding ◌+ℤ◌ ◌-ℤ◌
back k = ground arith

set-eq : (k v : String) (r : Redis) → set k v r ≡ (ok tt, (set k v r).1)
unfolding set
set-eq k v r = refl

get_group_for_user-kept :
    (groups : Dict String) (user : String) (r : Redis) (g : String)
    → as_text (value_at r (user_key user)) ≡ some (some g)
    → str_eq g "" ≡ false
    → get_group_for_user groups user r ≡ (ok g, r)
unfolding get_group_for_user group_or_next
get_group_for_user-kept groups user r g held nonempty =
    let is : given (some g) ≡ some g = rw nonempty refl in
    rw (get-eq (user_key user) r (some g) held) (ap (λ o. group_or_next groups user o r) is)

module _ (groups : Dict String) (user : String) (r : Redis) where
  -- A user without a group, in a store that has counted `k` users, is given the group at the
  -- place `k` modulo the number of groups in the sorted order of their names, where that name is
  -- not empty. The count goes up by one, and from then on the user is given that group again,
  -- with the store unchanged.
  pub get_group_for_user_lem :
      (k : ℕ) (g : String)
      → as_text (value_at r (user_key user)) ≡ some none
      → count_of (value_at r "round-robin") ≡ some (pos k)
      → group_at (pos k) groups ≡ ok g
      → str_eq g "" ≡ false
      → let (res, r') = get_group_for_user groups user r in
        (res ≡ ok g)
        × (count_of (value_at r' "round-robin") ≡ some (pos k +ℤ pos 1))
        × (get_group_for_user groups user r' ≡ (ok g, r'))
  unfolding get_group_for_user get_next_group group_or_next
  get_group_for_user_lem k g new counted at nonempty =
      let (up, counted', down, down', same) = counter_lem "round-robin" (pos k) (pos 1) r counted in
      let r1 = (incr "round-robin" (pos 1) r).1 in
      let put = set-Puts (user_key user) g r1 in
      let r2 = (set (user_key user) g r1).1 in
      let held : as_text (value_at r2 (user_key user)) ≡ some (some g) = ground (arith, put.at) in
      rw (get-eq (user_key user) r none new) (
        rw up (
          rw (back k) (
            rw at (
              rw (set-eq (user_key user) g r1) (
                refl,
                ap count_of (put.rest "round-robin" (λ e. user_key-ne user (sym e))) ∙ counted',
                get_group_for_user-kept groups user r2 g held nonempty,
              )))))
