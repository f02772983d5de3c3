-- ===== src/Redis/Effects.antt =====
-- What each writing operation leaves in the store: one key holds a new value, or none, and every
-- other key holds what it held.
pub mod Sets
use vumi.Base.{
  ℕ, ◌%◌, get_elem?, ◌-◌, String, ◌≡◌, ◌≢◌, refl, true, false, Option, none, some, List, [], ◌∷◌,
  ◌++◌, arith, eq_iff, eq_refl, if◌then◌else◌, is_some, length, ◌∙◌,
}
use vumi.Base.Dict.{Dict, insert, lookup, contains, lookup-insert, lookup-erase}
use vumi.Base.PySet.{member, discard, add, add_all}
use vumi.Base.Exec.{ok}
use vumi.Redis.State.{
  Redis, Value, text, list, set, hash, zset, value_at, as_list, as_set, as_hash, as_zset, as_text,
  set_key, setdefault_key, mutate,
}
use vumi.Redis.Keys.{delete}
use vumi.Redis.Texts as Texts
use vumi.Base.Decimal.{show_int}
use vumi.Redis.Texts.{number_of}
use vumi.Redis.Hashes.{hset, hget, hgetall, hincrby}
use vumi.Redis.Zset as Zset
use vumi.Redis.Zsets as Zsets
use vumi.Base.Int.{ℤ, ◌+ℤ◌}
use vumi.Redis.Sets.{sadd, srem, smove, spop, scard}
use vumi.Redis.Lists.{lpop, rpop, lpush, rpush, pop_last}

pub record Puts (k : String) (v : Value) (r r' : Redis) : Type 0 where
  pub at : value_at r' k ≡ some v
  pub rest : (j : String) → k ≢ j → value_at r' j ≡ value_at r j

pub record Clears (k : String) (r r' : Redis) : Type 0 where
  pub at : value_at r' k ≡ none
  pub rest : (j : String) → k ≢ j → value_at r' j ≡ value_at r j

module _ (k : String) (v : Value) (r : Redis) where
  pub set_key-Puts : Puts k v r (set_key k v r)
  set_key-Puts = record {
    at = ground (arith, lookup-insert k k v r.values, eq_refl k);
    rest = λ j ne. ground (arith, lookup-insert k j v r.values, eq_iff k j);
  }

  pub mutate-Puts : Puts k v r (mutate k v r)
  mutate-Puts = record {
    at = ground (arith, lookup-insert k k v r.values, eq_refl k);
    rest = λ j ne. ground (arith, lookup-insert k j v r.values, eq_iff k j);
  }

  pub setdefault_key-Puts : (w : Value) → Puts k v r (mutate k v (setdefault_key k w r))
  setdefault_key-Puts w = record {
    at = ground (arith, lookup-insert k k v (setdefault_key k w r).values, eq_refl k);
    rest = λ j ne. ground (
      arith,
      lookup-insert k j v (setdefault_key k w r).values,
      lookup-insert k j w r.values,
      eq_iff k j,
    );
  }

pub delete-Clears : (k : String) (r : Redis) → Clears k r (delete k r).1
unfolding delete
delete-Clears k r = record {
  at = ground (arith, lookup-erase k k r.values, eq_refl k);
  rest = λ j ne. ground (arith, lookup-erase k j r.values, eq_iff k j);
}

pub delete-ok : (k : String) (r : Redis) → (delete k r).0 ≡ ok (is_some (value_at r k))
unfolding delete
delete-ok k r = refl

pub set-ok : (k s : String) (r : Redis) → (Texts.set k s r).0 ≡ ok tt
unfolding Texts.set
set-ok k s r = refl

pub set-Puts : (k s : String) (r : Redis) → Puts k (text s) r (Texts.set k s r).1
unfolding Texts.set
set-Puts k s r = set_key-Puts k (text s) r

module _ (k : String) (r : Redis) (l : List String) (h : as_list (value_at r k) ≡ some l) where
  pub lpush-Puts :
      (x : String) → ((lpush k x r).0 ≡ ok tt) × Puts k (list (x ∷ l)) r (lpush k x r).1
  unfolding lpush
  lpush-Puts x = rw h (refl, setdefault_key-Puts k (list (x ∷ l)) r (list []))

  pub rpush-Puts :
      (x : String)
      → ((rpush k x r).0 ≡ ok (length (l ++ x ∷ []) - 1))
        × Puts k (list (l ++ x ∷ [])) r (rpush k x r).1
  unfolding rpush
  rpush-Puts x = rw h (refl, setdefault_key-Puts k (list (l ++ x ∷ [])) r (list []))

pub lpop-nil : (k : String) (r : Redis) → as_list (value_at r k) ≡ some [] → lpop k r ≡ (ok none, r)
unfolding lpop
lpop-nil k r h = rw h

pub lpop-Puts :
    (k : String) (r : Redis) (x : String) (l : List String)
    → as_list (value_at r k) ≡ some (x ∷ l)
    → ((lpop k r).0 ≡ ok (some x)) × Puts k (list l) r (lpop k r).1
unfolding lpop
lpop-Puts k r x l h = rw h (refl, mutate-Puts k (list l) r)

pub rpop-nil : (k : String) (r : Redis) → as_list (value_at r k) ≡ some [] → rpop k r ≡ (ok none, r)
unfolding rpop pop_last
rpop-nil k r h = rw h

pop_last-snoc : (y : String) (l : List String) (x : String) → pop_last y (l ++ x ∷ []) ≡ (x, y ∷ l)
unfolding pop_last
pop_last-snoc y [] x = refl
pop_last-snoc y (z ∷ l) x = rw (pop_last-snoc z l x)

pub rpop-Puts :
    (k : String) (r : Redis) (l : List String) (x : String)
    → as_list (value_at r k) ≡ some (l ++ x ∷ [])
    → ((rpop k r).0 ≡ ok (some x)) × Puts k (list l) r (rpop k r).1
unfolding rpop pop_last
rpop-Puts k r [] x h = rw h (refl, mutate-Puts k (list []) r)
rpop-Puts k r (y ∷ l) x h = rw h (rw (pop_last-snoc y l x) (refl, mutate-Puts k (list (y ∷ l)) r))

module _ (k : String) (r : Redis) (m : Dict String) (h : as_hash (value_at r k) ≡ some m) where
  pub hset-Puts :
      (f v : String)
      → ((hset k f v r).0 ≡ ok (if contains f m then 0 else 1))
        × Puts k (hash (insert f v m)) r (hset k f v r).1
  unfolding hset
  hset-Puts f v = rw h (refl, setdefault_key-Puts k (hash (insert f v m)) r (hash []))

  pub hget-eq : (f : String) → hget k f r ≡ (ok (lookup f m), r)
  unfolding hget
  hget-eq f = rw h

  pub hgetall-eq : hgetall k r ≡ (ok m, r)
  unfolding hgetall
  hgetall-eq = rw h refl

-- `as_list` and its like at a key that was not written.
module _ {k : String} {v : Value} {r r' : Redis} (p : Puts k v r r') where
  pub list-at : (l : List String) → v ≡ list l → as_list (value_at r' k) ≡ some l
  list-at l e = ground (arith, p.at)

  pub set-at : (s : List String) → v ≡ set s → as_set (value_at r' k) ≡ some s
  set-at s e = ground (arith, p.at)

module _ (k : String) (r : Redis) (z : List (ℤ × String))
    (h : as_zset (value_at r k) ≡ some z) where
  pub zadd-Puts :
      (vs : Dict ℤ)
      → ((Zsets.zadd k vs r).0 ≡ ok (Zset.zadd vs z).1)
        × Puts k (zset (Zset.zadd vs z).0) r (Zsets.zadd k vs r).1
  unfolding Zsets.zadd
  zadd-Puts vs = rw h (refl, setdefault_key-Puts k (zset (Zset.zadd vs z).0) r (zset []))

  pub zrem-Puts :
      (v : String)
      → ((Zsets.zrem k v r).0 ≡ ok (Zset.zrem v z).1)
        × Puts k (zset (Zset.zrem v z).0) r (Zsets.zrem k v r).1
  unfolding Zsets.zrem
  zrem-Puts v = rw h (refl, setdefault_key-Puts k (zset (Zset.zrem v z).0) r (zset []))

  pub zremrangebyrank-Puts :
      (start stop : ℤ)
      → let (z', n) = Zset.zremrangebyrank start stop z in
        ((Zsets.zremrangebyrank k start stop r).0 ≡ ok n)
        × Puts k (zset z') r (Zsets.zremrangebyrank k start stop r).1
  unfolding Zsets.zremrangebyrank
  zremrangebyrank-Puts start stop =
      rw h (refl, setdefault_key-Puts k (zset (Zset.zremrangebyrank start stop z).0) r (zset []))

pub get-eq :
    (k : String) (r : Redis) (t : Option String)
    → as_text (value_at r k) ≡ some t
    → Texts.get k r ≡ (ok t, r)
unfolding Texts.get
get-eq k r t h = rw h

-- On a field that reads as the number `x`, or as 0 where it is not there, `hincrby` returns the sum
-- with the amount and stores it in the field.
pub hincrby-Puts :
    (k f : String) (x a : ℤ) (r : Redis) (m : Dict String)
    → as_hash (value_at r k) ≡ some m
    → number_of (lookup f m) r ≡ (ok x, r)
    → ((hincrby k f a r).0 ≡ ok (x +ℤ a))
      × Puts k (hash (insert f (show_int (x +ℤ a)) m)) r (hincrby k f a r).1
unfolding hincrby
hincrby-Puts k f x a r m h n =
    rw h (rw n (refl, setdefault_key-Puts k (hash (insert f (show_int (x +ℤ a)) m)) r (hash [])))
