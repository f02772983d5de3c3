-- ===== src/Window/Flight.antt =====
-- The items of a window: `add` appends to a queue, `get_next_key` moves its oldest item to the list
-- of those in flight, which never outgrows the size of the window.
use vumi.Base.{
  String, ◌≡◌, ◌≢◌, ◌<◌, ◌≤◌, refl, sym, ◌∙◌, true, false, none, some, List, [], ◌∷◌, ◌++◌, ◌⊎◌,
  inl, inr, Bool-cases, arith, str_eq, length, ltb, ◌==◌,
}
use vumi.Base.Int.{ℤ}
use vumi.Base.Exec.{ok}
use vumi.Redis.State.{Redis, value_at, as_list, as_zset}
use vumi.Redis.Effects.{zadd-Puts}
use vumi.Redis.Lists.{llen, rpoplpush}
use vumi.Redis.Lists.Queue.{rpoplpush_lem}
use vumi.Redis.Zset as Zset
use vumi.Window.{
  WindowManager, window_key, flight_key, stats_key, get_next_key, set_timestamp, count_waiting,
  count_in_flight,
}
use vumi.Window.Keys.{w_of, window_key-flight_key, window_key-stats_key, flight_key-stats_key}

-- The store holds the waiting items `l`, the oldest last, the items in flight `d`, and their times
-- `z`.
pub record Window (w : String) (l d : List String) (z : List (ℤ × String)) (r : Redis)
    : Type 0 where
  pub waiting : as_list (value_at r (window_key (w_of w))) ≡ some l
  pub in_flight : as_list (value_at r (flight_key (w_of w))) ≡ some d
  pub stats : as_zset (value_at r (stats_key (w_of w))) ≡ some z

count_waiting_lem :
    (w : String) (l d : List String) (z : List (ℤ × String)) (r : Redis)
    → Window w l d z r
    → (count_waiting w r ≡ (ok (length l), r)) × (count_in_flight w r ≡ (ok (length d), r))
unfolding count_waiting count_in_flight llen
count_waiting_lem w l d z r h = (rw h.waiting, rw h.in_flight)

length-snoc : (l : List String) (x : String) → (length (l ++ x ∷ []) == 0) ≡ false
length-snoc [] x = ground arith
length-snoc (y ∷ l) x = ground arith

module _ (m : WindowManager) (now : ℤ) (w : String) (d : List String) (z : List (ℤ × String))
    (r : Redis) where
  -- While fewer than `window_size` items are in flight, `get_next_key` takes the oldest waiting
  -- item, whose key is not empty: it returns the key, moves it to the front of the items in
  -- flight, of which there are still at most `window_size`, and notes the time under the key.
  -- The other waiting items keep their order, and no key of the store changes but the three of
  -- the window.
  pub get_next_key_lem :
      (x : String) (l : List String)
      → str_eq x "" ≡ false
      → length d < m.window_size
      → Window w (l ++ x ∷ []) d z r
      → let (res, r') = get_next_key m now w r in
        (res ≡ ok (some x))
        × Window w l (x ∷ d) (Zset.zadd ((x, now) ∷ []) z).0 r'
        × (length (x ∷ d) ≤ m.window_size)
        × ((j : String)
            → window_key (w_of w) ≢ j
            → flight_key (w_of w) ≢ j
            → stats_key (w_of w) ≢ j
            → value_at r' j ≡ value_at r j)
  unfolding get_next_key set_timestamp
  get_next_key_lem x l item room h =
      let (waiting, in_flight) = count_waiting_lem w (l ++ x ∷ []) d z r h in
      let open_ : ltb (length d) m.window_size ≡ true = ground arith in
      let (moved_x, left, flying, same) =
        rpoplpush_lem (window_key (w_of w)) (flight_key (w_of w)) x l d r (window_key-flight_key w)
          h.waiting h.in_flight in
      let r1 = (rpoplpush (window_key (w_of w)) (flight_key (w_of w)) r).1 in
      let flying' : as_list (value_at r1 (flight_key (w_of w))) ≡ some (x ∷ d) =
        flying ∙ ground (arith, item) in
      let stats1 : as_zset (value_at r1 (stats_key (w_of w))) ≡ some z =
        rw (same (stats_key (w_of w)) (window_key-stats_key w) (flight_key-stats_key w)) h.stats in
      let (done, put) = zadd-Puts (stats_key (w_of w)) r1 z stats1 ((x, now) ∷ []) in
      rw (waiting, length-snoc l x, in_flight, open_, moved_x, item, item, done)
        (
          refl,
          record {
            waiting =
                rw (put.rest (window_key (w_of w)) (λ e. window_key-stats_key w (sym e))) left;
            in_flight =
                rw (put.rest (flight_key (w_of w)) (λ e. flight_key-stats_key w (sym e))) flying';
            stats = ground (arith, put.at);
          },
          omega arith,
          λ j nw nf ns. put.rest j ns ∙ same j nw nf,
        )

  -- With nothing waiting, or with `window_size` items in flight, `get_next_key` returns nothing
  -- and changes nothing.
  pub get_next_key-none :
      (l : List String)
      → (length l ≡ 0) ⊎ (m.window_size ≤ length d)
      → Window w l d z r
      → get_next_key m now w r ≡ (ok none, r)
  unfolding get_next_key
  get_next_key-none l why h =
      let (waiting, in_flight) = count_waiting_lem w l d z r h in
      rw waiting (elim (Bool-cases (length l == 0)) [
        | inl idle ↦ rw idle refl
        | inr busy ↦
            let full : ltb (length d) m.window_size ≡ false = ground (arith, why) in
            rw (busy, in_flight, full) refl
      ])
