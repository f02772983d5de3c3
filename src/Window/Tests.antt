-- ===== src/Window/Tests.antt =====
-- Runs of the window manager, and the theorems at concrete inputs.
use vumi.Base.{String, ◌≡◌, ◌≢◌, ◌≤◌, refl, true, some, [], ◌∷◌, arith, length}
use vumi.Base.Int.{pos}
use vumi.Base.Dict.{lookup}
use vumi.Base.Text.{join}
use vumi.Base.Exec.{Result, ok}
use vumi.Redis.State.{Redis, list, value_at}
use vumi.Redis.Zset as Zset
use vumi.Window.{WindowManager, window_key, flight_key, stats_key, get_next_key}
use vumi.Window.Keys.{w_of}
use vumi.Window.Flight.{Window, get_next_key_lem}

abbrev manager : WindowManager
manager = record { window_size = 2; flight_lifetime = 10 }

abbrev store : Redis
store = record {
  values = ("windows:w", list ("b" ∷ "a" ∷ [])) ∷ ("windows:inflight:w", list ("z" ∷ [])) ∷ [];
  known = ("windows:w", true) ∷ ("windows:inflight:w", true) ∷ [];
  expiries = [];
}

store-Window : Window "w" ("b" ∷ "a" ∷ []) ("z" ∷ []) [] store
unfolding window_key join lookup
store-Window = record { waiting = refl; in_flight = refl; stats = refl }

get_next_key_lem_example :
    let (res, r') = get_next_key manager (pos 5) "w" store in
    (res ≡ ok (some "a"))
    × Window "w" ("b" ∷ []) ("a" ∷ "z" ∷ []) (Zset.zadd (("a", pos 5) ∷ []) []).0 r'
    × (length {A = String} ("a" ∷ "z" ∷ []) ≤ 2)
    × ((j : String)
        → window_key (w_of "w") ≢ j
        → flight_key (w_of "w") ≢ j
        → stats_key (w_of "w") ≢ j
        → value_at r' j ≡ value_at store j)
get_next_key_lem_example =
    get_next_key_lem manager (pos 5) "w" ("z" ∷ []) [] store "a" ("b" ∷ []) refl (omega arith)
      store-Window

abbrev as_text_loads : String → Result String
as_text_loads s = ok s
