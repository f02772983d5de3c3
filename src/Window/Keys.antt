-- ===== src/Window/Keys.antt =====
-- The keys of one window differ from one another. Those of the same parts differ in length; those
-- of the two directions of the id map in the first letter of the direction.
use Prim.Native.String.{String, count, ◌++◌}
use text.Mathlib.TextLemmas.{append_cancel_left, length-append}
use mathlib.Core.List as L
use vumi.Base.{◌≢◌, ap, arith}
use vumi.Base.Text.{first_char-ne, first_char-append}
use vumi.Window.{window_key, flight_key, stats_key, map_key}

abbrev pub w_of : String → L.List String
w_of w = L.◌∷◌ w L.[]

pub window_key-flight_key : (w : String) → window_key (w_of w) ≢ flight_key (w_of w)
unfolding window_key
window_key-flight_key w e =
    let tail = append_cancel_left ":" _ _ (append_cancel_left "windows" _ _ e) in
    omega (arith, ap count tail, length-append "inflight" (":" ++ w), length-append ":" w)

pub window_key-stats_key : (w : String) → window_key (w_of w) ≢ stats_key (w_of w)
unfolding window_key
window_key-stats_key w e =
    let tail = append_cancel_left ":" _ _ (append_cancel_left "windows" _ _ e) in
    omega (arith, ap count tail, length-append "flightstats" (":" ++ w), length-append ":" w)

pub flight_key-stats_key : (w : String) → flight_key (w_of w) ≢ stats_key (w_of w)
unfolding window_key
flight_key-stats_key w e =
    let tail = append_cancel_left ":" _ _ (append_cancel_left "windows" _ _ e) in
    omega (
      arith,
      ap count tail,
      length-append "inflight" (":" ++ w),
      length-append "flightstats" (":" ++ w),
    )

pub internal-external :
    (w x y : String)
    → map_key (L.◌∷◌ w (L.◌∷◌ "internal" (w_of x))) ≢ map_key (L.◌∷◌ w (L.◌∷◌ "external" (w_of y)))
unfolding window_key
internal-external w x y e =
    let tail = append_cancel_left ":" _ _ (
      append_cancel_left w _ _ (
        append_cancel_left ":" _ _ (
          append_cancel_left "keymap" _ _
            (append_cancel_left ":" _ _ (append_cancel_left "windows" _ _ e))))) in
    first_char-ne "i" "e" ("internal" ++ ":" ++ x) "xternal" (":" ++ y)
      (first_char-append "i" "nternal" (":" ++ x)) (omega arith) tail
