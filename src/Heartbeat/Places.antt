-- ===== src/Heartbeat/Places.antt =====
-- The workers of a monitor by their ids and places (vumi/blinkenlights/heartbeat/monitor.py).
use mathlib.Core.Option
use package.text.Mathlib.TextLemmas.{append_cancel_left, append_cancel_right}
use Prim.Native.String.{◌++◌}
use vumi.Base.{ℕ, zero, suc, String, ◌≡◌, ◌≢◌, refl, sym, ap, ◌∙◌, some, List, [], ◌∷◌, get_elem?}
use vumi.Base.Dict.{Dict}
use vumi.Heartbeat.Storage.{issue_key}
use vumi.Heartbeat.Worker.{Worker}
use vumi.Heartbeat.Monitor.{at_place}

pub issue_key-ne : (a b : String) → a ≢ b → issue_key a ≢ issue_key b
unfolding issue_key
issue_key-ne a b ne e = ne (
    append_cancel_right a b ":issue"
      (append_cancel_left "worker:" (a ++ ":issue") (b ++ ":issue") e))

-- A change at another place.
pub get_elem?-other :
    (f : Worker → Worker) (i j : ℕ) (ws : List Worker)
    → i ≢ j
    → get_elem? (at_place f i ws) j ≡ get_elem? ws j
unfolding at_place
get_elem?-other f i j [] ne = refl
get_elem?-other f zero zero (w ∷ ws) ne = absurd (ne refl)
get_elem?-other f zero (suc j) (w ∷ ws) ne = refl
get_elem?-other f (suc i) zero (w ∷ ws) ne = refl
get_elem?-other f (suc i) (suc j) (w ∷ ws) ne =
    get_elem?-other f i j ws (λ (e : i ≡ j). ne (ap suc e))

pub get_elem?-same :
    (f : Worker → Worker) (i : ℕ) (ws : List Worker) (w : Worker)
    → get_elem? ws i ≡ some w
    → get_elem? (at_place f i ws) i ≡ some (f w)
unfolding at_place
get_elem?-same f i [] w h = cc
get_elem?-same f zero (v ∷ ws) w h = ap (Option.map f) h
get_elem?-same f (suc i) (v ∷ ws) w h = get_elem?-same f i ws w h

-- No entry has the place, or the id.
abbrev pub Off : ℕ → Dict ℕ → Type 0
Off p [] = Unit
Off p ((j, q) ∷ d) = (q ≢ p) × Off p d

abbrev pub Unnamed : String → Dict ℕ → Type 0
Unnamed id [] = Unit
Unnamed id ((j, q) ∷ d) = (id ≢ j) × Unnamed id d

-- No two entries have an id or a place in common.
abbrev pub IsApart : Dict ℕ → Type 0
IsApart [] = Unit
IsApart ((id, p) ∷ d) = Unnamed id d × Off p d × IsApart d

-- Each entry names a worker of which `P` holds.
abbrev pub Each : (String → Worker → Type 0) → Dict ℕ → List Worker → Type 0
Each P [] ws = Unit
Each P ((id, p) ∷ d) ws = ((w : Worker) × (get_elem? ws p ≡ some w) × P id w) × Each P d ws

module _ (P Q : String → Worker → Type 0) where
  pub Each-map :
      (d : Dict ℕ) (ws : List Worker)
      → ((id : String) (w : Worker) → P id w → Q id w)
      → Each P d ws
      → Each Q d ws
  Each-map [] ws h e = tt
  Each-map ((id, p) ∷ d) ws h ((w, at, x), e) = ((w, at, h id w x), Each-map d ws h e)

  -- What is carried over for the ids that are not `id`.
  pub Each-map-Unnamed :
      (id : String) (d : Dict ℕ) (ws : List Worker)
      → Unnamed id d
      → ((j : String) (w : Worker) → id ≢ j → P j w → Q j w)
      → Each P d ws
      → Each Q d ws
  Each-map-Unnamed id [] ws u h e = tt
  Each-map-Unnamed id ((j, p) ∷ d) ws (ne, u) h ((w, at, x), e) =
      ((w, at, h j w ne x), Each-map-Unnamed id d ws u h e)

module _ (P : String → Worker → Type 0) where
  pub Each-at_place :
      (f : Worker → Worker) (p : ℕ) (d : Dict ℕ) (ws : List Worker)
      → Off p d
      → Each P d ws
      → Each P d (at_place f p ws)
  Each-at_place f p [] ws o e = tt
  Each-at_place f p ((j, q) ∷ d) ws (ne, o) ((w, at, x), e) = (
    (w, get_elem?-other f p q ws (λ (s : p ≡ q). ne (sym s)) ∙ at, x),
    Each-at_place f p d ws o e,
  )
