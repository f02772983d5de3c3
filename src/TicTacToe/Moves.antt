-- ===== src/TicTacToe/Moves.antt =====
-- What a move of vumi/demos/tictactoe.py does to the board, and what a win is.
use vumi.Base.{
  ℕ, zero, suc, String, ◌≡◌, refl, sym, ap, ◌∙◌, Bool, true, false, Option, none, some, List, [],
  ◌∷◌, arith, get_elem?, if◌then◌else◌, str_eq, ◌==◌, ◌&&◌, Bool-cases, eq_iff, inl, inr, ◌⊎◌,
}
use vumi.Base.Exec.{ok, Result, pure, ◌>>=◌}
use vumi.TicTacToe.{Board, Game, cell, cell_in, set_at, move_at, move, is_player}

abbrev changed : {A : Type 0} → Bool → (A → A) → Option A → Option A
changed b f none = none
changed b f (some a) = some (if b then f a else a)

suc-eq : (i j : ℕ) → (i == j) ≡ (suc i == suc j)
suc-eq i j = ground arith

get_elem?-set_at :
    {A : Type 0} (i j : ℕ) (f : A → A) (l : List A)
    → get_elem? (set_at i f l) j ≡ changed (i == j) f (get_elem? l j)
unfolding set_at
get_elem?-set_at i j f [] = refl
get_elem?-set_at zero zero f (a ∷ l) = refl
get_elem?-set_at zero (suc j) f (a ∷ l) = same f (get_elem? l j)
  where
    same : {A : Type 0} (f : A → A) (o : Option A) → o ≡ changed (zero == suc j) f o
    same f none = refl
    same f (some a) = ground arith
get_elem?-set_at (suc i) zero f (a ∷ l) = ground arith
get_elem?-set_at (suc i) (suc j) f (a ∷ l) =
    get_elem?-set_at i j f l ∙ ap (λ b. changed b f (get_elem? l j)) (suc-eq i j)

-- The board with a mark set, and what stands in each of its cells.
abbrev pub marked : String → ℕ → ℕ → Board → Board
marked val x y board = set_at y (set_at x (λ _. val)) board

abbrev pub mark_or : Bool → String → Option String → Option String
mark_or hit val none = none
mark_or hit val (some c) = some (if hit then val else c)

mark_or-false : (val : String) (o : Option String) → o ≡ mark_or false val o
mark_or-false val none = refl
mark_or-false val (some c) = refl

changed-mark_or :
    (b : Bool) (val : String) (o : Option String) → changed b (λ _. val) o ≡ mark_or b val o
changed-mark_or b val none = refl
changed-mark_or b val (some c) = refl

cell-marked :
    (val : String) (x y i j : ℕ) (board : Board)
    → cell (marked val x y board) i j ≡ mark_or ((y == j) && (x == i)) val (cell board i j)
cell-marked val x y i j board =
    ap (λ r. cell_in r i) (get_elem?-set_at y j (set_at x (λ _. val)) board)
    ∙ row (get_elem? board j)
  where
    row :
        (r : Option (List String))
        → cell_in (changed (y == j) (set_at x (λ _. val)) r) i
          ≡ mark_or ((y == j) && (x == i)) val (cell_in r i)
    row none = refl
    row (some l) = elim (Bool-cases (y == j)) [
      | inl here ↦
          rw here (get_elem?-set_at x i (λ _. val) l ∙ changed-mark_or (x == i) val (get_elem? l i))
      | inr elsewhere ↦ rw elsewhere (mark_or-false val (get_elem? l i))
    ]

module _ (g : Game) (sid val : String) (other : Option String) (x y : ℕ) where
  -- Whose turn it is said to be: the first player, with the second as the other, or the second.
  abbrev pub Plays : Type 0
  Plays =
      ((str_eq sid g.player_x ≡ true) × (val ≡ "X") × (other ≡ g.player_o))
      ⊎ ((str_eq sid g.player_x ≡ false)
          × (is_player sid g.player_o ≡ true)
          × (val ≡ "O")
          × (other ≡ some g.player_x))

  abbrev pub after : Game
  after = record g { board = marked val x y g.board }

  move_at-free : cell g.board x y ≡ some " " → move_at val x y g ≡ (ok true, after)
  unfolding move_at
  move_at-free h = rw h refl

  move_at-taken :
      (c : String)
      → cell g.board x y ≡ some c
      → str_eq c " " ≡ false
      → move_at val x y g ≡ (ok false, g)
  unfolding move_at
  move_at-taken c h ne = rw h (rw ne refl)

  abbrev turn : String → Option String → Result (Option (Bool × Option String)) × Game
  turn v o = (move_at v x y >>= (λ (done : Bool). pure (some (done, o)))) g

  answered :
      (c : String)
      → cell g.board x y ≡ some c
      → turn val other
        ≡ (if str_eq c " " then (ok (some (true, other)), after) else (ok (some (false, other)), g))
  answered c h = elim (Bool-cases (str_eq c " ")) [
    | inl free ↦ rw (move_at-free (h ∙ ap some ((eq_iff c " ").0 free))) (rw free refl)
    | inr taken ↦ rw (move_at-taken c h taken) (rw taken refl)
  ]

  -- A player who moves on a free cell gets the answer true with the other player; the cell then
  -- holds the player's mark, every other cell what it held, and the players stay. On a cell that
  -- holds a mark the answer is false with the other player, and the game does not change.
  pub move_lem :
      (c : String)
      → Plays
      → cell g.board x y ≡ some c
      → (move sid x y g ≡ (
          if str_eq c " " then (ok (some (true, other)), after) else (ok (some (false, other)), g)))
        × ((i j : ℕ) → cell after.board i j ≡ mark_or ((y == j) && (x == i)) val (cell g.board i j))
  unfolding move
  move_lem c plays h =
      let played : move sid x y g ≡ turn val other = elim plays [
        | inl (first, v, o) ↦ rw first (λ i. turn (sym v i) (sym o i))
        | inr (second, in_game, v, o) ↦ rw second (rw in_game (λ i. turn (sym v i) (sym o i)))
      ] in
      (played ∙ answered c h, λ i j. cell-marked val x y i j g.board)
