-- ===== src/TicTacToe.antt =====
-- vumi/demos/tictactoe.py: the class `TicTacToeGame`. A mark is a text of one letter or a space, and
-- a board the list of its rows, from the top.
pub mod Moves
mod Tests
use vumi.Base.{
  ℕ, zero, suc, String, Bool, true, false, Option, none, some, List, [], ◌∷◌, get_elem?,
  if◌then◌else◌, str_eq, not, ◌&&◌,
}
use vumi.Base.Exec.{Exec, index_error, pure, gets, modify, or_raise, ◌>>=◌, ◌>>◌}

abbrev pub Board : Type 0
Board = List (List String)

pub record Game : Type 0 where
  pub board : Board
  pub player_x : String
  pub player_o : Option String

abbrev pub new_game : String → Game
new_game player_x = record {
  board = (" " ∷ " " ∷ " " ∷ []) ∷ (" " ∷ " " ∷ " " ∷ []) ∷ (" " ∷ " " ∷ " " ∷ []) ∷ [];
  player_x = player_x;
  player_o = none;
}

abbrev pub set_player_o : String → Game → Game
set_player_o player_o g = record g { player_o = some player_o }

-- `self.board[y][x]`
abbrev pub cell_in : Option (List String) → ℕ → Option String
cell_in none x = none
cell_in (some row) x = get_elem? row x

abbrev pub cell : Board → ℕ → ℕ → Option String
cell board x y = cell_in (get_elem? board y) x

-- `l[i] = f(l[i])`, within the list
unfoldable pub set_at : {A : Type 0} → ℕ → (A → A) → List A → List A
set_at i f [] = []
set_at zero f (a ∷ l) = f a ∷ l
set_at (suc i) f (a ∷ l) = a ∷ set_at i f l

-- `_move`
unfoldable pub move_at : String → ℕ → ℕ → Exec Game Bool
unfolding set_at
move_at val x y = do
  g ← gets (λ (s : Game). s)
  c ← or_raise (cell g.board x y) index_error
  if str_eq c " "
      then (do modify (λ s. record s { board = set_at y (set_at x (λ _. val)) s.board }); pure true)
      else pure false

abbrev pub is_player : String → Option String → Bool
is_player sid none = false
is_player sid (some player) = str_eq sid player

-- The answer to a move, and the other player; nothing for one who does not play.
unfoldable pub move : String → ℕ → ℕ → Exec Game (Option (Bool × Option String))
unfolding move_at
move sid x y = do
  g ← gets (λ (s : Game). s)
  if str_eq sid g.player_x
      then (do done ← move_at "X" x y; pure (some (done, g.player_o)))
      else if is_player sid g.player_o
      then (do done ← move_at "O" x y; pure (some (done, some g.player_x)))
      else pure none

-- `check_line`: the mark that fills the line
abbrev pub check_line : String → String → String → Option String
check_line v1 v2 v3 =
    if not (str_eq v1 " ") && (str_eq v1 v2 && str_eq v1 v3) then some v1 else none

abbrev pub Line : Type 0
Line = (ℕ × ℕ) × (ℕ × ℕ) × (ℕ × ℕ)

abbrev pub lines : List Line
lines =
    ((0, 0), (0, 1), (0, 2))
    ∷ ((1, 0), (1, 1), (1, 2))
    ∷ ((2, 0), (2, 1), (2, 2))
    ∷ ((0, 0), (1, 0), (2, 0))
    ∷ ((0, 1), (1, 1), (2, 1))
    ∷ ((0, 2), (1, 2), (2, 2))
    ∷ ((0, 0), (1, 1), (2, 2))
    ∷ ((0, 2), (1, 1), (2, 0))
    ∷ []

unfoldable pub check_lines : List Line → Exec Game (Option String)
check_lines [] = pure none
check_lines ((a, b, c) ∷ rest) = do
  g ← gets (λ (s : Game). s)
  v1 ← or_raise (cell g.board a.0 a.1) index_error
  v2 ← or_raise (cell g.board b.0 b.1) index_error
  v3 ← or_raise (cell g.board c.0 c.1) index_error
  let others = check_lines rest
  elim (check_line v1 v2 v3) [ none ↦ others | some v ↦ pure (some v) ]

unfoldable pub check_win : Exec Game (Option String)
unfolding check_lines
check_win = check_lines lines

unfoldable pub all_marked : List (ℕ × ℕ) → Exec Game Bool
all_marked [] = pure true
all_marked ((x, y) ∷ rest) = do
  g ← gets (λ (s : Game). s)
  c ← or_raise (cell g.board x y) index_error
  let others = all_marked rest
  if str_eq c " " then pure false else others

unfoldable pub check_draw : Exec Game Bool
unfolding all_marked
check_draw =
    all_marked ((0, 0) ∷ (0, 1) ∷ (0, 2) ∷ (1, 0) ∷ (1, 1) ∷ (1, 2) ∷ (2, 0) ∷ (2, 1) ∷ (2, 2) ∷ [])
