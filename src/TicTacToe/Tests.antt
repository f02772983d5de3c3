-- ===== src/TicTacToe/Tests.antt =====
-- A game at work.
use vumi.Base.{◌≡◌, refl, false, some, ◌∷◌, []}
use vumi.Base.Exec.{ok}
use vumi.TicTacToe.{Game, new_game, set_player_o, check_win, check_lines, check_draw, all_marked}

abbrev game : Game
game = set_player_o "b" (new_game "a")

abbrev won : Game
won = record game {
  board = ("X" ∷ "O" ∷ " " ∷ []) ∷ ("O" ∷ "X" ∷ " " ∷ []) ∷ (" " ∷ " " ∷ "X" ∷ []) ∷ [];
}

won_by_x : (check_win won).0 ≡ ok (some "X")
unfolding check_win check_lines
won_by_x = refl

no_draw : (check_draw won).0 ≡ ok false
unfolding check_draw all_marked
no_draw = refl
