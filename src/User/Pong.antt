-- ===== src/User/Pong.antt =====
-- coldfire/user/src/pong.c: the game, on a board of 24 rows and 75 columns. Its globals are a record.
-- An access outside the board is a fault, `none`; the ball is never left of or above the board
-- without one.
pub mod Play
pub mod Ball
use rtx.Base.{
  ℕ, zero, suc, ◌+◌, ◌-◌, ltb, ◌==◌, ◌&&◌, ◌||◌, if◌then◌else◌, Bool, true, false, Option, none,
  some, List, [], ◌∷◌, ◌++◌,
}

-- `r_speed` and `c_speed` are 1 or -1.
pub data Speed : Type 0 where
  forward backward : Speed

abbrev pub reverse : Speed → Speed
reverse forward = backward
reverse backward = forward

pub record Pong : Type 0 where
  pub board : ℕ → ℕ → ℕ
  pub left_paddle_pos : ℕ
  pub right_paddle_pos : ℕ
  pub ball_r : ℕ
  pub ball_c : ℕ
  pub r_speed : Speed
  pub c_speed : Speed

abbrev pub board_rows : ℕ
board_rows = 24

abbrev pub board_cols : ℕ
board_cols = 75

abbrev pub inside : (r c : ℕ) → Bool
inside r c = ltb r board_rows && ltb c board_cols

abbrev pub written : (r c ch : ℕ) → (ℕ → ℕ → ℕ) → ℕ → ℕ → ℕ
written r c ch board r' c' = if (r' == r) && (c' == c) then ch else board r' c'

-- `board[r][c] = ch`
abbrev pub put_cell : (r c ch : ℕ) → Pong → Option Pong
put_cell r c ch p = if inside r c then some (record p { board = written r c ch p.board }) else none

-- `board[r][c]`
abbrev pub get_cell : (r c : ℕ) → Pong → Option ℕ
get_cell r c p = if inside r c then some (p.board r c) else none

abbrev pub then_do : Option Pong → (Pong → Option Pong) → Option Pong
then_do none f = none
then_do (some p) f = f p

-- The border of an empty board.
abbrev pub border : (r c : ℕ) → ℕ
border r c =
    if ((r == 0) || (r == board_rows - 1)) && ((c == 0) || (c == board_cols - 1))
    then b'+'
    else if (r == 0) || (r == board_rows - 1)
    then b'-'
    else if (c == 0) || (c == board_cols - 1)
    then b'|'
    else 32

-- `for (r = 0; r < PADDLE_LENGTH; r++)`, with `left` rounds left.
unfoldable pub draw_paddles : (left r : ℕ) → Pong → Option Pong
draw_paddles zero r p = some p
draw_paddles (suc left) r p = then_do (put_cell (p.left_paddle_pos + r) 1 b'M' p) λ p.
    then_do (put_cell (p.right_paddle_pos + r) (board_cols - 2) b'M' p)
      λ p. draw_paddles left (r + 1) p

-- The globals before, of which nothing is kept.
unfoldable pub init_pong : Option Pong
init_pong =
    then_do
      (draw_paddles 5 0 record {
        board = border;
        left_paddle_pos = 10;
        right_paddle_pos = 10;
        ball_r = 12;
        ball_c = 37;
        r_speed = forward;
        c_speed = forward;
      })
      λ p. put_cell p.ball_r p.ball_c b'O' p

-- The speeds after the checks for a bounce at the top, at the bottom and at a paddle.
abbrev pub bounce_r : Pong → Speed
bounce_r p =
    if (p.ball_r == 1) || (p.ball_r == board_rows - 2) then reverse p.r_speed else p.r_speed

abbrev pub moved : Speed → ℕ → Option ℕ
moved forward n = some (n + 1)
moved backward zero = none
moved backward (suc n) = some n

abbrev pub hit : Option ℕ → Speed → Option Speed
hit none s = none
hit (some ch) s = some (if ch == b'M' then reverse s else s)

-- The cell beside a paddle, in the row that the ball goes to.
abbrev pub ahead : (c : ℕ) → Pong → Option ℕ
ahead c p = elim (moved p.r_speed p.ball_r) [ none ↦ none | some r ↦ get_cell r c p ]

abbrev pub bounce_c : Pong → Option Speed
bounce_c p =
    if p.ball_c == 2
    then hit (ahead 1 p) p.c_speed
    else if p.ball_c == board_cols - 3
    then hit (ahead (board_cols - 2) p) p.c_speed
    else some p.c_speed

-- `board[ball_r][ball_c] = ' '; ball_r += r_speed; ball_c += c_speed; board[ball_r][ball_c] = 'O';`
abbrev pub move_ball : Pong → Option Pong
move_ball p = then_do (put_cell p.ball_r p.ball_c 32 p) λ p. elim (moved p.r_speed p.ball_r) [
  | none ↦ none
  | some r ↦ elim (moved p.c_speed p.ball_c) [
    | none ↦ none
    | some c ↦ put_cell r c b'O' (record p { ball_r = r; ball_c = c })
  ]
]

-- What a tick does to the ball, when nobody has scored.
unfoldable pub fly : Pong → Option Pong
fly p =
    let p' = record p { r_speed = bounce_r p } in
    elim (bounce_c p') [ none ↦ none | some s ↦ move_ball (record p' { c_speed = s }) ]

-- A tick: a new game when one player has scored.
unfoldable pub tick : Pong → Option Pong
unfolding init_pong draw_paddles fly
tick p = if (p.ball_c == 0) || (p.ball_c == board_cols - 1) then init_pong else fly p

-- `board[pos+4][col] = ' '; …; board[pos][col] = 'M';`, for the left paddle and for the right one.
abbrev pub move_left : (pos : ℕ) → Pong → Option Pong
move_left pos p =
    then_do (put_cell (p.left_paddle_pos + 4) 1 32 p)
      λ p. put_cell pos 1 b'M' (record p { left_paddle_pos = pos })

abbrev pub move_right : (pos : ℕ) → Pong → Option Pong
move_right pos p =
    then_do (put_cell (p.right_paddle_pos + 4) (board_cols - 2) 32 p)
      λ p. put_cell pos (board_cols - 2) b'M' (record p { right_paddle_pos = pos })

-- A key, by its character.
unfoldable pub press : (key : ℕ) → Pong → Option Pong
press key p =
    if ((key == b'a') || (key == b'A')) && ltb 0 p.left_paddle_pos
    then move_left (p.left_paddle_pos - 1) p
    else if ((key == b's') || (key == b'S')) && ltb p.left_paddle_pos (board_cols - 5)
    then move_left (p.left_paddle_pos + 1) p
    else if ((key == b'k') || (key == b'K')) && ltb (board_cols - 5) p.right_paddle_pos
    then move_right (p.right_paddle_pos - 1) p
    else if ((key == b'l') || (key == b'L')) && ltb p.right_paddle_pos 15
    then move_right (p.right_paddle_pos + 1) p
    else some p
