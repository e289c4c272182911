-- ===== src/User/Pong/Play.antt =====
-- coldfire/user/src/pong.c: the process that prints the board and plays.
use rtx.Base.{
  ℕ, zero, suc, ◌+◌, ◌-◌, ◌==◌, if◌then◌else◌, Bool, true, false, none, some, List, [], ◌∷◌, ◌++◌,
}
use rtx.Base.Int.{eqb_ℤ}
use rtx.Base.Text.{chars_of}
use rtx.Rtx.{console_input}
use rtx.User.{
  Letter, release_msg_env, request_delay, send_console_chars, Run, ◌>>=◌, ◌>>◌, pure, value_of,
  call, new_envelope, receive_message,
}
use rtx.User.Abc.{wakeup_10}
use rtx.User.Pong.{Pong, board_rows, board_cols, init_pong, tick, press}

-- The `left` last cells of a row, the first of them `c`.
abbrev pub cells : (left c : ℕ) → (ℕ → ℕ) → List ℕ
cells zero c row = []
cells (suc left) c row = row c ∷ cells left (c + 1) row

-- The rows from `r` on, each in an envelope of its own.
unfoldable pub print_rows : (left r : ℕ) → Pong → Run (Unit {0})
print_rows zero r p = pure tt
print_rows (suc left) r p = do
  message ← new_envelope
  call (send_console_chars message.env (cells board_cols 0 (p.board r) ++ (10 ∷ 13 ∷ [])) false)
  print_rows left (r + 1) p

unfoldable pub print_board : Pong → Run (Unit {0})
unfolding print_rows
print_board p = do
  msg ← new_envelope
  call (send_console_chars msg.env (chars_of "\u{1b}[0;0H") false)
  print_rows board_rows 0 p

-- `request_delay(DELAY_AMOUNT, WAKEUP_10, message)`
abbrev pub next_tick : (env : ℕ) → Run (Unit {0})
next_tick env = call (request_delay 5 wakeup_10 env)

abbrev pub is_over : Pong → Bool
is_over p = if p.ball_c == 0 then true else p.ball_c == board_cols - 1

-- A tick. A new game is printed before the delay is requested, a moved ball after it.
unfoldable pub serve_tick : (env : ℕ) → Pong → Run Pong
unfolding tick print_board
serve_tick env p = do
  p' ← value_of (tick p)
  (if is_over p then print_board p' >> next_tick env else next_tick env >> print_board p')
  pure p'

unfoldable pub serve_key : Letter → Pong → Run Pong
unfolding press print_board
serve_key l p = do
  p' ← value_of (elim l.at.msg [ none ↦ none | some b ↦ press (b 0) p ])
  call (release_msg_env l.env)
  print_board p'
  pure p'

unfoldable pub play : Letter → Pong → Run Pong
unfolding serve_key serve_tick print_board
play l p =
    if eqb_ℤ l.at.msg_type console_input
    then serve_key l p
    else if eqb_ℤ l.at.msg_type wakeup_10
    then serve_tick l.env p
    else print_board p >> pure p

unfoldable pub play_all : (rounds : ℕ) → Pong → Run Pong
unfolding play
play_all zero p = pure p
play_all (suc rounds) p = receive_message >>= λ l. play l p >>= play_all rounds

-- `update_board`, for a number of envelopes.
unfoldable pub update_board : (rounds : ℕ) → Run Pong
unfolding init_pong print_board play_all
update_board rounds = do
  message ← receive_message
  p ← value_of init_pong
  print_board p
  next_tick message.env
  play_all rounds p
