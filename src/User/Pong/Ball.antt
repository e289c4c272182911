-- ===== src/User/Pong/Ball.antt =====
-- The ball stays on the board.
use rtx.Base.{
  ℕ, zero, suc, ◌+◌, ◌≤◌, ◌≡◌, ◌≢◌, refl, inl, inr, true, Bool-cases, ltb, ◌==◌, ◌||◌,
  if◌then◌else◌, ==_cases, some, arith,
}
use rtx.User.Pong.{
  Speed, forward, backward, reverse, Pong, init_pong, fly, tick, moved, draw_paddles, hit, ahead,
  then_do, bounce_c, inside, written,
}

-- The ball is inside the border at the top and at the bottom, and has come from inside where it
-- touches one of them; and it is between the first and the last column.
pub record InPlay (p : Pong) : Type 0 where
  pub above : 1 ≤ p.ball_r
  pub below : p.ball_r ≤ 22
  pub from_below : p.ball_r ≡ 1 → p.r_speed ≡ backward
  pub from_above : p.ball_r ≡ 22 → p.r_speed ≡ forward
  pub within : p.ball_c ≤ 74

-- Rows, with a speed that has been reversed at the border.
abbrev bounced : Speed → ℕ → Speed
bounced s r = if (r == 1) || (r == 22) then reverse s else s

abbrev GoodRow : Speed → ℕ → Type 0
GoodRow s r = (1 ≤ r) × (r ≤ 22) × (r ≡ 1 → s ≡ backward) × (r ≡ 22 → s ≡ forward)

row_moves :
    (s : Speed) (r : ℕ)
    → GoodRow s r
    → (r' : ℕ) × (moved (bounced s r) r ≡ some r') × GoodRow (bounced s r) r'
row_moves s zero (low, high, top, bottom) = absurd (omega arith)
row_moves forward (suc r) (low, high, top, bottom) = elim (==_cases (suc r) 1) [
  | inl (e, one) ↦ absurd (cc (top one))
  | inr (e, one) ↦ elim (==_cases (suc r) 22) [
    | inl (e', last) ↦
        rw (e, e') (r, refl, (omega arith, omega arith, λ h. refl, λ h. absurd (omega arith)))
    | inr (e', last) ↦
        rw (e, e')
          (suc r + 1, refl, (omega arith, omega arith, λ h. absurd (omega arith), λ h. refl))
  ]
]
row_moves backward (suc r) (low, high, top, bottom) = elim (==_cases (suc r) 22) [
  | inl (e, last) ↦ absurd (cc (bottom last))
  | inr (e, last) ↦ elim (==_cases (suc r) 1) [
    | inl (e', one) ↦
        rw (e, e')
          (suc r + 1, refl, (omega arith, omega arith, λ h. absurd (omega arith), λ h. refl))
    | inr (e', one) ↦
        rw (e, e') (r, refl, (omega arith, omega arith, λ h. refl, λ h. absurd (omega arith)))
  ]
]

-- Columns.
col_moves :
    (s : Speed) (c : ℕ) → c ≢ 0 → c ≢ 74 → c ≤ 74 → (c' : ℕ) × (moved s c ≡ some c') × (c' ≤ 74)
col_moves s zero ne ne' h = absurd (ne refl)
col_moves forward (suc c) ne ne' h = (suc c + 1, refl, omega arith)
col_moves backward (suc c) ne ne' h = (c, refl, omega arith)

hit-some : (ch : ℕ) (s : Speed) → (s' : Speed) × (hit (some ch) s ≡ some s')
hit-some ch s = (_, refl)

bounces :
    (p : Pong) (r : ℕ)
    → moved p.r_speed p.ball_r ≡ some r
    → r ≤ 22
    → (s : Speed) × (bounce_c p ≡ some s)
bounces p r next h =
    let row : ltb r 24 ≡ true = ground arith in
    elim (Bool-cases (p.ball_c == 2)) [
      | inl e ↦ rw (e, ahead, next, row) (_, refl)
      | inr e ↦ elim (Bool-cases (p.ball_c == 72)) [
        | inl e' ↦ rw (e, e', ahead, next, row) (_, refl)
        | inr e' ↦ rw (e, e') (p.c_speed, refl)
      ]
    ]

flies :
    (p : Pong)
    → InPlay p
    → p.ball_c ≢ 0
    → p.ball_c ≢ 74
    → (p' : Pong) × (fly p ≡ some p') × InPlay p'
unfolding fly
flies p v ne ne' =
    let s = bounced p.r_speed p.ball_r in
    let (r, goes, (low, high, top, bottom)) =
      row_moves p.r_speed p.ball_r (v.above, v.below, v.from_below, v.from_above) in
    let (s', turns) = bounces (record p { r_speed = s }) r goes high in
    let (c, drifts, wide) = col_moves s' p.ball_c ne ne' v.within in
    let here : inside p.ball_r p.ball_c ≡ true = ground (arith, v.below, v.within) in
    let there : inside r c ≡ true = ground arith in
    (
      record p {
        board = written r c b'O' (written p.ball_r p.ball_c 32 p.board);
        ball_r = r;
        ball_c = c;
        r_speed = s;
        c_speed = s';
      },
      rw (fly, turns, here, then_do, goes, drifts, there) refl,
      record { above = low; below = high; from_below = top; from_above = bottom; within = wide },
    )

-- `init_pong` stays on the board, and puts the ball into play.
pub init_pong-InPlay : (p : Pong) × (init_pong ≡ some p) × InPlay p
unfolding init_pong draw_paddles
init_pong-InPlay = (
  _,
  refl,
  record {
    above = omega arith;
    below = omega arith;
    from_below = λ h. absurd (omega arith);
    from_above = λ h. refl;
    within = omega arith;
  },
)

-- A tick of the game with the ball in play never reads or writes outside the board, and leaves
-- the ball in play, whatever is drawn on the board and wherever the paddles are. In play means:
-- between the first and the last column, and between the borders at the top and at the bottom,
-- moving towards a border where it touches it.
pub tick-InPlay : (p : Pong) → InPlay p → (p' : Pong) × (tick p ≡ some p') × InPlay p'
unfolding tick
tick-InPlay p v = elim (==_cases p.ball_c 0) [
  | inl (e, zero_at) ↦ rw e init_pong-InPlay
  | inr (e, ne) ↦ elim (==_cases p.ball_c 74) [
    | inl (e', last) ↦ rw (e, e') init_pong-InPlay
    | inr (e', ne') ↦ rw (e, e') (flies p v ne ne')
  ]
]
