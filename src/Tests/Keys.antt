-- ===== src/Tests/Keys.antt =====
-- The theorems about the keyboard of the Unix port, with a line of two characters and one of 1024.
use rtx.Base.{ℕ, zero, suc, ◌≡◌, refl, ap, List, [], ◌∷◌, ◌++◌, length, arith}
use rtx.Message.{Body}
use rtx.Utils.Spells.{Spells}
use rtx.Unix.Keyboard.{
  Request, Keyboard, ending, exited, reading, typed, asked, i_steps, reader_steps, key_run,
  key_init,
}
use rtx.Unix.Keyboard.Bounds.{InBounds, run-InBounds}
use rtx.Unix.Keyboard.Lines.{OneLine, idle, typed_line, line-answered, line-past_end}

abbrev empty : Keyboard
empty = key_init (λ _. 1) (λ _. 1)

abbrev request : Request
request = record { env = 16; send_pid = 3 }

-- A line of one letter, again and again.
abbrev letters : ℕ → List ℕ
letters zero = []
letters (suc n) = 97 ∷ letters n

length-letters : (n : ℕ) → length (letters n) ≡ n
length-letters zero = refl
length-letters (suc n) = ap (λ k. suc k) (length-letters n)

OneLine-letters : (n : ℕ) → OneLine (letters n)
OneLine-letters zero = tt
OneLine-letters (suc n) = (omega arith, omega arith, OneLine-letters n)

run-InBounds_example : InBounds (
    key_run
      (typed 97
        ∷ reader_steps
        ∷ reader_steps
        ∷ reader_steps
        ∷ reader_steps
        ∷ typed 10
        ∷ reader_steps
        ∷ reader_steps
        ∷ i_steps
        ∷ asked request
        ∷ i_steps
        ∷ i_steps
        ∷ [])
      empty)
run-InBounds_example =
    run-InBounds
      (typed 97
        ∷ reader_steps
        ∷ reader_steps
        ∷ reader_steps
        ∷ reader_steps
        ∷ typed 10
        ∷ reader_steps
        ∷ reader_steps
        ∷ i_steps
        ∷ asked request
        ∷ i_steps
        ∷ i_steps
        ∷ [])
      (λ _. 1) (λ _. 1)

line-answered_example :
    (m : Body) × Spells m 0 (104 ∷ 105 ∷ [])
    × (let t =
          key_run
            (typed_line (104 ∷ 105 ∷ []) ++ (i_steps ∷ i_steps ∷ i_steps ∷ i_steps ∷ []))
            (idle request [] empty) in
        (t.answered ≡ record { request = request; msg = m } ∷ [])
        × (t.mailbox ≡ [])
        × (t.length ≡ 0)
        × (t.i_process ≡ exited)
        × (t.reader ≡ reading))
line-answered_example =
    line-answered (104 ∷ 105 ∷ []) request [] empty (omega arith)
      (omega arith, omega arith, (omega arith, omega arith, tt))

line-past_end_example :
    (key_run (typed_line (letters 1024)) (idle request [] empty)).i_process ≡ ending request 1024
line-past_end_example =
    line-past_end (letters 1024) request [] empty (length-letters 1024) (OneLine-letters 1024)
