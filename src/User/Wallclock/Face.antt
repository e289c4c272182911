-- ===== src/User/Wallclock/Face.antt =====
-- The time that the wall clock shows.
use rtx.Base.{
  ℕ, suc, ◌+◌, ◌/◌, ◌==◌, not, ◌&&◌, ◌%◌, ◌<◌, ◌≡◌, refl, ap, ◌∙◌, true, false, Bool, ltb, List, [],
  ◌∷◌, ◌++◌, arith,
}
use rtx.Base.Int.{pos}
use rtx.Base.Word.{i31, signed_div, signed_rem}
use rtx.Base.Text.{chars_of}
use rtx.Message.{of_word}
use rtx.Utils.Printf.{
  Param, int, text, put_all, rtx_sprintf, print_loop, flag, width, directive, convert, go, stop,
  go_on,
}
use rtx.Utils.Printf.Number.{put_number-two_digits}
use rtx.User.Wallclock.{at_clock, restore_cursor, clock_face}

-- The two digits of a number below 100.
abbrev pub two : ℕ → List ℕ
two n = (48 + n / 10) ∷ (48 + n % 10) ∷ []

-- "hh:mm:ss"
abbrev pub hms : (hr min sec : ℕ) → List ℕ
hms hr min sec = two hr ++ (b':' ∷ two min ++ (b':' ∷ two sec))

print-two :
    (fuel n : ℕ) (f : List ℕ) (ps : List Param) (out : List ℕ)
    → n < 100
    → print_loop (suc (suc (suc (suc fuel)))) (b'%' ∷ b'0' ∷ b'2' ∷ b'd' ∷ f) (int (pos n) ∷ ps) out
      ≡ print_loop (suc (suc (suc fuel))) f ps ((48 + n % 10) ∷ (48 + n / 10) ∷ out)
unfolding print_loop flag width directive convert
print-two fuel n f ps out below =
    ap
      (λ r. elim (go_on f ps r) [
        | go f' ps' out' ↦ print_loop (suc (suc (suc fuel))) f' ps' out'
        | stop printed ↦ printed
      ])
      (put_number-two_digits (suc (suc (suc fuel))) n out (omega arith) below)

-- The fuel that the characters of a text take.
abbrev more : List ℕ → ℕ → ℕ
more [] fuel = fuel
more (c ∷ cs) fuel = suc (more cs fuel)

abbrev is_plain : List ℕ → Bool
is_plain [] = true
is_plain (c ∷ cs) = not (c == b'%') && is_plain cs

print-plain :
    (cs : List ℕ) (fuel : ℕ) (f : List ℕ) (ps : List Param) (out : List ℕ)
    → is_plain cs ≡ true
    → print_loop (more cs fuel) (cs ++ f) ps out ≡ print_loop fuel f ps (put_all cs out)
unfolding print_loop
print-plain [] fuel f ps out ok = refl
print-plain (c ∷ cs) fuel f ps out ok =
    let one : (c == b'%') ≡ false = ground arith in
    let others : is_plain cs ≡ true = ground arith in
    rw (print_loop, one) (print-plain cs fuel f ps (c ∷ out) others)

print-end :
    (fuel : ℕ) (ps : List Param) (out : List ℕ)
    → print_loop (suc fuel) [] ps out ≡ text (put_all out [])
unfolding print_loop
print-end fuel ps out = refl

sprintf-hms :
    (hr min sec : ℕ)
    → hr < 100
    → min < 100
    → sec < 100
    → rtx_sprintf 40
        (at_clock ++ (chars_of "%02d:%02d:%02d" ++ restore_cursor))
        (int (pos hr) ∷ int (pos min) ∷ int (pos sec) ∷ [])
      ≡ text (at_clock ++ (hms hr min sec ++ restore_cursor))
unfolding rtx_sprintf
sprintf-hms hr min sec h m s =
    let o1 = put_all at_clock [] in
    let o2 = put_all (b':' ∷ []) (put_all (two hr) o1) in
    let o3 = put_all (b':' ∷ []) (put_all (two min) o2) in
    let p2 = int (pos min) ∷ int (pos sec) ∷ [] in
    let p3 = int (pos sec) ∷ [] in
    let f3 = chars_of "%02d" ++ restore_cursor in
    let f2 = chars_of "%02d:" ++ f3 in
    print-plain at_clock 30 (chars_of "%02d:" ++ f2) (int (pos hr) ∷ p2) [] refl
    ∙ print-two 26 hr (b':' ∷ f2) p2 o1 h
    ∙ print-plain (b':' ∷ []) 28 f2 p2 (put_all (two hr) o1) refl
    ∙ print-two 24 min (b':' ∷ f3) p3 o2 m
    ∙ print-plain (b':' ∷ []) 26 f3 p3 (put_all (two min) o2) refl
    ∙ print-two 22 sec restore_cursor [] o3 s
    ∙ print-plain restore_cursor 22 [] [] (put_all (two sec) o3) refl
    ∙ print-end 21 [] (put_all restore_cursor (put_all (two sec) o3))

of_word-small : (n : ℕ) → n < i31 → of_word n ≡ pos n
unfolding of_word
of_word-small n h = ground arith

-- `clock_face` of a time of the day, in seconds, is its hours, minutes and seconds, with two digits
-- each, between the codes that move the cursor to the clock and back.
pub clock_face-hms :
    (t : ℕ)
    → t < 86400
    → clock_face t ≡ text (at_clock ++ (hms (t / 3600) (t % 3600 / 60) (t % 60) ++ restore_cursor))
unfolding clock_face
clock_face-hms t h =
    let day : ltb t i31 ≡ true = ground arith in
    let hour : ltb (t % 3600) i31 ≡ true = ground arith in
    let eh : of_word (signed_div t 3600) ≡ pos (t / 3600) =
      rw day (of_word-small (t / 3600) (omega arith)) in
    let em : of_word (signed_div (signed_rem t 3600) 60) ≡ pos (t % 3600 / 60) =
      rw (day, hour) (of_word-small (t % 3600 / 60) (omega arith)) in
    let es : of_word (signed_rem t 60) ≡ pos (t % 60) =
      rw day (of_word-small (t % 60) (omega arith)) in
    rw (eh, em, es)
      (sprintf-hms (t / 3600) (t % 3600 / 60) (t % 60) (omega arith) (omega arith) (omega arith))
