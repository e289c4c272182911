-- ===== src/User/Wallclock/Setting.antt =====
-- Setting the wall clock.
use rtx.Base.{
  ℕ, zero, suc, ◌+◌, ◌-◌, ◌*◌, ◌/◌, ◌%◌, ◌<◌, ◌≤◌, ◌≡◌, refl, ap, ◌∙◌, true, false, ltb, ==_of_ne,
  List, [], ◌∷◌, ◌++◌, length, some, arith,
}
use rtx.Base.Int.{pos}
use rtx.Base.Word.{u32, i31, signed_lt}
use rtx.Rtx.{code_success}
use rtx.Utils.{Bytes, length_loop, rtx_strlen, rtx_atoi}
use rtx.Utils.Spells.{Spells, chars, Spells-chars}
use rtx.Utils.Decimal.{value, atoi-value}
use rtx.Utils.Printf.{text}
use rtx.User.Wallclock.{
  Wallclock, at_clock, restore_cursor, clock_time, clock_face, adjust, field_result, time_field,
  is_malformed, set_wall_clock,
}
use rtx.User.Wallclock.Face.{two, hms, clock_face-hms}

length_loop-Spells :
    (fuel k : ℕ) (b : Bytes) (xs : List ℕ)
    → Spells b k xs
    → length xs < fuel
    → length_loop fuel k b ≡ some (pos (k + length xs))
unfolding length_loop
length_loop-Spells zero k b xs h enough = absurd (omega arith)
length_loop-Spells (suc fuel) k b [] h enough =
    let e : k ≡ k + 0 = omega arith in rw (length_loop, h) (ap (λ n. some (pos n)) e)
length_loop-Spells (suc fuel) k b (x ∷ xs) (at, ne, rest) enough =
    let e : k + 1 + length xs ≡ k + suc (length xs) = omega arith in
    rw (length_loop, at, ==_of_ne ne)
      (length_loop-Spells fuel (k + 1) b xs rest (omega arith) ∙ ap (λ n. some (pos n)) e)

-- The two digits at one place of a text.
field-two :
    (t : Bytes) (i n : ℕ)
    → n < 100
    → t i ≡ 48 + n / 10
    → t (i + 1) ≡ 48 + n % 10
    → time_field t i ≡ some (pos 1, n)
field-two t i n below first second =
    let spelt = Spells-chars (two n) (omega arith, (omega arith, tt)) in
    let read =
      atoi-value 4 (chars (two n)) 0 (48 + n / 10) ((48 + n % 10) ∷ []) spelt
        (omega arith, omega arith, (omega arith, omega arith, tt)) (omega arith) in
    let digits : value 0 (two n) % u32 ≡ n = omega arith in
    ap (λ cs. field_result (rtx_atoi 4 (some (chars cs)) (some 0)))
      (ap (λ a. a ∷ t (i + 1) ∷ []) first ∙ ap (λ b. (48 + n / 10) ∷ b ∷ []) second)
    ∙ ap field_result read
    ∙ ap (λ k. some (pos 1, k)) digits

adjust-fits :
    (now hr min sec : ℕ) (c : Wallclock)
    → hr < 24
    → min < 60
    → sec < 60
    → adjust now (pos 1, hr) (pos 1, min) (pos 1, sec) c
      ≡ (code_success, record c { offset = hr * 3600 + min * 60 + sec; ref = now })
adjust-fits now hr min sec c h m s =
    let a : signed_lt 23 hr ≡ false = ground arith in
    let b : signed_lt 59 min ≡ false = ground arith in
    let d : signed_lt 59 sec ≡ false = ground arith in
    let e : (hr * 3600 + min * 60 + sec) % u32 ≡ hr * 3600 + min * 60 + sec = omega arith in
    rw (a, b, d, e) refl

-- The conditions of `_setWallClock` on the places that are not digits.
is_malformed-hms : (t : Bytes) → t 2 ≡ b':' → t 5 ≡ b':' → t 8 ≡ 0 → is_malformed (pos 8) t ≡ false
is_malformed-hms t two_at five_at end_at = rw (two_at, five_at, end_at) refl

-- `_setWallClock` of a time that is written "hh:mm:ss", with the hours below 24 and the minutes and
-- the seconds below 60, succeeds: the offset becomes the seconds since midnight, and the reference
-- time becomes the present.
pub set_wall_clock-hms :
    (now hr min sec : ℕ) (t : Bytes) (c : Wallclock)
    → hr < 24
    → min < 60
    → sec < 60
    → Spells t 0 (hms hr min sec)
    → set_wall_clock now (some t) c
      ≡ some (code_success, record c { offset = hr * 3600 + min * 60 + sec; ref = now })
unfolding set_wall_clock rtx_strlen
set_wall_clock-hms now hr min sec t c h m s spelt =
    let size = length_loop-Spells 1024 0 t (hms hr min sec) spelt (omega arith) in
    let (a0, n0, (a1, n1, (a2, n2, (a3, n3, (a4, n4, (a5, n5, (a6, n6, (a7, n7, a8)))))))) =
      spelt in
    let fh = field-two t 0 hr (omega arith) a0 a1 in
    let fm = field-two t 3 min (omega arith) a3 a4 in
    let fs = field-two t 6 sec (omega arith) a6 a7 in
    rw (set_wall_clock, size, is_malformed-hms t a2 a5 a8, fh, fm, fs)
      (ap some (adjust-fits now hr min sec c h m s))

-- The time in a clock that was set.
pub clock_time-set :
    (now ref offset : ℕ)
    → ref ≤ now
    → now < i31
    → offset < 86400
    → clock_time now ref offset ≡ ((now - ref) / 100 + offset) % 86400
unfolding clock_time
clock_time-set now ref offset h below small =
    let elapsed : (now + (u32 - ref)) % u32 ≡ now - ref = omega arith in
    let positive : ltb (now - ref) i31 ≡ true = ground arith in
    let total : ((now - ref) / 100 + offset) % u32 ≡ (now - ref) / 100 + offset = omega arith in
    let positive' : ltb ((now - ref) / 100 + offset) i31 ≡ true = ground arith in
    rw (clock_time, elapsed, positive, total, positive') refl

-- A text "hh:mm:ss" with the hours below 24 and the minutes and the seconds below 60 is accepted
-- by `_setWallClock`. The clock shows that time at once; and at a later time below 2^31 it shows
-- the time that is set, with the whole seconds that have passed added, modulo a day.
pub set-shows :
    (now later hr min sec : ℕ) (t : Bytes) (c : Wallclock)
    → hr < 24
    → min < 60
    → sec < 60
    → Spells t 0 (hms hr min sec)
    → now ≤ later
    → later < i31
    → (c' : Wallclock) × (set_wall_clock now (some t) c ≡ some (code_success, c'))
      × (clock_face (clock_time now c'.ref c'.offset)
          ≡ text (at_clock ++ (hms hr min sec ++ restore_cursor)))
      × (let day = ((later - now) / 100 + (hr * 3600 + min * 60 + sec)) % 86400 in
          clock_face (clock_time later c'.ref c'.offset)
          ≡ text (at_clock ++ (hms (day / 3600) (day % 3600 / 60) (day % 60) ++ restore_cursor)))
set-shows now later hr min sec t c h m s spelt le below =
    let offset = hr * 3600 + min * 60 + sec in
    let small : offset < 86400 = omega arith in
    let day = ((later - now) / 100 + offset) % 86400 in
    let at_once : clock_time now now offset ≡ offset =
      clock_time-set now now offset (omega arith) (omega arith) small ∙ omega arith in
    let eh : offset / 3600 ≡ hr = omega arith in
    let em : offset % 3600 / 60 ≡ min = omega arith in
    let es : offset % 60 ≡ sec = omega arith in
    (
      record c { offset = offset; ref = now },
      set_wall_clock-hms now hr min sec t c h m s spelt,
      ap clock_face at_once ∙ clock_face-hms offset small ∙ rw (eh, em, es) refl,
      ap clock_face (clock_time-set later now offset le below small)
          ∙ clock_face-hms day (omega arith),
    )
