-- ===== src/User/Wallclock.antt =====
-- coldfire/user/src/wallclock.c: the process that keeps and shows the time of day. Its globals are a
-- record that every step takes and returns.
pub mod Face
pub mod Setting
pub mod Serve
pub mod Replies
use rtx.Base.{
  ℕ, zero, suc, ◌+◌, ◌-◌, ◌*◌, ◌/◌, ◌%◌, ltb, ◌==◌, ◌&&◌, ◌||◌, not, if◌then◌else◌, Bool, true,
  false, Option, none, some, List, [], ◌∷◌, ◌++◌,
}
use rtx.Base.Int.{ℤ, pos, negsuc, eqb_ℤ, abs}
use rtx.Base.Word.{u32, add32, signed_lt, signed_div, signed_rem}
use rtx.Base.Text.{chars_of}
use rtx.Rtx.{code_success, error_null_arg, error_illegal_arg}
use rtx.Message.{Body, of_word}
use rtx.Utils.{Bytes, rtx_strlen, rtx_atoi}
use rtx.Utils.Spells.{chars}
use rtx.Utils.Printf.{Param, int, Printed, rtx_sprintf}
use rtx.User.{
  Letter, Call, send_message, request_delay, World, Ended, Run, ◌>>=◌, ◌>>◌, pure, value_of,
  printed, call, status_of, get_system_time, new_envelope, next_letter,
}
use rtx.User.Console.{print_ack, print}

abbrev pub wakeup_code : ℤ
wakeup_code = pos 123

abbrev pub one_second_delay : ℕ
one_second_delay = 100

abbrev pub clock_off : ℤ
clock_off = pos 10

abbrev pub clock_on : ℤ
clock_on = pos 11

abbrev pub clock_set : ℤ
clock_set = pos 12

abbrev pub clock_ret : ℤ
clock_ret = pos 13

-- `offset` and `ref` are patterns of 32 bits.
pub record Wallclock : Type 0 where
  pub offset : ℕ
  pub ref : ℕ
  pub clock_display_en : Bool
  pub timeout_env : ℕ
  pub send_env : ℕ
  pub msg_q : List Letter

-- `SAVE_CURSOR MOVE_CURSOR` and `RESTORE_CURSOR`
abbrev pub at_clock : List ℕ
at_clock = chars_of "\u{1b}[s\u{1b}[0;72H"

abbrev pub restore_cursor : List ℕ
restore_cursor = chars_of "\u{1b}[u"

-- `(int32_t)((get_system_time()-ref)/100 + offset)%SEC_IN_HR`
unfoldable pub clock_time : (now ref offset : ℕ) → ℕ
clock_time now ref offset =
    signed_rem (add32 (signed_div ((now + (u32 - ref)) % u32) 100) offset) 86400

-- The text that shows a time.
unfoldable pub clock_face : (time : ℕ) → Printed
unfolding rtx_sprintf
clock_face time = rtx_sprintf 40 (at_clock ++ (chars_of "%02d:%02d:%02d" ++ restore_cursor)) (
    int (of_word (signed_div time 3600))
    ∷ int (of_word (signed_div (signed_rem time 3600) 60))
    ∷ int (of_word (signed_rem time 60))
    ∷ [])

-- Without a number, the variable that it would be stored in has no value, and the result is 0.
abbrev pub field_result : Option (ℤ × Option ℕ) → Option (ℤ × ℕ)
field_result none = none
field_result (some (ret, none)) = some (ret, 0)
field_result (some (ret, some n)) = some (ret, n)

-- `rtx_atoi` of the two characters at `i`: its result, and the number.
abbrev pub time_field : (time_param : Bytes) (i : ℕ) → Option (ℤ × ℕ)
time_field t i = field_result (rtx_atoi 4 (some (chars (t i ∷ t (i + 1) ∷ []))) (some 0))

-- `rtx_strlen(timeParam) != 8 || timeParam[2] != ':' || …`
abbrev pub is_malformed : (length : ℤ) → Bytes → Bool
is_malformed n t =
    not (eqb_ℤ n (pos 8)) || (not (t 2 == b':') || (not (t 5 == b':') || not (t 8 == 0)))

-- What is stored when the three numbers have been read.
abbrev pub adjust : (now : ℕ) (hr min sec : ℤ × ℕ) → Wallclock → ℤ × Wallclock
adjust now hr min sec c =
    if signed_lt 23 hr.1
      || (signed_lt 59 min.1 || (signed_lt 59 sec.1 || ltb (abs hr.0 + abs min.0 + abs sec.0) 3))
    then (error_illegal_arg, c)
    else (code_success, record c { offset = (hr.1 * 3600 + min.1 * 60 + sec.1) % u32; ref = now })

-- `_setWallClock`
unfoldable pub set_wall_clock : (now : ℕ) → Option Body → Wallclock → Option (ℤ × Wallclock)
set_wall_clock now none c = some (error_null_arg, c)
set_wall_clock now (some t) c = elim (rtx_strlen 1024 (some t)) [
  | none ↦ none
  | some n ↦ if is_malformed n t then some (error_illegal_arg, c) else elim (time_field t 0) [
    | none ↦ none
    | some hr ↦ elim (time_field t 3) [
      | none ↦ none
      | some min ↦ elim (time_field t 6) [ none ↦ none | some sec ↦ some (adjust now hr min sec c) ]
    ]
  ]
]

-- A text with a status in it.
abbrev pub print_status : List ℕ → (status : ℤ) → Wallclock → Run Wallclock
print_status format status c = do
  str ← printed (rtx_sprintf 200 format (int status ∷ []))
  q ← print str c.send_env c.msg_q
  pure (record c { msg_q = q })

abbrev pub print_text : List ℕ → Wallclock → Run Wallclock
print_text format c = do
  str ← printed (rtx_sprintf 200 format [])
  q ← print str c.send_env c.msg_q
  pure (record c { msg_q = q })
