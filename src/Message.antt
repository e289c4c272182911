-- ===== src/Message.antt =====
-- coldfire/inc/rtx.h: message envelopes, all but the link `next`, and the bodies that `msg` points
-- to, as bytes. The kernel and the processes read and write a body as `int`s, which the board
-- stores with the high byte first.
pub mod Words
use rtx.Base.{
  ℕ, ◌+◌, ◌-◌, ◌*◌, ◌/◌, ◌%◌, ◌^◌, ◌==◌, ltb, if◌then◌else◌, Bool, true, false, Option, none, some,
}
use rtx.Base.Int.{ℤ, pos, negsuc}
use rtx.Base.Word.{u32, i31}

abbrev pub Body : Type 0
Body = ℕ → ℕ

-- `msg` is `none` for NULL. A body belongs to one envelope.
pub record MsgEnv : Type 0 where
  pub dest_pid : ℤ
  pub send_pid : ℤ
  pub msg_type : ℤ
  pub msg : Option Body

-- `((int *) msg)[i]`
unfoldable pub get_word : ℕ → Body → ℕ
get_word i b = b (4 * i) * 16777216 + b (4 * i + 1) * 65536 + b (4 * i + 2) * 256 + b (4 * i + 3)

-- `((int *) msg)[i] = v`
unfoldable pub set_word : ℕ → ℕ → Body → Body
set_word i v b k =
    if k / 4 == i
    then (if k % 4 == 0
        then v / 16777216 % 256
        else if k % 4 == 1
        then v / 65536 % 256
        else if k % 4 == 2
        then v / 256 % 256
        else v % 256)
    else b k

-- The pattern of an `int`, and back.
unfoldable pub to_word : ℤ → ℕ
to_word (pos n) = n % u32
to_word (negsuc n) = u32 - 1 - n % u32

unfoldable pub of_word : ℕ → ℤ
of_word w = if ltb w i31 then pos w else negsuc (u32 - 1 - w)

abbrev pub has_msg : MsgEnv → Bool
has_msg e = elim e.msg [ none ↦ false | some b ↦ true ]

-- A write through a `msg` that is NULL reaches no body.
abbrev pub on_body : (Body → Body) → MsgEnv → MsgEnv
on_body f e = record e { msg = elim e.msg [ none ↦ none | some b ↦ some (f b) ] }

-- The first `int` of a body. A body that is not there reads as 0.
abbrev pub first_word : MsgEnv → ℕ
first_word e = elim e.msg [ none ↦ 0 | some b ↦ get_word 0 b ]
