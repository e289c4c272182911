-- ===== src/Kernel/Uart.antt =====
-- coldfire/kern/src/uart_i_process.c and `hotkey` of k_hotkeys.c: the i-process of the console. The
-- registers that it writes are part of the state; the status and the character that it reads are
-- arguments. This is the build for the lab board, where a line ends with a carriage return. What a
-- hotkey makes the debugger print is not modelled.
pub mod Typing
use rtx.Base.{
  ℕ, zero, suc, ◌+◌, ◌-◌, ◌/◌, ◌%◌, ltb, ◌==◌, ◌||◌, ◌&&◌, not, if◌then◌else◌, Bool, true, false,
  Option, none, some, List, [], ◌∷◌,
}
use rtx.Base.Int.{ℤ, pos, negsuc, eqb_ℤ}
use rtx.Rtx.{display_ack, console_input, console_output}
use rtx.Links.{Ptr, null, update}
use rtx.Message.{Body, MsgEnv, on_body}
use rtx.Kernel.{Kernel, set_env, Reply, now}
use rtx.Kernel.Primitives.{k_send_message, k_receive_message, k_request_msg_env, k_release_msg_env}

-- The globals of the file, `pong_mode`, and the characters written to SERIAL1_WD, the last first.
pub record Uart : Type 0 where
  pub out_buffer : ℕ → ℕ
  pub in_buffer : ℕ → ℕ
  pub input_index : ℕ
  pub output_index : ℕ
  pub output_print_char : Bool
  pub pong_mode : Bool
  pub sent : List ℕ

abbrev pub input_buffer_size : ℕ
input_buffer_size = 100

abbrev pub cci_pid : ℤ
cci_pid = negsuc 0

abbrev pub pong_pid : ℤ
pong_pid = pos 5

-- Whether a character is a hotkey: '`', '!' or '@'.
abbrev pub hotkey : ℕ → Bool
hotkey c = (c == 96) || ((c == 33) || (c == 64))

-- `SERIAL1_IMR = 3; SERIAL1_WD = c; SERIAL1_IMR = 2;`
abbrev pub echo : (c : ℕ) → Uart → Uart
echo c u = record u { sent = c ∷ u.sent }

abbrev pub masked : Kernel → Kernel
masked s = record s { serial1_imr = 2 }

-- An i-process does not wait: its calls come back at once.
abbrev pub at_once : Reply Ptr → Ptr
at_once (now p) = p
at_once _ = null

-- `for (i = 0; i < inputIndex; i++) message->msg[i] = InBuffer[i];`
unfoldable pub copy_line : (left i : ℕ) (in_buffer : ℕ → ℕ) → Body → Body
copy_line zero i in_buffer b = b
copy_line (suc left) i in_buffer b = copy_line left (i + 1) in_buffer (update b i (in_buffer i))

abbrev pub with_type : ℤ → MsgEnv → MsgEnv
with_type t e = record e { msg_type = t }

-- The envelope that a line goes out in. `init_ipc` gives every envelope of a pool a body, and no code takes
-- it away, so that a NULL `msg` does not come here; a write through one would reach no body, as everywhere
-- in this model (`on_body`).
unfoldable pub send_line : (message : Ptr) (length : ℕ) (in_buffer : ℕ → ℕ) → Kernel → Kernel
send_line message n in_buffer s =
    if message == null
    then s
    else (k_send_message cci_pid message
        (set_env message (λ e. with_type console_input (on_body (copy_line n 0 in_buffer) e)) s)).1

-- The end of a line.
unfoldable pub end_line : Uart → Kernel → Uart × Kernel
end_line u s =
    let in_buffer' = update u.in_buffer u.input_index 0 in
    let (reply, s₁) = k_request_msg_env (masked s) in
    (
      record (echo 10 u) { in_buffer = in_buffer'; input_index = 0 },
      send_line (at_once reply) (u.input_index + 1) in_buffer' s₁,
    )

-- Another character of the line.
unfoldable pub add_char : (c : ℕ) → Uart → Kernel → Uart × Kernel
add_char c u s = if hotkey c then (u, s) else (
  record (echo c u) {
    in_buffer = update u.in_buffer u.input_index c;
    input_index = u.input_index + 1;
  },
  masked s,
)

unfoldable pub read_char : (c : ℕ) → Uart → Kernel → Uart × Kernel
read_char c u s =
    if c == 13
    then end_line u s
    else if ltb u.input_index (input_buffer_size - 2)
    then add_char c u s
    else (u, s)

-- While the game runs, each character is a message to it. A NULL envelope is a fault.
unfoldable pub read_for_pong : (c : ℕ) → Uart → Kernel → Option (Uart × Kernel)
read_for_pong c u s =
    let (reply, s₁) = k_request_msg_env s in
    let message = at_once reply in
    if message == null
    then none
    else some (
      u,
      (k_send_message pong_pid message
          (set_env message (λ e. with_type console_input (on_body (λ b. update b 0 c) e)) s₁)).1,
    )

-- `while (message->msg[i] != '\0') { … } OutBuffer[i] = '\0';`, with fuel.
unfoldable pub copy_out : (fuel i : ℕ) (msg out : ℕ → ℕ) → Option (ℕ → ℕ)
copy_out zero i msg out = none
copy_out (suc fuel) i msg out =
    let rest = copy_out fuel (i + 1) msg (update out i (msg i)) in
    if msg i == 0 then some (update out i 0) else rest

-- An envelope whose text has been taken over goes back: to the pool, or to its sender.
unfoldable pub give_back : (message : Ptr) → Kernel → Kernel
give_back message s =
    if eqb_ℤ (s.envs message).msg_type console_output
    then (k_release_msg_env message s).1
    else (k_send_message (s.envs message).send_pid message
        (set_env message (with_type display_ack) s)).1

-- The text of the next envelope, or `s'` if there is none. A NULL body is a fault.
unfoldable pub load_text :
    (fuel : ℕ) (if_none : Kernel → Kernel) → Uart → Kernel → Option (Uart × Kernel)
load_text fuel if_none u s =
    let (reply, s₁) = k_receive_message s in
    let message = at_once reply in
    if message == null then some (u, if_none s₁) else elim (s₁.envs message).msg [
      | none ↦ none
      | some msg ↦ elim (copy_out fuel 0 msg u.out_buffer) [
        | none ↦ none
        | some out ↦
            some (record u { out_buffer = out; output_print_char = true }, give_back message s₁)
      ]
    ]

-- `if (output_print_char) { … }`
unfoldable pub write_char : (fuel : ℕ) → Uart → Kernel → Option (Uart × Kernel)
write_char fuel u s =
    if not u.output_print_char
    then some (u, s)
    else if u.out_buffer u.output_index == 0
    then load_text fuel masked (record u { output_index = 0; output_print_char = false }) s
    else some
        (record (echo (u.out_buffer u.output_index) u) { output_index = u.output_index + 1 }, s)

-- The part for output.
unfoldable pub transmit : (fuel : ℕ) → Uart → Kernel → Option (Uart × Kernel)
transmit fuel u s =
    if (u.output_index == 0) && not u.output_print_char
    then elim (load_text fuel (λ s. s) u s) [ none ↦ none | some (u', s') ↦ write_char fuel u' s' ]
    else write_char fuel u s

unfoldable pub uart_i_process : (fuel status char_in : ℕ) → Uart → Kernel → Option (Uart × Kernel)
uart_i_process fuel status c u s =
    if status % 2 == 1
    then (if u.pong_mode then read_for_pong c u s else some (read_char c u s))
    else if status / 4 % 2 == 1
    then transmit fuel u s
    else some (u, s)
