-- ===== src/Rtx.antt =====
-- coldfire/inc/rtx.h: return codes, message types and process states.
use rtx.Base.Int.{ℤ, pos, negsuc}

abbrev pub code_success : ℤ
code_success = pos 0

abbrev pub error_null_arg : ℤ
error_null_arg = negsuc 0

abbrev pub error_illegal_arg : ℤ
error_illegal_arg = negsuc 1

abbrev pub display_ack : ℤ
display_ack = negsuc 0

abbrev pub console_output : ℤ
console_output = negsuc 1

abbrev pub console_output_request_ack : ℤ
console_output_request_ack = negsuc 2

abbrev pub console_input : ℤ
console_input = negsuc 3

pub data ProcessState : Type 0 where
  p_ready p_executing p_blocked_on_env_request p_blocked_on_receive p_interrupted : ProcessState
