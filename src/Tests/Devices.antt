-- ===== src/Tests/Devices.antt =====
-- The theorems about the console's interrupts and the start, on the system of three processes.
use rtx.Base.{false, []}
use rtx.Base.Text.{chars_of}
use rtx.Utils.Spells.{chars}
use rtx.Kernel.{Kernel}
use rtx.Kernel.Primitives.{k_request_msg_env}
use rtx.Kernel.Uart.{Uart, masked}
use rtx.Tests.System.{system}

-- "hi" has been typed.
abbrev pub uart : Uart
uart = record {
  out_buffer = λ _. 0;
  in_buffer = chars (chars_of "hi");
  input_index = 2;
  output_index = 0;
  output_print_char = false;
  pong_mode = false;
  sent = [];
}

abbrev full : Uart
full = record uart { input_index = 98 }

abbrev pub granted : Kernel
granted = (k_request_msg_env (masked system)).1
