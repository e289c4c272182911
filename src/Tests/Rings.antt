-- ===== src/Tests/Rings.antt =====
-- The theorems about the rings of traced messages, at histories of identical letters.
use rtx.Base.{◌≡◌, ◌+◌, arith, some, none}
use rtx.Trace.{init_buf, find_trace_buf_head, entry}
use rtx.Trace.Ring.{History, logged, buf-logged}
use rtx.Trace.Head.{find_trace_buf_head-oldest, find_trace_buf_head-none}
use rtx.Tests.System.{letter, ring}

abbrev letters : History
letters = record { env = λ _. letter; time = λ k. k + 1 }

buf-logged_example : (logged ring letters 20).buf 2 ≡ entry letter 19
buf-logged_example = buf-logged ring letters 20 18 (omega arith) (omega arith)

find_trace_buf_head-oldest_example : find_trace_buf_head 17 (logged ring letters 20) ≡ some 4
find_trace_buf_head-oldest_example =
    find_trace_buf_head-oldest ring letters 20 17 (omega arith) (omega arith) (omega arith)

find_trace_buf_head-none_example : find_trace_buf_head 100 (init_buf ring) ≡ none
find_trace_buf_head-none_example = find_trace_buf_head-none 100 ring
