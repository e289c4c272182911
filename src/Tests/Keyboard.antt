-- ===== src/Tests/Keyboard.antt =====
-- The theorem about a typed line, with "c 12:00:00" typed on the system of three processes.
use rtx.Base.{◌≡◌, refl, true, some, [], ◌∷◌, ◌++◌, arith}
use rtx.Base.Text.{chars_of}
use rtx.Rtx.{console_input}
use rtx.MsgEnvQueue.{is_empty, enqueue, dequeue}
use rtx.Message.{Body}
use rtx.Utils.{Bytes}
use rtx.Utils.Token.{Tokens}
use rtx.Kernel.{set_env}
use rtx.Kernel.Primitives.{k_request_msg_env, take_envelope, k_send_message}
use rtx.Kernel.Uart.{Uart, cci_pid}
use rtx.Kernel.Uart.Typing.{type_all}
use rtx.User.{release_msg_env, send_console_chars, done}
use rtx.User.Wallclock.Replies.{answer}
use rtx.User.Wallclock.Serve.{serve}
use rtx.User.Cci.Commands.{interpret}
use rtx.User.Cci.Requests.{after_request, request}
use rtx.Keyboard.{line_letter, request_letter, typed_line-sets_clock}
use rtx.Tests.System.{system}
use rtx.Tests.Devices.{uart, granted}
use rtx.Tests.Processes.{other, ack, ret, world, cci, clock}

abbrev idle : Uart
idle = record uart { input_index = 0 }

typed_line-sets_clock_example :
    (u' : Uart) × (body : Body) × (tokens : Tokens) × (t : Bytes) × (type_all 0
        (chars_of "c 12:00:00" ++ (13 ∷ []))
        idle
        system
      ≡ some (
        u',
        (k_send_message cci_pid 520
            (set_env 520 (λ x. record x { msg_type = console_input; msg = some body }) granted)).1,
      ))
    × (interpret (line_letter 520 (granted.envs 520) body) cci (world (other ∷ ret ∷ ack ∷ []))
        ≡ done (after_request tokens t (other ∷ []) cci) (record (world []) {
          calls =
              release_msg_env 520
              ∷ send_console_chars 60 (chars_of "CCI: ") true
              ∷ request t cci
              ∷ [];
        }))
    × (serve (request_letter cci t) clock (world [])
        ≡ done
            (record clock { offset = 43200; ref = 500 })
            (record (world []) { calls = answer (request_letter cci t) ∷ [] }))
unfolding k_request_msg_env is_empty enqueue take_envelope dequeue
typed_line-sets_clock_example =
    typed_line-sets_clock 0 12 0 0 idle system granted 520 (λ _. 0) cci
      (world (other ∷ ret ∷ ack ∷ [])) (other ∷ []) ret [] ack [] clock (world []) (omega arith)
      (omega arith) (omega arith) refl refl refl (omega arith) refl (λ t. refl) refl (refl, tt) refl
      tt refl
