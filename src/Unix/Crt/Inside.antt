-- ===== src/Unix/Crt/Inside.antt =====
-- unix/kern/src/crt_i_process.c: where the i-process writes in the buffer of unix/inc/crt_shmem.h.
use rtx.Base.{
  ℕ, ◌+◌, ◌-◌, ◌<◌, ◌≡◌, refl, true, false, ◌==◌, Option, none, some, List, [], ◌∷◌, ◌++◌, length,
  arith, on_test,
}
use rtx.Message.{Body}
use rtx.Unix.Crt.{
  Letter, IProcess, exited, acknowledging, receiving, testing, copying, setting, storing, Printer,
  waiting, freeing, signalling, printing, Crt, acknowledge, receive, load, i_move,
  start_crt_i_process, print_move, crt_main, Event, sent, killed, i_runs, crt_runs, step, run, init,
}
use rtx.Unix.Crt.Texts.{sent_of}

-- Each text and its zero have room in the message of an envelope.
abbrev AllShort : List Letter → Type 0
AllShort [] = Unit {0}
AllShort (l ∷ ls) = (length l.text < 1024) × AllShort ls

AllShort-append_one :
    (ls : List Letter) (l : Letter) → AllShort ls → length l.text < 1024 → AllShort (ls ++ l ∷ [])
AllShort-append_one [] l h below = (below, tt)
AllShort-append_one (x ∷ ls) l (here, h) below = (here, AllShort-append_one ls l h below)

-- What is left of the text in hand has room in the buffer.
abbrev Room : IProcess → ℕ → Type 0
Room (copying l rest) i = i + length rest < 1024
Room _ i = Unit {0}

record IsInside (s : Crt) : Type 0 where
  inside : s.outside ≡ false
  box : AllShort s.mailbox
  display : AllShort s.display_queue
  room : Room s.i_process s.i

acknowledge-IsInside :
    (prev : Option Letter) (s : Crt)
    → IsInside s
    → IsInside (record (acknowledge prev s) { i_process = receiving })
acknowledge-IsInside none s h = record {
  inside = h.inside;
  box = h.box;
  display = h.display;
  room = tt;
}
acknowledge-IsInside (some l) s h = record {
  inside = h.inside;
  box = h.box;
  display = h.display;
  room = tt;
}

receive-IsInside :
    (ls : List Letter) (s : Crt)
    → s.mailbox ≡ ls
    → IsInside s
    → IsInside (record (receive ls s) { i_process = testing })
receive-IsInside [] s is h = record {
  inside = h.inside;
  box = h.box;
  display = h.display;
  room = tt;
}
receive-IsInside (l ∷ ls) s is h =
    let (here, others) : AllShort (l ∷ ls) = rw is at h.box in
    record {
      inside = h.inside;
      box = others;
      display = AllShort-append_one s.display_queue l h.display here;
      room = tt;
    }

load-IsInside :
    (ls : List Letter) (s : Crt) → s.display_queue ≡ ls → IsInside s → IsInside (load ls s)
load-IsInside [] s is h = record { inside = h.inside; box = h.box; display = h.display; room = tt }
load-IsInside (l ∷ ls) s is h =
    let (here, others) : AllShort (l ∷ ls) = rw is at h.display in
    record { inside = h.inside; box = h.box; display = others; room = omega (arith, here) }

i_move-IsInside : (p : IProcess) (s : Crt) → s.i_process ≡ p → IsInside s → IsInside (i_move p s)
i_move-IsInside exited s is h =
    on_test IsInside s.signalled (record s { signalled = false; i_process = acknowledging }) s
      (λ f. record { inside = h.inside; box = h.box; display = h.display; room = tt }) (λ f. h)
i_move-IsInside acknowledging s is h =
    on_test (λ r. IsInside (record r { i_process = receiving })) s.i_process_wait_flag s
      (acknowledge s.prev_msg s) (λ f. acknowledge-IsInside none s h)
      (λ f. acknowledge-IsInside s.prev_msg s h)
i_move-IsInside receiving s is h = receive-IsInside s.mailbox s refl h
i_move-IsInside testing s is h =
    on_test IsInside s.i_process_wait_flag (record s { i_process = exited })
      (load s.display_queue s)
      (λ f. record { inside = h.inside; box = h.box; display = h.display; room = tt })
      (λ f. load-IsInside s.display_queue s refl h)
i_move-IsInside (copying l (c ∷ rest)) s is h =
    let room : s.i + length (c ∷ rest) < 1024 = rw is at h.room in
    record {
      inside = ground (arith, h.inside, room);
      box = h.box;
      display = h.display;
      room = omega (arith, room);
    }
i_move-IsInside (copying l []) s is h =
    let room : s.i + length {A = ℕ} [] < 1024 = rw is at h.room in
    record { inside = ground (arith, h.inside, room); box = h.box; display = h.display; room = tt }
i_move-IsInside (setting l) s is h = record {
  inside = h.inside;
  box = h.box;
  display = h.display;
  room = tt;
}
i_move-IsInside (storing l) s is h = record {
  inside = h.inside;
  box = h.box;
  display = h.display;
  room = tt;
}

print_move-IsInside : (pr : Printer) (s : Crt) → IsInside s → IsInside (print_move pr s)
print_move-IsInside waiting s h =
    on_test IsInside s.i_process_wait_flag (record s { printer = printing 0 }) s
      (λ f. record { inside = h.inside; box = h.box; display = h.display; room = h.room }) (λ f. h)
print_move-IsInside (printing i) s h =
    on_test IsInside (s.buf i == 0) (record s { printer = freeing })
      (record s { printed = s.printed ++ s.buf i ∷ []; printer = printing (i + 1) })
      (λ f. record { inside = h.inside; box = h.box; display = h.display; room = h.room })
      (λ f. record { inside = h.inside; box = h.box; display = h.display; room = h.room })
print_move-IsInside freeing s h = record {
  inside = h.inside;
  box = h.box;
  display = h.display;
  room = h.room;
}
print_move-IsInside signalling s h = record {
  inside = h.inside;
  box = h.box;
  display = h.display;
  room = h.room;
}

run-IsInside :
    (es : List Event) (s : Crt) → AllShort (sent_of es) → IsInside s → IsInside (run es s)
unfolding run step start_crt_i_process crt_main
run-IsInside [] s ok h = h
run-IsInside (sent l ∷ es) s (here, ok) h = run-IsInside es (step (sent l) s) ok (record {
  inside = h.inside;
  box = AllShort-append_one s.mailbox l h.box here;
  display = h.display;
  room = h.room;
})
run-IsInside (killed ∷ es) s ok h = run-IsInside es (step killed s) ok (
    on_test IsInside (s.senders == 0) s (record s { signalled = true; senders = s.senders - 1 })
      (λ n. h) (λ n. record { inside = h.inside; box = h.box; display = h.display; room = h.room }))
run-IsInside (i_runs ∷ es) s ok h =
    run-IsInside es (step i_runs s) ok (i_move-IsInside s.i_process s refl h)
run-IsInside (crt_runs ∷ es) s ok h =
    run-IsInside es (step crt_runs s) ok (print_move-IsInside s.printer s h)

-- After letters whose texts have fewer than 1024 characters, the signals behind them and steps of the two
-- processes, in any order from the start, nothing has been written behind the end of the buffer.
run-inside :
    (es : List Event) (memory : Body)
    → AllShort (sent_of es)
    → (run es (init memory)).outside ≡ false
run-inside es memory ok =
    (run-IsInside es (init memory) ok
      (record { inside = refl; box = tt; display = tt; room = tt })).inside
