-- ===== src/Tests/Queues.antt =====
-- The theorems about queues and memory at small inputs.
use rtx.Base.{◌≡◌, refl, false, [], ◌∷◌, inl, arith, some, has}
use rtx.Rtx.{code_success}
use rtx.Links.{Queues, blank}
use rtx.Links.Chain.{IsChain}
use rtx.Links.Contents.{Contents, put, Holds, blank-Holds}
use rtx.ProcQueue
use rtx.ProcQueue.Refines.{enqueue-Holds, dequeue-Holds}
use rtx.ProcQueue.Remove.{remove-erase}
use rtx.ProcQueue.Tail.{enqueue-remove_last}
use rtx.ProcPq
use rtx.ProcPq.Refines.{dequeue_first, enqueue_last}
use rtx.Mem.{Mem, k_malloc}
use rtx.Mem.Bounds.{Given, k_malloc-Given}
use rtx.Tests.System.{pcbs, queued, system, system-Sched}

abbrev empty : Contents
empty = λ _. []

-- Processes 10 and 20 in the queue at 5.
abbrev one : Queues
one = (ProcQueue.enqueue 5 10 blank).1

abbrev two : Queues
two = (ProcQueue.enqueue 5 20 one).1

one-Holds : Holds one (put empty 5 (10 ∷ []))
one-Holds = enqueue-Holds blank-Holds 5 10 (omega arith) (omega arith) (λ q. refl) [] refl

enqueue-Holds_example : Holds two (put (put empty 5 (10 ∷ [])) 5 (10 ∷ 20 ∷ []))
enqueue-Holds_example =
    enqueue-Holds one-Holds 5 20 (omega arith) (omega arith) (λ q. ground arith) (10 ∷ []) refl

abbrev both : Contents
both = put (put empty 5 (10 ∷ [])) 5 (10 ∷ 20 ∷ [])

two-Holds : Holds two both
two-Holds =
    enqueue-Holds one-Holds 5 20 (omega arith) (omega arith) (λ q. ground arith) (10 ∷ []) refl

dequeue-Holds_example :
    ((ProcQueue.dequeue 5 two).0 ≡ 10) × Holds (ProcQueue.dequeue 5 two).1 (put both 5 (20 ∷ []))
dequeue-Holds_example = dequeue-Holds two-Holds 5 10 (20 ∷ []) (omega arith) refl

remove-erase_example :
    (s' : Queues) × (ProcQueue.remove 2 5 10 two ≡ some (10, s')) × Holds s' (put both 5 (20 ∷ []))
remove-erase_example =
    remove-erase two-Holds 5 (omega arith) 10 10 (20 ∷ []) 2 refl refl (inl refl) (omega arith)

-- Process 20 leaves the queue, and process 30 is enqueued: the queue leads to 10 alone.
enqueue-remove_last_example :
    (s' : Queues) × (ProcQueue.remove 2 5 20 two ≡ some (20, s'))
    × ((ProcQueue.enqueue 5 30 s').0 ≡ code_success)
    × IsChain (ProcQueue.enqueue 5 30 s').1.next ((ProcQueue.enqueue 5 30 s').1.head 5) (10 ∷ [])
    × (has 30 (10 ∷ []) ≡ false)
enqueue-remove_last_example =
    enqueue-remove_last two-Holds 5 30 10 (20 ∷ []) 2 (omega arith) (omega arith)
      (λ q. ground arith) refl (omega arith) (omega arith)

dequeue_first_example :
    ((ProcPq.dequeue (some system.ready_pq) system.procs).0 ≡ 1000)
    × Holds (ProcPq.dequeue (some system.ready_pq) system.procs).1 (put queued 203 [])
dequeue_first_example =
    dequeue_first system-Sched.holds system.ready_pq system-Sched.ready 3 1000 [] (omega arith)
      (λ j a. ground arith) refl

enqueue_last_example :
    ((ProcPq.enqueue (some system.ready_pq) 1052 pcbs system.procs).0 ≡ code_success)
    × Holds
        (ProcPq.enqueue (some system.ready_pq) 1052 pcbs system.procs).1
        (put queued 201 (1052 ∷ []))
enqueue_last_example =
    enqueue_last system-Sched.holds system.ready_pq system-Sched.ready pcbs 1052 1 (omega arith)
      (λ q. ground arith) refl (omega arith)

abbrev heap : Mem
heap = record { origin = 0x10010000 }

k_malloc-Given_example : Given 5 heap (k_malloc 5 heap)
k_malloc-Given_example =
    k_malloc-Given 0x10010000 5 heap
      (record { even = omega arith; above = omega arith; below = omega arith }) (omega arith)
      (omega arith)
