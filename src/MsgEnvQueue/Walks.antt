-- ===== src/MsgEnvQueue/Walks.antt =====
-- The walks over a queue of envelopes end, and count or find what the queue holds.
use rtx.Base.{
  ℕ, zero, suc, ◌+◌, ◌<◌, ◌≡◌, ◌≢◌, ap, ◌∙◌, Bool, List, [], ◌∷◌, Option, some, arith, length,
  ==_of_ne, ◌==◌, ==_cases, inl, inr,
}
use rtx.Base
use rtx.Base.Int.{pos}
use rtx.Links.{Ptr, null, Queues}
use rtx.Links.Chain.{IsChain}
use rtx.Links.Contents.{Contents, Holds}
use rtx.MsgEnvQueue.{size_loop, size, has_loop, has}

size_loop-length :
    (s : Queues) (fuel p n : ℕ) (xs : List Ptr)
    → IsChain s.next p xs
    → length xs < fuel
    → size_loop fuel p n s ≡ some (n + length xs)
unfolding size_loop
size_loop-length s zero p n xs h enough = absurd (omega arith)
size_loop-length s (suc fuel) p n [] h enough = rw h (ap some (omega arith))
size_loop-length s (suc fuel) p n (x ∷ xs) (e, ne, out, rest) enough =
    rw (e, ==_of_ne ne)
      (size_loop-length s fuel (s.next x) (n + 1) xs rest (omega arith) ∙ ap some (omega arith))

has_loop-has :
    (s : Queues) (fuel p target : ℕ) (xs : List Ptr)
    → IsChain s.next p xs
    → length xs < fuel
    → has_loop fuel p target s ≡ some (Base.has target xs)
unfolding has_loop
has_loop-has s zero p target xs h enough = absurd (omega arith)
has_loop-has s (suc fuel) p target [] h enough = rw h
has_loop-has s (suc fuel) p target (x ∷ xs) (e, ne, out, rest) enough = elim (==_cases x target) [
  | inl (b, eq) ↦ rw (e, ==_of_ne ne, b) (ground arith)
  | inr (b, d) ↦
      rw (e, ==_of_ne ne, b)
        (has_loop-has s fuel (s.next x) target xs rest (omega arith) ∙ ground arith)
]

module _ {s : Queues} {c : Contents} (h : Holds s c) (q fuel : ℕ) (nq : q ≢ null)
    (enough : length (c q) < fuel) where
  -- `msg_env_queue_size` ends, and returns the number of envelopes of the queue, on fuel of more
  -- than that number.
  pub size-length : size fuel q s ≡ some (pos (length (c q)))
  unfolding size
  size-length =
      rw (==_of_ne nq, size_loop-length s fuel (s.head q) 0 (c q) (h.chain q) enough)
        (ap (λ n. some (pos n)) (omega arith))

  -- `msg_env_queue_has` ends, and finds an envelope if and only if the queue holds it, on fuel of
  -- more than the length of the queue.
  pub has_lem : (target : Ptr) → has fuel q target s ≡ some (Base.has target (c q))
  unfolding has
  has_lem target = rw (==_of_ne nq) (has_loop-has s fuel (s.head q) target (c q) (h.chain q) enough)
