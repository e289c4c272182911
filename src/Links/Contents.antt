-- ===== src/Links/Contents.antt =====
-- The abstract view of a set of queues: for each queue the list of its nodes, oldest first.
use rtx.Base.{◌≡◌, ◌==◌, if◌then◌else◌, true, List, [], has, refl, arith}
use rtx.Links.{Ptr, Queues, blank}
use rtx.Links.Chain.{IsChain, TailIs}

abbrev pub Contents : Type 0
Contents = Ptr → List Ptr

-- `c` with the queue at `q` holding `xs`.
abbrev pub put : Contents → Ptr → List Ptr → Contents
put c q xs r = if r == q then xs else c r

-- Memory holds the queues `c`: each queue's head leads through its nodes, its tail is the last of
-- them, and no node stands in two queues.
pub record Holds (s : Queues) (c : Contents) : Type 0 where
  pub chain : (q : Ptr) → IsChain (s.next) (s.head q) (c q)
  pub tail : (q : Ptr) → TailIs (s.tail q) (c q)
  pub apart : (q r a : Ptr) → has a (c q) ≡ true → has a (c r) ≡ true → q ≡ r

-- Memory in which no queue has been created holds empty queues.
pub blank-Holds : Holds blank (λ _. [])
blank-Holds = record {
  chain = λ q. refl;
  tail = λ q. tt;
  apart = λ q r a i j. absurd (ground arith);
}
