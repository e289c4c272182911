-- ===== src/Kernel/Timer/Filing.antt =====
-- What `timeout_queue_insert` of timeout_queue.c leaves, said without its own computations.
use rtx.Base.{ℕ, ◌+◌, ◌%◌, ◌^◌, ◌≤◌, ◌≡◌, ◌≢◌, false, some, List, ◌∷◌, has}
use rtx.Links.{Ptr}
use rtx.Links.Chain.{IsChain}
use rtx.Message.{Body, MsgEnv, first_word}
use rtx.Kernel.{Kernel}
use rtx.Kernel.Timer.Place.{place}

-- Only the first word of the message differs.
pub record Stamped (old new : MsgEnv) : Type 0 where
  pub before : Body
  pub after : Body
  pub had : old.msg ≡ some before
  pub becomes : new ≡ record old { msg = some after }
  pub behind : (i : ℕ) → 4 ≤ i → after i ≡ before i

-- The envelope `e` waits until the delay in its first word is over, in its place among `xs`.
pub record Inserted (e : Ptr) (xs : List Ptr) (s s' : Kernel) : Type 0 where
  pub due : first_word (s'.envs e) ≡ (s.clock + first_word (s.envs e)) % 2 ^ 32
  pub stamped : Stamped (s.envs e) (s'.envs e)
  pub envelopes : (a : Ptr) → a ≢ e → s'.envs a ≡ s.envs a
  pub chain :
      IsChain s'.mail.next s'.timeout_queue
        (place (λ a. first_word (s.envs a)) ((s.clock + first_word (s.envs e)) % 2 ^ 32) e xs)
  pub links : (a : Ptr) → has a (e ∷ xs) ≡ false → s'.mail.next a ≡ s.mail.next a
  pub rest : s' ≡ record s {
    envs = s'.envs;
    mail = record (s.mail) { next = s'.mail.next };
    timeout_queue = s'.timeout_queue;
  }
