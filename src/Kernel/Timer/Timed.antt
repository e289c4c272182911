-- ===== src/Kernel/Timer/Timed.antt =====
-- The envelopes that wait for their time, next to the queues of envelopes.
use rtx.Base.{
  ℕ, ◌<◌, ◌≡◌, ◌≢◌, refl, sym, fun_ext, ap, subst, true, false, ==_cases, ==_refl, inl, inr, List,
  arith, has, length, some, none, Option,
}
use rtx.Base.Word.{u32}
use rtx.Links.{Ptr, null, Queues}
use rtx.Links.Chain.{IsChain, IsChain-frame}
use rtx.Links.Contents.{Contents, put, Holds}
use rtx.Links.Moves.{IsFree}
use rtx.Message.{Body, MsgEnv, has_msg, set_word, on_body, first_word}
use rtx.Message.Words.{get_word-set_word}
use rtx.Kernel.{Kernel}
use rtx.Kernel.Timer.{time_at, deadline, armed, timeout_queue_insert}
use rtx.Kernel.Timer.Place.{place, has-place, IsOrdered, place-IsOrdered, IsOrdered-frame}
use rtx.Kernel.Timer.Insert.{Linked, insert-Linked}

-- The envelopes `xs` wait for their time, in order, and the queues of envelopes hold none of them.
pub record IsTimed (s : Kernel) (m : Contents) (xs : List Ptr) : Type 0 where
  pub mail : Holds s.mail m
  pub chain : IsChain s.mail.next s.timeout_queue xs
  pub ordered : IsOrdered (time_at s) xs
  pub apart : (x q : Ptr) → has x xs ≡ true → has x (m q) ≡ false

-- Queues survive a change of links that spares their nodes.
Holds-frame :
    (s : Queues) (m : Contents) (next : Ptr → Ptr)
    → Holds s m
    → ((q a : Ptr) → has a (m q) ≡ true → next a ≡ s.next a)
    → Holds (record s { next = next }) m
Holds-frame s m next h same = record {
  chain = λ q. IsChain-frame (s.head q) (m q) (h.chain q) (same q);
  tail = h.tail;
  apart = h.apart;
}

-- The time written into an envelope that has a message is what it is due at.
first_word-on_body :
    (v : ℕ) (e : MsgEnv) (o : Option Body)
    → v < u32
    → has_msg (record e { msg = o }) ≡ true
    → first_word (on_body (set_word 0 v) (record e { msg = o })) ≡ v
first_word-on_body v e none h there = absurd (ground arith)
first_word-on_body v e (some b) h there = get_word-set_word 0 v b h

pub time_at-armed :
    (e : Ptr) (s : Kernel) → has_msg (s.envs e) ≡ true → time_at (armed e s) e ≡ deadline e s
time_at-armed e s there =
    rw (==_refl e) (first_word-on_body (deadline e s) (s.envs e) (s.envs e).msg (omega arith) there)

pub put_same : (m : Contents) (q : Ptr) (xs : List Ptr) → m q ≡ xs → put m q xs ≡ m
put_same m q xs full =
    fun_ext
      λ r. elim (==_cases r q) [ inl (b, eq) ↦ rw (b, eq) (sym full) | inr (b, ne) ↦ rw b refl ]

pub put-put : (m : Contents) (q : Ptr) (xs ys : List Ptr) → put (put m q xs) q ys ≡ put m q ys
put-put m q xs ys =
    fun_ext λ r. elim (==_cases r q) [ inl (b, eq) ↦ rw b refl | inr (b, ne) ↦ rw b refl ]

pub insert-IsTimed :
    (fuel : ℕ) (e : Ptr) (xs : List Ptr) (s : Kernel) (m : Contents)
    → e ≢ null
    → s.mail.next e ≡ null
    → has_msg (s.envs e) ≡ true
    → IsFree e m
    → IsTimed s m xs
    → has e xs ≡ false
    → length xs < fuel
    → (s' : Kernel) × (timeout_queue_insert fuel e s ≡ some s')
      × Linked e xs s s'
      × IsTimed s' m (place (time_at (armed e s)) (deadline e s) e xs)
insert-IsTimed fuel e xs s m ne alone there free h new enough =
    let (s', runs, i) = insert-Linked fuel e xs s ne alone h.chain new enough in
    (
      s',
      runs,
      i,
      record {
        mail = rw (ap (λ k. k.mail) i.rest) (
            Holds-frame s.mail m s'.mail.next h.mail
              λ q a j. i.others a (ground (arith, free q, h.apart a q)));
        chain = i.chain;
        ordered =
            IsOrdered-frame (time_at (armed e s)) (time_at s')
              (place (time_at (armed e s)) (deadline e s) e xs)
              (λ a j. ap (λ k. time_at k a) i.rest)
              (subst (λ t. IsOrdered (time_at (armed e s)) (place (time_at (armed e s)) t e xs))
                (time_at-armed e s there)
                (place-IsOrdered (time_at (armed e s)) e xs (
                  IsOrdered-frame (time_at s) (time_at (armed e s)) xs (λ a j. ground arith)
                    h.ordered)));
        apart = λ x q j.
            ground
              (arith, free q, h.apart x q, has-place (time_at (armed e s)) (deadline e s) e xs x);
      },
    )
