-- ===== src/Kernel/Timer/Insert.antt =====
-- `timeout_queue_insert` links an envelope into its place.
use rtx.Base.{
  ℕ, suc, zero, ◌<◌, ◌==◌, if◌then◌else◌, ◌≡◌, ◌≢◌, refl, ap, ◌∙◌, true, false, Bool-cases,
  ==_cases, ==_of_ne, inl, inr, List, [], ◌∷◌, arith, has, length, some,
}
use rtx.Base.Word.{signed_lt, signed_le}
use rtx.Links.{Ptr, null, update}
use rtx.Links.Chain.{IsChain, IsChain-frame}
use rtx.Kernel.{Kernel}
use rtx.Kernel.Timer.{time_at, deadline, armed, insert_loop, link_between, timeout_queue_insert}
use rtx.Kernel.Timer.Place.{place, has-place}

-- The nodes between which the walk from `prev` links `e`. Memory `m` in which `e` is linked between
-- them leads through the nodes in order.
record Between (n : Ptr → Ptr) (time : Ptr → ℕ) (t : ℕ) (e prev : Ptr) (xs : List Ptr) (a b : Ptr)
    : Type 0 where
  a_in : has a (prev ∷ xs) ≡ true
  linked :
      (m : Ptr → Ptr)
      → m a ≡ e
      → m e ≡ b
      → ((x : Ptr) → x ≢ a → x ≢ e → m x ≡ n x)
      → IsChain m prev (prev ∷ place time t e xs)

module _ (s : Kernel) (t : ℕ) (e : Ptr) (ne : e ≢ null) where
  insert_loop-Between :
      (fuel : ℕ) (prev : Ptr) (xs : List Ptr)
      → length xs < fuel
      → IsChain s.mail.next prev (prev ∷ xs)
      → has e (prev ∷ xs) ≡ false
      → (a : Ptr) × (b : Ptr) × (insert_loop fuel t prev (s.mail.next prev) s ≡ some (a, b))
        × Between s.mail.next (time_at s) t e prev xs a b
  unfolding insert_loop
  insert_loop-Between zero prev xs enough chain new = absurd (omega arith)
  insert_loop-Between (suc fuel) prev [] enough (p, np, out, at_end) new = (
    prev,
    s.mail.next prev,
    rw at_end (ground arith),
    record {
      a_in = ground arith;
      linked = λ m ma me same. (refl, np, ground arith, (ma, ne, refl, ground arith));
    },
  )
  insert_loop-Between (suc fuel) prev (x ∷ xs) enough (p, np, out, (at_x, nx, out_x, rest)) new =
      elim (Bool-cases (signed_lt (time_at s x) t)) [
        | inl before ↦
            let (a, b, runs, between) =
              insert_loop-Between fuel x xs (ground arith) (refl, nx, out_x, rest) (ground arith) in
            (
              a,
              b,
              rw (at_x, before, ==_of_ne nx) runs,
              record {
                a_in = ground (arith, between.a_in);
                linked = λ m ma me same.
                    let kept : m prev ≡ x = ground (arith, same prev, between.a_in) in
                    rw before (
                      refl,
                      np,
                      ground (arith, has-place (time_at s) t e xs prev),
                      rw kept (between.linked m ma me same),
                    );
              },
            )
        | inr after ↦ (
          prev,
          x,
          rw (at_x, after) refl,
          record {
            a_in = ground arith;
            linked = λ m ma me same. rw after (
              refl,
              np,
              ground arith,
              (
                ma,
                ne,
                ground arith,
                rw me (
                  refl,
                  nx,
                  out_x,
                  rw (same x (ground arith) (ground arith)) (
                      IsChain-frame (s.mail.next x) xs rest
                        λ a i. same a (ground arith) (ground arith)),
                ),
              ),
            );
          },
        )
      ]

-- The test for NULL before the loop is made by the loop too.
insert_loop-start :
    (s : Kernel) (t fuel : ℕ) (prev : Ptr)
    → 0 < fuel
    → (if s.mail.next prev == null
        then some (prev, s.mail.next prev)
        else insert_loop fuel t prev (s.mail.next prev) s)
      ≡ insert_loop fuel t prev (s.mail.next prev) s
unfolding insert_loop
insert_loop-start s t zero prev h = absurd (omega arith)
insert_loop-start s t (suc fuel) prev h = elim (==_cases (s.mail.next prev) null) [
  | inl (b, eq) ↦ rw (b, eq) (ground arith)
  | inr (b, ne) ↦ rw b refl
]

-- What an insertion leaves: the queue in order, the mailboxes as they were but for links of `xs` and
-- `e`, the time written into `e`, and all else as before.
pub record Linked (e : Ptr) (xs : List Ptr) (s s' : Kernel) : Type 0 where
  pub chain :
      IsChain s'.mail.next s'.timeout_queue (place (time_at (armed e s)) (deadline e s) e xs)
  pub others : (a : Ptr) → has a (e ∷ xs) ≡ false → s'.mail.next a ≡ s.mail.next a
  pub rest : s' ≡ record (armed e s) {
    mail = record (s.mail) { next = s'.mail.next };
    timeout_queue = s'.timeout_queue;
  }

-- The queue is not empty.
insert_filled :
    (fuel : ℕ) (e : Ptr) (xs : List Ptr) (s : Kernel)
    → e ≢ null
    → IsChain s.mail.next s.timeout_queue (s.timeout_queue ∷ xs)
    → has e (s.timeout_queue ∷ xs) ≡ false
    → length xs < fuel
    → (s' : Kernel) × (timeout_queue_insert fuel e s ≡ some s')
      × Linked e (s.timeout_queue ∷ xs) s s'
unfolding timeout_queue_insert
insert_filled fuel e xs s ne (at_x, nx, out, rest) new enough =
    elim (Bool-cases (signed_lt (time_at (armed e s) s.timeout_queue) (deadline e s))) [
      | inl before ↦
          let (a, b, runs, between) =
            insert_loop-Between (armed e s) (deadline e s) e ne fuel s.timeout_queue xs enough
              (refl, nx, out, rest) new in
          let later : signed_le (deadline e s) (time_at (armed e s) s.timeout_queue) ≡ false =
            ground arith in
          (
            record (armed e s) {
              mail = record (s.mail) { next = update (update s.mail.next a e) e b };
            },
            rw (==_of_ne nx, later)
                (ap (λ r. link_between e r (armed e s))
                  (insert_loop-start (armed e s) (deadline e s) fuel s.timeout_queue (ground arith)
                    ∙ runs)),
            record {
              chain = rw before (
                  between.linked (update (update s.mail.next a e) e b)
                    (ground (arith, between.a_in)) (ground arith) (λ y d i. ground arith));
              others = λ y i. ground (arith, between.a_in);
              rest = refl;
            },
          )
      | inr after ↦
          let sooner : signed_le (deadline e s) (time_at (armed e s) s.timeout_queue) ≡ true =
            ground arith in
          let old : s.timeout_queue ≢ e = ground arith in
          (
            record (armed e s) {
              mail = record (s.mail) { next = update s.mail.next e s.timeout_queue };
              timeout_queue = e;
            },
            rw (==_of_ne nx, sooner) refl,
            record {
              chain = rw after (
                refl,
                ne,
                new,
                (
                  ground arith,
                  nx,
                  out,
                  rw (==_of_ne (old))
                      (IsChain-frame (s.mail.next s.timeout_queue) xs rest λ a i. ground arith),
                ),
              );
              others = λ a i. ground arith;
              rest = refl;
            },
          )
    ]

-- The walk ends, and the envelope is linked into its place.
pub insert-Linked :
    (fuel : ℕ) (e : Ptr) (xs : List Ptr) (s : Kernel)
    → e ≢ null
    → s.mail.next e ≡ null
    → IsChain s.mail.next s.timeout_queue xs
    → has e xs ≡ false
    → length xs < fuel
    → (s' : Kernel) × (timeout_queue_insert fuel e s ≡ some s') × Linked e xs s s'
unfolding timeout_queue_insert
insert-Linked fuel e [] s ne alone chain new enough = (
  record (armed e s) { timeout_queue = e },
  rw chain refl,
  record { chain = (refl, ne, refl, alone); others = λ a i. refl; rest = refl },
)
insert-Linked fuel e (x ∷ xs) s ne alone (at_x, nx, out, rest) new enough = rw (← at_x) (
    insert_filled fuel e xs s ne (refl, rw at_x nx, rw at_x out, rw at_x rest) (rw at_x new)
      (ground arith))
