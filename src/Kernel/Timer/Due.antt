-- ===== src/Kernel/Timer/Due.antt =====
-- `check_timeout_queue` gives an envelope that is due, and none only if none is.
use rtx.Base.{
  ◌<◌, ◌≤◌, ◌⊎◌, ◌≡◌, ◌≢◌, refl, true, Bool-cases, ==_cases, ==_of_ne, inl, inr, List, [], ◌∷◌,
  arith, has,
}
use rtx.Base.Word.{rank, signed_le}
use rtx.Links.{Ptr, null}
use rtx.Links.Contents.{Contents}
use rtx.Kernel.{Kernel}
use rtx.Kernel.Timer.{time_at, check_timeout_queue}
use rtx.Kernel.Timer.Timed.{IsTimed}

-- No envelope is due, and nothing changed; or the envelope that is due first was taken out.
abbrev pub Checked : Kernel → Contents → List Ptr → Ptr × Kernel → Type 0
Checked s m xs (e, s') =
    ((e ≡ null) × (s' ≡ s) × ((a : Ptr) → has a xs ≡ true → rank s.clock < rank (time_at s a)))
    ⊎ ((rest : List Ptr) × (xs ≡ e ∷ rest)
        × (e ≢ null)
        × (rank (time_at s e) ≤ rank s.clock)
        × ((a : Ptr) → has a rest ≡ true → rank (time_at s e) ≤ rank (time_at s a))
        × (s' ≡ record s { timeout_queue = s'.timeout_queue })
        × IsTimed s' m rest)

-- `check_timeout_queue`, with envelopes waiting in order, returns NULL and changes nothing only
-- if no envelope is due; else it takes out and returns an envelope that is due, no later than any
-- other one, changes only the head of the queue, and the rest waits in order.
pub check-Checked :
    (s : Kernel) (m : Contents) (xs : List Ptr)
    → IsTimed s m xs
    → Checked s m xs (check_timeout_queue s)
unfolding check_timeout_queue
check-Checked s m [] h = rw h.chain (inl (refl, refl, λ a i. absurd (ground arith)))
check-Checked s m (x ∷ xs) h =
    let (at_x, nx, out, rest) = h.chain in
    let (least, ordered) = h.ordered in
    let filled : s.timeout_queue ≢ null = ground arith in
    elim (Bool-cases (signed_le (time_at s s.timeout_queue) s.clock)) [
      | inl due ↦
          rw (==_of_ne filled, due)
            (inr (
              xs,
              rw at_x refl,
              filled,
              ground arith,
              rw at_x least,
              refl,
              record {
                mail = h.mail;
                chain = rw at_x rest;
                ordered = ordered;
                apart = λ a q i. h.apart a q (ground arith);
              },
            ))
      | inr later ↦
          let first : rank s.clock < rank (time_at s s.timeout_queue) = ground arith in
          rw (==_of_ne filled, later)
            (inl (
              refl,
              refl,
              λ a i. elim (==_cases a x) [
                | inl (b, eq) ↦ rw eq (rw at_x at first)
                | inr (b, ne) ↦
                    let below = least a (ground arith) in
                    let first' = rw at_x at first in omega arith
              ],
            ))
    ]
