-- ===== src/Unix/Crt/Moves.antt =====
-- The steps of the i-process of unix/kern/src/crt_i_process.c.
use rtx.Base.{
  ℕ, ◌≡◌, refl, sym, subst, ◌∙◌, Bool, false, Option, none, some, List, [], ◌∷◌, ◌++◌,
  length-append, arith, on_test,
}
use rtx.Links.{update}
use rtx.Utils.Spells.{Spells}
use rtx.Unix.Crt.{
  Letter, IProcess, exited, acknowledging, receiving, testing, copying, setting, storing, Printer,
  waiting, signalling, printing, freeing, Crt, acknowledge, receive, load, i_move,
}
use rtx.Unix.Crt.Texts.{texts, AllText, append_assoc, append_none, AllText-append_one}
use rtx.Unix.Crt.Memory.{Upto-write, Upto-end}
use rtx.Unix.Crt.Phases.{
  Done, Rests, Loading, Showing, Phase, quiet, loading, showing, Inv, Done-not_Loading,
}

-- Steps that leave the memory and the output alone.
pass-Phase :
    (s : Crt) (mailbox display : List Letter) (prev : Option Letter) (acked : List Letter)
    (p : IProcess)
    → Phase s
    → Done s.i_process
    → Done p
    → Phase (record s {
      mailbox = mailbox;
      display_queue = display;
      prev_msg = prev;
      acked = acked;
      i_process = p;
    })
pass-Phase s mailbox display prev acked p (quiet f w d out) done done' = quiet f w done' out
pass-Phase s mailbox display prev acked p (loading before l f w t out loaded) done done' =
    absurd (Done-not_Loading s.i_process l s done loaded)
pass-Phase s mailbox display prev acked p (showing before l f d t out) done done' =
    showing before l f done' t (again s.printer out)
  where
    again :
        (pr : Printer)
        → Showing pr (texts before) l s
        → Showing pr (texts before) l (record s {
          mailbox = mailbox;
          display_queue = display;
          prev_msg = prev;
          acked = acked;
          i_process = p;
        })
    again waiting h = h
    again signalling h = h
    again (printing i) h = h
    again freeing h = h

-- A step that changes only the mailbox and the signals.
pub post-Phase :
    (s : Crt) (mailbox : List Letter) (signalled : Bool) (senders : ℕ)
    → Phase s
    → Phase (record s { mailbox = mailbox; signalled = signalled; senders = senders })
post-Phase s mailbox signalled senders (quiet f w d out) = quiet f w d out
post-Phase s mailbox signalled senders (loading before l' f w t out loaded) =
    loading before l' f w t out (again s.i_process loaded)
  where
    again :
        (p : IProcess)
        → Loading p l' s
        → Loading p l' (record s { mailbox = mailbox; signalled = signalled; senders = senders })
    again exited h = h
    again acknowledging h = h
    again receiving h = h
    again testing h = h
    again (copying l'' rest) h = h
    again (setting l'') h = h
    again (storing l'') h = h
post-Phase s mailbox signalled senders (showing before l' f d t out) =
    showing before l' f d t (again s.printer out)
  where
    again :
        (pr : Printer)
        → Showing pr (texts before) l' s
        → Showing pr
            (texts before)
            l'
            (record s { mailbox = mailbox; signalled = signalled; senders = senders })
    again waiting h = h
    again signalling h = h
    again (printing i) h = h
    again freeing h = h

acknowledge-Inv :
    (prev : Option Letter) (s : Crt)
    → Done s.i_process
    → Inv s
    → Inv (record (acknowledge prev s) { i_process = receiving })
acknowledge-Inv none s done h = record {
  phase = pass-Phase s s.mailbox s.display_queue s.prev_msg s.acked receiving h.phase done tt;
  box = h.box;
  display = h.display;
}
acknowledge-Inv (some l) s done h = record {
  phase = pass-Phase s s.mailbox s.display_queue none (s.acked ++ l ∷ []) receiving h.phase done tt;
  box = h.box;
  display = h.display;
}

receive-Inv :
    (ls : List Letter) (s : Crt)
    → s.mailbox ≡ ls
    → Done s.i_process
    → Inv s
    → Inv (record (receive ls s) { i_process = testing })
receive-Inv [] s is done h = record {
  phase = pass-Phase s s.mailbox s.display_queue s.prev_msg s.acked testing h.phase done tt;
  box = h.box;
  display = h.display;
}
receive-Inv (l ∷ ls) s is done h =
    let all : AllText (l ∷ ls) = rw is at h.box in
    record {
      phase =
          pass-Phase s ls (s.display_queue ++ l ∷ []) s.prev_msg s.acked testing h.phase done tt;
      box = all.1;
      display = AllText-append_one s.display_queue l h.display all.0;
    }

load-Inv :
    (ls : List Letter) (s : Crt)
    → s.display_queue ≡ ls
    → s.i_process_wait_flag ≡ false
    → Done s.i_process
    → Inv s
    → Inv (load ls s)
load-Inv [] s is f done h = record {
  phase = pass-Phase s s.mailbox s.display_queue s.prev_msg s.acked exited h.phase done tt;
  box = h.box;
  display = h.display;
}
load-Inv (l ∷ ls) s is f done h =
    let all : AllText (l ∷ ls) = rw is at h.display in
    record { phase = start h.phase; box = h.box; display = all.1 }
  where
    start : Phase s → Phase (load (l ∷ ls) s)
    start (quiet f w d out) =
        loading s.taken l f w refl out ([], refl, refl, refl, tt, (rw is at h.display).0)
    start (loading before l' f w t out loaded) =
        absurd (Done-not_Loading s.i_process l' s done loaded)
    start (showing before l' f' d t out) = absurd (ground (arith, f, f'))

module _ (s : Crt) (h : Inv s) where
  copy-Inv :
      (l : Letter) (c : ℕ) (rest : List ℕ)
      → s.i_process ≡ copying l (c ∷ rest)
      → Inv (i_move (copying l (c ∷ rest)) s)
  copy-Inv l c rest is = record { phase = go h.phase; box = h.box; display = h.display }
    where
      go : Phase s → Phase (i_move (copying l (c ∷ rest)) s)
      go (quiet f w d out) = absurd (rw is at d)
      go (showing before l' f d t out) = absurd (rw is at d)
      go (loading before l' f w t out loaded) =
          let (cs, same, spelt, at, upto, (ne, ok)) = rw is at loaded in
          loading before l' f w t out (
            cs ++ c ∷ [],
            same,
            spelt ∙ sym (append_assoc cs (c ∷ []) rest),
            omega (arith, at, length-append cs (c ∷ [])),
            Upto-write s.buf s.i cs c at ne upto,
            ok,
          )

  end-Inv : (l : Letter) → s.i_process ≡ copying l [] → Inv (i_move (copying l []) s)
  end-Inv l is = record { phase = go h.phase; box = h.box; display = h.display }
    where
      go : Phase s → Phase (i_move (copying l []) s)
      go (quiet f w d out) = absurd (rw is at d)
      go (showing before l' f d t out) = absurd (rw is at d)
      go (loading before l' f w t out loaded) =
          let (cs, same, spelt, at, upto, ok) = rw is at loaded in
          let whole : l'.text ≡ cs = spelt ∙ append_none cs in
          loading before l' f w t out (
            same,
            subst (Spells (update s.buf s.i 0) 0) (sym whole) (Upto-end s.buf s.i cs at upto),
          )

  set-Inv : (l : Letter) → s.i_process ≡ setting l → Inv (i_move (setting l) s)
  set-Inv l is = record { phase = go h.phase; box = h.box; display = h.display }
    where
      go : Phase s → Phase (i_move (setting l) s)
      go (quiet f w d out) = absurd (rw is at d)
      go (showing before l' f d t out) = absurd (rw is at d)
      go (loading before l' f w t out loaded) =
          let (same, spells) = rw is at loaded in
          showing before l' refl tt t (shown s.printer w out spells)
        where
          shown :
              (pr : Printer)
              → Rests pr
              → s.printed ≡ texts before
              → Spells s.buf 0 l'.text
              → Showing pr (texts before) l' (i_move (setting l) s)
          shown waiting e out spells = (out, spells)
          shown signalling e out spells = (out, spells)
          shown (printing i) e out spells = absurd e
          shown freeing e out spells = absurd e

store-Inv : (l : Letter) (s : Crt) → s.i_process ≡ storing l → Inv s → Inv (i_move (storing l) s)
store-Inv l s is h =
    let done : Done s.i_process = rw is tt in
    record {
      phase = pass-Phase s s.mailbox s.display_queue (some l) s.acked exited h.phase done tt;
      box = h.box;
      display = h.display;
    }

pub i_move-Inv : (p : IProcess) (s : Crt) → s.i_process ≡ p → Inv s → Inv (i_move p s)
i_move-Inv exited s is h =
    let done : Done s.i_process = rw is tt in
    let t : Crt = record s { signalled = false } in
    on_test Inv s.signalled (record s { signalled = false; i_process = acknowledging }) s
      (λ f. record {
        phase =
            pass-Phase t s.mailbox s.display_queue s.prev_msg s.acked acknowledging
              (post-Phase s s.mailbox false s.senders h.phase) done tt;
        box = h.box;
        display = h.display;
      })
      (λ f. h)
i_move-Inv acknowledging s is h =
    let done : Done s.i_process = rw is tt in
    on_test (λ r. Inv (record r { i_process = receiving })) s.i_process_wait_flag s
      (acknowledge s.prev_msg s) (λ f. acknowledge-Inv none s done h)
      (λ f. acknowledge-Inv s.prev_msg s done h)
i_move-Inv receiving s is h =
    let done : Done s.i_process = rw is tt in receive-Inv s.mailbox s refl done h
i_move-Inv testing s is h =
    let done : Done s.i_process = rw is tt in
    on_test Inv s.i_process_wait_flag (record s { i_process = exited }) (load s.display_queue s)
      (λ f. record {
        phase = pass-Phase s s.mailbox s.display_queue s.prev_msg s.acked exited h.phase done tt;
        box = h.box;
        display = h.display;
      })
      (λ f. load-Inv s.display_queue s refl f done h)
i_move-Inv (copying l (c ∷ rest)) s is h = copy-Inv s h l c rest is
i_move-Inv (copying l []) s is h = end-Inv s h l is
i_move-Inv (setting l) s is h = set-Inv s h l is
i_move-Inv (storing l) s is h = store-Inv l s is h
