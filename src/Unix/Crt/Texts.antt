-- ===== src/Unix/Crt/Texts.antt =====
-- Letters and their texts, and runs one behind the other.
use rtx.Base.{ℕ, ◌≡◌, refl, sym, ap, ◌∙◌, List, [], ◌∷◌, ◌++◌}
use rtx.Utils.Spells.{NonZero}
use rtx.Unix.Crt.{Letter, Event, Crt, sent, killed, i_runs, crt_runs, step, run}

-- The characters of some letters, one text behind the other.
abbrev pub texts : List Letter → List ℕ
texts [] = []
texts (l ∷ ls) = l.text ++ texts ls

abbrev pub AllText : List Letter → Type 0
AllText [] = Unit {0}
AllText (l ∷ ls) = NonZero l.text × AllText ls

-- The letters that are sent.
abbrev pub sent_of : List Event → List Letter
sent_of [] = []
sent_of (sent l ∷ es) = l ∷ sent_of es
sent_of (killed ∷ es) = sent_of es
sent_of (i_runs ∷ es) = sent_of es
sent_of (crt_runs ∷ es) = sent_of es

pub append_assoc {ℓ} : {A : Type ℓ} (a b c : List A) → (a ++ b) ++ c ≡ a ++ (b ++ c)
append_assoc [] b c = refl
append_assoc (x ∷ a) b c = ap (λ t. x ∷ t) (append_assoc a b c)

pub append_none {ℓ} : {A : Type ℓ} (a : List A) → a ++ [] ≡ a
append_none [] = refl
append_none (x ∷ a) = ap (λ t. x ∷ t) (append_none a)

pub texts-append : (a b : List Letter) → texts (a ++ b) ≡ texts a ++ texts b
texts-append [] b = refl
texts-append (l ∷ a) b =
    ap (λ t. l.text ++ t) (texts-append a b) ∙ sym (append_assoc l.text (texts a) (texts b))

pub texts-append_one : (a : List Letter) (l : Letter) → texts (a ++ l ∷ []) ≡ texts a ++ l.text
texts-append_one a l = texts-append a (l ∷ []) ∙ ap (λ t. texts a ++ t) (append_none l.text)

pub AllText-append_one :
    (a : List Letter) (l : Letter) → AllText a → NonZero l.text → AllText (a ++ l ∷ [])
AllText-append_one [] l all ok = (ok, tt)
AllText-append_one (x ∷ a) l (here, all) ok = (here, AllText-append_one a l all ok)

pub run-append : (a b : List Event) (s : Crt) → run (a ++ b) s ≡ run b (run a s)
unfolding run
run-append [] b s = refl
run-append (e ∷ a) b s = run-append a b (step e s)

pub sent_of-append : (a b : List Event) → sent_of (a ++ b) ≡ sent_of a ++ sent_of b
sent_of-append [] b = refl
sent_of-append (sent l ∷ a) b = ap (λ t. l ∷ t) (sent_of-append a b)
sent_of-append (killed ∷ a) b = sent_of-append a b
sent_of-append (i_runs ∷ a) b = sent_of-append a b
sent_of-append (crt_runs ∷ a) b = sent_of-append a b
