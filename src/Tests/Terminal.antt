-- ===== src/Tests/Terminal.antt =====
-- The theorems about the console of the Unix port, with two texts of one and two characters.
use rtx.Base.{ℕ, ◌≡◌, List, [], ◌∷◌, ◌++◌, arith}
use rtx.Message.{Body}
use rtx.Unix.Crt.{Letter, Event, sent, killed, i_runs, crt_runs, run, init}
use rtx.Unix.Crt.Texts.{sent_of, texts}
use rtx.Unix.Crt.Prints.{run-prints}
use rtx.Unix.Crt.Drains.{run-drains}
use rtx.Unix.Crt.Lost.{left, run-loses}

abbrev hi : Letter
hi = record { env = 16; send_pid = 4; text = 104 ∷ 105 ∷ [] }

abbrev x : Letter
x = record { env = 32; send_pid = 5; text = 120 ∷ [] }

-- What memory holds before the first text.
abbrev ones : Body
ones _ = 1

-- The second text is sent while the first one is copied, and one character is printed.
abbrev begun : List Event
begun =
    sent hi
    ∷ killed
    ∷ i_runs
    ∷ i_runs
    ∷ i_runs
    ∷ i_runs
    ∷ i_runs
    ∷ sent x
    ∷ i_runs
    ∷ i_runs
    ∷ i_runs
    ∷ crt_runs
    ∷ i_runs
    ∷ crt_runs
    ∷ []

run-prints_example :
    (rest : List ℕ) × ((run begun (init ones)).printed ++ rest ≡ texts (hi ∷ x ∷ []))
run-prints_example =
    run-prints begun ones ((omega arith, (omega arith, tt)), ((omega arith, tt), tt))

run-drains_example :
    (es' : List Event) × (sent_of es' ≡ [])
    × ((run (begun ++ es') (init ones)).printed ≡ texts (hi ∷ x ∷ []))
run-drains_example =
    run-drains begun ones ((omega arith, (omega arith, tt)), ((omega arith, tt), tt))

run-loses_example :
    (es : List Event) × (sent_of es ≡ hi ∷ x ∷ []) × (left (run es (init ones)) ≡ x ∷ [])
run-loses_example = run-loses hi x ones (omega arith, (omega arith, tt)) (omega arith, tt)
