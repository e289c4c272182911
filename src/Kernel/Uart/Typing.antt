-- ===== src/Kernel/Uart/Typing.antt =====
-- A line that is typed.
use rtx.Base.{
  ℕ, zero, suc, ◌+◌, ◌<◌, ◌≤◌, ◌≡◌, ◌≢◌, refl, ap, subst, sym, ◌∙◌, true, false, inl, inr, ltb,
  ◌==◌, ==_of_ne, ==_refl, ==_cases, if◌then◌else◌, Option, some, none, List, [], ◌∷◌, ◌++◌, length,
  arith,
}
use rtx.Links.{Ptr, null, update}
use rtx.Message.{Body}
use rtx.Utils.Spells.{Spells}
use rtx.Rtx.{console_input}
use rtx.Kernel.{Kernel, set_env, now}
use rtx.Kernel.Primitives.{k_request_msg_env, k_send_message}
use rtx.Kernel.Uart.{
  Uart, hotkey, echo, masked, read_for_pong, cci_pid, send_line, at_once, copy_line, end_line,
  add_char, read_char, uart_i_process,
}

-- A status that says that a character can be read.
abbrev pub data_ready : ℕ
data_ready = 1

-- One character after the other.
unfoldable pub type_all : (fuel : ℕ) → List ℕ → Uart → Kernel → Option (Uart × Kernel)
type_all fuel [] u s = some (u, s)
type_all fuel (c ∷ cs) u s = elim (uart_i_process fuel data_ready c u s) [
  | none ↦ none
  | some (u', s') ↦ type_all fuel cs u' s'
]

-- Characters that go into the line: neither its end, nor a hotkey, nor a zero.
abbrev pub Typed : List ℕ → Type 0
Typed [] = Unit {0}
Typed (c ∷ cs) = ((c == 13) ≡ false) × (hotkey c ≡ false) × (c ≢ 0) × Typed cs

abbrev with_char : (c : ℕ) → Uart → Uart
with_char c u = record (echo c u) {
  in_buffer = update u.in_buffer u.input_index c;
  input_index = u.input_index + 1;
}

type-one :
    (fuel c : ℕ) (u : Uart) (s : Kernel)
    → u.pong_mode ≡ false
    → u.input_index < 98
    → (c == 13) ≡ false
    → hotkey c ≡ false
    → uart_i_process fuel data_ready c u s ≡ some (with_char c u, masked s)
unfolding uart_i_process read_char add_char
type-one fuel c u s off below no_end plain =
    let room : ltb u.input_index 98 ≡ true = ground arith in
    ap (λ b. if b then read_for_pong c u s else some (read_char c u s)) off
    ∙ rw (no_end, room, plain) refl

-- The characters that have been typed stand in the buffer, whatever comes after them.
type_all-fills :
    (fuel : ℕ) (cs more : List ℕ) (u : Uart) (s : Kernel)
    → u.pong_mode ≡ false
    → Typed cs
    → u.input_index + length cs ≤ 98
    → (u' : Uart) × (type_all fuel (cs ++ more) u (masked s) ≡ type_all fuel more u' (masked s))
      × (u'.input_index ≡ u.input_index + length cs)
      × (u'.pong_mode ≡ false)
      × ((j : ℕ) → j < u.input_index → u'.in_buffer j ≡ u.in_buffer j)
      × Spells (update u'.in_buffer u'.input_index 0) u.input_index cs
unfolding type_all
type_all-fills fuel [] more u s off ok fits =
    (u, refl, omega arith, off, λ j h. refl, rw (==_refl u.input_index) refl)
type_all-fills fuel (c ∷ cs) more u s off (no_end, plain, ne, ok) fits =
    let i = u.input_index in
    let one = type-one fuel c u (masked s) off (omega arith) no_end plain in
    let (u', runs, idx, off', kept, spells) =
      type_all-fills fuel cs more (with_char c u) s off ok (omega arith) in
    let other : i ≢ u'.input_index = omega (arith, idx) in
    (
      u',
      rw (type_all, one) runs,
      omega (arith, idx),
      off',
      λ j h. let before : j ≢ i = omega arith in kept j (omega arith) ∙ rw (==_of_ne before) refl,
      (rw (==_of_ne other) (kept i (omega arith) ∙ rw (==_refl i) refl), ne, spells),
    )

-- A line and its end: the line is in the buffer when `end_line` runs.
pub type_all-ends :
    (fuel c : ℕ) (cs : List ℕ) (u : Uart) (s : Kernel)
    → u.pong_mode ≡ false
    → u.input_index ≡ 0
    → Typed (c ∷ cs)
    → length (c ∷ cs) ≤ 98
    → (u' : Uart) × (type_all fuel (c ∷ cs ++ (13 ∷ [])) u s ≡ some (end_line u' (masked s)))
      × (u'.input_index ≡ length (c ∷ cs))
      × Spells (update u'.in_buffer u'.input_index 0) 0 (c ∷ cs)
unfolding type_all uart_i_process read_char
type_all-ends fuel c cs u s off start ok fits =
    let (no_end, plain, ne, others) = ok in
    let (u', runs, idx, off', kept, spells) =
      type_all-fills fuel (c ∷ cs) (13 ∷ []) u s off ok (omega (arith, start)) in
    let first = λ (k : Kernel). type-one fuel c u k off (omega (arith, start)) no_end plain in
    let unmasked : type_all fuel (c ∷ cs ++ (13 ∷ [])) u s
        ≡ type_all fuel (c ∷ cs ++ (13 ∷ [])) u (masked s) =
      rw (type_all, first s, first (masked s)) refl in
    let ends : type_all fuel (13 ∷ []) u' (masked s) ≡ some (end_line u' (masked s)) =
      ap
        (λ b. elim (if b then read_for_pong 13 u' (masked s) else some (end_line u' (masked s))) [
          | none ↦ none
          | some (v, t) ↦ some (v, t)
        ])
        off' in
    (
      u',
      unmasked ∙ (runs ∙ ends),
      omega (arith, idx, start),
      subst (λ k. Spells (update u'.in_buffer u'.input_index 0) k (c ∷ cs)) start spells,
    )

copy_line-copies :
    (left i : ℕ) (a b : Body) (j : ℕ)
    → j < i + left
    → ((k : ℕ) → k < i → b k ≡ a k)
    → copy_line left i a b j ≡ a j
unfolding copy_line
copy_line-copies zero i a b j h copied = copied j (omega arith)
copy_line-copies (suc left) i a b j h copied =
    copy_line-copies left (i + 1) a (update b i (a i)) j (omega arith) (λ k below.
      elim (==_cases k i) [
        | inl (e, eq) ↦ rw e (ap a (sym eq))
        | inr (e, ne) ↦ rw e (copied k (omega arith))
      ])

Spells-agree :
    (n k : ℕ) (a b : Body) (cs : List ℕ)
    → ((j : ℕ) → j < n → b j ≡ a j)
    → k + length cs < n
    → Spells a k cs
    → Spells b k cs
Spells-agree n k a b [] same h spells = same k (omega arith) ∙ spells
Spells-agree n k a b (c ∷ cs) same h (at, ne, rest) =
    (same k (omega arith) ∙ at, ne, Spells-agree n (k + 1) a b cs same (omega arith) rest)

-- At the end of a line of the characters `cs`, where `k_request_msg_env` gives an envelope with a
-- message, the interpreter is sent that envelope, with a text of just these characters.
pub end_line-sends :
    (u : Uart) (s s₁ : Kernel) (e : Ptr) (b : Body) (cs : List ℕ)
    → u.input_index ≡ length cs
    → Spells (update u.in_buffer u.input_index 0) 0 cs
    → k_request_msg_env (masked s) ≡ (now e, s₁)
    → e ≢ null
    → (s₁.envs e).msg ≡ some b
    → (body : Body) × Spells body 0 cs
      × ((end_line u s).1
          ≡ (k_send_message cci_pid e
              (set_env e (λ x. record x { msg_type = console_input; msg = some body }) s₁)).1)
unfolding end_line send_line
end_line-sends u s s₁ e b cs idx spells granted ne has_body =
    let line = update u.in_buffer u.input_index 0 in
    let n = u.input_index + 1 in
    let body = copy_line n 0 line b in
    (
      body,
      Spells-agree n 0 line body cs
          (λ j h. copy_line-copies n 0 line b j (omega arith) (λ k below. absurd (omega arith)))
          (omega (arith, idx)) spells,
      ap (λ r. send_line (at_once r.0) n line r.1) granted
          ∙ rw (send_line, ==_of_ne ne)
              (ap (λ x. (k_send_message cci_pid e (record s₁ { envs = update s₁.envs e x })).1)
                (ap
                  (λ o. record (s₁.envs e) {
                    msg_type = console_input;
                    msg = elim o [ none ↦ none | some old ↦ some (copy_line n 0 line old) ];
                  })
                  has_body)),
    )
