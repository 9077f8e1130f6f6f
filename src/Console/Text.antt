-- ===== src/Console/Text.antt =====
-- The text of the console and its cursor under the operations on them.
use so_tpe.Common.{
  ℕ, zero, suc, ◌+◌, ◌-◌, ◌≤◌, ◌<◌, ◌≡◌, refl, ap, ap₂, sym, ◌∙◌, false, List, [], ◌∷◌, ◌++◌, arith,
  leb, ltb, ◌==◌, if◌then◌else◌, drop, Bool-cases, inl, inr, length, length-append,
}
use so_tpe.Console.{
  Cell, Console, console_buffer_size, shift_amount, sub64, handle_buffer_overflow,
  insert_char_at_cursor, console_add_char, console_backspace,
}

-- `n` cells of an array, from `i` on
abbrev pub cells : (ℕ → Cell) → ℕ → ℕ → List Cell
cells f i zero = []
cells f i (suc n) = f i ∷ cells f (suc i) n

abbrev pub text : Console → List Cell
text s = cells s.console_buffer 0 s.buffer_length

-- The cursor is at the end of the text, and there is room for one more character.
pub record IsValid (s : Console) : Type 0 where
  pub at_end : s.cursor_position ≡ s.buffer_length
  pub room : s.buffer_length < console_buffer_size

pub cells-eq :
    (f g : ℕ → Cell) (i j n : ℕ)
    → ((k : ℕ) → k < n → f (i + k) ≡ g (j + k))
    → cells f i n ≡ cells g j n
cells-eq f g i j zero h = refl
cells-eq f g i j (suc n) h =
    ap₂ (λ x l. x ∷ l) (ap f (omega arith) ∙ h 0 (omega arith) ∙ ap g (omega arith))
      (cells-eq f g (suc i) (suc j) n
        (λ k hk. ap f (omega arith) ∙ h (suc k) (omega arith) ∙ ap g (omega arith)))

pub cells-snoc : (f : ℕ → Cell) (i n : ℕ) → cells f i (suc n) ≡ cells f i n ++ (f (i + n) ∷ [])
cells-snoc f i zero = ap (λ j. f j ∷ []) (omega arith)
cells-snoc f i (suc n) =
    ap (λ l. f i ∷ l)
      (cells-snoc f (suc i) n ∙ ap (λ j. cells f (suc i) n ++ (f j ∷ [])) (omega arith))

pub drop-cells : (f : ℕ → Cell) (k i n : ℕ) → k ≤ n → drop k (cells f i n) ≡ cells f (i + k) (n - k)
drop-cells f zero i n h = ap₂ (cells f) (omega arith) (omega arith)
drop-cells f (suc k) i zero h = absurd (omega arith)
drop-cells f (suc k) i (suc n) h =
    drop-cells f k (suc i) n (omega arith) ∙ ap₂ (cells f) (omega arith) (omega arith)

pub length-cells : (f : ℕ → Cell) (i n : ℕ) → length (cells f i n) ≡ n
length-cells f i zero = refl
length-cells f i (suc n) = ap suc (length-cells f (suc i) n)

-- a list without its last element
init : List Cell → List Cell
init [] = []
init (x ∷ []) = []
init (x ∷ y ∷ l) = x ∷ init (y ∷ l)

init-snoc : (x : Cell) (l : List Cell) → init (l ++ (x ∷ [])) ≡ l
unfolding init
init-snoc x [] = refl
init-snoc x (y ∷ []) = refl
init-snoc x (y ∷ z ∷ l) = ap (λ m. y ∷ m) (init-snoc x (z ∷ l))

-- the text that is left when the buffer is full: its first quarter goes
unfoldable pub make_room : Console → List Cell
make_room s =
    if leb (console_buffer_size - 1) s.buffer_length then drop shift_amount (text s) else text s

insert-text :
    (x : Cell) (s : Console)
    → s.cursor_position ≡ s.buffer_length
    → text (insert_char_at_cursor x s) ≡ text s ++ (x ∷ [])
unfolding insert_char_at_cursor
insert-text x s e =
    let n : ℕ = s.buffer_length in
    let f : ℕ → Cell = (insert_char_at_cursor x s).console_buffer in
    let still : ltb s.cursor_position s.buffer_length ≡ false = ground arith in
    ap (cells f 0) {y = suc n} (omega arith)
    ∙ cells-snoc f 0 n
    ∙ ap₂ (λ l y. l ++ (y ∷ [])) (cells-eq f s.console_buffer 0 0 n (λ k hk. ground arith))
        (ground arith)

insert-IsValid :
    (x : Cell) (s : Console)
    → s.cursor_position ≡ s.buffer_length
    → s.buffer_length < 59999
    → IsValid (insert_char_at_cursor x s)
unfolding insert_char_at_cursor
insert-IsValid x s e h = record { at_end = omega arith; room = omega arith }

overflow-text :
    (s : Console)
    → IsValid s
    → console_buffer_size - 1 ≤ s.buffer_length
    → text (handle_buffer_overflow s) ≡ drop shift_amount (text s)
unfolding handle_buffer_overflow
overflow-text s v full =
    let q : shift_amount ≡ 15000 = unfold shift_amount in refl in
    let left : sub64 s.buffer_length shift_amount ≡ s.buffer_length - shift_amount = omega arith in
    ap (cells _ 0) left
    ∙ cells-eq _ s.console_buffer 0 (0 + shift_amount) (s.buffer_length - shift_amount)
        (λ k hk. ground arith)
    ∙ sym (drop-cells s.console_buffer shift_amount 0 s.buffer_length (omega arith))

-- `console_add_char` appends the character to the text, of which it first drops the oldest quarter of
-- the buffer if the buffer is full, and keeps the cursor at the end and inside the buffer.
pub console_add_char-text :
    (x : Cell) (s : Console)
    → IsValid s
    → (text (console_add_char x s) ≡ make_room s ++ (x ∷ [])) × IsValid (console_add_char x s)
unfolding console_add_char make_room
console_add_char-text x s v = elim (Bool-cases (leb (console_buffer_size - 1) s.buffer_length)) [
  | inl full ↦
      let q : shift_amount ≡ 15000 = unfold shift_amount in refl in
      let big : console_buffer_size - 1 ≤ s.buffer_length = ground arith in
      let o : Console = handle_buffer_overflow s in
      let end : o.cursor_position ≡ o.buffer_length =
        unfold handle_buffer_overflow in omega arith in
      let room : o.buffer_length < 59999 = unfold handle_buffer_overflow in omega arith in
      rw (full, console_add_char)
        (
          insert-text x o end ∙ ap (λ l. l ++ (x ∷ [])) (overflow-text s v (ground arith)),
          insert-IsValid x o end room,
        )
  | inr free ↦
      rw (free, console_add_char)
        (insert-text x s v.at_end, insert-IsValid x s v.at_end (ground arith))
]

-- `console_backspace` takes the last character off the text.
pub console_backspace-text :
    (x : Cell) (l : List Cell) (s : Console)
    → IsValid s
    → text s ≡ l ++ (x ∷ [])
    → (text (console_backspace s) ≡ l) × IsValid (console_backspace s)
unfolding console_backspace
console_backspace-text x l s v e =
    let size : length l + 1 ≡ s.buffer_length =
      sym (length-append l (x ∷ []))
      ∙ ap length (sym e)
      ∙ length-cells s.console_buffer 0 s.buffer_length in
    let n : ℕ = s.buffer_length - 1 in
    let shorter : sub64 s.buffer_length 1 ≡ n = omega (arith, v.room) in
    let at : (s.cursor_position == 0) ≡ false = ground arith in
    let still : ltb (s.cursor_position - 1) (sub64 s.buffer_length 1) ≡ false = ground arith in
    let same : cells s.console_buffer 0 n ++ (s.console_buffer (0 + n) ∷ []) ≡ l ++ (x ∷ []) =
      sym (cells-snoc s.console_buffer 0 n)
      ∙ ap (cells s.console_buffer 0) {x = suc n} {y = s.buffer_length} (omega arith)
      ∙ e in
    rw (at, console_backspace)
      (rw still (
        ap (cells s.console_buffer 0) shorter
            ∙ sym (init-snoc _ (cells s.console_buffer 0 n))
            ∙ ap init same
            ∙ init-snoc x l,
        record { at_end = omega arith; room = omega arith },
      ))
