-- ===== src/Console/Echo.antt =====
-- What `console_write` leaves in the text.
use so_tpe.Common.{
  ℕ, ◌+◌, ◌-◌, ◌<◌, ◌≡◌, ◌≢◌, refl, ap, sym, ◌∙◌, Bool, true, false, List, [], ◌∷◌, ◌++◌, arith,
  leb, ◌==◌, length, length-append, Bool-cases, inl, inr,
}
use mathlib.Core.List.{append-nil, append_assoc, map}
use so_tpe.Console.{Cell, Console, Screen, console_buffer_size, console_add_char, console_backspace}
use so_tpe.Console.Layout.{console_calculate_visible_start}
use so_tpe.Console.Text.{
  text, IsValid, make_room, length-cells, console_add_char-text, console_backspace-text,
}
use so_tpe.Console.Write.{cell, write_loop, finish_write, console_write}

-- No byte is a backspace.
abbrev pub HasNoBackspace : List ℕ → Type 0
HasNoBackspace [] = Unit
HasNoBackspace (c ∷ cs) = (c ≢ 8) × HasNoBackspace cs

-- What a write leaves: the text, and the cursor at its end.
pub record Left (l : List Cell) (s : Console) : Type 0 where
  pub holds : text s ≡ l
  pub valid : IsValid s

add-Left :
    (x : Cell) (s : Console)
    → IsValid s
    → s.buffer_length < 59999
    → Left (text s ++ (x ∷ [])) (console_add_char x s)
unfolding make_room
add-Left x s v h =
    let free : leb (console_buffer_size - 1) s.buffer_length ≡ false = ground arith in
    let (t, ok) = console_add_char-text x s v in
    record { holds = t ∙ ap (λ l. l ++ (x ∷ [])) (rw free); valid = ok }

write_loop-Left :
    (color : ℕ) (cs : List ℕ) (s : Console)
    → IsValid s
    → HasNoBackspace cs
    → s.buffer_length + length cs < console_buffer_size
    → (write_loop color cs s).1 ≡ false
      × Left (text s ++ map (cell color) cs) (write_loop color cs s).0
unfolding write_loop
write_loop-Left color [] s v plain h =
    (refl, record { holds = sym (append-nil (text s)); valid = v })
write_loop-Left color (c ∷ cs) s v plain h =
    let other : (c == 8) ≡ false = ground arith in
    let x : Cell = cell color c in
    let one : Left (text s ++ (x ∷ [])) (console_add_char x s) = add-Left x s v (omega arith) in
    let longer : (console_add_char x s).buffer_length ≡ s.buffer_length + 1 =
      sym (length-cells _ 0 _)
      ∙ ap length one.holds
      ∙ length-append (text s) (x ∷ [])
      ∙ ap (λ n. n + 1) (length-cells s.console_buffer 0 s.buffer_length) in
    let (go, all) =
      write_loop-Left color cs (console_add_char x s) one.valid plain.1 (omega arith) in
    rw (other, write_loop)
      (
        go,
        record {
          holds =
              all.holds
              ∙ ap (λ l. l ++ map (cell color) cs) one.holds
              ∙ append_assoc (text s) (x ∷ []) (map (cell color) cs);
          valid = all.valid;
        },
      )

finish-Left :
    (screen : Screen) (cursor visible : ℕ) (l : List Cell) (r : Console × Bool)
    → r.1 ≡ false
    → Left l r.0
    → Left l (finish_write screen cursor visible r).0
unfolding finish_write
finish-Left screen cursor visible l (s, true) e o = absurd (cc)
finish-Left screen cursor visible l (s, false) e o =
    elim (Bool-cases (console_calculate_visible_start screen s == visible)) [
      | inl h ↦ rw (h, finish_write) o
      | inr h ↦
          rw (h, finish_write)
            (record {
              holds = o.holds;
              valid = record { at_end = o.valid.at_end; room = o.valid.room };
            })
    ]

-- A write without backspaces, of at most as many bytes as the console's buffer has room for, appends
-- the bytes to the text in order, in the given colour, and leaves the cursor at its end.
pub console_write-appends :
    (screen : Screen) (color : ℕ) (cs : List ℕ) (s : Console)
    → IsValid s
    → HasNoBackspace cs
    → s.buffer_length + length cs < console_buffer_size
    → Left (text s ++ map (cell color) cs) (console_write screen color cs s).0
unfolding console_write finish_write
console_write-appends screen color [] s v plain h = record {
  holds = sym (append-nil (text s));
  valid = v;
}
console_write-appends screen color (c ∷ cs) s v plain h =
    let (go, all) = write_loop-Left color (c ∷ cs) s v plain h in
    finish-Left screen s.cursor_position (console_calculate_visible_start screen s) _ _ go all

write_loop-stops :
    (color : ℕ) (pre rest : List ℕ) (s : Console)
    → HasNoBackspace pre
    → write_loop color (pre ++ (8 ∷ rest)) s ≡ write_loop color (pre ++ (8 ∷ [])) s
unfolding write_loop
write_loop-stops color [] rest s plain = refl
write_loop-stops color (c ∷ pre) rest s plain =
    let other : (c == 8) ≡ false = ground arith in
    rw (other, write_loop) (write_loop-stops color pre rest _ plain.1)

write_loop-backspace :
    (color : ℕ) (pre rest : List ℕ) (s : Console)
    → HasNoBackspace pre
    → write_loop color (pre ++ (8 ∷ rest)) s ≡ (console_backspace (write_loop color pre s).0, true)
unfolding write_loop
write_loop-backspace color [] rest s plain = refl
write_loop-backspace color (c ∷ pre) rest s plain =
    let other : (c == 8) ≡ false = ground arith in
    rw (other, write_loop) (write_loop-backspace color pre rest _ plain.1)

finish-backspace :
    (screen : Screen) (cursor visible : ℕ) (x : Cell) (l : List Cell) (s : Console)
    → IsValid s
    → text s ≡ l ++ (x ∷ [])
    → Left l (finish_write screen cursor visible (console_backspace s, true)).0
unfolding finish_write
finish-backspace screen cursor visible x l s v e =
    let (t, ok) = console_backspace-text x l s v e in
    record { holds = t; valid = record { at_end = ok.at_end; room = ok.room } }

-- A write ends at its first backspace, if the console's buffer has room for the bytes before it and the
-- text with these appended is not empty: the backspace takes the last character off that text, the
-- cursor is at the end of what is left, and the bytes behind the backspace have no effect.
pub console_write-stops :
    (screen : Screen) (color : ℕ) (pre rest : List ℕ) (x : Cell) (l : List Cell) (s : Console)
    → IsValid s
    → HasNoBackspace pre
    → s.buffer_length + length pre < console_buffer_size
    → text s ++ map (cell color) pre ≡ l ++ (x ∷ [])
    → Left l (console_write screen color (pre ++ (8 ∷ rest)) s).0
      × (console_write screen color (pre ++ (8 ∷ rest)) s
          ≡ console_write screen color (pre ++ (8 ∷ [])) s)
unfolding console_write write_loop
console_write-stops screen color [] rest x l s v plain room e =
    let finish = finish_write screen s.cursor_position (console_calculate_visible_start screen s) in
    (
      rw (write_loop-backspace color [] rest s plain) (
          finish-backspace screen s.cursor_position (console_calculate_visible_start screen s) x l s
            v (sym (append-nil (text s)) ∙ e)),
      ap finish (write_loop-stops color [] rest s plain),
    )
console_write-stops screen color (c ∷ pre) rest x l s v plain room e =
    let finish = finish_write screen s.cursor_position (console_calculate_visible_start screen s) in
    let (go, all) = write_loop-Left color (c ∷ pre) s v plain room in
    (
      rw (write_loop-backspace color (c ∷ pre) rest s plain) (
          finish-backspace screen s.cursor_position (console_calculate_visible_start screen s) x l _
            all.valid (all.holds ∙ e)),
      ap finish (write_loop-stops color (c ∷ pre) rest s plain),
    )
