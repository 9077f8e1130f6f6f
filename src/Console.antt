-- ===== src/Console.antt =====
-- Kernel/drivers/consoleDriver.c: the text of the console, its cursor, and which line is on top. The
-- counts of lines and columns stay below the number of characters that are counted, so no counter of
-- 64 bits wraps; the length of the text and the cursor wrap where the code subtracts.
pub mod Layout
pub mod Render
pub mod Write
pub mod Text
pub mod Visible
pub mod Bounds
pub mod Echo
use so_tpe.Common.{
  ℕ, zero, suc, ◌+◌, ◌-◌, ◌*◌, ◌/◌, ◌%◌, Bool, true, false, ◌&&◌, leb, ltb, ◌==◌, if◌then◌else◌,
}

-- `CONSOLE_BUFFER_SIZE`, 200 * 150 * 2
abbrev pub console_buffer_size : ℕ
console_buffer_size = 60000

-- `console_char_t`
pub record Cell : Type 0 where
  pub c : ℕ
  pub color : ℕ

pub record Console : Type 0 where
  pub console_buffer : ℕ → Cell
  pub buffer_length : ℕ
  pub cursor_position : ℕ
  pub last_visible_start : ℕ

-- What `get_screen_width_pixels` and its like of videoDriver.c answer.
pub record Screen : Type 0 where
  pub width : ℕ
  pub height : ℕ
  pub font_width : ℕ
  pub font_height : ℕ

abbrev pub chars_per_line : Screen → ℕ
chars_per_line s = s.width / s.font_width

abbrev pub lines_per_screen : Screen → ℕ
lines_per_screen s = s.height / s.font_height

-- `a - b` on an uint64_t
abbrev pub sub64 : ℕ → ℕ → ℕ
sub64 a b = (a + 18446744073709551616 - b) % 18446744073709551616

-- `memmove` of `n` cells inside an array
abbrev pub memmove : (ℕ → Cell) → ℕ → ℕ → ℕ → ℕ → Cell
memmove f to from n j = if leb to j && ltb j (to + n) then f (from + (j - to)) else f j

unfoldable pub shift_amount : ℕ
shift_amount = console_buffer_size / 4

unfoldable pub handle_buffer_overflow : Console → Console
handle_buffer_overflow s = record s {
  console_buffer = memmove s.console_buffer 0 shift_amount (sub64 s.buffer_length shift_amount);
  buffer_length = sub64 s.buffer_length shift_amount;
  cursor_position = sub64 s.cursor_position shift_amount;
}

abbrev pub put_cell : (ℕ → Cell) → ℕ → Cell → ℕ → Cell
put_cell f i x j = if j == i then x else f j

unfoldable pub insert_char_at_cursor : Cell → Console → Console
insert_char_at_cursor x s =
    let moved =
      if ltb s.cursor_position s.buffer_length
      then memmove s.console_buffer (s.cursor_position + 1) s.cursor_position
          (s.buffer_length - s.cursor_position)
      else s.console_buffer in
    record s {
      console_buffer = put_cell moved s.cursor_position x;
      buffer_length = s.buffer_length + 1;
      cursor_position = s.cursor_position + 1;
    }

unfoldable pub console_add_char : Cell → Console → Console
console_add_char x s =
    insert_char_at_cursor x
      (if leb (console_buffer_size - 1) s.buffer_length then handle_buffer_overflow s else s)

unfoldable pub console_backspace : Console → Console
console_backspace s = if s.cursor_position == 0 then s else record s {
  console_buffer =
      if ltb (s.cursor_position - 1) (sub64 s.buffer_length 1)
      then memmove s.console_buffer (s.cursor_position - 1) s.cursor_position
          (sub64 (sub64 s.buffer_length (s.cursor_position - 1)) 1)
      else s.console_buffer;
  buffer_length = sub64 s.buffer_length 1;
  cursor_position = s.cursor_position - 1;
}
