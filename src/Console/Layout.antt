-- ===== src/Console/Layout.antt =====
-- The lines of the console's text: `count_lines_to_position`, `find_buffer_position_for_line` and
-- `console_calculate_visible_start`.
use so_tpe.Common.{ℕ, zero, suc, ◌+◌, ◌-◌, ◌*◌, ◌/◌, ◌&&◌, leb, ltb, ◌==◌, if◌then◌else◌}
use so_tpe.Console.{Console, Screen, chars_per_line, lines_per_screen}

-- a line and a column
abbrev pub Place : Type 0
Place = ℕ × ℕ

-- `(x + TAB_SIZE) & TAB_MASK`
abbrev pub next_tab : ℕ → ℕ
next_tab x = (x + 4) / 4 * 4

abbrev pub wrap : ℕ → ℕ → ℕ → Place
wrap width line x = if leb width x then (line + 1, 0) else (line, x)

-- the body of the two loops that count lines
abbrev pub advance_place : ℕ → ℕ → Place → Place
advance_place width c (line, x) =
    if c == 10
    then (line + 1, 0)
    else if c == 9
    then wrap width line (next_tab x)
    else wrap width line (x + 1)

-- The fuel is the length of the text, below which the position stays.
unfoldable pub count_loop : ℕ → ℕ → ℕ → ℕ → Console → Place → Place
count_loop zero width target pos s p = p
count_loop (suc fuel) width target pos s p =
    let rest =
      count_loop fuel width target (pos + 1) s (advance_place width (s.console_buffer pos).c p) in
    if leb pos target && ltb pos s.buffer_length then rest else p

unfoldable pub count_lines_to_position : Screen → ℕ → Console → Place
count_lines_to_position screen target s =
    count_loop s.buffer_length (chars_per_line screen) target 0 s (0, 0)

unfoldable pub find_loop : ℕ → ℕ → ℕ → ℕ → Console → Place → ℕ
find_loop zero width target pos s p = pos
find_loop (suc fuel) width target pos s p =
    let rest =
      find_loop fuel width target (pos + 1) s (advance_place width (s.console_buffer pos).c p) in
    if ltb pos s.buffer_length && ltb p.0 target then rest else pos

unfoldable pub find_buffer_position_for_line : Screen → ℕ → Console → ℕ
find_buffer_position_for_line screen target s =
    find_loop s.buffer_length (chars_per_line screen) target 0 s (0, 0)

unfoldable pub console_calculate_visible_start : Screen → Console → ℕ
console_calculate_visible_start screen s =
    let line = (count_lines_to_position screen s.cursor_position s).0 in
    if leb (lines_per_screen screen) line
    then find_buffer_position_for_line screen (line - lines_per_screen screen + 1) s
    else 0
