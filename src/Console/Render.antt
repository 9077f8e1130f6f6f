-- ===== src/Console/Render.antt =====
-- What the console draws: `console_render_range`, `console_render_all`, `console_scroll_fast` and
-- their like, as the list of the calls that they make of videoDriver.c and of `memmove` on its buffer.
use so_tpe.Common.{
  ℕ, zero, suc, ◌+◌, ◌-◌, ◌*◌, ◌/◌, Bool, not, ◌&&◌, ◌||◌, List, [], ◌∷◌, ◌++◌, leb, ltb, ◌==◌,
  if◌then◌else◌,
}
use so_tpe.Console.{Cell, Console, Screen, lines_per_screen}
use so_tpe.Console.Layout.{next_tab, console_calculate_visible_start, count_lines_to_position}

-- `draw_rect` in the background's colour, `draw_char`, `clear_screen`, `swap_buffers`; the rows of the
-- back buffer moved up, and rows filled with the background
pub data Draw : Type 0 where
  rect : ℕ → ℕ → ℕ → ℕ → Draw
  char : Cell → ℕ → ℕ → Draw
  clear : Draw
  swap : Draw
  move_up : ℕ → ℕ → Draw
  fill_rows : ℕ → ℕ → Draw

-- `render_position_t`
pub record Position : Type 0 where
  pub screen_x : ℕ
  pub screen_y : ℕ
  pub current_line : ℕ

abbrev pub should_render_char : ℕ → Bool
should_render_char c = not (c == 32) && not (c == 0) && not (c == 10) && not (c == 9)

abbrev pub next_line : Screen → Position → Position
next_line screen p = record {
  screen_x = 0;
  screen_y = (p.current_line + 1) * screen.font_height;
  current_line = p.current_line + 1;
}

abbrev pub move_to_x : Screen → ℕ → Position → Position
move_to_x screen x p = if leb screen.width x then next_line screen p else record p { screen_x = x }

-- the part of the two loops that moves the position over a character
abbrev pub step_over : Screen → ℕ → Position → Position
step_over screen c p =
    if c == 10
    then next_line screen p
    else if c == 9
    then move_to_x screen (next_tab (p.screen_x / screen.font_width) * screen.font_width) p
    else move_to_x screen (p.screen_x + screen.font_width) p

-- the part of the second loop that draws a character
abbrev pub draw_cell : Screen → Cell → Position → List Draw
draw_cell screen x p =
    if x.c == 10
    then (if ltb p.screen_x screen.width
        then rect p.screen_x p.screen_y (screen.width - p.screen_x) screen.font_height ∷ []
        else [])
    else if x.c == 9
    then rect p.screen_x p.screen_y screen.font_width screen.font_height ∷ []
    else rect p.screen_x p.screen_y screen.font_width screen.font_height
      ∷ (if should_render_char x.c then char x p.screen_x p.screen_y ∷ [] else [])

-- The fuel of both loops is the length of the text, below which the position stays.
unfoldable pub skip_loop : ℕ → Screen → ℕ → ℕ → Console → Position → Position
skip_loop zero screen start pos s p = p
skip_loop (suc fuel) screen start pos s p =
    let rest =
      skip_loop fuel screen start (pos + 1) s (step_over screen (s.console_buffer pos).c p) in
    if ltb pos start && ltb pos s.buffer_length && ltb p.current_line (lines_per_screen screen)
    then rest
    else p

unfoldable pub render_loop : ℕ → Screen → ℕ → ℕ → Console → Position → List Draw
render_loop zero screen end pos s p = []
render_loop (suc fuel) screen end pos s p =
    let x = s.console_buffer pos in
    let rest = render_loop fuel screen end (pos + 1) s (step_over screen x.c p) in
    if ltb pos end && ltb pos s.buffer_length && ltb p.current_line (lines_per_screen screen)
    then draw_cell screen x p ++ rest
    else []

abbrev pub origin : Position
origin = record { screen_x = 0; screen_y = 0; current_line = 0 }

unfoldable pub console_render_range : Screen → ℕ → ℕ → Console → List Draw
console_render_range screen start end s =
    render_loop s.buffer_length screen end start s
      (skip_loop s.buffer_length screen start (console_calculate_visible_start screen s) s origin)

unfoldable pub console_render_from_position : Screen → ℕ → Console → List Draw
console_render_from_position screen start s = console_render_range screen start s.buffer_length s

unfoldable pub console_render_incremental : Screen → ℕ → Console → List Draw
console_render_incremental screen from s =
    if leb s.buffer_length from
    then []
    else console_render_range screen from s.buffer_length s ++ (swap ∷ [])

unfoldable pub console_render_all : Screen → Console → List Draw
console_render_all screen s =
    clear
    ∷ (console_render_from_position screen (console_calculate_visible_start screen s) s
        ++ (swap ∷ []))

-- `console_scroll_fast` once the lines to scroll are counted
unfoldable pub scroll_by : Screen → ℕ → ℕ → Console → List Draw
scroll_by screen lines new s =
    let pixels = lines * screen.font_height in
    if lines == 0 || ltb 10 lines || leb (screen.height / 2) pixels
    then console_render_all screen s
    else (if ltb 0 (screen.height - pixels)
        then move_up pixels (screen.height - pixels) ∷ []
        else [])
      ++ (fill_rows (screen.height - pixels) screen.height
          ∷ (console_render_from_position screen new s ++ (swap ∷ [])))

unfoldable pub console_scroll_fast : Screen → ℕ → ℕ → Console → List Draw
console_scroll_fast screen old new s =
    let old_line = (count_lines_to_position screen old s).0 in
    let new_line = (count_lines_to_position screen new s).0 in
    if old == new then [] else scroll_by screen (new_line - old_line) new s
