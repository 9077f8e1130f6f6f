-- ===== src/Console/Write.antt =====
-- `console_write` and `console_clear`.
use so_tpe.Common.{ℕ, Bool, true, false, List, [], ◌∷◌, u32, ◌==◌, if◌then◌else◌}
use so_tpe.Console.{Cell, Console, Screen, console_add_char, console_backspace}
use so_tpe.Console.Layout.{console_calculate_visible_start}
use so_tpe.Console.Render.{
  Draw, clear, swap, console_render_all, console_scroll_fast, console_render_incremental,
}

abbrev pub cell : ℕ → ℕ → Cell
cell color c = record { c = c; color = u32 color }

-- The loop of `console_write`: the state, and whether it met a backspace, behind which it ends.
unfoldable pub write_loop : ℕ → List ℕ → Console → Console × Bool
write_loop color [] s = (s, false)
write_loop color (c ∷ cs) s =
    let rest = write_loop color cs (console_add_char (cell color c) s) in
    if c == 8 then (console_backspace s, true) else rest

-- what `console_write` does behind its loop, from the cursor and the first visible position before
unfoldable pub finish_write : Screen → ℕ → ℕ → Console × Bool → Console × List Draw
finish_write screen cursor visible (s, true) = (
  record s { last_visible_start = console_calculate_visible_start screen s },
  console_render_all screen s,
)
finish_write screen cursor visible (s, false) =
    let new = console_calculate_visible_start screen s in
    if new == visible then (s, console_render_incremental screen cursor s) else (
      record s { last_visible_start = new },
      console_scroll_fast screen s.last_visible_start new s,
    )

-- The data is not NULL.
unfoldable pub console_write : Screen → ℕ → List ℕ → Console → Console × List Draw
console_write screen color [] s = (s, [])
console_write screen color (c ∷ cs) s =
    finish_write screen s.cursor_position (console_calculate_visible_start screen s)
      (write_loop color (c ∷ cs) s)

unfoldable pub console_clear : Console → Console × List Draw
console_clear s =
    (record s { buffer_length = 0; cursor_position = 0; last_visible_start = 0 }, clear ∷ swap ∷ [])
