-- ===== src/Console/Bounds.antt =====
-- Where on the screen the console draws.
use so_tpe.Common.{
  ℕ, zero, suc, ◌+◌, ◌-◌, ◌*◌, ◌/◌, ◌≤◌, ◌<◌, ◌≡◌, Bool, true, false, ◌&&◌, ◌||◌, List, [], ◌∷◌,
  ◌++◌, arith, leb, ltb, ◌==◌, if◌then◌else◌, Bool-cases, inl, inr,
}
use native.Mathlib.Nat.{div-mul-le_self}
use so_tpe.Console.{Cell, Console, Screen, lines_per_screen}
use so_tpe.Console.Render.{
  Draw, rect, char, clear, swap, move_up, fill_rows, Position, origin, step_over, draw_cell,
  skip_loop, render_loop, console_render_range, console_render_all, console_render_incremental,
  console_scroll_fast, scroll_by, console_render_from_position,
}
use so_tpe.Console.Layout.{console_calculate_visible_start}
use so_tpe.Console.Write.{console_write, finish_write}

-- A rectangle or a character starts on the screen and ends above its lower edge; the rows that are
-- moved or filled are rows of the screen.
abbrev pub IsInside : Screen → Draw → Type 0
IsInside screen (rect x y w h) = (x < screen.width) × (y + h ≤ screen.height)
IsInside screen (char c x y) = (x < screen.width) × (y + screen.font_height ≤ screen.height)
IsInside screen clear = Unit
IsInside screen swap = Unit
IsInside screen (move_up from n) = from + n ≤ screen.height
IsInside screen (fill_rows from to) = to ≤ screen.height

abbrev pub AllInside : Screen → List Draw → Type 0
AllInside screen [] = Unit
AllInside screen (d ∷ ds) = IsInside screen d × AllInside screen ds

AllInside-append :
    (screen : Screen) (ds es : List Draw)
    → AllInside screen ds
    → AllInside screen es
    → AllInside screen (ds ++ es)
AllInside-append screen [] es h k = k
AllInside-append screen (d ∷ ds) es h k = (h.0, AllInside-append screen ds es h.1 k)

record OnScreen (screen : Screen) (p : Position) : Type 0 where
  x_in : p.screen_x < screen.width
  y_is : p.screen_y ≡ p.current_line * screen.font_height

step_over-OnScreen :
    (screen : Screen) (c : ℕ) (p : Position)
    → 0 < screen.width
    → OnScreen screen p
    → OnScreen screen (step_over screen c p)
step_over-OnScreen screen c p w o = record { x_in = ground arith; y_is = ground arith }

row-le :
    (screen : Screen) (line : ℕ)
    → line < lines_per_screen screen
    → line * screen.font_height + screen.font_height ≤ screen.height
row-le screen line h = grind (arith, div-mul-le_self)

draw_cell-AllInside :
    (screen : Screen) (x : Cell) (p : Position)
    → OnScreen screen p
    → p.current_line < lines_per_screen screen
    → AllInside screen (draw_cell screen x p)
draw_cell-AllInside screen x p o h =
    let low : p.screen_y + screen.font_height ≤ screen.height =
      omega (arith, o.y_is, row-le screen p.current_line h) in
    ground arith

skip_loop-OnScreen :
    (fuel : ℕ) (screen : Screen) (start pos : ℕ) (s : Console) (p : Position)
    → 0 < screen.width
    → OnScreen screen p
    → OnScreen screen (skip_loop fuel screen start pos s p)
unfolding skip_loop
skip_loop-OnScreen zero screen start pos s p w o = o
skip_loop-OnScreen (suc fuel) screen start pos s p w o =
    let rest : OnScreen screen
        (skip_loop fuel screen start (pos + 1) s (step_over screen (s.console_buffer pos).c p)) =
      skip_loop-OnScreen fuel screen start (pos + 1) s _ w
        (step_over-OnScreen screen (s.console_buffer pos).c p w o) in
    elim (Bool-cases
      (ltb pos start && ltb pos s.buffer_length && ltb p.current_line (lines_per_screen screen))) [
        | inl go ↦ rw (go, skip_loop) rest
        | inr stop ↦ rw (stop, skip_loop) o
      ]

render_loop-AllInside :
    (fuel : ℕ) (screen : Screen) (end pos : ℕ) (s : Console) (p : Position)
    → 0 < screen.width
    → OnScreen screen p
    → AllInside screen (render_loop fuel screen end pos s p)
unfolding render_loop
render_loop-AllInside zero screen end pos s p w o = tt
render_loop-AllInside (suc fuel) screen end pos s p w o =
    elim (Bool-cases
      (ltb pos end && ltb pos s.buffer_length && ltb p.current_line (lines_per_screen screen))) [
        | inr stop ↦ rw (stop, render_loop) tt
        | inl go ↦
            rw (go, render_loop)
              (AllInside-append screen (draw_cell screen (s.console_buffer pos) p) _
                (draw_cell-AllInside screen (s.console_buffer pos) p o (ground arith))
                (render_loop-AllInside fuel screen end (pos + 1) s _ w
                  (step_over-OnScreen screen (s.console_buffer pos).c p w o)))
      ]

module _ (screen : Screen) (w : 0 < screen.width) where
  range-AllInside :
      (start end : ℕ) (s : Console) → AllInside screen (console_render_range screen start end s)
  unfolding console_render_range
  range-AllInside start end s = render_loop-AllInside s.buffer_length screen end start s _ w (
      skip_loop-OnScreen s.buffer_length screen start _ s origin w
        (record { x_in = w; y_is = omega arith }))

  all-AllInside : (s : Console) → AllInside screen (console_render_all screen s)
  unfolding console_render_all console_render_from_position
  all-AllInside s =
      (tt, AllInside-append screen _ (swap ∷ []) (range-AllInside _ s.buffer_length s) (tt, tt))

  incremental-AllInside :
      (from : ℕ) (s : Console) → AllInside screen (console_render_incremental screen from s)
  unfolding console_render_incremental
  incremental-AllInside from s = elim (Bool-cases (leb s.buffer_length from)) [
    | inl e ↦ rw (e, console_render_incremental) tt
    | inr e ↦
        rw (e, console_render_incremental)
          (AllInside-append screen _ (swap ∷ []) (range-AllInside from s.buffer_length s) (tt, tt))
  ]

  abbrev moved : ℕ → List Draw
  moved lines =
      if ltb 0 (screen.height - lines * screen.font_height)
      then move_up (lines * screen.font_height) (screen.height - lines * screen.font_height) ∷ []
      else []

  moved-AllInside :
      (lines : ℕ) → lines * screen.font_height < screen.height / 2 → AllInside screen (moved lines)
  moved-AllInside lines h = ground arith

  scroll_by-AllInside :
      (lines new : ℕ) (s : Console) → AllInside screen (scroll_by screen lines new s)
  unfolding scroll_by console_render_from_position
  scroll_by-AllInside lines new s =
      elim (Bool-cases
        (lines == 0 || ltb 10 lines || leb (screen.height / 2) (lines * screen.font_height))) [
          | inl e ↦ rw (e, scroll_by) (all-AllInside s)
          | inr e ↦
              rw (e, scroll_by)
                (AllInside-append screen (moved lines) _ (moved-AllInside lines (ground arith)) (
                  omega arith,
                  AllInside-append screen _ (swap ∷ []) (range-AllInside new s.buffer_length s)
                      (tt, tt),
                ))
        ]

  scroll-AllInside :
      (old new : ℕ) (s : Console) → AllInside screen (console_scroll_fast screen old new s)
  unfolding console_scroll_fast
  scroll-AllInside old new s = elim (Bool-cases (old == new)) [
    | inl e ↦ rw (e, console_scroll_fast) tt
    | inr e ↦ rw (e, console_scroll_fast) (scroll_by-AllInside _ new s)
  ]

  finish-AllInside :
      (cursor visible : ℕ) (r : Console × Bool)
      → AllInside screen (finish_write screen cursor visible r).1
  unfolding finish_write
  finish-AllInside cursor visible (s, true) = all-AllInside s
  finish-AllInside cursor visible (s, false) =
      elim (Bool-cases (console_calculate_visible_start screen s == visible)) [
        | inl e ↦ rw (e, finish_write) (incremental-AllInside cursor s)
        | inr e ↦ rw (e, finish_write) (scroll-AllInside s.last_visible_start _ s)
      ]

  -- Whatever is written and whatever the console holds, on a screen that is not empty each rectangle
  -- and character that `console_write` draws starts inside the screen and ends above its lower edge,
  -- and the rows that it moves or fills are rows of the screen.
  pub console_write-AllInside :
      (color : ℕ) (data' : List ℕ) (s : Console)
      → AllInside screen (console_write screen color data' s).1
  unfolding console_write
  console_write-AllInside color [] s = tt
  console_write-AllInside color (c ∷ cs) s = finish-AllInside s.cursor_position _ _
