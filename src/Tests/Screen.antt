-- ===== src/Tests/Screen.antt =====
-- The console with two characters on a screen of two lines, and the clock.
use so_tpe.Common.{inl, ℕ, ◌+◌, ◌≡◌, refl, none, [], ◌∷◌, ◌++◌, arith}
use so_tpe.Console.{Console, Screen, console_add_char}
use so_tpe.Console.Layout.{console_calculate_visible_start}
use so_tpe.Console.Text.{text, IsValid, make_room, console_add_char-text}
use so_tpe.Console.Visible.{Shows, console_calculate_visible_start-Shows}
use so_tpe.Console.Bounds.{AllInside, console_write-AllInside}
use so_tpe.Console.Echo.{Left, console_write-stops}
use so_tpe.Console.Write.{cell, console_write}
use so_tpe.Clock.{sys_sleep}
use so_tpe.Clock.Sleep.{Reached, sys_sleep-returns, sys_sleep-endless}

abbrev pub screen : Screen
screen = record { width = 16; height = 32; font_width = 8; font_height = 16 }

abbrev pub console : Console
console = record {
  console_buffer = λ i. record { c = 65 + i; color = 0xFFFFFF };
  buffer_length = 2;
  cursor_position = 2;
  last_visible_start = 0;
}

pub console-IsValid : IsValid console
console-IsValid = record { at_end = refl; room = omega arith }

console_add_char-text_example :
    (text (console_add_char (cell 1 70) console) ≡ make_room console ++ (cell 1 70 ∷ []))
    × IsValid (console_add_char (cell 1 70) console)
console_add_char-text_example = console_add_char-text (cell 1 70) console console-IsValid

console_calculate_visible_start-Shows_example :
    Shows screen console (console_calculate_visible_start screen console)
console_calculate_visible_start-Shows_example =
    console_calculate_visible_start-Shows screen console console-IsValid (omega arith)

console_write-AllInside_example : AllInside screen (console_write screen 1 (70 ∷ 10 ∷ []) console).1
console_write-AllInside_example =
    console_write-AllInside screen (omega arith) 1 (70 ∷ 10 ∷ []) console

console_write-stops_example :
    Left (text console) (console_write screen 1 (70 ∷ 8 ∷ 71 ∷ []) console).0
    × (console_write screen 1 (70 ∷ 8 ∷ 71 ∷ []) console
        ≡ console_write screen 1 (70 ∷ 8 ∷ []) console)
console_write-stops_example =
    console_write-stops screen 1 (70 ∷ []) (71 ∷ []) (cell 1 70) (text console) console
      console-IsValid (omega arith, tt) (omega arith) refl

-- a second between two calls
abbrev ticking : ℕ → ℕ
ticking n = 100 + n

sys_sleep-returns_example : Reached ticking 105 1 (sys_sleep 6 ticking 5)
sys_sleep-returns_example =
    sys_sleep-returns ticking 5 6 (omega arith) (omega arith) (omega arith) (omega arith)

abbrev still : ℕ → ℕ
still n = 100

sys_sleep-endless_example : sys_sleep 6 still 0 ≡ none
sys_sleep-endless_example =
    sys_sleep-endless 6 still 0 (λ j. omega arith) (inl (refl, λ j. omega arith))
