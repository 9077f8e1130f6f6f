-- ===== src/Keyboard.antt =====
-- Kernel/drivers/keyboardDriver.c: scan codes to characters, and the buffer of typed characters.
pub mod Contents
pub mod Codes
pub mod Typed
pub mod Desync
use so_tpe.Common.{
  ℕ, ◌+◌, ◌-◌, ◌%◌, Bool, true, false, not, ◌&&◌, ◌||◌, Option, none, some, List, [], ◌∷◌, leb, ltb,
  ◌==◌, if◌then◌else◌, update, get_or,
}

abbrev pub buffer_size : ℕ
buffer_size = 1024

-- `kbd_state_t`. `tokens` counts the posts of `kbd_semaphore` that no wait has taken, and starts at 0.
pub record Keyboard : Type 0 where
  pub buffer : ℕ → ℕ
  pub write_ptr : ℕ
  pub read_ptr : ℕ
  pub count : ℕ
  pub caps_lock : Bool
  pub shift_pressed : Bool
  pub ctrl_pressed : Bool
  pub tokens : ℕ

-- `kbd_lookup_table`, plain and shifted; the entries from 58 on are 0
kbd_lookup_table : List (ℕ × ℕ)
kbd_lookup_table =
    (0, 0)
    ∷ (27, 27)
    ∷ (49, 33)
    ∷ (50, 64)
    ∷ (51, 35)
    ∷ (52, 36)
    ∷ (53, 37)
    ∷ (54, 94)
    ∷ (55, 38)
    ∷ (56, 42)
    ∷ (57, 40)
    ∷ (48, 41)
    ∷ (45, 95)
    ∷ (61, 43)
    ∷ (8, 8)
    ∷ (9, 9)
    ∷ (113, 81)
    ∷ (119, 87)
    ∷ (101, 69)
    ∷ (114, 82)
    ∷ (116, 84)
    ∷ (121, 89)
    ∷ (117, 85)
    ∷ (105, 73)
    ∷ (111, 79)
    ∷ (112, 80)
    ∷ (91, 123)
    ∷ (93, 125)
    ∷ (10, 10)
    ∷ (0, 0)
    ∷ (97, 65)
    ∷ (115, 83)
    ∷ (100, 68)
    ∷ (102, 70)
    ∷ (103, 71)
    ∷ (104, 72)
    ∷ (106, 74)
    ∷ (107, 75)
    ∷ (108, 76)
    ∷ (59, 58)
    ∷ (39, 34)
    ∷ (96, 126)
    ∷ (0, 0)
    ∷ (92, 124)
    ∷ (122, 90)
    ∷ (120, 88)
    ∷ (99, 67)
    ∷ (118, 86)
    ∷ (98, 66)
    ∷ (110, 78)
    ∷ (109, 77)
    ∷ (44, 60)
    ∷ (46, 62)
    ∷ (47, 63)
    ∷ (0, 0)
    ∷ (42, 42)
    ∷ (0, 0)
    ∷ (32, 32)
    ∷ []

unfoldable pub lookup_key : ℕ → ℕ × ℕ
unfolding kbd_lookup_table
lookup_key code = get_or kbd_lookup_table code (0, 0)

abbrev pub is_caps_lock : ℕ → Bool
is_caps_lock code = code == 0x3A

abbrev pub is_shift_press : ℕ → Bool
is_shift_press code = code == 0x2A || code == 0x36

abbrev pub is_shift_release : ℕ → Bool
is_shift_release code = code == 0xAA || code == 0xB6

abbrev pub is_printable : ℕ → Bool
is_printable code = ltb code 58 && not ((lookup_key code).0 == 0)

abbrev pub has_buffer_space : Keyboard → Bool
has_buffer_space s = ltb s.count buffer_size

abbrev pub is_buffer_empty : Keyboard → Bool
is_buffer_empty s = s.count == 0

-- a uint64_t
abbrev pub u64 : ℕ → ℕ
u64 n = n % 18446744073709551616

-- `insert_char` on the driver's state. The post of `kbd_semaphore` counts as a token here; `Input` has
-- the semaphore.
unfoldable pub insert_char : ℕ → Keyboard → Keyboard
insert_char c s = record s {
  buffer = update s.buffer s.write_ptr c;
  write_ptr = (s.write_ptr + 1) % buffer_size;
  count = u64 (s.count + 1);
  tokens = s.tokens + 1;
}

unfoldable pub extract_char : Keyboard → ℕ × Keyboard
extract_char s = (
  s.buffer s.read_ptr,
  record s {
    read_ptr = (s.read_ptr + 1) % buffer_size;
    count = u64 (s.count + 18446744073709551615);
  },
)

unfoldable pub get_char_for_scancode : ℕ → Keyboard → ℕ
get_char_for_scancode code s =
    if s.caps_lock || s.shift_pressed then (lookup_key code).1 else (lookup_key code).0

-- a call of `kill_foreground_process`, or none
pub data Signal : Type 0 where
  quiet : Signal
  kill_foreground : Signal

-- `ctrl` with a printable key whose plain character is `c`: true where the handler returns
unfoldable pub control_key : ℕ → Keyboard → Option (Keyboard × Signal)
control_key c s =
    if c == b'c' || c == b'C'
    then some (s, kill_foreground)
    else if c == b'd' || c == b'D'
    then some (if has_buffer_space s then insert_char 255 s else s, quiet)
    else none

-- a printable key without `ctrl`
unfoldable pub type_key : ℕ → Keyboard → Keyboard
type_key code s =
    if is_printable code && not s.ctrl_pressed
    then (let c = get_char_for_scancode code s in
        if not (c == 0) && has_buffer_space s then insert_char c s else s)
    else s

-- a key that goes down and is no modifier but caps lock
unfoldable pub key_press : ℕ → Keyboard → Keyboard × Signal
key_press code s =
    if is_caps_lock code
    then (record s { caps_lock = not s.caps_lock }, quiet)
    else if s.ctrl_pressed && is_printable code
    then (elim (control_key (lookup_key code).0 s) [ none ↦ (type_key code s, quiet) | some r ↦ r ])
    else (type_key code s, quiet)

-- `keyboard_handler`, on the byte read from the keyboard's port
unfoldable pub keyboard_handler : ℕ → Keyboard → Keyboard × Signal
keyboard_handler raw s =
    let code = raw % 128 in
    let is_release = leb 128 raw in
    if code == 0x1D && not is_release
    then (record s { ctrl_pressed = true }, quiet)
    else if raw == 0x9D
    then (record s { ctrl_pressed = false }, quiet)
    else if is_shift_press code && not is_release
    then (record s { shift_pressed = true }, quiet)
    else if is_shift_release raw
    then (record s { shift_pressed = false }, quiet)
    else if is_release
    then (s, quiet)
    else key_press code s

-- `getChar`, 0 for an empty buffer
unfoldable pub get_char : Keyboard → ℕ × Keyboard
get_char s = if is_buffer_empty s then (0, s) else extract_char s

-- `getCharBlocking` on the driver's state: it takes a token, without which it waits (`none`); the wait
-- itself is in `Input`.
unfoldable pub get_char_blocking : Keyboard → Option (ℕ × Keyboard)
get_char_blocking s =
    if s.tokens == 0 then none else some (extract_char (record s { tokens = s.tokens - 1 }))
