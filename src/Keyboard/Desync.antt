-- ===== src/Keyboard/Desync.antt =====
-- What `getChar` leaves behind: a token without a character.
use so_tpe.Common.{ℕ, ◌+◌, ◌-◌, ◌%◌, ◌≤◌, ◌<◌, ◌≡◌, refl, ap, ◌∙◌, false, some, arith, ◌==◌}
use so_tpe.Keyboard.{
  Keyboard, buffer_size, has_buffer_space, u64, extract_char, keyboard_handler, get_char,
  get_char_blocking,
}
use so_tpe.Keyboard.Codes.{modifiers}
use so_tpe.Keyboard.Typed.{handler-typed}

-- A full buffer stays as it is.
handler-full :
    (raw : ℕ) (s : Keyboard)
    → raw < 256
    → buffer_size ≤ s.count
    → (keyboard_handler raw s).0.count ≡ s.count
handler-full raw s h full =
    ap (λ t. t.count) (handler-typed raw s h)
    ∙ (let none_fits : has_buffer_space s ≡ false = ground arith in
        rw none_fits (unfold modifiers in refl))

-- `getChar` takes a character and leaves its token. After it has taken the only one that waited, a
-- `getCharBlocking` does not wait for a key: it takes a token for a character that is not there, the
-- count wraps to its largest value, and no scan code changes the count any more.
pub get_char-desyncs :
    (s : Keyboard)
    → s.tokens ≡ 1
    → s.count ≡ 1
    → (c : ℕ) × (s' : Keyboard) × (get_char_blocking (get_char s).1 ≡ some (c, s'))
      × (s'.count ≡ 18446744073709551615)
      × ((raw : ℕ) → raw < 256 → (keyboard_handler raw s').0.count ≡ s'.count)
unfolding get_char get_char_blocking extract_char
get_char-desyncs s t e = (
  s.buffer ((s.read_ptr + 1) % buffer_size),
  last,
  waits_not,
  wrapped,
  λ raw h. handler-full raw last h (omega (arith, wrapped)),
)
  where
    last : Keyboard
    last = record s {
      tokens = s.tokens - 1;
      read_ptr = ((s.read_ptr + 1) % buffer_size + 1) % buffer_size;
      count = u64 (u64 (s.count + 18446744073709551615) + 18446744073709551615);
    }

    wrapped : last.count ≡ 18446744073709551615
    wrapped = omega (arith, e)

    waits_not :
        get_char_blocking (get_char s).1 ≡ some (s.buffer ((s.read_ptr + 1) % buffer_size), last)
    waits_not =
        let one_char : (s.count == 0) ≡ false = ground arith in
        let one_token : (s.tokens == 0) ≡ false = ground arith in
        ground (arith, one_char, one_token)
