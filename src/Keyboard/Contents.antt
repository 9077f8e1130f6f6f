-- ===== src/Keyboard/Contents.antt =====
-- The keyboard's buffer is a queue of characters.
use so_tpe.Common.{
  ℕ, suc, ◌+◌, ◌%◌, ◌≤◌, ◌<◌, ◌≡◌, ◌≢◌, refl, ap, Option, none, some, List, [], ◌∷◌, ◌++◌, arith,
  window, window-update,
}
use so_tpe.Keyboard.{Keyboard, buffer_size, u64, insert_char, extract_char}

-- the typed characters that wait, the oldest first
abbrev pub contents : Keyboard → List ℕ
contents s = window buffer_size s.buffer s.read_ptr s.count

pub record IsValid (s : Keyboard) : Type 0 where
  pub read_in : s.read_ptr < buffer_size
  pub count_in : s.count ≤ buffer_size
  pub write_at : s.write_ptr ≡ (s.read_ptr + s.count) % buffer_size

-- What one character does, if there is room for it.
abbrev pub Typed : Option ℕ → Keyboard → Keyboard → Type 0
Typed none s s' = (contents s' ≡ contents s) × (s'.tokens ≡ s.tokens) × IsValid s'
Typed (some c) s s' =
    (contents s' ≡ contents s ++ (c ∷ [])) × (s'.tokens ≡ s.tokens + 1) × IsValid s'

pub insert_char-Typed :
    (c : ℕ) (s : Keyboard) → IsValid s → s.count < buffer_size → Typed (some c) s (insert_char c s)
unfolding insert_char
insert_char-Typed c s v room =
    let size : u64 (s.count + 1) ≡ suc s.count = omega arith in
    (
      rw size (
          window-update buffer_size s.buffer c s.read_ptr s.count s.write_ptr v.read_in room
            v.write_at),
      refl,
      record { read_in = v.read_in; count_in = omega arith; write_at = omega arith },
    )

-- `extract_char` takes the oldest waiting character, if there is one.
pub extract_char-Taken :
    (s : Keyboard)
    → IsValid s
    → s.count ≢ 0
    → let (c, s') = extract_char s in
      (contents s ≡ c ∷ contents s') × IsValid s' × (s'.count + 1 ≡ s.count)
unfolding extract_char
extract_char-Taken s v ne =
    let less = u64 (s.count + 18446744073709551615) in
    let shorter : s.count ≡ suc less = omega (arith, v.count_in) in
    (
      ap (window buffer_size s.buffer s.read_ptr) shorter,
      record {
        read_in = omega arith;
        count_in = omega (arith, v.count_in);
        write_at = omega (arith, v.count_in, v.write_at);
      },
      omega (arith, v.count_in),
    )
