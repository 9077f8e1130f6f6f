-- ===== src/Keyboard/Codes.antt =====
-- The characters of the scan codes, and what one of them does to the buffer.
use so_tpe.Common.{
  ℕ, zero, suc, ◌<◌, ◌≡◌, ◌≢◌, refl, Bool, true, false, not, ◌&&◌, ◌||◌, Option, none, some, arith,
  leb, ◌==◌, if◌then◌else◌, window, Bool-cases, inl, inr,
}
use so_tpe.Keyboard.{
  Keyboard, buffer_size, lookup_key, has_buffer_space, insert_char, get_char_for_scancode,
  control_key, type_key, key_press, is_caps_lock,
}
use so_tpe.Keyboard.Contents.{IsValid, Typed, insert_char-Typed}

-- The character that a scan code types, `none` for none: a key that goes down and has a character,
-- the shifted one under caps lock or shift; with ctrl only `d`, which types the mark of the end of
-- the input.
unfoldable pub character : ℕ → Keyboard → Option ℕ
character raw s =
    let key = lookup_key raw in
    if leb 58 raw || key.0 == 0
    then none
    else if s.ctrl_pressed
    then (if key.0 == b'd' then some 255 else none)
    else if s.caps_lock || s.shift_pressed
    then some key.1
    else some key.0

abbrev pub if_room : Keyboard → Option ℕ → Option ℕ
if_room s c = if has_buffer_space s then c else none

-- a test of all the scan codes below a bound
every_code : (ℕ → Bool) → ℕ → Bool
every_code test zero = true
every_code test (suc n) = every_code test n && test n

every_code-holds :
    (test : ℕ → Bool) (code n : ℕ) → code < n → every_code test n ≡ true → test code ≡ true
unfolding every_code
every_code-holds test code zero lt all = absurd (omega arith)
every_code-holds test code (suc n) lt all = ground (arith, every_code-holds test code n)

-- What the proofs use of the table: modifiers have no character, only two keys give the letters
-- that ctrl treats, no plain character is a capital, and a key with a character has a shifted one.
abbrev key_facts : ℕ → Bool
key_facts code =
    let key = lookup_key code in
    (key.0 == 0 || not (key.1 == 0))
    && not (key.0 == b'C')
    && not (key.0 == b'D')
    && (not (key.0 == b'c') || code == 0x2E)
    && (not (code == 0x1D || code == 0x2A || code == 0x36) || key.0 == 0)

key_table : every_code key_facts 58 ≡ true
unfolding every_code lookup_key
key_table = refl

pub key_c : (lookup_key 0x2E).0 ≡ b'c'
unfolding lookup_key
key_c = refl

pub facts_at : (code : ℕ) → code < 58 → key_facts code ≡ true
facts_at code h = every_code-holds key_facts code 58 h key_table

-- a change of the modifiers alone
pub unchanged :
    (s s' : Keyboard)
    → IsValid s
    → s'.buffer ≡ s.buffer
    → s'.read_ptr ≡ s.read_ptr
    → s'.write_ptr ≡ s.write_ptr
    → s'.count ≡ s.count
    → s'.tokens ≡ s.tokens
    → Typed none s s'
unchanged s s' v b r w c t = (
  λ i. window buffer_size (b i) (r i) (c i),
  t,
  record {
    read_in = omega (arith, v.read_in);
    count_in = omega (arith, v.count_in);
    write_at = omega (arith, v.write_at);
  },
)

pub same_state : (s : Keyboard) → IsValid s → Typed none s s
same_state s v = (refl, refl, v)

-- the state with the character in the buffer, if there is one
abbrev pub typed : Option ℕ → Keyboard → Keyboard
typed none s = s
typed (some c) s = insert_char c s

pub typed-Typed :
    (c : Option ℕ) (s : Keyboard) → IsValid s → Typed (if_room s c) s (typed (if_room s c) s)
typed-Typed c s v = elim (Bool-cases (has_buffer_space s)) [
  | inl e ↦ rw e (at c e)
  | inr e ↦ rw e (same_state s v)
]
  where
    at : (c : Option ℕ) → has_buffer_space s ≡ true → Typed c s (typed c s)
    at none e = same_state s v
    at (some c) e = insert_char-Typed c s v (ground arith)

-- what the table says of a key that has a character
pub has_shifted : (code : ℕ) → code < 58 → (lookup_key code).0 ≢ 0 → (lookup_key code).1 ≢ 0
has_shifted code h ne = ground (arith, facts_at code h)

pub type_key-eq :
    (code : ℕ) (s : Keyboard)
    → s.ctrl_pressed ≡ false
    → type_key code s ≡ typed (if_room s (character code s)) s
unfolding type_key character get_char_for_scancode
type_key-eq code s plain = ground (arith, has_shifted code)

-- no plain character is a capital
pub no_capital :
    (code : ℕ) → code < 58 → ((lookup_key code).0 ≢ b'C') × ((lookup_key code).0 ≢ b'D')
no_capital code h = ground (arith, facts_at code h)

pub key_press-plain :
    (code : ℕ) (s : Keyboard)
    → s.ctrl_pressed ≡ false
    → is_caps_lock code ≡ false
    → (key_press code s).0 ≡ typed (if_room s (character code s)) s
unfolding key_press
key_press-plain code s plain nocaps = ground (arith, type_key-eq code s plain)

pub key_press-ctrl :
    (code : ℕ) (s : Keyboard)
    → s.ctrl_pressed ≡ true
    → is_caps_lock code ≡ false
    → (key_press code s).0 ≡ typed (if_room s (character code s)) s
unfolding key_press control_key character type_key
key_press-ctrl code s ctrl nocaps = ground (arith, no_capital code)

-- What a scan code does to the modifiers.
unfoldable pub modifiers : ℕ → Keyboard → Keyboard
modifiers raw s = record s {
  ctrl_pressed = if raw == 0x1D then true else if raw == 0x9D then false else s.ctrl_pressed;
  shift_pressed =
      if raw == 0x2A || raw == 0x36
      then true
      else if raw == 0xAA || raw == 0xB6
      then false
      else s.shift_pressed;
  caps_lock = if raw == 0x3A then not s.caps_lock else s.caps_lock;
}

pub modifier_keys :
    ((lookup_key 0x1D).0 ≡ 0) × ((lookup_key 0x2A).0 ≡ 0) × ((lookup_key 0x36).0 ≡ 0)
unfolding lookup_key
modifier_keys = (refl, refl, refl)
