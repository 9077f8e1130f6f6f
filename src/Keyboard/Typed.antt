-- ===== src/Keyboard/Typed.antt =====
-- What `keyboard_handler` does with every scan code.
use so_tpe.Common.{
  ℕ, ◌%◌, ◌≤◌, ◌<◌, ◌≡◌, ◌↔◌, ap, sym, subst, ◌∙◌, Bool, true, false, not, ◌||◌, Option, none, some,
  arith, ltb, ◌==◌, Bool-cases, inl, inr,
}
use so_tpe.Keyboard.{
  Keyboard, lookup_key, quiet, kill_foreground, control_key, key_press, keyboard_handler,
  is_caps_lock,
}
use so_tpe.Keyboard.Contents.{IsValid, Typed}
use so_tpe.Keyboard.Codes.{
  character, if_room, facts_at, key_c, typed, typed-Typed, no_capital, key_press-plain,
  key_press-ctrl, modifiers,
}

-- A key release and a press of a modifier.
handler-release :
    (raw : ℕ) (s : Keyboard)
    → 128 ≤ raw
    → raw < 256
    → (keyboard_handler raw s).0 ≡ typed (if_room s (character raw s)) (modifiers raw s)
unfolding keyboard_handler character modifiers
handler-release raw s hl hr = ground arith

abbrev is_modifier : ℕ → Bool
is_modifier raw = raw == 0x1D || raw == 0x2A || raw == 0x36 || raw == 0x3A

character-modifier : (raw : ℕ) (s : Keyboard) → is_modifier raw ≡ true → character raw s ≡ none
unfolding character
character-modifier raw s h = ground (arith, facts_at raw)

key_press-caps :
    (code : ℕ) (s : Keyboard)
    → is_caps_lock code ≡ true
    → key_press code s ≡ (record s { caps_lock = not s.caps_lock }, quiet)
unfolding key_press
key_press-caps code s h = ground arith

-- A modifier goes down.
press-modifier :
    (raw : ℕ) (s : Keyboard)
    → raw < 128
    → is_modifier raw ≡ true
    → (keyboard_handler raw s).0 ≡ modifiers raw s
unfolding keyboard_handler modifiers
press-modifier raw s h m = ground (arith, key_press-caps (raw % 128) s)

-- Another key goes down.
press-key :
    (raw : ℕ) (s : Keyboard)
    → raw < 128
    → is_modifier raw ≡ false
    → (keyboard_handler raw s ≡ key_press raw s) × (modifiers raw s ≡ s)
unfolding keyboard_handler modifiers
press-key raw s h m =
    let e : raw % 128 ≡ raw = omega arith in
    (ground (arith, ap (λ c. key_press c s) e), ground arith)

press-key_typed :
    (raw : ℕ) (s : Keyboard)
    → is_modifier raw ≡ false
    → (key_press raw s).0 ≡ typed (if_room s (character raw s)) s
press-key_typed raw s m = elim (Bool-cases s.ctrl_pressed) [
  | inl c ↦ key_press-ctrl raw s c (ground arith)
  | inr c ↦ key_press-plain raw s c (ground arith)
]

handler-press :
    (raw : ℕ) (s : Keyboard)
    → raw < 128
    → (keyboard_handler raw s).0 ≡ typed (if_room s (character raw s)) (modifiers raw s)
handler-press raw s h = elim (Bool-cases (is_modifier raw)) [
  | inl m ↦
      press-modifier raw s h m
      ∙ sym (
          ap (λ c. typed (if_room s c) (modifiers raw s)) (character-modifier raw s m)
          ∙ no_character s (modifiers raw s))
  | inr m ↦
      ap (λ r. r.0) (press-key raw s h m).0
      ∙ press-key_typed raw s m
      ∙ ap (typed (if_room s (character raw s))) (sym (press-key raw s h m).1)
]
  where
    no_character : (s m : Keyboard) → typed (if_room s none) m ≡ m
    no_character s m = ground arith

-- What the handler does with every scan code: it changes the modifiers as `modifiers` says, and types
-- the character that `character` gives, if there is one and room for it.
pub handler-typed :
    (raw : ℕ) (s : Keyboard)
    → raw < 256
    → (keyboard_handler raw s).0 ≡ typed (if_room s (character raw s)) (modifiers raw s)
handler-typed raw s h = elim (Bool-cases (ltb raw 128)) [
  | inl e ↦ handler-press raw s (ground arith)
  | inr e ↦ handler-release raw s (ground arith) h
]

of_modifiers :
    (raw : ℕ) (s : Keyboard) (c : Option ℕ) (s' : Keyboard)
    → Typed c (modifiers raw s) s'
    → Typed c s s'
unfolding modifiers
of_modifiers raw s none s' t = t
of_modifiers raw s (some c) s' t = t

-- A scan code types at most the one character that `character` gives for it: with room in the buffer
-- that character goes to the end of the waiting ones and a token is posted, else the waiting
-- characters and the tokens stay; the pointers stay inside the buffer and agree with the count.
pub keyboard_handler-Typed :
    (raw : ℕ) (s : Keyboard)
    → raw < 256
    → IsValid s
    → Typed (if_room s (character raw s)) s (keyboard_handler raw s).0
keyboard_handler-Typed raw s h v =
    subst (Typed (if_room s (character raw s)) s) (sym (handler-typed raw s h)) (
      of_modifiers raw s (if_room s (character raw s)) _ (
        unfold modifiers in
        typed-Typed (character raw s) (modifiers raw s)
          (record { read_in = v.read_in; count_in = v.count_in; write_at = v.write_at })))

-- The key of the letter c, and no other, has it.
c_key : (code : ℕ) → code < 58 → (lookup_key code).0 ≡ b'c' → code ≡ 0x2E
c_key code h e = ground (arith, facts_at code h)

key_press-kill :
    (code : ℕ) (s : Keyboard)
    → (key_press code s).1 ≡ kill_foreground
    → (code ≡ 0x2E) × (s.ctrl_pressed ≡ true)
unfolding key_press control_key
key_press-kill code s k = ground (arith, no_capital code, c_key code)

kill-key_press : (s : Keyboard) → s.ctrl_pressed ≡ true → (key_press 0x2E s).1 ≡ kill_foreground
unfolding key_press control_key
kill-key_press s ctrl = ground (arith, key_c)

-- The handler asks for the foreground process to be killed exactly for the press of the `c` key
-- with ctrl down.
pub keyboard_handler-kill :
    (raw : ℕ) (s : Keyboard)
    → raw < 256
    → ((keyboard_handler raw s).1 ≡ kill_foreground) ↔ ((raw ≡ 0x2E) × (s.ctrl_pressed ≡ true))
unfolding keyboard_handler
keyboard_handler-kill raw s h = (to, from)
  where
    to : (keyboard_handler raw s).1 ≡ kill_foreground → (raw ≡ 0x2E) × (s.ctrl_pressed ≡ true)
    to k = ground (arith, key_press-kill (raw % 128) s)

    from : (raw ≡ 0x2E) × (s.ctrl_pressed ≡ true) → (keyboard_handler raw s).1 ≡ kill_foreground
    from (e, ctrl) = rw (e, keyboard_handler) (kill-key_press s ctrl)
