-- ===== src/Console/Visible.antt =====
-- The first visible character and the line of the cursor.
use so_tpe.Common.{
  ℕ, zero, suc, ◌+◌, ◌-◌, ◌≤◌, ◌<◌, ◌≡◌, ◌⊎◌, refl, ap, sym, subst, ◌∙◌, true, false, ◌&&◌, List,
  [], ◌∷◌, arith, leb, ltb, min, Bool-cases, inl, inr,
}
use so_tpe.Console.{Cell, Console, Screen, chars_per_line, lines_per_screen}
use so_tpe.Console.Layout.{
  Place, advance_place, count_loop, count_lines_to_position, find_loop,
  find_buffer_position_for_line, console_calculate_visible_start,
}
use so_tpe.Console.Text.{cells, text, IsValid}

-- the place behind some characters, from a place on
unfoldable pub place_from : ℕ → Place → List Cell → Place
place_from width p [] = p
place_from width p (x ∷ l) = place_from width (advance_place width x.c p) l

count_loop-place :
    (fuel n width target pos : ℕ) (s : Console) (p : Place)
    → pos + n ≡ min (target + 1) s.buffer_length
    → n ≤ fuel
    → count_loop fuel width target pos s p ≡ place_from width p (cells s.console_buffer pos n)
unfolding count_loop place_from
count_loop-place zero zero width target pos s p e h = refl
count_loop-place zero (suc n) width target pos s p e h = absurd (omega arith)
count_loop-place (suc fuel) zero width target pos s p e h =
    let stop : (leb pos target && ltb pos s.buffer_length) ≡ false = ground arith in
    rw (stop, count_loop)
count_loop-place (suc fuel) (suc n) width target pos s p e h =
    let go : (leb pos target && ltb pos s.buffer_length) ≡ true = ground arith in
    let next : pos + 1 ≡ suc pos = omega arith in
    let q : Place = advance_place width (s.console_buffer pos).c p in
    rw (go, count_loop)
      (count_loop-place fuel n width target (pos + 1) s q (omega arith) (omega arith)
        ∙ ap (λ i. place_from width q (cells s.console_buffer i n)) next)

-- `count_lines_to_position` gives the place behind the characters up to the position, itself included.
pub count_lines_to_position-place :
    (screen : Screen) (target : ℕ) (s : Console)
    → count_lines_to_position screen target s
      ≡ place_from
          (chars_per_line screen)
          (0, 0)
          (cells s.console_buffer 0 (min (target + 1) s.buffer_length))
unfolding count_lines_to_position
count_lines_to_position-place screen target s =
    count_loop-place s.buffer_length (min (target + 1) s.buffer_length) (chars_per_line screen)
      target 0 s (0, 0) (omega arith) (omega arith)

-- A place that is not behind the start of a line.
abbrev pub UpTo : ℕ → Place → Type 0
UpTo target p = (p.0 ≤ target) × (p.0 ≡ target → p.1 ≡ 0)

advance-UpTo :
    (width target c : ℕ) (p : Place) → p.0 < target → UpTo target (advance_place width c p)
advance-UpTo width target c (line, x) h = ground arith

-- What the search for a line finds: the start of the line, or the end of the text above it.
record Found (width target pos : ℕ) (s : Console) (p : Place) (v : ℕ) : Type 0 where
  passed : ℕ
  here : v ≡ pos + passed
  inside : v ≤ s.buffer_length
  up_to : UpTo target (place_from width p (cells s.console_buffer pos passed))
  ends :
      (v ≡ s.buffer_length) ⊎ (target ≤ (place_from width p (cells s.console_buffer pos passed)).0)

Found-step :
    (width target pos : ℕ) (s : Console) (p : Place) (v : ℕ)
    → Found width target (pos + 1) s (advance_place width (s.console_buffer pos).c p) v
    → Found width target pos s p v
unfolding place_from
Found-step width target pos s p v f =
    let next : pos + 1 ≡ suc pos = omega arith in
    let q : Place = advance_place width (s.console_buffer pos).c p in
    record {
      passed = suc f.passed;
      here = omega (arith, f.here);
      inside = f.inside;
      up_to =
          subst (λ i. UpTo target (place_from width q (cells s.console_buffer i f.passed))) next
            f.up_to;
      ends =
          subst
            (λ i.
              (v ≡ s.buffer_length)
              ⊎ (target ≤ (place_from width q (cells s.console_buffer i f.passed)).0))
            next f.ends;
    }

find_loop-Found :
    (fuel width target pos : ℕ) (s : Console) (p : Place)
    → s.buffer_length - pos ≤ fuel
    → pos ≤ s.buffer_length
    → UpTo target p
    → Found width target pos s p (find_loop fuel width target pos s p)
unfolding find_loop place_from
find_loop-Found zero width target pos s p h le u = record {
  passed = 0;
  here = omega arith;
  inside = le;
  up_to = u;
  ends = inl (omega arith);
}
find_loop-Found (suc fuel) width target pos s p h le u =
    elim (Bool-cases (ltb pos s.buffer_length && ltb p.0 target)) [
      | inr stop ↦
          rw (stop, find_loop)
            (record { passed = 0; here = omega arith; inside = le; up_to = u; ends = ground arith })
      | inl go ↦
          let f : Found width target (pos + 1) s (advance_place width (s.console_buffer pos).c p) (
              find_loop fuel width target (pos + 1) s
                (advance_place width (s.console_buffer pos).c p)) =
            find_loop-Found fuel width target (pos + 1) s _ (ground arith) (ground arith)
              (advance-UpTo width target (s.console_buffer pos).c p (ground arith)) in
          rw (go, find_loop) (Found-step width target pos s p _ f)
    ]

-- The first visible character, `v`, starts a line from which the screen reaches the line of the
-- cursor.
pub record Shows (screen : Screen) (s : Console) (v : ℕ) : Type 0 where
  pub inside : v ≤ s.buffer_length
  pub starts_line : (place_from (chars_per_line screen) (0, 0) (cells s.console_buffer 0 v)).1 ≡ 0
  pub above :
      (place_from (chars_per_line screen) (0, 0) (cells s.console_buffer 0 v)).0
      ≤ (place_from (chars_per_line screen) (0, 0) (text s)).0
  pub reaches :
      (place_from (chars_per_line screen) (0, 0) (text s)).0
      < (place_from (chars_per_line screen) (0, 0) (cells s.console_buffer 0 v)).0
        + lines_per_screen screen

cursor_line :
    (screen : Screen) (s : Console)
    → IsValid s
    → count_lines_to_position screen s.cursor_position s
      ≡ place_from (chars_per_line screen) (0, 0) (text s)
cursor_line screen s v =
    count_lines_to_position-place screen s.cursor_position s
    ∙ ap (λ n. place_from (chars_per_line screen) (0, 0) (cells s.console_buffer 0 n))
        {y = s.buffer_length} (omega arith)

Found-Shows :
    (screen : Screen) (s : Console) (v : ℕ)
    → 0 < lines_per_screen screen
    → lines_per_screen screen ≤ (place_from (chars_per_line screen) (0, 0) (text s)).0
    → Found
        (chars_per_line screen)
        ((place_from (chars_per_line screen) (0, 0) (text s)).0 - lines_per_screen screen + 1)
        0
        s
        (0, 0)
        v
    → Shows screen s v
Found-Shows screen s v positive big f =
    let place : ℕ → Place =
      λ n. place_from (chars_per_line screen) (0, 0) (cells s.console_buffer 0 n) in
    let line : ℕ = (place s.buffer_length).0 in
    let target : ℕ = line - lines_per_screen screen + 1 in
    let same : f.passed ≡ v = omega (arith, f.here) in
    let up_to : UpTo target (place v) = subst (λ n. UpTo target (place n)) same f.up_to in
    let reached : target ≤ (place v).0 = elim f.ends [
      | inl end ↦ subst (λ n. target ≤ (place n).0) (sym end) (omega arith)
      | inr low ↦ subst (λ n. target ≤ (place n).0) same low
    ] in
    record {
      inside = f.inside;
      starts_line = up_to.1 (omega (arith, up_to.0, reached));
      above = omega (arith, up_to.0);
      reaches = omega (arith, reached);
    }

top-Shows :
    (screen : Screen) (s : Console)
    → (place_from (chars_per_line screen) (0, 0) (text s)).0 < lines_per_screen screen
    → Shows screen s 0
unfolding place_from
top-Shows screen s small = record {
  inside = omega arith;
  starts_line = refl;
  above = omega arith;
  reaches = omega arith;
}

scrolled-Shows :
    (screen : Screen) (s : Console)
    → 0 < lines_per_screen screen
    → lines_per_screen screen ≤ (place_from (chars_per_line screen) (0, 0) (text s)).0
    → Shows screen s (
        find_buffer_position_for_line screen
          ((place_from (chars_per_line screen) (0, 0) (text s)).0 - lines_per_screen screen + 1)
          s)
unfolding find_buffer_position_for_line
scrolled-Shows screen s positive big = Found-Shows screen s _ positive big (
    find_loop-Found s.buffer_length (chars_per_line screen) _ 0 s (0, 0) (omega arith) (omega arith)
      (omega arith, λ e. refl))

-- The position that `console_calculate_visible_start` chooses is in the text, starts a line, and that
-- line is so near to the end of the text, where the cursor is, that both are on the screen.
pub console_calculate_visible_start-Shows :
    (screen : Screen) (s : Console)
    → IsValid s
    → 0 < lines_per_screen screen
    → Shows screen s (console_calculate_visible_start screen s)
unfolding console_calculate_visible_start
console_calculate_visible_start-Shows screen s v positive =
    elim (Bool-cases
      (leb (lines_per_screen screen) (place_from (chars_per_line screen) (0, 0) (text s)).0)) [
        | inl big ↦
            rw (cursor_line screen s v, console_calculate_visible_start)
              (rw big (scrolled-Shows screen s positive (ground arith)))
        | inr small ↦
            rw (cursor_line screen s v, console_calculate_visible_start)
              (rw small (top-Shows screen s (ground arith)))
      ]
