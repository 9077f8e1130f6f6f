-- ===== src/Shell/Parse.antt =====
-- A line and the commands that `parse_input` finds in it.
use so_tpe.Common.{
  ℕ, zero, suc, ◌≡◌, ◌≢◌, refl, ap, sym, ◌∙◌, Bool, false, Option, none, some, List, [], ◌∷◌, ◌++◌,
  arith, ◌==◌, if◌then◌else◌, take, length, length-append, Bool-cases, inl, inr, ◌⊎◌,
}
use so_tpe.Libc.{strchr, take_token}
use so_tpe.Shell.{
  ParsedInput, skip_blanks, parse_single_command, is_blank, blanks, strip, is_some, parse_second,
  before, with_first, parse_body, parse_input,
}
use so_tpe.Shell.Words.{
  words, command_by, parse_single_command-words, words-skip_blanks, words-take_token, later,
}

-- No byte is a `|`.
abbrev pub HasNoBar : List ℕ → Type 0
HasNoBar [] = Unit
HasNoBar (c ∷ s) = (c ≢ b'|') × HasNoBar s

-- a line with the words `ws` in front of a bar, or without a bar
abbrev pub first_by : List (List ℕ) → Bool → ParsedInput → ParsedInput
first_by [] background old = record old {
  first = command_by [];
  command_count = 0;
  is_background = background;
}
first_by (t ∷ ws) background old = record old {
  first = command_by (t ∷ ws);
  command_count = 1;
  is_background = background;
}

-- and with the words `ws` behind the bar
abbrev pub second_by : List (List ℕ) → ParsedInput → ParsedInput
second_by [] p = p
second_by (t ∷ ws) p = record p { second = command_by (t ∷ ws); command_count = 2 }

strchr-none : (s : List ℕ) → HasNoBar s → strchr s b'|' ≡ none
unfolding strchr
strchr-none [] plain = refl
strchr-none (c ∷ s) plain =
    let other : (c == b'|') ≡ false = ground (arith, plain.0) in rw other (strchr-none s plain.1)

strchr-bar : (a b : List ℕ) → HasNoBar a → strchr (a ++ (b'|' ∷ b)) b'|' ≡ some (b'|' ∷ b)
unfolding strchr
strchr-bar [] b plain = refl
strchr-bar (c ∷ a) b plain =
    let other : (c == b'|') ≡ false = ground (arith, plain.0) in rw other (strchr-bar a b plain.1)

take-append : (a b : List ℕ) (n : ℕ) → n ≡ length a → take n (a ++ b) ≡ a
take-append [] b zero e = refl
take-append [] b (suc n) e = absurd (omega arith)
take-append (c ∷ a) b zero e = absurd (omega arith)
take-append (c ∷ a) b (suc n) e = ap (λ l. c ∷ l) (take-append a b n (omega arith))

before-bar : (a b : List ℕ) → before (a ++ b) b ≡ a
before-bar a b = take-append a b _ (omega (arith, length-append a b))

with_first-words :
    (s : List ℕ) (background : Bool) (old : ParsedInput)
    → with_first s background old ≡ first_by (words s) background old
with_first-words s background old =
    ap
      (λ cmd. record old {
        first = cmd;
        command_count = if is_some cmd.name then 1 else 0;
        is_background = background;
      })
      (parse_single_command-words s)
    ∙ counted (words s)
  where
    counted :
        (ws : List (List ℕ))
        → record old {
          first = command_by ws;
          command_count = if is_some (command_by ws).name then 1 else 0;
          is_background = background;
        }
          ≡ first_by ws background old
    counted [] = refl
    counted (t ∷ ws) = refl

-- what blanks in front of a text leave
skip_blanks-head :
    (s : List ℕ)
    → (skip_blanks s ≡ [])
      ⊎ ((c : ℕ) × (t : List ℕ) × (skip_blanks s ≡ c ∷ t) × (is_blank c ≡ false))
unfolding skip_blanks
skip_blanks-head [] = inl refl
skip_blanks-head (c ∷ s) = elim (Bool-cases (is_blank c)) [
  | inl e ↦ rw (e, skip_blanks) (skip_blanks-head s)
  | inr e ↦ inr (c, s, rw e refl, e)
]

second-words :
    (c : ℕ) (t : List ℕ) (p : ParsedInput)
    → is_blank c ≡ false
    → (let cmd = parse_single_command (c ∷ t) in
        record p { second = cmd; command_count = if is_some cmd.name then 2 else p.command_count })
      ≡ second_by (words (c ∷ t)) p
second-words c t p e =
    let w : words (c ∷ t) ≡ (c ∷ (take_token blanks t).0) ∷ later (take_token blanks t).1 =
      rw e (words-take_token c [] t) in
    ap
      (λ cmd. record p {
        second = cmd;
        command_count = if is_some cmd.name then 2 else p.command_count;
      })
      (parse_single_command-words (c ∷ t) ∙ ap command_by w)
    ∙ sym (ap (λ ws. second_by ws p) w)

parse_second-words :
    (after : List ℕ) (p : ParsedInput) → parse_second after p ≡ second_by (words after) p
unfolding parse_second
parse_second-words after p = elim (skip_blanks-head after) [
  | inl e ↦
      let none_left : words after ≡ [] = sym (words-skip_blanks after) ∙ ap words e in
      rw (e, parse_second) (sym (ap (λ ws. second_by ws p) none_left))
  | inr (c, t, e, plain) ↦
      rw (e, parse_second)
        (second-words c t p plain
          ∙ ap (λ ws. second_by ws p) (sym (ap words e) ∙ words-skip_blanks after))
]

parse_body-plain :
    (s : List ℕ) (background : Bool) (old : ParsedInput)
    → HasNoBar s
    → parse_body (background, s) old ≡ first_by (words s) background old
unfolding parse_body
parse_body-plain s background old plain =
    rw (strchr-none s plain, parse_body) (with_first-words s background old)

parse_body-bar :
    (a b : List ℕ) (background : Bool) (old : ParsedInput)
    → HasNoBar a
    → parse_body (background, a ++ (b'|' ∷ b)) old
      ≡ second_by (words b) (first_by (words a) background old)
unfolding parse_body
parse_body-bar a b background old plain =
    rw (strchr-bar a b plain, parse_body)
      (ap (λ t. parse_second b (with_first t background old)) (before-bar a (b'|' ∷ b))
        ∙ ap (parse_second b) (with_first-words a background old)
        ∙ parse_second-words b (first_by (words a) background old))

-- the text in front of the first bar, and the text behind it, if there is a bar
abbrev pub split_bar : List ℕ → List ℕ × Option (List ℕ)
split_bar [] = ([], none)
split_bar (c ∷ s) = if c == b'|' then ([], some s) else (c ∷ (split_bar s).0, (split_bar s).1)

abbrev joined : List ℕ × Option (List ℕ) → List ℕ
joined (a, none) = a
joined (a, some b) = a ++ (b'|' ∷ b)

joined-cons : (c : ℕ) (r : List ℕ × Option (List ℕ)) → joined (c ∷ r.0, r.1) ≡ c ∷ joined r
joined-cons c (a, none) = refl
joined-cons c (a, some b) = refl

split_bar-joined : (s : List ℕ) → HasNoBar (split_bar s).0 × (joined (split_bar s) ≡ s)
split_bar-joined [] = (tt, refl)
split_bar-joined (c ∷ s) =
    let (plain, same) = split_bar-joined s in
    elim (Bool-cases (c == b'|')) [
      | inl e ↦ rw e (tt, ap (λ d. d ∷ s) (ground arith))
      | inr e ↦ rw e ((ground arith, plain), joined-cons c (split_bar s) ∙ ap (λ l. c ∷ l) same)
    ]

-- What a line is meant to say: the words of the text in front of the first bar are a command, and those
-- behind it the second one.
abbrev pub described : Bool → List ℕ × Option (List ℕ) → ParsedInput → ParsedInput
described background (a, none) old = first_by (words a) background old
described background (a, some b) old = second_by (words b) (first_by (words a) background old)

-- `parse_input`, behind the test for a `&` at the end of the line: the words of the text in front of the
-- first `|`, or of all the text, are the first command, and those of the text behind it the second,
-- which is counted as the second even where the first has no words. A command has at most nine words,
-- the first is its name, and it has no name if there are none.
pub parse_input-words :
    (line : List ℕ) (old : ParsedInput)
    → parse_input line old ≡ described (strip line).0 (split_bar (strip line).1) old
unfolding parse_input
parse_input-words line old =
    let s = (strip line).1 in
    let background = (strip line).0 in
    let (plain, same) = split_bar-joined s in
    ap (λ t. parse_body (background, t) old) (sym same) ∙ by_split (split_bar s) plain
  where
    by_split :
        (r : List ℕ × Option (List ℕ))
        → HasNoBar r.0
        → parse_body ((strip line).0, joined r) old ≡ described (strip line).0 r old
    by_split (a, none) plain = parse_body-plain a (strip line).0 old plain
    by_split (a, some b) plain = parse_body-bar a b (strip line).0 old plain
