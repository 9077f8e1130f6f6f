-- ===== src/Shell/Words.antt =====
-- The words of a text, and `parse_single_command`.
use so_tpe.Common.{
  ℕ, zero, suc, ◌≡◌, refl, ap, sym, ◌∙◌, Option, none, some, List, [], ◌∷◌, ◌++◌, arith,
  if◌then◌else◌, take, Bool-cases, inl, inr,
}
use mathlib.Core.List.{append-nil, append_assoc}
use so_tpe.Libc.{is_delim, skip_delims, take_token, token_from, strtok}
use so_tpe.Shell.{
  is_blank, blanks, skip_blanks, collect_args, command_of, parse_single_command, Command,
}

-- The words of a line are its longest pieces without blanks, in order; `w` is the piece so far.
abbrev pub flush : List ℕ → List (List ℕ) → List (List ℕ)
flush [] ws = ws
flush (c ∷ w) ws = (c ∷ w) ∷ ws

abbrev pub words_from : List ℕ → List ℕ → List (List ℕ)
words_from w [] = flush w []
words_from w (c ∷ s) =
    if is_blank c then flush w (words_from [] s) else words_from (w ++ (c ∷ [])) s

abbrev pub words : List ℕ → List (List ℕ)
words s = words_from [] s

-- what is still to come once `strtok` has kept `last`
abbrev pub later : Option (List ℕ) → List (List ℕ)
later none = []
later (some s) = words s

blank-delim : (c : ℕ) → is_delim blanks c ≡ is_blank c
unfolding is_delim
blank-delim c = ground arith

pub words-take_token :
    (c : ℕ) (w s : List ℕ)
    → words_from (c ∷ w) s ≡ (c ∷ w ++ (take_token blanks s).0) ∷ later (take_token blanks s).1
unfolding take_token
words-take_token c w [] = ap (λ l. (c ∷ l) ∷ []) (sym (append-nil w))
words-take_token c w (d ∷ s) = elim (Bool-cases (is_blank d)) [
  | inl e ↦
      rw (blank-delim d ∙ e, take_token) (rw e (ap (λ l. (c ∷ l) ∷ words s) (sym (append-nil w))))
  | inr e ↦
      rw (blank-delim d ∙ e, take_token)
        (rw e (
          words-take_token c (w ++ (d ∷ [])) s
          ∙ ap (λ l. (c ∷ l) ∷ later (take_token blanks s).1)
              (append_assoc w (d ∷ []) (take_token blanks s).0)))
]

-- the words, by the next token
abbrev pub by_token : Option (List ℕ) × Option (List ℕ) → List (List ℕ)
by_token (none, last) = []
by_token (some t, last) = t ∷ later last

words-strtok : (s : List ℕ) → words s ≡ by_token (token_from blanks (skip_delims blanks s))
unfolding skip_delims token_from take_token
words-strtok [] = refl
words-strtok (c ∷ s) = elim (Bool-cases (is_blank c)) [
  | inl e ↦ rw (blank-delim c ∙ e, skip_delims) (rw e (words-strtok s))
  | inr e ↦
      let cut : take_token blanks (c ∷ s) ≡ (c ∷ (take_token blanks s).0, (take_token blanks s).1) =
        rw (blank-delim c ∙ e, take_token) refl in
      rw (blank-delim c ∙ e, skip_delims)
        (rw e (words-take_token c [] s ∙ sym (ap (λ r. by_token (some r.0, r.1)) cut)))
]

words-next : (last : Option (List ℕ)) → later last ≡ by_token (strtok none blanks last)
unfolding strtok
words-next none = refl
words-next (some s) = words-strtok s

collect_args-take :
    (room : ℕ) (last : Option (List ℕ)) → collect_args room last ≡ take room (later last)
unfolding collect_args
collect_args-take zero last = refl
collect_args-take (suc room) last =
    taken (λ l. collect_args-take room l) (strtok none blanks last)
    ∙ ap (take (suc room)) (sym (words-next last))
  where
    taken :
        ((l : Option (List ℕ)) → collect_args room l ≡ take room (later l))
        → (r : Option (List ℕ) × Option (List ℕ))
        → (let (token, last') = r in
            let rest = collect_args room last' in elim token [ none ↦ [] | some t ↦ t ∷ rest ])
          ≡ take (suc room) (by_token r)
    taken rest (none, last') = refl
    taken rest (some t, last') = ap (λ l. t ∷ l) (rest last')

-- the command that has the words as its arguments, the first as its name
abbrev pub command_by : List (List ℕ) → Command
command_by [] = record { name = none; args = [] }
command_by (t ∷ ws) = record { name = some t; args = take 9 (t ∷ ws) }

command_of-words : (r : Option (List ℕ) × Option (List ℕ)) → command_of r ≡ command_by (by_token r)
command_of-words (none, last) = refl
command_of-words (some t, last) =
    ap (λ l. record { name = some t; args = t ∷ l }) (collect_args-take 8 last)

pub words-skip_blanks : (s : List ℕ) → words (skip_blanks s) ≡ words s
unfolding skip_blanks
words-skip_blanks [] = refl
words-skip_blanks (c ∷ s) = elim (Bool-cases (is_blank c)) [
  | inl e ↦ rw (e, skip_blanks) (words-skip_blanks s)
  | inr e ↦ let kept : skip_blanks (c ∷ s) ≡ c ∷ s = rw e refl in ap words kept
]

-- `parse_single_command` gives the words of the text, nine at most, and the first as the name.
pub parse_single_command-words : (s : List ℕ) → parse_single_command s ≡ command_by (words s)
unfolding parse_single_command strtok
parse_single_command-words s = by_text (skip_blanks s) ∙ ap command_by (words-skip_blanks s)
  where
    by_text :
        (r : List ℕ)
        → (elim r as (λ l. Command) [
          | [] ↦ record { name = none; args = [] }
          | c ∷ t ↦ command_of (strtok (some (c ∷ t)) blanks none)
        ])
          ≡ command_by (words r)
    by_text [] = refl
    by_text (c ∷ t) = command_of-words _ ∙ ap command_by (sym (words-strtok (c ∷ t)))
