-- ===== src/Shell.antt =====
-- Userland/shell/shell.c: the look-up of a command and the parser of a line. A string is the list of
-- its bytes before the NUL.
pub mod Words
pub mod Parse
use so_tpe.Common.{
  ℕ, zero, suc, ◌+◌, ◌-◌, Bool, true, false, ◌&&◌, ◌||◌, Option, none, some, List, [], ◌∷◌, ◌==◌,
  if◌then◌else◌, length, take,
}
use so_tpe.Libc.{strcmp, strtok, strchr}

abbrev pub max_args : ℕ
max_args = 10

-- `Command`, whose `arg_count` is the length of `args`
pub record Command : Type 0 where
  pub name : Option (List ℕ)
  pub args : List (List ℕ)

pub record ParsedInput : Type 0 where
  pub first : Command
  pub second : Command
  pub command_count : ℕ
  pub is_background : Bool

-- the place of a command in the table of the names, from `i` on
unfoldable pub find_command : List ℕ → ℕ → List (List ℕ) → Option ℕ
find_command name i [] = none
find_command name i (n ∷ names) =
    let rest = find_command name (i + 1) names in if strcmp name n == 0 then some i else rest

abbrev pub is_blank : ℕ → Bool
is_blank c = c == 32 || c == 9

abbrev pub blanks : List ℕ
blanks = 32 ∷ 9 ∷ []

-- `while (*input == ' ' || *input == '\t') input++`
unfoldable pub skip_blanks : List ℕ → List ℕ
skip_blanks [] = []
skip_blanks (c ∷ s) = let rest = skip_blanks s in if is_blank c then rest else c ∷ s

-- the loop over the tokens behind the first, with room for `room` of them; `last` is that of `strtok`
unfoldable pub collect_args : ℕ → Option (List ℕ) → List (List ℕ)
collect_args zero last = []
collect_args (suc room) last =
    let (token, last') = strtok none blanks last in
    let rest = collect_args room last' in elim token [ none ↦ [] | some t ↦ t ∷ rest ]

abbrev pub command_of : Option (List ℕ) × Option (List ℕ) → Command
command_of (none, last) = record { name = none; args = [] }
command_of (some t, last) = record { name = some t; args = t ∷ collect_args (max_args - 2) last }

-- The command does not depend on the `last` that `strtok` had.
unfoldable pub parse_single_command : List ℕ → Command
parse_single_command input = elim (skip_blanks input) [
  | [] ↦ record { name = none; args = [] }
  | c ∷ s ↦ command_of (strtok (some (c ∷ s)) blanks none)
]

-- the line without a `&` at its end, if it has one
unfoldable pub cut_mark : List ℕ → Option (List ℕ)
cut_mark [] = none
cut_mark (c ∷ []) = if c == b'&' then some [] else none
cut_mark (c ∷ d ∷ s) = elim (cut_mark (d ∷ s)) [ none ↦ none | some r ↦ some (c ∷ r) ]

-- the loop that cuts blanks off the end
unfoldable pub cut_blanks : List ℕ → List ℕ
cut_blanks [] = []
cut_blanks (c ∷ s) = elim (cut_blanks s) [
  | [] ↦ if is_blank c then [] else c ∷ []
  | d ∷ r ↦ c ∷ d ∷ r
]

-- whether the line is for the background, and the line behind the first part of `parse_input`
unfoldable pub strip : List ℕ → Bool × List ℕ
strip s = elim (cut_mark s) [ none ↦ (false, s) | some r ↦ (true, cut_blanks r) ]

abbrev pub is_some : Option (List ℕ) → Bool
is_some none = false
is_some (some s) = true

-- the second command, from the text behind the `|`
unfoldable pub parse_second : List ℕ → ParsedInput → ParsedInput
parse_second after p = elim (skip_blanks after) [
  | [] ↦ p
  | c ∷ s ↦
      let cmd = parse_single_command (c ∷ s) in
      record p { second = cmd; command_count = if is_some cmd.name then 2 else p.command_count }
]

-- the text before the place that `strchr` gives, and the text behind it
abbrev pub before : List ℕ → List ℕ → List ℕ
before s place = take (length s - length place) s

abbrev pub behind : List ℕ → List ℕ
behind [] = []
behind (c ∷ s) = s

abbrev pub with_first : List ℕ → Bool → ParsedInput → ParsedInput
with_first s background old =
    let cmd = parse_single_command s in
    record old {
      first = cmd;
      command_count = if is_some cmd.name then 1 else 0;
      is_background = background;
    }

-- `parse_input` behind the test of the `&`
unfoldable pub parse_body : Bool × List ℕ → ParsedInput → ParsedInput
parse_body (background, s) old = elim (strchr s b'|') [
  | none ↦ with_first s background old
  | some place ↦ parse_second (behind place) (with_first (before s place) background old)
]

-- What `parse_input` does not write stays as it was.
unfoldable pub parse_input : List ℕ → ParsedInput → ParsedInput
parse_input input old = parse_body (strip input) old
