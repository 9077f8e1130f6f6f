-- ===== src/Tests/Text.antt =====
-- Strings of the C library.
use so_tpe.Libc.Print.{itoa, string_at}
use so_tpe.Libc.Itoa.{Shown, itoa-Shown}
use so_tpe.Libc.Printf.{Arg, an_int, a_char, printf}
use so_tpe.Libc.Meaning.{How, Says, ending}
use so_tpe.Libc.Says.{printf-Says}
use so_tpe.Common.{ℕ, false, ◌≡◌, refl, none, some, List, length, [], ◌∷◌, arith}
use so_tpe.Libc.{strtok, is_delim, skip_delims, take_token, token_from}
use so_tpe.Libc.Tokens.{Cut, strtok-Cut}
use so_tpe.Shell.{ParsedInput, parse_input, strip}
use so_tpe.Shell.Parse.{described, split_bar, parse_input-words}

-- "  ls | wc", cut at blanks
abbrev line : List ℕ
line = 32 ∷ 32 ∷ b'l' ∷ b's' ∷ 32 ∷ b'|' ∷ 32 ∷ b'w' ∷ b'c' ∷ []

strtok-Cut_example :
    Cut (32 ∷ []) line (strtok (some line) (32 ∷ []) none)
    × Cut (32 ∷ []) line (strtok none (32 ∷ []) (some line))
strtok-Cut_example = strtok-Cut (32 ∷ []) line none

first_token :
    strtok (some line) (32 ∷ []) none
    ≡ (some (b'l' ∷ b's' ∷ []), some (b'|' ∷ 32 ∷ b'w' ∷ b'c' ∷ []))
unfolding strtok token_from skip_delims is_delim take_token
first_token = refl

abbrev nothing_parsed : ParsedInput
nothing_parsed = record {
  first = record { name = none; args = [] };
  second = record { name = none; args = [] };
  command_count = 0;
  is_background = false;
}

parse_input-words_example :
    parse_input line nothing_parsed
    ≡ described (strip line).0 (split_bar (strip line).1) nothing_parsed
parse_input-words_example = parse_input-words line nothing_parsed

itoa-Shown_example : Shown 4294967254 (string_at 12 0 (itoa 4294967254 (λ i. 7)))
itoa-Shown_example = itoa-Shown 4294967254 (λ i. 7) (omega arith)

-- "a=%d%c" with 42 and an exclamation mark
abbrev format : List ℕ
format = b'a' ∷ b'=' ∷ b'%' ∷ b'd' ∷ b'%' ∷ b'c' ∷ []

abbrev arguments : List Arg
arguments = an_int 42 ∷ a_char b'!' ∷ []

printf-Says_example :
    let (o, e) = printf format arguments (λ i. 7) in
    (how : How) × Says format arguments o how × (e ≡ ending how (length o))
printf-Says_example = printf-Says format arguments (λ i. 7) (omega arith, tt)
