-- ===== src/Libc/Printf.antt =====
-- `printf` of Userland/libc/src/stdio.c: its runs of literal bytes and its conversions.
use so_tpe.Common.{ℕ, zero, suc, ◌+◌, List, [], ◌∷◌, ◌++◌, ◌==◌, if◌then◌else◌, u32, length}
use so_tpe.Libc.{strlen}
use so_tpe.Libc.Print.{itoa, string_at}

-- what an entry of `args` points to
pub data Arg : Type 0 where
  an_int : ℕ → Arg
  a_string : List ℕ → Arg
  a_char : ℕ → Arg

-- the return value, or a read through an entry that is not there or points to something else
pub data Ending : Type 0 where
  returned : ℕ → Ending
  undefined : Ending

-- the bytes that are written, and how it ends
abbrev pub Printed : Type 0
Printed = List ℕ × Ending

-- `puts` and what is printed after it
abbrev pub put : List ℕ → Printed → Printed
put s r = (s ++ r.0, r.1)

-- what is printed from here on with the arguments, `num_str` and `toReturn`
abbrev pub Rest : Type 0
Rest = List Arg → (ℕ → ℕ) → ℕ → Printed

abbrev pub print_int : Rest → List Arg → (ℕ → ℕ) → ℕ → Printed
print_int next (an_int n ∷ args) num_str ret =
    let num_str' = itoa n num_str in
    let s = string_at 12 0 num_str' in put s (next args num_str' (u32 (ret + strlen s)))
print_int next _ num_str ret = ([], undefined)

abbrev pub print_string : Rest → List Arg → (ℕ → ℕ) → ℕ → Printed
print_string next (a_string s ∷ args) num_str ret = put s (next args num_str (u32 (ret + strlen s)))
print_string next _ num_str ret = ([], undefined)

abbrev pub print_char : Rest → List Arg → (ℕ → ℕ) → ℕ → Printed
print_char next (a_char c ∷ args) num_str ret = put (c ∷ []) (next args num_str (u32 (ret + 1)))
print_char next _ num_str ret = ([], undefined)

-- the `switch` on the byte behind a `%`
unfoldable pub convert : Rest → ℕ → List Arg → (ℕ → ℕ) → ℕ → Printed
convert next d args num_str ret =
    if d == b'd'
    then print_int next args num_str ret
    else if d == b's'
    then print_string next args num_str ret
    else if d == b'c'
    then print_char next args num_str ret
    else ([], returned 4294967295)

-- the bytes up to the next `%` or the end, and those from there on
unfoldable pub literal : List ℕ → List ℕ × List ℕ
literal [] = ([], [])
literal (c ∷ format) =
    let (run, rest) = literal format in if c == b'%' then ([], c ∷ format) else (c ∷ run, rest)

-- the loop over the format; each turn takes a byte of it at least
unfoldable pub print_loop : ℕ → List ℕ → Rest
print_loop zero format args num_str ret = ([], returned ret)
print_loop (suc n) [] args num_str ret = ([], returned ret)
print_loop (suc n) (c ∷ format) args num_str ret =
    let (run, rest) = literal (c ∷ format) in
    let plain = put run (print_loop n rest args num_str (u32 (ret + length run))) in
    let conversion : Printed = elim format [
      | [] ↦ ([], returned 4294967295)
      | d ∷ behind ↦ convert (print_loop n behind) d args num_str ret
    ] in
    if c == b'%' then conversion else plain

unfoldable pub printf : List ℕ → List Arg → (ℕ → ℕ) → Printed
printf format args num_str = print_loop (length format + 1) format args num_str 0

-- The format read byte by byte: a byte that is no `%` is printed, and counts as one.
unfoldable pub expand : List ℕ → Rest
expand [] args num_str ret = ([], returned ret)
expand (c ∷ []) args num_str ret =
    if c == b'%' then ([], returned 4294967295) else (c ∷ [], returned (u32 (ret + 1)))
expand (c ∷ d ∷ format) args num_str ret =
    let plain = put (c ∷ []) (expand (d ∷ format) args num_str (u32 (ret + 1))) in
    let conversion = convert (expand format) d args num_str ret in
    if c == b'%' then conversion else plain
