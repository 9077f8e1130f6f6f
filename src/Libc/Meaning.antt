-- ===== src/Libc/Meaning.antt =====
-- What the format of `printf` says.
use so_tpe.Common.{ℕ, ◌<◌, ◌≡◌, ◌≢◌, ◌⊎◌, List, [], ◌∷◌, ◌++◌, u32}
use so_tpe.Libc.Itoa.{Shown}
use so_tpe.Libc.Printf.{Arg, an_int, a_string, a_char, Ending, returned, undefined}

-- to the end of the format, to a `%` without a conversion, or to a conversion whose argument is not
-- there or of another type
pub data How : Type 0 where
  whole : How
  stopped : How
  misread : How

-- whether the first argument is what the conversion `d` takes
abbrev pub Takes : ℕ → List Arg → Type 0
Takes d [] = ⊥
Takes d (an_int n ∷ args) = d ≡ b'd'
Takes d (a_string s ∷ args) = d ≡ b's'
Takes d (a_char c ∷ args) = d ≡ b'c'

abbrev pub IsConversion : ℕ → Type 0
IsConversion d = (d ≡ b'd') ⊎ ((d ≡ b's') ⊎ (d ≡ b'c'))

-- The format, with the arguments, says to write the bytes: a byte that is no `%` itself, `%d` the
-- decimal text of the first argument that is left, `%s` the string, `%c` the byte.
pub data Says : List ℕ → List Arg → List ℕ → How → Type 0 where
  ends : (args : List Arg) → Says [] args [] whole
  literally :
      (c : ℕ) (format : List ℕ) (args : List Arg) (o : List ℕ) (how : How)
      → c ≢ b'%'
      → Says format args o how
      → Says (c ∷ format) args (c ∷ o) how
  decimal :
      (n : ℕ) (t format : List ℕ) (args : List Arg) (o : List ℕ) (how : How)
      → Shown n t
      → Says format args o how
      → Says (b'%' ∷ b'd' ∷ format) (an_int n ∷ args) (t ++ o) how
  string :
      (s format : List ℕ) (args : List Arg) (o : List ℕ) (how : How)
      → Says format args o how
      → Says (b'%' ∷ b's' ∷ format) (a_string s ∷ args) (s ++ o) how
  char :
      (c : ℕ) (format : List ℕ) (args : List Arg) (o : List ℕ) (how : How)
      → Says format args o how
      → Says (b'%' ∷ b'c' ∷ format) (a_char c ∷ args) (c ∷ o) how
  breaks :
      (d : ℕ) (format : List ℕ) (args : List Arg)
      → ¬ IsConversion d
      → Says (b'%' ∷ d ∷ format) args [] stopped
  breaks_end : (args : List Arg) → Says (b'%' ∷ []) args [] stopped
  misfits :
      (d : ℕ) (format : List ℕ) (args : List Arg)
      → IsConversion d
      → ¬ Takes d args
      → Says (b'%' ∷ d ∷ format) args [] misread

-- what `printf` returns behind `n` bytes
abbrev pub ending : How → ℕ → Ending
ending whole n = returned (u32 n)
ending stopped n = returned 4294967295
ending misread n = undefined

-- The ints among the arguments have 32 bits.
abbrev pub AreWords : List Arg → Type 0
AreWords [] = Unit
AreWords (an_int n ∷ args) = (n < 4294967296) × AreWords args
AreWords (a_string s ∷ args) = AreWords args
AreWords (a_char c ∷ args) = AreWords args
