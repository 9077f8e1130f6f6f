-- ===== src/Libc.antt =====
-- Userland/libc/src/string.c, ctype.c and stdlib.c: strings, the tests of characters, and `atoi`. A
-- string is the list of its bytes before the NUL; a char is a byte, negative from 128 on.
pub mod Compare
pub mod Tokens
pub mod Decimal
pub mod Print
pub mod Printf
pub mod Expand
pub mod Meaning
pub mod Says
pub mod Reverse
pub mod Digits
pub mod Itoa
use so_tpe.Common.{
  ℕ, ◌+◌, ◌-◌, ◌*◌, Bool, true, false, not, ◌&&◌, ◌||◌, Option, none, some, List, [], ◌∷◌, ◌++◌,
  leb, ltb, ◌==◌, if◌then◌else◌, u32,
}

unfoldable pub strlen : List ℕ → ℕ
strlen [] = 0
strlen (c ∷ s) = u32 (strlen s + 1)

-- a char as an int, in 32 bits
abbrev pub sign_extend : ℕ → ℕ
sign_extend c = if ltb c 128 then c else c + 4294967040

-- `s1[i] - s2[i]`
abbrev pub difference : ℕ → ℕ → ℕ
difference a b = u32 (sign_extend a + (4294967296 - sign_extend b))

unfoldable pub strcmp : List ℕ → List ℕ → ℕ
strcmp [] [] = difference 0 0
strcmp [] (b ∷ t) = difference 0 b
strcmp (a ∷ s) [] = difference a 0
strcmp (a ∷ s) (b ∷ t) = let rest = strcmp s t in if a == b then rest else difference a b

-- the loop over `delims`
unfoldable pub is_delim : List ℕ → ℕ → Bool
is_delim [] c = false
is_delim (d ∷ ds) c = c == d || is_delim ds c

-- the first loop of `strtok`: what is left from the first byte that is no delimiter
unfoldable pub skip_delims : List ℕ → List ℕ → List ℕ
skip_delims ds [] = []
skip_delims ds (c ∷ s) = let rest = skip_delims ds s in if is_delim ds c then rest else c ∷ s

-- The second loop of `strtok`: the token, and `last`, which is NULL after the last token.
unfoldable pub take_token : List ℕ → List ℕ → List ℕ × Option (List ℕ)
take_token ds [] = ([], none)
take_token ds (c ∷ s) =
    let (token, last) = take_token ds s in if is_delim ds c then ([], some s) else (c ∷ token, last)

unfoldable pub token_from : List ℕ → List ℕ → Option (List ℕ) × Option (List ℕ)
token_from ds [] = (none, none)
token_from ds (c ∷ s) = let (token, last) = take_token ds (c ∷ s) in (some token, last)

-- `strtok` with `str`, `none` for NULL, and the static `last`: the token and the new `last`
unfoldable pub strtok :
    Option (List ℕ) → List ℕ → Option (List ℕ) → Option (List ℕ) × Option (List ℕ)
strtok (some s) ds last = token_from ds (skip_delims ds s)
strtok none ds none = (none, none)
strtok none ds (some s) = token_from ds (skip_delims ds s)

-- `strchr` on a byte: what is left from its first place, the empty string being the place of the NUL
unfoldable pub strchr : List ℕ → ℕ → Option (List ℕ)
strchr [] c = if c == 0 then some [] else none
strchr (a ∷ s) c = let rest = strchr s c in if a == c then some (a ∷ s) else rest

unfoldable pub is_lower : ℕ → Bool
is_lower c = leb b'a' c && leb c b'z'

unfoldable pub is_upper : ℕ → Bool
is_upper c = leb b'A' c && leb c b'Z'

unfoldable pub is_alpha : ℕ → Bool
is_alpha c = leb b'a' c && leb c b'z' || leb b'A' c && leb c b'Z'

unfoldable pub is_digit : ℕ → Bool
is_digit c = leb b'0' c && leb c b'9'

unfoldable pub is_space : ℕ → Bool
is_space c = c == 32 || c == 9 || c == 10 || c == 13 || c == 12 || c == 11

unfoldable pub is_alnum : ℕ → Bool
is_alnum c = is_alpha c || is_digit c

unfoldable pub tolower : ℕ → ℕ
tolower c = if leb b'A' c && leb c b'Z' then c + 32 else c

-- the loop of `atoi`, with the number so far
unfoldable pub atoi_from : ℕ → List ℕ → ℕ
atoi_from num [] = num
atoi_from num (c ∷ s) =
    let rest = atoi_from (u32 (num * 10 + (c - b'0'))) s in if is_digit c then rest else num

unfoldable pub atoi : List ℕ → ℕ
atoi s = atoi_from 0 s
