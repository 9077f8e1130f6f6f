-- ===== src/Libc/Print.antt =====
-- Userland/libc/src/stdlib.c and stdio.c: `itoa` and `printf`. An int is its bit pattern; the array that
-- `itoa` writes to is a function of the index.
use so_tpe.Common.{
  ℕ, zero, suc, ◌+◌, ◌-◌, ◌/◌, ◌%◌, Bool, not, ◌&&◌, List, [], ◌∷◌, leb, ltb, ◌==◌, if◌then◌else◌,
  u32, update,
}

abbrev pub is_negative : ℕ → Bool
is_negative num = leb 2147483648 num

-- `-num` in 32 bits
abbrev pub negate : ℕ → ℕ
negate num = u32 (4294967296 - num)

-- the loop that stores the digits, the last one first; an int has at most ten
unfoldable pub store_digits : ℕ → ℕ → ℕ → (ℕ → ℕ) → ℕ × (ℕ → ℕ)
store_digits zero num i dest = (i, dest)
store_digits (suc n) num i dest =
    let rest = store_digits n (num / 10) (i + 1) (update dest i (num % 10 + b'0')) in
    if not (num == 0) && not (is_negative num) then rest else (i, dest)

-- the loop that reverses what stands from `start` to `end`, which come closer by two with each turn
unfoldable pub reverse_loop : ℕ → ℕ → ℕ → (ℕ → ℕ) → ℕ → ℕ
reverse_loop zero start end dest = dest
reverse_loop (suc n) start end dest =
    let rest =
      reverse_loop n (start + 1) (end - 1)
        (update (update dest start (dest end)) end (dest start)) in
    if ltb start end then rest else dest

-- the end of `itoa`: the NUL behind the `i` bytes, which are reversed
abbrev pub finish : ℕ → (ℕ → ℕ) → ℕ → ℕ
finish i dest = reverse_loop i 0 (i - 1) (update dest i 0)

unfoldable pub itoa : ℕ → (ℕ → ℕ) → ℕ → ℕ
itoa num dest =
    let size = if is_negative num then negate num else num in
    let (i, dest') = store_digits 10 size 0 dest in
    if num == 0
    then update (update dest 0 b'0') 1 0
    else if is_negative num
    then finish (i + 1) (update dest' i b'-')
    else finish i dest'

-- the string at the start of an array, on fuel for its bytes
unfoldable pub string_at : ℕ → ℕ → (ℕ → ℕ) → List ℕ
string_at zero s f = []
string_at (suc n) s f = let rest = string_at n (s + 1) f in if f s == 0 then [] else f s ∷ rest
