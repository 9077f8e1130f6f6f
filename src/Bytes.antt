-- ===== src/Bytes.antt =====
-- Kernel/lib.c: the functions that fill and copy memory, which is a function from addresses to bytes.
pub mod Moved
use so_tpe.Common.{
  ℕ, zero, suc, ◌+◌, ◌-◌, ◌*◌, ◌/◌, ◌%◌, Bool, true, false, ◌&&◌, ◌||◌, ltb, ◌==◌, if◌then◌else◌,
  update,
}

abbrev pub Memory : Type 0
Memory = ℕ → ℕ

-- the loop of `memset`, from the last byte down
unfoldable pub fill_down : ℕ → ℕ → ℕ → Memory → Memory
fill_down zero c d m = m
fill_down (suc n) c d m = fill_down n c d (update m (d + n) c)

abbrev pub memset : ℕ → ℕ → ℕ → Memory → Memory
memset d c n m = fill_down n (c % 256) d m

-- a 32-bit word, whose four bytes are read before they are written
abbrev pub copy_word : ℕ → ℕ → Memory → Memory
copy_word d s m =
    update (update (update (update m d (m s)) (d + 1) (m (s + 1))) (d + 2) (m (s + 2))) (d + 3)
      (m (s + 3))

unfoldable pub copy_words : ℕ → ℕ → ℕ → Memory → Memory
copy_words zero d s m = m
copy_words (suc n) d s m = copy_words n (d + 4) (s + 4) (copy_word d s m)

-- the loops over bytes, from the first up and from the last down
unfoldable pub copy_up : ℕ → ℕ → ℕ → Memory → Memory
copy_up zero d s m = m
copy_up (suc n) d s m = copy_up n (d + 1) (s + 1) (update m d (m s))

unfoldable pub copy_down : ℕ → ℕ → ℕ → Memory → Memory
copy_down zero d s m = m
copy_down (suc n) d s m = copy_down n d s (update m (d + n) (m (s + n)))

unfoldable pub memcpy : ℕ → ℕ → ℕ → Memory → Memory
memcpy d s n m =
    if d % 4 == 0 && (s % 4 == 0 && n % 4 == 0) then copy_words (n / 4) d s m else copy_up n d s m

unfoldable pub memmove : ℕ → ℕ → ℕ → Memory → Memory
memmove d s n m =
    if d == s || n == 0
    then m
    else if ltb s d && ltb d (s + n)
    then copy_down n d s m
    else copy_up n d s m
