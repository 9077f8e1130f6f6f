-- ===== src/Libc/Decimal.antt =====
-- `atoi` reads the decimal digits of a number.
use so_tpe.Common.{
  ℕ, zero, suc, ◌+◌, ◌-◌, ◌*◌, ◌^◌, ◌≤◌, ◌<◌, ◌≡◌, refl, ap, sym, ◌∙◌, true, false, List, [], ◌∷◌,
  ◌++◌, arith, u32, length,
}
use so_tpe.Libc.{is_digit, atoi, atoi_from}

-- The decimal digits.
abbrev pub IsDecimal : List ℕ → Type 0
IsDecimal [] = Unit
IsDecimal (c ∷ s) = (b'0' ≤ c) × (c ≤ b'9') × IsDecimal s

-- The string ends here, or a byte follows that is no digit.
abbrev pub Stops : List ℕ → Type 0
Stops [] = Unit
Stops (c ∷ s) = is_digit c ≡ false

-- the number that decimal digits stand for: each digit times a power of ten
unfoldable pub decimal : List ℕ → ℕ
decimal [] = 0
decimal (c ∷ s) = (c - b'0') * 10 ^ length s + decimal s

stopped : (num : ℕ) (s : List ℕ) → Stops s → atoi_from num s ≡ num
unfolding atoi_from
stopped num [] h = refl
stopped num (c ∷ s) h = rw (h, atoi_from) refl

shift : (n d p v : ℕ) → n * (10 * p) + (d * p + v) ≡ (n * 10 + d) * p + v
shift n d p v = grind arith

smaller : (n p v b : ℕ) → 1 ≤ p → n * p + v < b → n < b
smaller n zero v b hp h = absurd (omega arith)
smaller n (suc p) v b hp h = ground arith

pub power_suc : (n : ℕ) → 10 ^ suc n ≡ 10 * 10 ^ n
power_suc n = ground arith

power_pos : (n : ℕ) → 1 ≤ 10 ^ n
power_pos zero = omega arith
power_pos (suc n) = ground (arith, power_pos n)

atoi_from-decimal :
    (num : ℕ) (ds s : List ℕ)
    → IsDecimal ds
    → Stops s
    → num * 10 ^ length ds + decimal ds < 2147483648
    → atoi_from num (ds ++ s) ≡ num * 10 ^ length ds + decimal ds
unfolding atoi_from decimal is_digit
atoi_from-decimal num [] s hd hs bound = stopped num s hs ∙ omega arith
atoi_from-decimal num (c ∷ ds) s (lo, hi, hd) hs bound =
    let digit : is_digit c ≡ true = ground arith in
    let next : ℕ = num * 10 + (c - b'0') in
    let total : num * 10 ^ length (c ∷ ds) + decimal (c ∷ ds) ≡ next * 10 ^ length ds + decimal ds =
      ap (λ q. num * q + decimal (c ∷ ds)) (power_suc (length ds))
      ∙ shift num (c - b'0') (10 ^ length ds) (decimal ds) in
    let small : next < 2147483648 =
      smaller next (10 ^ length ds) (decimal ds) 2147483648 (power_pos (length ds)) (omega arith) in
    let fits : u32 next ≡ next = omega arith in
    rw (digit, fits) (atoi_from-decimal next ds s hd hs (omega arith) ∙ sym total)

-- `atoi` reads the decimal digits at the start of a string, up to its end or a byte that is no digit,
-- and returns the number that they stand for, if it is below 2^31.
pub atoi-decimal :
    (ds s : List ℕ) → IsDecimal ds → Stops s → decimal ds < 2147483648 → atoi (ds ++ s) ≡ decimal ds
unfolding atoi
atoi-decimal ds s hd hs bound = atoi_from-decimal 0 ds s hd hs (omega arith) ∙ ground arith
