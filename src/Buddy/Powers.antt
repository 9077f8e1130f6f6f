-- ===== src/Buddy/Powers.antt =====
-- Powers of two and the frames at which a block of 2^order pages may start.
use so_tpe.Common.{
  ℕ, suc, ◌+◌, ◌-◌, ◌*◌, ◌/◌, ◌%◌, ◌^◌, ◌≤◌, ◌<◌, ◌≡◌, ◌⊎◌, inl, inr, refl, ap, sym, ◌∙◌, arith,
  ◌==◌, ltb, ltb→lt, subst, Bool-cases,
}
use so_tpe.Buddy.{get_buddy_frame_number}
use native.Mathlib.Nat.{
  two-pow-succ, one-le-pow, mul-le-mul_right, div-eq_of_eq-mul_left, mod-add-div',
}

pub pow_pos : (o : ℕ) → 1 ≤ 2 ^ o
pow_pos o = one-le-pow o 2 (omega arith)

-- a multiple of a block's size
abbrev pub Aligned : ℕ → ℕ → Type 0
Aligned o a = (k : ℕ) × (a ≡ k * 2 ^ o)

mul_lt : (k m b : ℕ) → k < m → k * b + b ≤ m * b
mul_lt k m b h =
    subst (λ n. n ≤ m * b) (omega arith) (mul-le-mul_right {m = suc k} {n = m} b (omega arith))

-- Two multiples less than a block apart are the same.
pub Aligned-unique : (o a b : ℕ) → Aligned o a → Aligned o b → a ≤ b → b < a + 2 ^ o → a ≡ b
Aligned-unique o a b (k, ea) (m, eb) le lt = elim (cases_lt k m) [
  | inl below ↦ absurd (omega (arith, mul_lt k m (2 ^ o) below))
  | inr (inl same) ↦ ea ∙ ap (λ n. n * 2 ^ o) same ∙ sym eb
  | inr (inr above) ↦ absurd (omega (arith, mul_lt m k (2 ^ o) above, pow_pos o))
]
  where
    cases_lt : (i j : ℕ) → (i < j) ⊎ ((i ≡ j) ⊎ (j < i))
    cases_lt i j = elim (Bool-cases (ltb i j)) [
      | inl l ↦ inl (ltb→lt i j l)
      | inr g ↦ elim (Bool-cases (i == j)) [
        | inl e ↦ inr (inl (ground arith))
        | inr n ↦ inr (inr (ground arith))
      ]
    ]

double : (k a b c : ℕ) → c ≡ b + b → a ≡ k * c → (a ≡ 2 * k * b) × (a + b ≡ (2 * k + 1) * b)
double k a b c d e = let e' : a ≡ k * (b + b) = e ∙ ap (λ n. k * n) d in (omega arith, omega arith)

-- A multiple is one of the order below too, and so is the frame half a block further on.
pub Aligned-half : (o a : ℕ) → Aligned (suc o) a → Aligned o a × Aligned o (a + 2 ^ o)
Aligned-half o a (k, e) =
    let (first, second) = double k a (2 ^ o) (2 ^ suc o) (two-pow-succ o) e in
    ((2 * k, first), (2 * k + 1, second))

undouble : (h a b c : ℕ) → c ≡ b + b → a ≡ (2 * h) * b → a ≡ h * c
undouble h a b c d e = let d' : h * c ≡ h * (b + b) = ap (λ n. h * n) d in omega arith

pub Aligned-zero : (a : ℕ) → Aligned 0 a
Aligned-zero a = (a, omega arith)

pub Aligned-mod : (o a : ℕ) → a % 2 ^ o ≡ 0 → Aligned o a
Aligned-mod o a e = (a / 2 ^ o, omega (arith, mod-add-div' a (2 ^ o)))

-- The buddy of a block is the block beside it with which it makes up one of the next order, which
-- starts at the lower one.
abbrev pub IsBuddy : ℕ → ℕ → ℕ → Type 0
IsBuddy o a b = ((b ≡ a + 2 ^ o) × Aligned (suc o) a) ⊎ ((a ≡ b + 2 ^ o) × Aligned (suc o) b)

odd_multiple : (k h a b : ℕ) → a ≡ k * b → k ≡ 2 * h + 1 → (a ≡ a - b + b) × (a - b ≡ 2 * h * b)
odd_multiple k h a b e f =
    let e' : a ≡ (2 * h + 1) * b = e ∙ ap (λ n. n * b) f in (omega arith, omega arith)

pub get_buddy_frame_number-IsBuddy :
    (o a : ℕ) → Aligned o a → IsBuddy o a (get_buddy_frame_number a o)
get_buddy_frame_number-IsBuddy o a (k, e) =
    let q : a / 2 ^ o ≡ k = div-eq_of_eq-mul_left (pow_pos o) e in
    let up = undouble (k / 2) a (2 ^ o) (2 ^ suc o) (two-pow-succ o) in
    let down = undouble (k / 2) (a - 2 ^ o) (2 ^ o) (2 ^ suc o) (two-pow-succ o) in
    elim (Bool-cases (a / 2 ^ o % 2 == 0)) [
      | inl even ↦
          let f : k ≡ 2 * (k / 2) = ground arith in
          rw even (inl (refl, (k / 2, up (e ∙ ap (λ n. n * 2 ^ o) f))))
      | inr odd ↦
          let (back, half) = odd_multiple k (k / 2) a (2 ^ o) e (ground arith) in
          rw odd (inr (back, (k / 2, down half)))
    ]
