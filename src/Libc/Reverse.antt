-- ===== src/Libc/Reverse.antt =====
-- The loop of `itoa` that reverses the bytes in place.
use so_tpe.Common.{
  ℕ, zero, suc, ◌+◌, ◌-◌, ◌<◌, ◌≡◌, inl, inr, refl, ap, ◌∙◌, Bool, true, false, ◌&&◌, leb, ltb,
  ◌==◌, if◌then◌else◌, update, arith, Bool-cases,
}
use so_tpe.Libc.Print.{reverse_loop, finish}

abbrev pub inside : ℕ → ℕ → ℕ → Bool
inside s e k = leb s k && leb k e

-- One exchange, at the place `k`.
swap_step :
    (s e k : ℕ) (f : ℕ → ℕ)
    → s < e
    → (if inside (s + 1) (e - 1) k
        then update (update f s (f e)) e (f s) (s + 1 + (e - 1) - k)
        else update (update f s (f e)) e (f s) k)
      ≡ (if inside s e k then f (s + e - k) else f k)
swap_step s e k f lt = elim (Bool-cases (k == s)) [
  | inl first ↦
      let i : inside (s + 1) (e - 1) k ≡ false = ground arith in
      let o : inside s e k ≡ true = ground arith in
      let at : s + e - k ≡ e = ground arith in
      let ne : (k == e) ≡ false = ground arith in rw (i, o, at, ne, first) refl
  | inr other ↦ elim (Bool-cases (k == e)) [
    | inl last ↦
        let i : inside (s + 1) (e - 1) k ≡ false = ground arith in
        let o : inside s e k ≡ true = ground arith in
        let at : s + e - k ≡ s = ground arith in rw (i, o, at, last) refl
    | inr between ↦
        let i : inside (s + 1) (e - 1) k ≡ inside s e k = ground arith in
        rw i (elim (Bool-cases (inside s e k)) [
          | inl o ↦
              let at : s + 1 + (e - 1) - k ≡ s + e - k = omega arith in
              let ne : (s + e - k == e) ≡ false = ground arith in
              let ne' : (s + e - k == s) ≡ false = ground arith in rw (o, at, ne, ne') refl
          | inr o ↦ rw (o, between, other) refl
        ])
  ]
]

-- The in-place reversal: a byte between the ends comes from the place as far from the other end.
pub reverse_loop_lem :
    (n s e : ℕ) (f : ℕ → ℕ) (k : ℕ)
    → e < s + n + n
    → reverse_loop n s e f k ≡ (if leb s k && leb k e then f (s + e - k) else f k)
unfolding reverse_loop
reverse_loop_lem zero s e f k more = ground arith
reverse_loop_lem (suc n) s e f k more = elim (Bool-cases (ltb s e)) [
  | inl go ↦
      rw (go, reverse_loop)
        (reverse_loop_lem n (s + 1) (e - 1) _ k (ground arith) ∙ swap_step s e k f (ground arith))
  | inr stop ↦ rw (stop, reverse_loop) (grind arith)
]

pub finish-back : (i k : ℕ) (f : ℕ → ℕ) → k < i → finish i f k ≡ f (i - 1 - k)
finish-back i k f lt =
    let within : inside 0 (i - 1) k ≡ true = ground arith in
    let before : (0 + (i - 1) - k == i) ≡ false = ground arith in
    reverse_loop_lem i 0 (i - 1) (update f i 0) k (omega arith)
    ∙ rw (within, before) (ap f (omega arith))

pub finish-nul : (i : ℕ) (f : ℕ → ℕ) → 0 < i → finish i f i ≡ 0
finish-nul i f pos =
    let beyond : inside 0 (i - 1) i ≡ false = ground arith in
    let here : (i == i) ≡ true = ground arith in
    reverse_loop_lem i 0 (i - 1) (update f i 0) i (omega arith) ∙ rw (beyond, here) refl
