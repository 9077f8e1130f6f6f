-- ===== src/Bytes/Moved.antt =====
-- What `memmove` and `memcpy` of Kernel/lib.c leave, byte by byte.
use so_tpe.Common.{
  ℕ, zero, suc, ◌+◌, ◌-◌, ◌*◌, ◌/◌, ◌%◌, ◌≤◌, ◌<◌, ◌≡◌, ◌⊎◌, inl, inr, refl, ap, sym, subst, ◌∙◌,
  Bool, true, false, ◌&&◌, ◌||◌, leb, ltb, ◌==◌, if◌then◌else◌, update, arith, Bool-cases,
}
use so_tpe.Bytes.{Memory, copy_word, copy_words, copy_up, copy_down, memcpy, memmove}

-- The bytes from `s` on, as they were, stand from `d` on, and all other bytes are as they were.
abbrev pub moved : ℕ → ℕ → ℕ → Memory → Memory
moved d s n m a = if leb d a && ltb a (d + n) then m (s + (a - d)) else m a

-- A copy from the first byte up may overlap upwards only.
abbrev pub MayCopyUp : ℕ → ℕ → ℕ → Type 0
MayCopyUp d s n = (d ≤ s) ⊎ (s + n ≤ d)

abbrev between : ℕ → ℕ → ℕ → Bool
between d n a = leb d a && ltb a (d + n)

down_step :
    (n d s : ℕ) (m : Memory) (a : ℕ)
    → s ≤ d
    → moved d s n (update m (d + n) (m (s + n))) a ≡ moved d s (suc n) m a
down_step n d s m a le = elim (Bool-cases (between d n a)) [
  | inl here ↦
      let more : between d (suc n) a ≡ true = ground arith in
      let other : (s + (a - d) == d + n) ≡ false = ground arith in rw (here, more, other) refl
  | inr out ↦ elim (Bool-cases (a == d + n)) [
    | inl last ↦
        let more : between d (suc n) a ≡ true = ground arith in
        let at : s + (a - d) ≡ s + n = ground arith in rw (out, more, last, at) refl
    | inr far ↦ let more : between d (suc n) a ≡ false = ground arith in rw (out, more, far) refl
  ]
]

copy_down-moved : (n d s : ℕ) (m : Memory) (a : ℕ) → s ≤ d → copy_down n d s m a ≡ moved d s n m a
unfolding copy_down
copy_down-moved zero d s m a le = ground arith
copy_down-moved (suc n) d s m a le = copy_down-moved n d s _ a le ∙ down_step n d s m a le

-- the first `k` bytes are copied before the others
up_step :
    (k n d s : ℕ) (m m' : Memory) (a : ℕ)
    → MayCopyUp d s (k + n)
    → ((i : ℕ) → between d k i ≡ true → m' i ≡ m (s + (i - d)))
    → ((i : ℕ) → between d k i ≡ false → m' i ≡ m i)
    → moved (d + k) (s + k) n m' a ≡ moved d s (k + n) m a
up_step k n d s m m' a may first others = elim (Bool-cases (between d k a)) [
  | inl here ↦
      let less : between (d + k) n a ≡ false = ground arith in
      let more : between d (k + n) a ≡ true = ground arith in rw (less, more) (first a here)
  | inr out ↦ elim (Bool-cases (between (d + k) n a)) [
    | inl behind ↦
        let more : between d (k + n) a ≡ true = ground arith in
        let at : s + k + (a - (d + k)) ≡ s + (a - d) = ground arith in
        rw (behind, more, at) (others (s + (a - d)) (untouched (ground arith)))
    | inr far ↦
        let more : between d (k + n) a ≡ false = ground arith in rw (far, more) (others a out)
  ]
]
  where
    untouched : (d + k ≤ a) × (a < d + k + n) → between d k (s + (a - d)) ≡ false
    untouched (le, lt) = elim may [ inl below ↦ ground arith | inr apart ↦ ground arith ]

MayCopyUp-rest : (k d s n : ℕ) → MayCopyUp d s (k + n) → MayCopyUp (d + k) (s + k) n
MayCopyUp-rest k d s n (inl le) = inl (omega arith)
MayCopyUp-rest k d s n (inr le) = inr (omega arith)

copy_up-moved :
    (n d s : ℕ) (m : Memory) (a : ℕ) → MayCopyUp d s n → copy_up n d s m a ≡ moved d s n m a
unfolding copy_up
copy_up-moved zero d s m a may = ground arith
copy_up-moved (suc n) d s m a may =
    let e : suc n ≡ 1 + n = omega arith in
    let may' = subst (MayCopyUp d s) e may in
    copy_up-moved n (d + 1) (s + 1) _ a (MayCopyUp-rest 1 d s n may')
    ∙ up_step 1 n d s m (update m d (m s)) a may' first others
    ∙ ap (λ x. moved d s x m a) (sym e)
  where
    first : (i : ℕ) → between d 1 i ≡ true → update m d (m s) i ≡ m (s + (i - d))
    first i h =
        let here : (i == d) ≡ true = ground arith in
        let at : s + (i - d) ≡ s = ground arith in rw (here, at) refl

    others : (i : ℕ) → between d 1 i ≡ false → update m d (m s) i ≡ m i
    others i h = let other : (i == d) ≡ false = ground arith in rw other refl

word-first :
    (d s : ℕ) (m : Memory) (i : ℕ) → between d 4 i ≡ true → copy_word d s m i ≡ m (s + (i - d))
word-first d s m i h = elim (Bool-cases (i == d + 3)) [
  | inl e ↦ let at : s + (i - d) ≡ s + 3 = ground arith in rw (e, at) refl
  | inr e3 ↦ elim (Bool-cases (i == d + 2)) [
    | inl e ↦ let at : s + (i - d) ≡ s + 2 = ground arith in rw (e3, e, at) refl
    | inr e2 ↦ elim (Bool-cases (i == d + 1)) [
      | inl e ↦ let at : s + (i - d) ≡ s + 1 = ground arith in rw (e3, e2, e, at) refl
      | inr e1 ↦
          let e : (i == d) ≡ true = ground arith in
          let at : s + (i - d) ≡ s = ground arith in rw (e3, e2, e1, e, at) refl
    ]
  ]
]

word-others : (d s : ℕ) (m : Memory) (i : ℕ) → between d 4 i ≡ false → copy_word d s m i ≡ m i
word-others d s m i h =
    let e3 : (i == d + 3) ≡ false = ground arith in
    let e2 : (i == d + 2) ≡ false = ground arith in
    let e1 : (i == d + 1) ≡ false = ground arith in
    let e : (i == d) ≡ false = ground arith in rw (e3, e2, e1, e) refl

copy_words-moved :
    (n d s : ℕ) (m : Memory) (a : ℕ)
    → MayCopyUp d s (n * 4)
    → copy_words n d s m a ≡ moved d s (n * 4) m a
unfolding copy_words
copy_words-moved zero d s m a may = ground arith
copy_words-moved (suc n) d s m a may =
    let e : suc n * 4 ≡ 4 + n * 4 = omega arith in
    let may' = subst (MayCopyUp d s) e may in
    copy_words-moved n (d + 4) (s + 4) _ a (MayCopyUp-rest 4 d s (n * 4) may')
    ∙ up_step 4 (n * 4) d s m (copy_word d s m) a may' (word-first d s m) (word-others d s m)
    ∙ ap (λ x. moved d s x m a) (sym e)

-- `memcpy`, by words or by bytes, leaves the bytes of the source, as they were before, from the
-- destination on, and all other bytes as they were, unless the destination lies behind the start of the
-- source and within it.
pub memcpy-moved :
    (d s n : ℕ) (m : Memory) (a : ℕ) → MayCopyUp d s n → memcpy d s n m a ≡ moved d s n m a
unfolding memcpy
memcpy-moved d s n m a may = elim (Bool-cases (d % 4 == 0 && (s % 4 == 0 && n % 4 == 0))) [
  | inl e ↦
      let whole : n / 4 * 4 ≡ n = ground arith in
      rw e (
        copy_words-moved (n / 4) d s m a (subst (MayCopyUp d s) (sym whole) may)
        ∙ ap (λ x. moved d s x m a) whole)
  | inr e ↦ rw e (copy_up-moved n d s m a may)
]

-- `memmove` leaves, for every source, destination and length, the bytes of the source, as they were
-- before, from the destination on, and all other bytes as they were.
pub memmove-moved : (d s n : ℕ) (m : Memory) (a : ℕ) → memmove d s n m a ≡ moved d s n m a
unfolding memmove
memmove-moved d s n m a = elim (Bool-cases (d == s || n == 0)) [
  | inl e ↦ rw e (nothing (ground arith))
  | inr e ↦ elim (Bool-cases (ltb s d && ltb d (s + n))) [
    | inl over ↦ rw (e, over) (copy_down-moved n d s m a (ground arith))
    | inr apart ↦ rw (e, apart) (copy_up-moved n d s m a (ground arith))
  ]
]
  where
    nothing : (d ≡ s) ⊎ (n ≡ 0) → m a ≡ moved d s n m a
    nothing (inl same) = elim (Bool-cases (between d n a)) [
      | inl here ↦ let at : s + (a - d) ≡ a = ground arith in rw (here, at) refl
      | inr out ↦ rw out refl
    ]
    nothing (inr empty) = let out : between d n a ≡ false = ground arith in rw out refl
