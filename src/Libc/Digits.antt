-- ===== src/Libc/Digits.antt =====
-- The loop of `itoa` that stores the digits, and the string that is read from an array.
use so_tpe.Common.{
  ℕ, zero, suc, ◌+◌, ◌-◌, ◌*◌, ◌/◌, ◌%◌, ◌^◌, ◌≤◌, ◌<◌, ◌≡◌, inl, inr, refl, ap, ap₂, ◌∙◌, subst,
  true, false, List, ◌==◌, update, length, arith, Bool-cases,
}
use so_tpe.Libc.Decimal.{IsDecimal, decimal, power_suc}
use so_tpe.Libc.Print.{is_negative, store_digits, string_at}

-- the number that the digits below `n` stand for, the first one counting least
unfoldable pub value : ℕ → (ℕ → ℕ) → ℕ
value zero f = 0
value (suc n) f = (f n - b'0') * 10 ^ n + value n f

-- The bytes below `n` are digits.
abbrev pub AllDigits : ℕ → (ℕ → ℕ) → Type 0
AllDigits n f = (j : ℕ) → j < n → (b'0' ≤ f j) × (f j ≤ b'9')

value-cong : (n : ℕ) (f g : ℕ → ℕ) → ((j : ℕ) → j < n → f j ≡ g j) → value n f ≡ value n g
unfolding value
value-cong zero f g same = refl
value-cong (suc n) f g same =
    ap₂ ◌+◌ (ap (λ x. (x - b'0') * 10 ^ n) (same n (omega arith)))
      (value-cong n f g (λ j lt. same j (omega arith)))

-- What the loop of the digits has stored when no digit is left.
pub record Stored (n num i : ℕ) (f : ℕ → ℕ) (r : ℕ × (ℕ → ℕ)) : Type 0 where
  pub more : i ≤ r.0
  pub most : r.0 ≤ i + n
  pub digits : AllDigits r.0 r.1
  pub stands : value r.0 r.1 ≡ value i f + num * 10 ^ i
  pub none_left : num ≡ 0 → r.0 ≡ i
  pub tight : 0 < num → 10 ^ (r.0 - i) ≤ 10 * num

next_digits :
    (i num : ℕ) (f : ℕ → ℕ) → AllDigits i f → AllDigits (i + 1) (update f i (num % 10 + b'0'))
next_digits i num f ds j lt = elim (Bool-cases (j == i)) [
  | inl here ↦ rw here (omega arith, omega arith)
  | inr before ↦ rw before (ds j (ground arith))
]

shift : (a b p q : ℕ) → q ≡ 10 * p → b * p + a * q ≡ (10 * a + b) * p
shift a b p q e = ap (λ x. b * p + a * x) e ∙ grind arith

next_value :
    (i num : ℕ) (f : ℕ → ℕ)
    → value (i + 1) (update f i (num % 10 + b'0')) + num / 10 * 10 ^ (i + 1)
      ≡ value i f + num * 10 ^ i
unfolding value
next_value i num f =
    let f' = update f i (num % 10 + b'0') in
    let e : i + 1 ≡ suc i = omega arith in
    let same : value i f' ≡ value i f = value-cong i f' f (λ j lt. ground arith) in
    let digit : f' i - b'0' ≡ num % 10 = ground arith in
    let whole : 10 * (num / 10) + num % 10 ≡ num = omega arith in
    let sum = shift (num / 10) (num % 10) (10 ^ i) (10 ^ suc i) (power_suc i) in
    let total = ap (λ x. x * 10 ^ i) whole in rw (e, same, digit) (omega (arith, sum, total))

next_tight :
    (num i n : ℕ)
    → 0 < num
    → i + 1 ≤ n
    → (num / 10 ≡ 0 → n ≡ i + 1)
    → (0 < num / 10 → 10 ^ (n - (i + 1)) ≤ 10 * (num / 10))
    → 10 ^ (n - i) ≤ 10 * num
next_tight num i n positive more none_left tight = elim (Bool-cases (num / 10 == 0)) [
  | inl z ↦
      let one : n - i ≡ 1 = omega (arith, none_left (ground (arith, z))) in rw one (omega arith)
  | inr some_left ↦
      let next : n - i ≡ suc (n - (i + 1)) = omega arith in
      let bound = tight (ground (arith, some_left)) in
      rw next (omega (arith, power_suc (n - (i + 1)), bound))
]

pub store_digits-Stored :
    (n num i : ℕ) (f : ℕ → ℕ)
    → AllDigits i f
    → num < 2147483648
    → num < 10 ^ n
    → Stored n num i f (store_digits n num i f)
unfolding store_digits
store_digits-Stored zero num i f ds small fits = record {
  more = omega arith;
  most = omega arith;
  digits = ds;
  stands = ground arith;
  none_left = λ z. refl;
  tight = λ positive. let same : i - i ≡ 0 = omega arith in rw same (omega arith);
}
store_digits-Stored (suc n) num i f ds small fits = elim (Bool-cases (num == 0)) [
  | inl done ↦
      rw (done, store_digits)
        (record {
          more = omega arith;
          most = omega arith;
          digits = ds;
          stands = ground arith;
          none_left = λ z. refl;
          tight = λ positive. absurd (ground (arith, done, positive));
        })
  | inr more ↦
      let f' = update f i (num % 10 + b'0') in
      let p : 10 ^ suc n ≡ 10 * 10 ^ n = power_suc n in
      let positive : is_negative num ≡ false = ground arith in
      let r =
        store_digits-Stored n (num / 10) (i + 1) f' (next_digits i num f ds) (omega arith)
          (omega arith) in
      rw (more, positive, store_digits)
        (record {
          more = omega (arith, r.more);
          most = omega (arith, r.most);
          digits = r.digits;
          stands = r.stands ∙ next_value i num f;
          none_left = λ z. absurd (ground (arith, more, z));
          tight = λ some_left. next_tight num i _ some_left r.more r.none_left r.tight;
        })
]

-- The text, `m` digits long, that stands from `s` on in the reverse order of `f`.
pub record Reads (t : List ℕ) (m : ℕ) (f : ℕ → ℕ) : Type 0 where
  pub digits : IsDecimal t
  pub stands : decimal t ≡ value m f
  pub long : length t ≡ m

pub string_at-Reads :
    (m n s : ℕ) (f g : ℕ → ℕ)
    → m < n
    → ((k : ℕ) → k < m → g (s + k) ≡ f (m - 1 - k))
    → g (s + m) ≡ 0
    → AllDigits m f
    → Reads (string_at n s g) m f
unfolding string_at decimal value
string_at-Reads m zero s f g more back nul ds = absurd (omega arith)
string_at-Reads zero (suc n) s f g more back nul ds =
    let at : s + 0 ≡ s = omega arith in
    let e : (g s == 0) ≡ true = subst (λ x. (g x == 0) ≡ true) at (ground arith) in
    rw (e, string_at) (record { digits = tt; stands = refl; long = refl })
string_at-Reads (suc m) (suc n) s f g more back nul ds =
    let at : s + 0 ≡ s = omega arith in
    let first : g s ≡ f m = subst (λ x. g x ≡ f m) at (back 0 (omega arith) ∙ ap f (omega arith)) in
    let (lo, hi) = ds m (omega arith) in
    let e : (g s == 0) ≡ false = ground arith in
    let r =
      string_at-Reads m n (s + 1) f g (omega arith)
        (λ k lt. ap g (omega arith) ∙ back (k + 1) (omega arith) ∙ ap f (omega arith))
        (ap g (omega arith) ∙ nul) (λ j lt. ds j (omega arith)) in
    rw (e, string_at)
      (record {
        digits = (omega arith, omega arith, r.digits);
        stands = ap₂ ◌+◌ (ap₂ (λ x l. (x - b'0') * 10 ^ l) first r.long) r.stands;
        long = ap suc r.long;
      })

pub value_pos : (n : ℕ) (f : ℕ → ℕ) → 0 < value n f → 0 < n
unfolding value
value_pos zero f h = h
value_pos (suc n) f h = omega arith
