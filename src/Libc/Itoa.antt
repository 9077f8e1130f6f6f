-- ===== src/Libc/Itoa.antt =====
-- The text that `itoa` leaves in the array.
use so_tpe.Common.{
  ℕ, ◌+◌, ◌-◌, ◌*◌, ◌^◌, ◌≤◌, ◌<◌, ◌≡◌, ◌⊎◌, inl, inr, length, refl, ap, sym, ◌∙◌, subst, true,
  false, List, [], ◌∷◌, ltb, ◌==◌, update, arith, Bool-cases,
}
use mathlib.Core.List.{append-nil}
use so_tpe.Libc.{atoi}
use so_tpe.Libc.Decimal.{IsDecimal, decimal, atoi-decimal}
use so_tpe.Libc.Print.{is_negative, negate, store_digits, reverse_loop, finish, itoa, string_at}
use so_tpe.Libc.Reverse.{finish-back, finish-nul}
use so_tpe.Libc.Digits.{value, Stored, store_digits-Stored, Reads, string_at-Reads, value_pos}

-- The text is the decimal digits of the number: 0 alone, or no more digits than the number needs.
pub record IsText (t : List ℕ) (v : ℕ) : Type 0 where
  pub digits : IsDecimal t
  pub stands : decimal t ≡ v
  pub no_zeros : (t ≡ b'0' ∷ []) ⊎ (10 ^ length t ≤ 10 * v)

-- the bytes of a number above 0, with what stands behind them before they are reversed
module _ (num : ℕ) (dest : ℕ → ℕ) (some_digits : 0 < num) (small : num < 2147483648) where
  abbrev count : ℕ
  count = (store_digits 10 num 0 dest).0

  abbrev stored : ℕ → ℕ
  stored = (store_digits 10 num 0 dest).1

  all_stored : Stored 10 num 0 dest (store_digits 10 num 0 dest)
  all_stored = store_digits-Stored 10 num 0 dest (λ j lt. absurd (omega arith)) small (omega arith)

  value_stored : value count stored ≡ num
  unfolding value
  value_stored = all_stored.stands ∙ omega arith

  some_stored : 0 < count
  unfolding value
  some_stored = value_pos count stored (subst (λ x. 0 < x) (sym value_stored) some_digits)

  tight_stored : 10 ^ count ≤ 10 * num
  tight_stored =
      let all : count - 0 ≡ count = omega arith in
      subst (λ n. 10 ^ n ≤ 10 * num) all (all_stored.tight some_digits)

  finish-Reads : Reads (string_at 12 0 (finish count stored)) count stored
  finish-Reads =
      string_at-Reads count 12 0 stored (finish count stored) (omega (arith, all_stored.most))
        (λ k lt. ap (finish count stored) (omega arith) ∙ finish-back count k stored lt)
        (ap (finish count stored) (omega arith) ∙ finish-nul count stored some_stored)
        all_stored.digits

  finish-IsText : IsText (string_at 12 0 (finish count stored)) num
  finish-IsText = record {
    digits = finish-Reads.digits;
    stands = finish-Reads.stands ∙ value_stored;
    no_zeros = inr (rw (finish-Reads.long) tight_stored);
  }

  -- with the sign, which is first when the bytes are reversed
  abbrev signed : ℕ → ℕ
  signed = finish (count + 1) (update stored count b'-')

  signed-Reads : Reads (string_at 11 1 signed) count stored
  signed-Reads =
      string_at-Reads count 11 1 stored signed (omega (arith, all_stored.most))
        (λ k lt.
          let other : (count - 1 - k == count) ≡ false = ground arith in
          finish-back (count + 1) (1 + k) (update stored count b'-') (omega arith)
          ∙ ap (update stored count b'-') {y = count - 1 - k} (omega arith)
          ∙ rw other refl)
        (ap signed (omega arith) ∙ finish-nul (count + 1) (update stored count b'-') (omega arith))
        all_stored.digits

  sign_first : signed 0 ≡ b'-'
  sign_first =
      let here : (count + 1 - 1 - 0 == count) ≡ true = ground arith in
      finish-back (count + 1) 0 (update stored count b'-') (omega arith) ∙ rw here refl

-- What `itoa` may leave: the digits of a number that is not negative, which `atoi` reads back; the sign
-- and the digits of one that is; and for the least number, -2^31, the sign alone.
pub data Shown (num : ℕ) (t : List ℕ) : Type 0 where
  plain : num < 2147483648 → IsText t num → atoi t ≡ num → Shown num t
  signed_text :
      (ds : List ℕ) → 2147483648 < num → t ≡ b'-' ∷ ds → IsText ds (4294967296 - num) → Shown num t
  sign_only : num ≡ 2147483648 → t ≡ b'-' ∷ [] → Shown num t

atoi-IsText : (t : List ℕ) (num : ℕ) → num < 2147483648 → IsText t num → atoi t ≡ num
atoi-IsText t num small x =
    ap atoi (sym (append-nil t))
    ∙ atoi-decimal t [] x.digits tt (omega (arith, x.stands))
    ∙ x.stands

signed-Shown :
    (num : ℕ) (dest : ℕ → ℕ) (pos : 0 < num) (small : num < 2147483648)
    → (string_at 12 0 (signed num dest pos small)
        ≡ b'-' ∷ string_at 11 1 (signed num dest pos small))
      × IsText (string_at 11 1 (signed num dest pos small)) num
unfolding string_at
signed-Shown num dest pos small =
    let first = sign_first num dest pos small in
    let r = signed-Reads num dest pos small in
    let e : (signed num dest pos small 0 == 0) ≡ false = ground (arith, first) in
    (
      rw (e, first, string_at) refl,
      record {
        digits = r.digits;
        stands = r.stands ∙ value_stored num dest pos small;
        no_zeros = inr (rw (r.long) (tight_stored num dest pos small));
      },
    )

zero-Shown : (dest : ℕ → ℕ) → IsText (string_at 12 0 (itoa 0 dest)) 0
unfolding itoa string_at decimal
zero-Shown dest = record {
  digits = (omega arith, omega arith, tt);
  stands = refl;
  no_zeros = inl refl;
}

least-Shown : (dest : ℕ → ℕ) → string_at 12 0 (itoa 2147483648 dest) ≡ b'-' ∷ []
unfolding itoa string_at store_digits reverse_loop
least-Shown dest = refl

plain-Shown :
    (num : ℕ) (dest : ℕ → ℕ) → num < 2147483648 → IsText (string_at 12 0 (itoa num dest)) num
unfolding itoa
plain-Shown num dest small = elim (Bool-cases (num == 0)) [
  | inl none_left ↦
      let e : 0 ≡ num = ground arith in
      subst (λ n. IsText (string_at 12 0 (itoa n dest)) n) e (zero-Shown dest)
  | inr some_left ↦
      let positive : is_negative num ≡ false = ground arith in
      rw (some_left, positive) (finish-IsText num dest (ground arith) small)
]

negative-Shown :
    (num : ℕ) (dest : ℕ → ℕ)
    → 2147483648 < num
    → num < 4294967296
    → Shown num (string_at 12 0 (itoa num dest))
unfolding itoa
negative-Shown num dest below word =
    let negative : is_negative num ≡ true = ground arith in
    let some_left : (num == 0) ≡ false = ground arith in
    let size : negate num ≡ 4294967296 - num = omega arith in
    let (text, x) = signed-Shown (4294967296 - num) dest (omega arith) (omega arith) in
    rw (some_left, negative, size) (signed_text _ below text x)

-- `itoa` of any int, into any array, leaves a string. For an int that is not negative it is the decimal
-- digits, with no zero in front of others, from which `atoi` reads the int back; for a negative one
-- above -2^31 it is the sign and the digits, in the same way; and for -2^31, whose negation is itself, it is the sign without a digit.
pub itoa-Shown :
    (num : ℕ) (dest : ℕ → ℕ) → num < 4294967296 → Shown num (string_at 12 0 (itoa num dest))
itoa-Shown num dest word = elim (Bool-cases (ltb num 2147483648)) [
  | inl small ↦
      let x = plain-Shown num dest (ground arith) in
      plain (ground arith) x (atoi-IsText _ num (ground arith) x)
  | inr large ↦ elim (Bool-cases (num == 2147483648)) [
    | inl least ↦
        let e : 2147483648 ≡ num = ground arith in
        sign_only (sym e)
          (subst (λ n. string_at 12 0 (itoa n dest) ≡ b'-' ∷ []) e (least-Shown dest))
    | inr below ↦ negative-Shown num dest (ground arith) word
  ]
]
