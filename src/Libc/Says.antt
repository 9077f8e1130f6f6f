-- ===== src/Libc/Says.antt =====
-- What `printf` writes, by the conversions of its format.
use so_tpe.Common.{
  ℕ, ◌+◌, ◌<◌, ◌≡◌, inl, inr, refl, ap, sym, ◌∙◌, subst, List, [], ◌∷◌, ◌++◌, ◌==◌, u32, length,
  arith, length-append, Bool-cases,
}
use so_tpe.Libc.{strlen}
use so_tpe.Libc.Print.{itoa, string_at}
use so_tpe.Libc.Itoa.{itoa-Shown}
use so_tpe.Libc.Expand.{print_loop-expand}
use so_tpe.Libc.Printf.{
  Arg, an_int, a_string, a_char, returned, Printed, Rest, print_int, print_string, print_char,
  convert, printf, expand,
}
use so_tpe.Libc.Meaning.{
  How, whole, stopped, misread, Says, ends, literally, decimal, string, char, breaks, breaks_end,
  misfits, ending, AreWords,
}

-- what is printed from here on, behind `ret` bytes
abbrev Meant : List ℕ → List Arg → ℕ → Printed → Type 0
Meant format args ret (o, e) =
    (how : How) × Says format args o how × (e ≡ ending how (ret + length o))

strlen_lem : (s : List ℕ) → strlen s ≡ u32 (length s)
unfolding strlen
strlen_lem [] = refl
strlen_lem (c ∷ s) = omega (arith, strlen_lem s)

ending_add :
    (how : How) (ret n : ℕ) (s o : List ℕ)
    → n ≡ u32 (ret + length s)
    → ending how (n + length o) ≡ ending how (ret + length (s ++ o))
ending_add whole ret n s o same = ap returned (omega (arith, same, length-append s o))
ending_add stopped ret n s o same = refl
ending_add misread ret n s o same = refl

module _ (format : List ℕ) (next : Rest)
    (h : (more : List Arg) (a : ℕ → ℕ) (r : ℕ)
      → r < 4294967296
      → AreWords more
      → Meant format more r (next more a r)) where
  print_int-Meant :
      (args : List Arg) (a : ℕ → ℕ) (ret : ℕ)
      → AreWords args
      → Meant (b'%' ∷ b'd' ∷ format) args ret (print_int next args a ret)
  print_int-Meant [] a ret w = (misread, misfits b'd' format [] (inl refl) (λ z. z), refl)
  print_int-Meant (an_int n ∷ args) a ret (word, w) =
      let t = string_at 12 0 (itoa n a) in
      let (how, says, e) = h args (itoa n a) (u32 (ret + strlen t)) (omega arith) w in
      (
        how,
        decimal n t format args _ how (itoa-Shown n a word) says,
        e ∙ ending_add how ret (u32 (ret + strlen t)) t _ (omega (arith, strlen_lem t)),
      )
  print_int-Meant (a_string s ∷ args) a ret w = (
    misread,
    misfits b'd' format (a_string s ∷ args) (inl refl) (λ z. absurd (omega (arith, z))),
    refl,
  )
  print_int-Meant (a_char c ∷ args) a ret w = (
    misread,
    misfits b'd' format (a_char c ∷ args) (inl refl) (λ z. absurd (omega (arith, z))),
    refl,
  )

  print_string-Meant :
      (args : List Arg) (a : ℕ → ℕ) (ret : ℕ)
      → AreWords args
      → Meant (b'%' ∷ b's' ∷ format) args ret (print_string next args a ret)
  print_string-Meant [] a ret w = (misread, misfits b's' format [] (inr (inl refl)) (λ z. z), refl)
  print_string-Meant (an_int n ∷ args) a ret w = (
    misread,
    misfits b's' format (an_int n ∷ args) (inr (inl refl)) (λ z. absurd (omega (arith, z))),
    refl,
  )
  print_string-Meant (a_string s ∷ args) a ret w =
      let (how, says, e) = h args a (u32 (ret + strlen s)) (omega arith) w in
      (
        how,
        string s format args _ how says,
        e ∙ ending_add how ret (u32 (ret + strlen s)) s _ (omega (arith, strlen_lem s)),
      )
  print_string-Meant (a_char c ∷ args) a ret w = (
    misread,
    misfits b's' format (a_char c ∷ args) (inr (inl refl)) (λ z. absurd (omega (arith, z))),
    refl,
  )

  print_char-Meant :
      (args : List Arg) (a : ℕ → ℕ) (ret : ℕ)
      → AreWords args
      → Meant (b'%' ∷ b'c' ∷ format) args ret (print_char next args a ret)
  print_char-Meant [] a ret w = (misread, misfits b'c' format [] (inr (inr refl)) (λ z. z), refl)
  print_char-Meant (an_int n ∷ args) a ret w = (
    misread,
    misfits b'c' format (an_int n ∷ args) (inr (inr refl)) (λ z. absurd (omega (arith, z))),
    refl,
  )
  print_char-Meant (a_string s ∷ args) a ret w = (
    misread,
    misfits b'c' format (a_string s ∷ args) (inr (inr refl)) (λ z. absurd (omega (arith, z))),
    refl,
  )
  print_char-Meant (a_char c ∷ args) a ret w =
      let (how, says, e) = h args a (u32 (ret + 1)) (omega arith) w in
      (how, char c format args _ how says, e ∙ ending_add how ret (u32 (ret + 1)) (c ∷ []) _ refl)

  convert-Meant :
      (d : ℕ) (args : List Arg) (a : ℕ → ℕ) (ret : ℕ)
      → AreWords args
      → Meant (b'%' ∷ d ∷ format) args ret (convert next d args a ret)
  unfolding convert
  convert-Meant d args a ret w = elim (Bool-cases (d == b'd')) [
    | inl e ↦
        let same : d ≡ b'd' = ground (arith, e) in
        rw e (
          subst (λ d. Meant (b'%' ∷ d ∷ format) args ret (print_int next args a ret)) (sym same)
            (print_int-Meant args a ret w))
    | inr no_int ↦ elim (Bool-cases (d == b's')) [
      | inl e ↦
          let same : d ≡ b's' = ground (arith, e) in
          rw (no_int, e)
            (subst (λ d. Meant (b'%' ∷ d ∷ format) args ret (print_string next args a ret))
              (sym same) (print_string-Meant args a ret w))
      | inr no_string ↦ elim (Bool-cases (d == b'c')) [
        | inl e ↦
            let same : d ≡ b'c' = ground (arith, e) in
            rw (no_int, no_string, e)
              (subst (λ d. Meant (b'%' ∷ d ∷ format) args ret (print_char next args a ret))
                (sym same) (print_char-Meant args a ret w))
        | inr no_char ↦
            rw (no_int, no_string, no_char)
              (
                stopped,
                breaks d format args (λ z. ground (arith, z, no_int, no_string, no_char)),
                refl,
              )
      ]
    ]
  ]

expand-Meant :
    (format : List ℕ) (args : List Arg) (a : ℕ → ℕ) (ret : ℕ)
    → ret < 4294967296
    → AreWords args
    → Meant format args ret (expand format args a ret)
unfolding expand
expand-Meant [] args a ret small w = (whole, ends args, ap returned (omega arith))
expand-Meant (c ∷ []) args a ret small w = elim (Bool-cases (c == b'%')) [
  | inl e ↦
      let same : b'%' ≡ c = ground (arith, e) in
      rw e (stopped, subst (λ c. Says (c ∷ []) args [] stopped) same (breaks_end args), refl)
  | inr e ↦ rw e (whole, literally c [] args [] whole (ground (arith, e)) (ends args), refl)
]
expand-Meant (c ∷ d ∷ format) args a ret small w = elim (Bool-cases (c == b'%')) [
  | inl e ↦
      let same : b'%' ≡ c = ground (arith, e) in
      rw e (
        subst (λ c. Meant (c ∷ d ∷ format) args ret (convert (expand format) d args a ret)) same
          (convert-Meant format (expand format)
            (λ more a' r lt w'. expand-Meant format more a' r lt w') d args a ret w))
  | inr e ↦
      let (how, says, left) = expand-Meant (d ∷ format) args a (u32 (ret + 1)) (omega arith) w in
      rw e (
        how,
        literally c (d ∷ format) args _ how (ground (arith, e)) says,
        left ∙ ending_add how ret (u32 (ret + 1)) (c ∷ []) _ refl,
      )
]

-- `printf` writes what the format says: each byte that is no `%` itself, and for `%d`, `%s` and `%c`
-- the decimal text of the next argument, which is the sign alone for -2^31, the string or the byte. It returns the number of the bytes
-- that it has written, in 32 bits, if it comes to the end of the format, and -1 if it stops at a `%`
-- that no conversion follows; and it may stop at a conversion whose argument is not there or of another
-- type, of which nothing is said. The ints among the arguments have 32 bits.
pub printf-Says :
    (format : List ℕ) (args : List Arg) (num_str : ℕ → ℕ)
    → AreWords args
    → let (o, e) = printf format args num_str in
      (how : How) × Says format args o how × (e ≡ ending how (length o))
unfolding printf
printf-Says format args num_str w =
    let (how, says, e) = expand-Meant format args num_str 0 (omega arith) w in
    rw (print_loop-expand (length format + 1) format args num_str 0 (omega arith) (omega arith))
      (how, says, e ∙ ap (ending how) (omega arith))
