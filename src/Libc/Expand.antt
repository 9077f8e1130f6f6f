-- ===== src/Libc/Expand.antt =====
-- `printf` against the format read byte by byte.
use so_tpe.Common.{
  ℕ, zero, suc, ◌+◌, ◌≤◌, ◌<◌, ◌≡◌, inl, inr, refl, ap, sym, ◌∙◌, true, false, List, [], ◌∷◌, ◌==◌,
  u32, length, arith, Bool-cases,
}
use so_tpe.Libc.{strlen}
use so_tpe.Libc.Print.{itoa, string_at}
use so_tpe.Libc.Printf.{
  Arg, an_int, a_string, a_char, returned, put, Rest, print_int, print_string, print_char, convert,
  literal, print_loop, expand,
}

literal-long : (format : List ℕ) → length (literal format).1 ≤ length format
unfolding literal
literal-long [] = omega arith
literal-long (c ∷ format) = elim (Bool-cases (c == b'%')) [
  | inl e ↦ rw e (omega arith)
  | inr e ↦ rw e (omega (arith, literal-long format))
]

literal-percent :
    (c : ℕ) (format : List ℕ) → (c == b'%') ≡ true → literal (c ∷ format) ≡ ([], c ∷ format)
unfolding literal
literal-percent c format e = rw e refl

literal-stops :
    (format : List ℕ) (args : List Arg) (num_str : ℕ → ℕ) (ret : ℕ)
    → ret < 4294967296
    → literal format ≡ ([], format)
    → expand format args num_str ret
      ≡ put
          (literal format).0
          (expand (literal format).1 args num_str (u32 (ret + length (literal format).0)))
literal-stops format args num_str ret small e =
    let same : u32 (ret + 0) ≡ ret = omega arith in
    let run = ap (λ x. x.0) e in let rest = ap (λ x. x.1) e in rw (run, rest, same) refl

-- A run of literal bytes is printed as its bytes are.
expand-literal :
    (format : List ℕ) (args : List Arg) (num_str : ℕ → ℕ) (ret : ℕ)
    → ret < 4294967296
    → expand format args num_str ret
      ≡ put
          (literal format).0
          (expand (literal format).1 args num_str (u32 (ret + length (literal format).0)))
unfolding literal expand
expand-literal [] args num_str ret small = ap (λ r. ([], returned r)) (omega arith)
expand-literal (c ∷ []) args num_str ret small = elim (Bool-cases (c == b'%')) [
  | inl e ↦ literal-stops (c ∷ []) args num_str ret small (literal-percent c [] e)
  | inr e ↦ rw e refl
]
expand-literal (c ∷ d ∷ format) args num_str ret small = elim (Bool-cases (c == b'%')) [
  | inl e ↦ literal-stops (c ∷ d ∷ format) args num_str ret small (literal-percent c (d ∷ format) e)
  | inr e ↦ rw e (
      ap (put (c ∷ [])) (expand-literal (d ∷ format) args num_str (u32 (ret + 1)) (omega arith))
      ∙ ap
          (λ r. put (c ∷ (literal (d ∷ format)).0) (expand (literal (d ∷ format)).1 args num_str r))
          (omega arith))
]

module _ (next next' : Rest)
    (same : (more : List Arg) (a : ℕ → ℕ) (r : ℕ)
      → r < 4294967296
      → next more a r ≡ next' more a r) where
  print_int-cong :
      (args : List Arg) (a : ℕ → ℕ) (r : ℕ) → print_int next args a r ≡ print_int next' args a r
  print_int-cong [] a r = refl
  print_int-cong (an_int n ∷ args) a r =
      ap (put _) (same args (itoa n a) (u32 (r + strlen (string_at 12 0 (itoa n a)))) (omega arith))
  print_int-cong (a_string s ∷ args) a r = refl
  print_int-cong (a_char c ∷ args) a r = refl

  print_string-cong :
      (args : List Arg) (a : ℕ → ℕ) (r : ℕ)
      → print_string next args a r ≡ print_string next' args a r
  print_string-cong [] a r = refl
  print_string-cong (an_int n ∷ args) a r = refl
  print_string-cong (a_string s ∷ args) a r =
      ap (put s) (same args a (u32 (r + strlen s)) (omega arith))
  print_string-cong (a_char c ∷ args) a r = refl

  print_char-cong :
      (args : List Arg) (a : ℕ → ℕ) (r : ℕ) → print_char next args a r ≡ print_char next' args a r
  print_char-cong [] a r = refl
  print_char-cong (an_int n ∷ args) a r = refl
  print_char-cong (a_string s ∷ args) a r = refl
  print_char-cong (a_char c ∷ args) a r =
      ap (put (c ∷ [])) (same args a (u32 (r + 1)) (omega arith))

  convert-cong :
      (d : ℕ) (args : List Arg) (a : ℕ → ℕ) (r : ℕ)
      → convert next d args a r ≡ convert next' d args a r
  unfolding convert
  convert-cong d args a r =
      rw (print_int-cong args a r, print_string-cong args a r, print_char-cong args a r) refl

literal-shorter :
    (c : ℕ) (format : List ℕ)
    → (c == b'%') ≡ false
    → length (literal (c ∷ format)).1 ≤ length format
unfolding literal
literal-shorter c format e = rw e (literal-long format)

print_loop-percent :
    (n c : ℕ) (format : List ℕ) (args : List Arg) (num_str : ℕ → ℕ) (ret : ℕ)
    → (c == b'%') ≡ true
    → ((behind : List ℕ)
        → length behind < length format
        → (args : List Arg) (a : ℕ → ℕ) (r : ℕ) → r < 4294967296
        → print_loop n behind args a r ≡ expand behind args a r)
    → print_loop (suc n) (c ∷ format) args num_str ret ≡ expand (c ∷ format) args num_str ret
unfolding print_loop expand
print_loop-percent n c [] args num_str ret e below = rw e refl
print_loop-percent n c (d ∷ format) args num_str ret e below =
    rw (e, print_loop, expand)
      (convert-cong (print_loop n format) (expand format) (below format (omega arith)) d args
        num_str ret)

pub print_loop-expand :
    (n : ℕ) (format : List ℕ) (args : List Arg) (num_str : ℕ → ℕ) (ret : ℕ)
    → length format < n
    → ret < 4294967296
    → print_loop n format args num_str ret ≡ expand format args num_str ret
unfolding print_loop expand
print_loop-expand zero format args num_str ret more small = absurd (omega arith)
print_loop-expand (suc n) [] args num_str ret more small = refl
print_loop-expand (suc n) (c ∷ format) args num_str ret more small = elim (Bool-cases (c == b'%')) [
  | inl e ↦
      print_loop-percent n c format args num_str ret e (λ behind lt more_args a r fits.
        print_loop-expand n behind more_args a r (omega arith) fits)
  | inr e ↦
      let run = (literal (c ∷ format)).0 in
      let rest = (literal (c ∷ format)).1 in
      let shorter : length rest < n = omega (arith, literal-shorter c format e) in
      rw (e, print_loop)
        (ap (put run)
            (print_loop-expand n rest args num_str (u32 (ret + length run)) shorter (omega arith))
          ∙ sym (expand-literal (c ∷ format) args num_str ret small))
]
