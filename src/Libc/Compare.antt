-- ===== src/Libc/Compare.antt =====
-- `strcmp` decides whether two strings are equal.
use so_tpe.Common.{
  ℕ, ◌<◌, ◌≡◌, ◌↔◌, refl, ap₂, true, List, [], ◌∷◌, arith, ◌==◌, Bool-cases, inl, inr,
}
use so_tpe.Libc.{strcmp, difference}

-- Bytes other than the NUL.
abbrev pub IsString : List ℕ → Type 0
IsString [] = Unit
IsString (c ∷ s) = (0 < c) × (c < 256) × IsString s

difference-zero : (a b : ℕ) → a < 256 → b < 256 → difference a b ≡ 0 → a ≡ b
difference-zero a b ha hb e = ground arith

same : (s : List ℕ) → strcmp s s ≡ 0
unfolding strcmp
same [] = refl
same (a ∷ s) = let e : (a == a) ≡ true = ground arith in rw (e, strcmp) (same s)

equal : (s t : List ℕ) → IsString s → IsString t → strcmp s t ≡ 0 → s ≡ t
unfolding strcmp
equal [] [] hs ht e = refl
equal [] (b ∷ t) hs (hb, lb, ht) e = absurd (ground arith)
equal (a ∷ s) [] (ha, la, hs) ht e = absurd (ground arith)
equal (a ∷ s) (b ∷ t) (ha, la, hs) (hb, lb, ht) e = elim (Bool-cases (a == b)) [
  | inl h ↦ ap₂ (λ x l. x ∷ l) (ground arith) (equal s t hs ht (ground arith))
  | inr h ↦ absurd (ground (arith, difference-zero a b la lb))
]

-- `strcmp` returns 0 exactly for equal strings.
pub strcmp-zero : (s t : List ℕ) → IsString s → IsString t → (strcmp s t ≡ 0) ↔ (s ≡ t)
strcmp-zero s t hs ht = (equal s t hs ht, λ e. rw (← e) (same s))
